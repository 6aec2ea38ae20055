-- ===== src/Chunk/Documents.antt =====
-- Sequences of WebM elements that form documents: a header, and clusters.
use webmetro.Base.{ℕ, List, [], ◌∷◌, ◌++◌, All}
use webmetro.Webm.{WebmElement, ebml_head, void, segment, info, cluster, timecode, unknown}
use webmetro.Webm.Write.{webm_bytes, IsEncodable}

-- What may stand in a header and in a cluster, where it can be written or is left out.
abbrev pub IsHeaderElement : WebmElement → Type 0
IsHeaderElement cluster = ⊥
IsHeaderElement void = Unit
IsHeaderElement info = Unit
IsHeaderElement (unknown _) = Unit
IsHeaderElement e = IsEncodable e

abbrev pub IsBodyElement : WebmElement → Type 0
IsBodyElement cluster = ⊥
IsBodyElement ebml_head = ⊥
IsBodyElement segment = ⊥
IsBodyElement void = Unit
IsBodyElement info = Unit
IsBodyElement (unknown _) = Unit
IsBodyElement e = IsEncodable e

abbrev pub IsOpening : WebmElement → Type 0
IsOpening ebml_head = Unit
IsOpening segment = Unit
IsOpening _ = ⊥

-- The timecode goes to the cluster's head, all else to its body.
abbrev pub body_bytes : List WebmElement → List ℕ
body_bytes [] = []
body_bytes (timecode t ∷ es) = body_bytes es
body_bytes (e ∷ es) = webm_bytes e ++ body_bytes es

-- A header from its opening element on, and one or more clusters.
pub record Document : Type 0 where
  pub opening : WebmElement
  pub header : List WebmElement
  pub first : List WebmElement
  pub others : List (List WebmElement)

pub record IsDocument (d : Document) : Type 0 where
  pub opens : IsOpening d.opening
  pub header_ok : All IsHeaderElement d.header
  pub first_ok : All IsBodyElement d.first
  pub others_ok : All (All IsBodyElement) d.others

abbrev pub clusters : List (List WebmElement) → List WebmElement → List WebmElement
clusters [] rest = rest
clusters (body ∷ more) rest = cluster ∷ (body ++ clusters more rest)

abbrev pub elements : List Document → List WebmElement
elements [] = []
elements (d ∷ ds) =
    d.opening ∷ (d.header ++ (cluster ∷ (d.first ++ clusters d.others (elements ds))))
