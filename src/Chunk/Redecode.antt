-- ===== src/Chunk/Redecode.antt =====
-- The bytes that chunks are sent as are again a stream of WebM elements.
use webmetro.Base.{
  append-nil, Bool, true, false, Bool-cases, inl, inr, if◌then◌else◌, ℕ, suc, zero, ◌≡◌, refl, none,
  some, List, [], ◌∷◌, ◌++◌, All,
}
use webmetro.Webm.{
  WebmElement, ebml_head, void, segment, seek_head, info, cues, cluster, tracks, timecode,
  simple_block, unknown,
}
use webmetro.Webm.Write.{webm_bytes}
use webmetro.Webm.RoundTrip.{IsStorable}
use webmetro.Webm.Stream.{written}
use webmetro.Chunk.{Chunk, headers, cluster_chunk, remaining_body, empty, chunk_next}
use webmetro.Chunk.Documents.{body_bytes}

-- The bytes of a chunk, and of many.
abbrev pub chunk_bytes : Chunk → List ℕ
chunk_bytes (headers bytes) = bytes
chunk_bytes (cluster_chunk head body) = head.bytes ++ body
chunk_bytes (remaining_body bytes) = bytes
chunk_bytes empty = []

unfoldable pub sent_bytes : List Chunk → List ℕ
sent_bytes [] = []
sent_bytes (c ∷ cs) = chunk_bytes c ++ sent_bytes cs

-- What `for buffer in chunk` visits: a chunk has at most two buffers.
unfoldable pub visited : ℕ → Chunk → List ℕ
visited zero c = []
visited (suc fuel) c =
    let (buffer, c') = chunk_next c in
    let rest = visited fuel c' in elim buffer [ none ↦ [] | some bytes ↦ bytes ++ rest ]

abbrev pub visited_all : List Chunk → List ℕ
visited_all [] = []
visited_all (c ∷ cs) = visited 3 c ++ visited_all cs

visited-chunk_bytes : (c : Chunk) → visited 3 c ≡ chunk_bytes c
unfolding visited chunk_next
visited-chunk_bytes (headers bytes) = rw append-nil
visited-chunk_bytes (cluster_chunk head body) = rw append-nil
visited-chunk_bytes (remaining_body bytes) = rw append-nil
visited-chunk_bytes empty = refl

pub visited_all-sent_bytes : (cs : List Chunk) → visited_all cs ≡ sent_bytes cs
unfolding sent_bytes
visited_all-sent_bytes [] = refl
visited_all-sent_bytes (c ∷ cs) = rw (visited-chunk_bytes c, visited_all-sent_bytes cs)

-- The elements that are written at all, and of these those in a cluster's body.
abbrev pub is_written : WebmElement → Bool
is_written void = false
is_written info = false
is_written (unknown _) = false
is_written seek_head = false
is_written cues = false
is_written _ = true

abbrev pub in_body : WebmElement → Bool
in_body (timecode t) = false
in_body e = is_written e

abbrev pub kept : (WebmElement → Bool) → List WebmElement → List WebmElement
kept test [] = []
kept test (e ∷ es) = if test e then e ∷ kept test es else kept test es

-- An element that is left out, or can be read back.
abbrev pub IsKept : WebmElement → Type 0
IsKept e = if is_written e then IsStorable e else Unit

written_element : (e : WebmElement) → is_written e ≡ false → webm_bytes e ≡ []
written_element void h = refl
written_element info h = refl
written_element seek_head h = refl
written_element cues h = refl
written_element (unknown x) h = refl
written_element ebml_head h = cc
written_element segment h = cc
written_element cluster h = cc
written_element (tracks x) h = cc
written_element (timecode x) h = cc
written_element (simple_block x) h = cc

pub written-kept : (es : List WebmElement) → written (kept is_written es) ≡ written es
written-kept [] = refl
written-kept (e ∷ es) = elim (Bool-cases (is_written e)) [
  | inl w ↦ rw (w, written-kept es)
  | inr w ↦ rw (w, written-kept es, written_element e w)
]

pub body_bytes-in_body :
    (e : WebmElement) (es : List WebmElement)
    → body_bytes (e ∷ es) ≡ (if in_body e then webm_bytes e ++ body_bytes es else body_bytes es)
body_bytes-in_body (timecode t) es = refl
body_bytes-in_body void es = refl
body_bytes-in_body info es = refl
body_bytes-in_body seek_head es = refl
body_bytes-in_body cues es = refl
body_bytes-in_body (unknown x) es = refl
body_bytes-in_body ebml_head es = refl
body_bytes-in_body segment es = refl
body_bytes-in_body cluster es = refl
body_bytes-in_body (tracks x) es = refl
body_bytes-in_body (simple_block x) es = refl

pub written-in_body : (es : List WebmElement) → written (kept in_body es) ≡ body_bytes es
written-in_body [] = refl
written-in_body (e ∷ es) = elim (Bool-cases (in_body e)) [
  | inl w ↦ rw (w, body_bytes-in_body e es, w, written-in_body es)
  | inr w ↦ rw (w, body_bytes-in_body e es, w, written-in_body es)
]

pub kept-IsStorable :
    (test : WebmElement → Bool) (es : List WebmElement)
    → ((e : WebmElement) → test e ≡ true → IsKept e → IsStorable e)
    → All IsKept es
    → All IsStorable (kept test es)
kept-IsStorable test [] f h = tt
kept-IsStorable test (e ∷ es) f (he, h) = elim (Bool-cases (test e)) [
  | inl w ↦ rw w (f e w he, kept-IsStorable test es f h)
  | inr w ↦ rw w (kept-IsStorable test es f h)
]
