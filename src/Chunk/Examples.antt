-- ===== src/Chunk/Examples.antt =====
-- The theorems on sent chunks at concrete inputs.
use webmetro.Base.{arith, List, [], ◌∷◌, map, All}
use webmetro.ByteOrder.Reference.{reference}
use webmetro.Buffers.Reference.{list_buffers}
use webmetro.Webm.{WebmElement, ebml_head, segment, void, tracks, timecode, simple_block}
use webmetro.Webm.Stream.{written}
use webmetro.Chunk.{Chunk}
use webmetro.StreamParser.{Arrival, chunk, later}
use webmetro.Chunk.Documents.{Document, IsDocument, elements}
use webmetro.Chunk.Normal.{normal, IsReadable}

abbrev keyframe_block : WebmElement
keyframe_block =
    simple_block (record { track = 1; timecode = 20; flags = 0b10000000; payload = 7 ∷ 8 ∷ [] })

-- A header with a `Void`, a cluster with a block, and an empty cluster.
abbrev pub documents : List Document
documents =
    record {
      opening = ebml_head;
      header = segment ∷ void ∷ tracks (1 ∷ 2 ∷ []) ∷ [];
      first = timecode 1000 ∷ void ∷ keyframe_block ∷ [];
      others = (timecode 2000 ∷ []) ∷ [];
    }
    ∷ []

pub documents-IsReadable : All (IsReadable reference list_buffers) documents
documents-IsReadable = (
  record {
    opening_kept = omega arith;
    header_kept = omega arith;
    first_kept = omega arith;
    others_kept = omega arith;
  },
  tt,
)

pub documents-IsDocument : All IsDocument documents
documents-IsDocument = (
  record { opens = tt; header_ok = omega arith; first_ok = omega arith; others_ok = omega arith },
  tt,
)

abbrev pub resent : List WebmElement
resent = elements (map (normal reference list_buffers) documents)

abbrev pub resent_feed : List Arrival
resent_feed = later ∷ chunk (written resent) ∷ []
