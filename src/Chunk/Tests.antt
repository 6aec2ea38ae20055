-- ===== src/Chunk/Tests.antt =====
-- The theorems on chunks at concrete inputs.
use webmetro.Base.{
  List, ℕ, suc, length, drop, some, Option, ◌≡◌, arith, refl, none, [], ◌∷◌, map, ok, true,
}
use webmetro.ByteOrder.Reference.{reference}
use webmetro.Buffers.Reference.{list_buffers}
use webmetro.Base.BigEndian.{be_value}
use webmetro.Ebml.Varint.{decode_varint, marker_loop, value_loop, finish_varint}
use webmetro.Ebml.Tag.{decode_tag, decode_id, decode_size, decode_uint}
use webmetro.Ebml.Element.{
  decode_element, decode_layout, decode_body, slice, check_space, check_tag, layout, payload_size,
}
use webmetro.StreamParser.{Arrival, chunk, later, parse_ebml}
use webmetro.StreamParser.Feed.{content, IsFeed}
use webmetro.Chunk.Limit.{IsCutShort, with_limits, chunk_all-IsCutShort}
use webmetro.Chunk.Chunker.{WebmChunker}
use webmetro.Chunk.Run.{chunk_all, grouped, chunk_all-grouped, chunk_all-chunks}
use webmetro.Io.{new_vec, new_array}
use webmetro.Webm.{
  webm, decode, should_unwrap, map_timecode, cluster, WebmElement, ebml_head, segment, void, tracks,
  timecode, simple_block,
}
use webmetro.StreamParser.Run.{finished, decode_all, decode_all-some, decode_all-none}
use webmetro.Chunk.{ClusterHead, write_head, observe_simpleblock_timecode}
use webmetro.Chunk.Head.{
  head_bytes, observed_end, write_head-new_array, observe_simpleblock_timecode-observed_end,
}
use webmetro.Chunk.Chunker.{chunk_webm, building_header}
use webmetro.Chunk.Documents.{Document, IsDocument, elements}
use webmetro.Chunk.Group.{chunks}

abbrev keyframe_block : WebmElement
keyframe_block =
    simple_block (record { track = 1; timecode = 20; flags = 0b10000000; payload = 7 ∷ 8 ∷ [] })

-- Two clusters, of which the second is empty, and a new header behind them.
abbrev first_document : Document
first_document = record {
  opening = ebml_head;
  header = segment ∷ void ∷ tracks (1 ∷ 2 ∷ []) ∷ [];
  first = timecode 1000 ∷ keyframe_block ∷ [];
  others = [] ∷ [];
}

abbrev second_document : Document
second_document = record { opening = segment; header = []; first = timecode 5 ∷ []; others = [] }

first_document-IsDocument : IsDocument first_document
first_document-IsDocument = record {
  opens = tt;
  header_ok = (tt, (tt, (omega arith, tt)));
  first_ok = (tt, ((omega arith, omega arith), tt));
  others_ok = (tt, tt);
}

second_document-IsDocument : IsDocument second_document
second_document-IsDocument = record {
  opens = tt;
  header_ok = tt;
  first_ok = (tt, tt);
  others_ok = tt;
}

write_head-new_array_example :
    write_head reference 1000 (new_array 15)
    ≡ (ok tt, record { bytes = head_bytes 1000; position = 15; fixed = true })
write_head-new_array_example = write_head-new_array reference 1000

abbrev some_head : ClusterHead
some_head = record { keyframe = true; start = 100; end = 140; bytes = [] }

-- A block 200 before a cluster that starts at 100: its time wraps to 2^64 - 100.
observe_simpleblock_timecode-observed_end_example :
    observe_simpleblock_timecode some_head 65336
    ≡ record some_head { end = observed_end some_head 65336 }
observe_simpleblock_timecode-observed_end_example =
    observe_simpleblock_timecode-observed_end some_head 65336 (omega arith) (omega arith)

wrapped_end : observed_end some_head 65336 ≡ 18446744073709551516
wrapped_end = refl

-- An empty EBML header, and a cluster with a timecode: in two pieces, with a wait.
abbrev pub small_feed : List Arrival
small_feed =
    chunk (0x1a ∷ 0x45 ∷ 0xdf ∷ 0xa3 ∷ 0x80 ∷ 0x1f ∷ 0x43 ∷ [])
    ∷ later
    ∷ chunk (0xb6 ∷ 0x75 ∷ 0xff ∷ 0xe7 ∷ 0x81 ∷ 5 ∷ [])
    ∷ []

abbrev pub small_document : Document
small_document = record { opening = ebml_head; header = []; first = timecode 5 ∷ []; others = [] }

abbrev Decodes : ℕ → Option (WebmElement × ℕ) → Type 0
Decodes n r = decode_element (webm reference) (drop n (content small_feed)) ≡ ok r

small-Decodes :
    Decodes 0 (some (ebml_head, 5))
    × Decodes 5 (some (cluster, 5))
    × Decodes 10 (some (timecode 5, 3))
    × Decodes 13 none
unfolding decode_element decode_layout decode_body slice check_space check_tag layout payload_size
    decode_tag decode_id decode_size decode_varint marker_loop value_loop finish_varint decode
    should_unwrap map_timecode decode_uint be_value
small-Decodes = (refl, refl, refl, refl)

pub small_decoded :
    decode_all (webm reference) 14 (content small_feed) ≡ (elements (small_document ∷ []), finished)
small_decoded = rw (
  decode_all-some (webm reference) 13 (content small_feed) small-Decodes.0,
  decode_all-some (webm reference) 12 (drop 5 (content small_feed)) small-Decodes.1,
  decode_all-some (webm reference) 11 (drop 10 (content small_feed)) small-Decodes.2,
  decode_all-none (webm reference) 10 (drop 13 (content small_feed)) small-Decodes.3,
)

pub small_feed-IsFeed : IsFeed small_feed
small_feed-IsFeed = (
  (
    omega arith,
    (omega arith, (omega arith, (omega arith, (omega arith, (omega arith, (omega arith, tt)))))),
  ),
  (
    (omega arith, (omega arith, (omega arith, (omega arith, (omega arith, (omega arith, tt)))))),
    tt,
  ),
)

chunk_all-grouped_example :
    chunk_all reference list_buffers 18
      (record (chunk_webm (parse_ebml small_feed)) { buffer_size_limit = some 4 })
    ≡ some (
        grouped reference list_buffers
          (suc (length (content small_feed)))
          (some 4)
          (building_header new_vec)
          (content small_feed))
chunk_all-grouped_example =
    chunk_all-grouped reference list_buffers small_feed (some 4) 18 small_feed-IsFeed (omega arith)

chunk_all-chunks_example :
    chunk_all reference list_buffers 18 (chunk_webm (parse_ebml small_feed))
    ≡ some (map ok (chunks reference list_buffers (small_document ∷ [])))
chunk_all-chunks_example =
    chunk_all-chunks reference list_buffers small_feed (small_document ∷ []) 18 small_feed-IsFeed
      (record { opens = tt; header_ok = tt; first_ok = (tt, tt); others_ok = tt }, tt) small_decoded
      (omega arith)

abbrev pub unlimited : WebmChunker
unlimited = record {
  source = record { stream = small_feed; buffer = []; buffer_size_limit = none; borrowed = [] };
  buffer_size_limit = none;
  state = building_header new_vec;
}

chunk_all-IsCutShort_example :
    IsCutShort reference list_buffers
      (chunk_all reference list_buffers 18 (with_limits reference list_buffers 6 4 unlimited))
      (chunk_all reference list_buffers 18 unlimited)
chunk_all-IsCutShort_example =
    chunk_all-IsCutShort reference list_buffers 6 4 18 unlimited (refl, refl)
