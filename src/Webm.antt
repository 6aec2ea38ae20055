-- ===== src/Webm.antt =====
-- src/webm.rs: the WebM elements that the server knows, decoded and encoded.
pub mod Write
pub mod RoundTrip
pub mod Stream
pub mod Typed
mod Tests
use webmetro.Base.{
  ℕ, ◌+◌, Bool, true, false, Option, none, some, List, [], ◌∷◌, ◌++◌, length, take, drop, get_or,
  replicate, ltb, ◌==◌, if◌then◌else◌, Result, ok, err,
}
use webmetro.ByteOrder.{ByteOrder}
use webmetro.Io.{IoResult, out_of_range, pure, raise, ◌>>=◌, ◌>>◌, write_all}
use webmetro.Ebml.Varint.{EbmlError, corrupt_payload, Varint, value, decode_varint, encode_varint}
use webmetro.Ebml.Tag.{decode_uint, encode_element, encode_tag_header, encode_bytes, encode_integer}
use webmetro.Ebml.Element.{FromEbml}

abbrev pub ebml_head_id : ℕ
ebml_head_id = 0x0A45DFA3

abbrev pub doc_type_id : ℕ
doc_type_id = 0x0282

abbrev pub void_id : ℕ
void_id = 0x6C

abbrev pub segment_id : ℕ
segment_id = 0x08538067

abbrev pub seek_head_id : ℕ
seek_head_id = 0x014D9B74

abbrev pub segment_info_id : ℕ
segment_info_id = 0x0549A966

abbrev pub cues_id : ℕ
cues_id = 0x0C53BB6B

abbrev pub tracks_id : ℕ
tracks_id = 0x0654AE6B

abbrev pub cluster_id : ℕ
cluster_id = 0x0F43B675

abbrev pub timecode_id : ℕ
timecode_id = 0x67

abbrev pub simple_block_id : ℕ
simple_block_id = 0x23

-- `timecode` is the bit pattern of an `i16`; `payload` is the field `data`.
pub record SimpleBlock : Type 0 where
  pub track : ℕ
  pub timecode : ℕ
  pub flags : ℕ
  pub payload : List ℕ

pub data WebmElement : Type 0 where
  ebml_head void segment seek_head info cues cluster : WebmElement
  tracks : List ℕ → WebmElement
  timecode : ℕ → WebmElement
  simple_block : SimpleBlock → WebmElement
  unknown : ℕ → WebmElement

unfoldable pub should_unwrap : ℕ → Bool
should_unwrap element_id =
    if element_id == segment_id then true else if element_id == cluster_id then true else false

unfoldable pub map_timecode : Result EbmlError ℕ → Result EbmlError WebmElement
map_timecode (ok t) = ok (timecode t)
map_timecode (err e) = err e

module _ (order : ByteOrder) where
  open order use {read_i16, put_i16, put_u8}

  unfoldable pub simple_block_at :
      List ℕ → Result EbmlError (Option (Varint × ℕ)) → Result EbmlError WebmElement
  simple_block_at bytes (ok (some (value track, track_field_len))) =
      let header_len = track_field_len + 2 + 1 in
      if ltb (length bytes) header_len
      then err corrupt_payload
      else ok (
          simple_block (record {
            track = track;
            timecode = read_i16 (drop track_field_len bytes);
            flags = get_or bytes (track_field_len + 2) 0;
            payload = drop header_len bytes;
          }))
  simple_block_at bytes _ = err corrupt_payload

  unfoldable pub decode_simple_block : List ℕ → Result EbmlError WebmElement
  decode_simple_block bytes = simple_block_at bytes (decode_varint bytes)

  unfoldable pub decode : ℕ → List ℕ → Result EbmlError WebmElement
  decode element_id bytes =
      if element_id == ebml_head_id
      then ok ebml_head
      else if element_id == void_id
      then ok void
      else if element_id == segment_id
      then ok segment
      else if element_id == seek_head_id
      then ok seek_head
      else if element_id == segment_info_id
      then ok info
      else if element_id == cues_id
      then ok cues
      else if element_id == tracks_id
      then ok (tracks bytes)
      else if element_id == cluster_id
      then ok cluster
      else if element_id == timecode_id
      then map_timecode (decode_uint order bytes)
      else if element_id == simple_block_id
      then decode_simple_block bytes
      else ok (unknown element_id)

  -- `impl FromEbml for WebmElement`
  abbrev pub webm : FromEbml WebmElement
  webm = record { should_unwrap = should_unwrap; decode = decode }

  -- The three bytes behind the track number: each `put` moves the cursor on.
  unfoldable pub block_header : ℕ → ℕ → List ℕ
  block_header t flags =
      let buffer = put_i16 t (replicate 3 0) in take 2 buffer ++ put_u8 flags (drop 2 buffer)

  unfoldable pub encode_simple_block : SimpleBlock → IoResult (Unit {0})
  encode_simple_block block = if ltb 31 block.track then raise out_of_range else (do
    encode_tag_header order simple_block_id (value (1 + 2 + 1 + length block.payload))
    encode_varint order (value block.track)
    write_all (block_header block.timecode block.flags)
    write_all block.payload)

  unfoldable pub encode_webm_element : WebmElement → IoResult (Unit {0})
  encode_webm_element ebml_head =
      encode_element order ebml_head_id
        (encode_bytes order doc_type_id (b'w' ∷ b'e' ∷ b'b' ∷ b'm' ∷ []))
  encode_webm_element segment = encode_tag_header order segment_id Varint.unknown
  encode_webm_element seek_head = pure tt
  encode_webm_element cues = pure tt
  encode_webm_element (tracks bytes) = encode_bytes order tracks_id bytes
  encode_webm_element cluster = encode_tag_header order cluster_id Varint.unknown
  encode_webm_element (timecode time) = encode_integer order timecode_id time
  encode_webm_element (simple_block block) = encode_simple_block block
  encode_webm_element void = raise out_of_range
  encode_webm_element info = raise out_of_range
  encode_webm_element (unknown _) = raise out_of_range
