-- ===== src/Webm/Write.antt =====
-- What `encode_webm_element` writes, element by element.
use webmetro.Base.{
  ℕ, ◌+◌, ◌≤◌, ◌≡◌, arith, List, [], ◌∷◌, ◌++◌, length, replicate, ok, none, le→ltb, append-nil,
}
use webmetro.Base.BigEndian.{be_bytes}
use webmetro.ByteOrder.{ByteOrder}
use webmetro.Io.{write_all, ◌>>◌}
use webmetro.Io.Append.{at_end, Appends, write_all-Appends, Appends-append}
use webmetro.Ebml.Varint.{value, eight_max, encode_varint}
use webmetro.Ebml.Varint.Encode.{varint_bytes, varint_size}
use webmetro.Ebml.Tag.{encode_tag_header}
use webmetro.Ebml.Tag.Write.{
  shortest, encode_varint-Appends, encode_tag_header-Appends, encode_tag_header_unknown-Appends,
  encode_bytes-Appends, encode_integer-Appends, encode_element-at_end,
}
use webmetro.Webm.{
  ebml_head_id, doc_type_id, segment_id, tracks_id, cluster_id, timecode_id, simple_block_id,
  SimpleBlock, WebmElement, ebml_head, void, segment, seek_head, info, cues, cluster, tracks,
  timecode, simple_block, unknown, block_header, encode_simple_block, encode_webm_element,
}

abbrev pub doc_type : List ℕ
doc_type = shortest doc_type_id ++ shortest 4 ++ (b'w' ∷ b'e' ∷ b'b' ∷ b'm' ∷ [])

abbrev pub block_bytes : SimpleBlock → List ℕ
block_bytes b =
    shortest simple_block_id
    ++ shortest (4 + length b.payload)
    ++ (shortest b.track ++ (be_bytes 2 b.timecode ++ be_bytes 1 b.flags ++ b.payload))

-- The form of each element; `SeekHead` and `Cues` have none.
abbrev pub webm_bytes : WebmElement → List ℕ
webm_bytes ebml_head = shortest ebml_head_id ++ varint_bytes 4 (length doc_type) ++ doc_type
webm_bytes segment = shortest segment_id ++ (0xff ∷ [])
webm_bytes (tracks bytes) = shortest tracks_id ++ shortest (length bytes) ++ bytes
webm_bytes cluster = shortest cluster_id ++ (0xff ∷ [])
webm_bytes (timecode t) = shortest timecode_id ++ shortest 8 ++ be_bytes 8 t
webm_bytes (simple_block b) = block_bytes b
webm_bytes _ = []

-- What can be written: known elements whose sizes fit a varint, and tracks up to 31.
abbrev pub IsEncodable : WebmElement → Type 0
IsEncodable void = ⊥
IsEncodable info = ⊥
IsEncodable (unknown _) = ⊥
IsEncodable (tracks bytes) = length bytes ≤ eight_max
IsEncodable (simple_block b) = (b.track ≤ 31) × (4 + length b.payload ≤ eight_max)
IsEncodable _ = Unit

module _ (order : ByteOrder) where
  open order use {put_i16_lem, put_u8_lem}

  block_header_lem : (t flags : ℕ) → block_header order t flags ≡ be_bytes 2 t ++ be_bytes 1 flags
  unfolding block_header be_bytes
  block_header_lem t flags =
      let zeros : List ℕ = replicate 3 0 in
      let last : List ℕ = replicate 1 0 in
      rw (put_i16_lem t zeros (omega arith), put_u8_lem flags last (omega arith))

  pub encode_simple_block-Appends :
      (b : SimpleBlock)
      → IsEncodable (simple_block b)
      → Appends (encode_simple_block order b) (block_bytes b)
  unfolding encode_simple_block
  encode_simple_block-Appends b (track_fits, size_fits) =
      let head : List ℕ = be_bytes 2 b.timecode ++ be_bytes 1 b.flags in
      rw (le→ltb 31 b.track track_fits, block_header_lem b.timecode b.flags)
        (Appends-append (encode_tag_header order simple_block_id (value (4 + length b.payload)))
          (encode_varint order (value b.track) >> (write_all head >> write_all b.payload))
          (shortest simple_block_id ++ shortest (4 + length b.payload))
          (shortest b.track ++ (head ++ b.payload))
          (encode_tag_header-Appends order simple_block_id (4 + length b.payload) (omega arith)
            size_fits)
          (Appends-append (encode_varint order (value b.track))
            (write_all head >> write_all b.payload) (shortest b.track) (head ++ b.payload)
            (encode_varint-Appends order b.track (omega arith))
            (Appends-append (write_all head) (write_all b.payload) head b.payload
              (write_all-Appends head) (write_all-Appends b.payload))))

  pub encode_webm_element-at_end :
      (e : WebmElement) (bs : List ℕ)
      → IsEncodable e
      → encode_webm_element order e (at_end bs) ≡ (ok tt, at_end (bs ++ webm_bytes e))
  unfolding encode_webm_element
  encode_webm_element-at_end ebml_head bs h =
      encode_element-at_end order ebml_head_id _ doc_type bs (omega arith)
        (unfold be_bytes varint_size in omega arith)
        (encode_bytes-Appends order doc_type_id (b'w' ∷ b'e' ∷ b'b' ∷ b'm' ∷ []) (omega arith)
          (omega arith))
  encode_webm_element-at_end segment bs h =
      encode_tag_header_unknown-Appends order segment_id (omega arith) none bs tt
  encode_webm_element-at_end seek_head bs h = rw append-nil
  encode_webm_element-at_end cues bs h = rw append-nil
  encode_webm_element-at_end (tracks bytes) bs h =
      encode_bytes-Appends order tracks_id bytes (omega arith) h none bs tt
  encode_webm_element-at_end cluster bs h =
      encode_tag_header_unknown-Appends order cluster_id (omega arith) none bs tt
  encode_webm_element-at_end (timecode t) bs h =
      encode_integer-Appends order timecode_id t (omega arith) none bs tt
  encode_webm_element-at_end (simple_block b) bs h = encode_simple_block-Appends b h none bs tt
  encode_webm_element-at_end void bs h = elim h [ ]
  encode_webm_element-at_end info bs h = elim h [ ]
  encode_webm_element-at_end (unknown x) bs h = elim h [ ]
