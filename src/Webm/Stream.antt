-- ===== src/Webm/Stream.antt =====
-- Many elements written one after the other, and read back.
use webmetro.Base.{
  append_assoc, length-append, ◌≤◌, ℕ, suc, zero, ◌+◌, ◌<◌, ◌≡◌, refl, arith, none, List, [], ◌∷◌,
  ◌++◌, length, All, All-append, ok, drop-length_append,
}
use webmetro.Base.BigEndian.{be_bytes, be_bytes-IsByte}
use webmetro.ByteOrder.{ByteOrder}
use webmetro.Ebml.Varint.{decode_varint}
use webmetro.Ebml.Varint.Encode.{varint_bytes}
use webmetro.Ebml.Varint.Decode.{IsByte}
use webmetro.Ebml.Tag.{decode_tag, decode_id}
use webmetro.Ebml.Tag.Write.{shortest}
use webmetro.Ebml.Tag.Read.{shortest-IsByte}
use webmetro.Ebml.Element.{decode_element, decode_layout, check_space, check_tag}
use webmetro.Webm.{
  ebml_head_id, segment_id, tracks_id, cluster_id, timecode_id, simple_block_id, WebmElement,
  ebml_head, void, segment, seek_head, info, cues, cluster, tracks, timecode, simple_block, unknown,
  webm,
}
use webmetro.Webm.Write.{webm_bytes, doc_type}
use webmetro.Webm.RoundTrip.{
  IsStorable, decode_element-webm_bytes, bytes₃, doc_type-IsByte, block_body, block_body-IsByte,
}
use webmetro.StreamParser.Run.{
  remainder, remainder-some, remainder-none, decode_all, decode_all-some, decode_all-none,
  decode_element_bounds, finished,
}

abbrev pub written : List WebmElement → List ℕ
written [] = []
written (e ∷ es) = webm_bytes e ++ written es

pub written-append : (es fs : List WebmElement) → written (es ++ fs) ≡ written es ++ written fs
written-append [] fs = refl
written-append (e ∷ es) fs =
    rw (written-append es fs, append_assoc (webm_bytes e) (written es) (written fs))

module _ (order : ByteOrder) where
  no_element : decode_element (webm order) [] ≡ ok none
  unfolding decode_element check_space check_tag decode_tag decode_id decode_varint decode_layout
  no_element = refl

  webm_bytes-IsByte : (e : WebmElement) → IsStorable e → All IsByte (webm_bytes e)
  webm_bytes-IsByte ebml_head h =
      bytes₃ (shortest ebml_head_id) (varint_bytes 4 (length doc_type)) doc_type
        (shortest-IsByte ebml_head_id) (be_bytes-IsByte 4 _) doc_type-IsByte
  webm_bytes-IsByte segment h =
      All-append IsByte (shortest segment_id) (0xff ∷ []) (shortest-IsByte segment_id) (omega arith)
  webm_bytes-IsByte cluster h =
      All-append IsByte (shortest cluster_id) (0xff ∷ []) (shortest-IsByte cluster_id) (omega arith)
  webm_bytes-IsByte (tracks bytes) h =
      bytes₃ (shortest tracks_id) (shortest (length bytes)) bytes (shortest-IsByte tracks_id)
        (shortest-IsByte (length bytes)) h.1
  webm_bytes-IsByte (timecode t) h =
      bytes₃ (shortest timecode_id) (shortest 8) (be_bytes 8 t) (shortest-IsByte timecode_id)
        (shortest-IsByte 8) (be_bytes-IsByte 8 t)
  webm_bytes-IsByte (simple_block b) h =
      bytes₃ (shortest simple_block_id) (shortest (4 + length b.payload)) (block_body order b)
        (shortest-IsByte simple_block_id) (shortest-IsByte (4 + length b.payload))
        (block_body-IsByte order b h.3)
  webm_bytes-IsByte void h = tt
  webm_bytes-IsByte info h = tt
  webm_bytes-IsByte seek_head h = tt
  webm_bytes-IsByte cues h = tt
  webm_bytes-IsByte (unknown x) h = tt

  pub written-IsByte : (es : List WebmElement) → All IsStorable es → All IsByte (written es)
  written-IsByte [] h = tt
  written-IsByte (e ∷ es) (he, h) =
      All-append IsByte (webm_bytes e) (written es) (webm_bytes-IsByte e he) (written-IsByte es h)

  -- Storable elements that are written one after the other are read back as they were, with
  -- more fuel than elements.
  pub decode_all-written :
      (es : List WebmElement) (fuel : ℕ)
      → All IsStorable es
      → length es < fuel
      → decode_all (webm order) fuel (written es) ≡ (es, finished)
  decode_all-written es zero h enough = absurd (omega arith)
  decode_all-written [] (suc fuel) h enough = decode_all-none (webm order) fuel [] no_element
  decode_all-written (e ∷ es) (suc fuel) (he, h) enough =
      let rest = written es in
      rw
        (
          decode_all-some (webm order) fuel (webm_bytes e ++ rest)
              (decode_element-webm_bytes order e rest he (written-IsByte es h)),
          drop-length_append (webm_bytes e) rest,
          decode_all-written es fuel h (omega arith),
        )
        refl

  -- And no byte is left over.
  pub remainder-written :
      (es : List WebmElement) (fuel : ℕ)
      → All IsStorable es
      → length es < fuel
      → remainder (webm order) fuel (written es) ≡ []
  remainder-written es zero h enough = absurd (omega arith)
  remainder-written [] (suc fuel) h enough = remainder-none (webm order) fuel [] no_element
  remainder-written (e ∷ es) (suc fuel) (he, h) enough =
      let rest = written es in
      rw
        (
          remainder-some (webm order) fuel (webm_bytes e ++ rest)
              (decode_element-webm_bytes order e rest he (written-IsByte es h)),
          drop-length_append (webm_bytes e) rest,
        )
        (remainder-written es fuel h (omega arith))

  pub length-written : (es : List WebmElement) → All IsStorable es → length es ≤ length (written es)
  length-written [] h = omega arith
  length-written (e ∷ es) (he, h) =
      let bytes = webm_bytes e ++ written es in
      let long =
        decode_element_bounds (webm order) bytes (written-IsByte (e ∷ es) (he, h))
          (decode_element-webm_bytes order e (written es) he (written-IsByte es h)) in
      omega (arith, long.0, length-written es h, length-append (webm_bytes e) (written es))
