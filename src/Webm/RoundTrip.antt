-- ===== src/Webm/RoundTrip.antt =====
-- `decode_element` reads back what `encode_webm_element` wrote.
use webmetro.Base.{
  ℕ, suc, ◌+◌, ◌*◌, ◌/◌, ◌%◌, ◌^◌, ◌≤◌, ◌<◌, ◌≡◌, ◌∙◌, refl, arith, true, false, List, [], ◌∷◌,
  ◌++◌, length, All, ok, some, ltb, le→ltb, append_assoc, length-append, All-append,
}
use webmetro.Base.BigEndian.{be_bytes, be_value-be_bytes, be_bytes-IsByte, length-be_bytes}
use webmetro.ByteOrder.{ByteOrder}
use webmetro.Io.{new_vec}
use webmetro.Ebml.Varint.{EbmlError, value, eight_max, decode_varint}
use webmetro.Ebml.Varint as Varints
use webmetro.Ebml.Varint.Decode.{IsByte}
use webmetro.Ebml.Varint.Encode.{varint_size, varint_bytes, varint_size_bounds}
use webmetro.Ebml.Varint.RoundTrip.{decode_varint-shortest, decode_varint-varint_bytes}
use webmetro.Ebml.Tag.{decode_uint}
use webmetro.Ebml.Tag.Write.{shortest}
use webmetro.Ebml.Tag.Read.{shortest-IsByte, length-shortest}
use webmetro.Ebml.Element.{decode_element}
use webmetro.Ebml.Element.Read.{decode_element-wrapped, decode_element-unwrapped}
use webmetro.Webm.{
  ebml_head_id, segment_id, tracks_id, cluster_id, timecode_id, simple_block_id, doc_type_id,
  SimpleBlock, WebmElement, ebml_head, void, segment, seek_head, info, cues, cluster, tracks,
  timecode, simple_block, unknown, should_unwrap, map_timecode, decode, simple_block_at,
  decode_simple_block, webm, encode_webm_element,
}
use webmetro.Webm.Write.{doc_type, webm_bytes, IsEncodable, encode_webm_element-at_end}
use native.Mathlib.Nat.{mod-eq_of_lt}

-- The fields lie in the ranges of their Rust types, and the element is one that is written.
abbrev pub IsStorable : WebmElement → Type 0
IsStorable seek_head = ⊥
IsStorable cues = ⊥
IsStorable (tracks bytes) = IsEncodable (tracks bytes) × All IsByte bytes
IsStorable (timecode t) = t < 2 ^ 64
IsStorable (simple_block b) =
    IsEncodable (simple_block b) × (b.timecode < 2 ^ 16) × (b.flags < 256) × All IsByte b.payload
IsStorable e = IsEncodable e

IsStorable→IsEncodable : (e : WebmElement) → IsStorable e → IsEncodable e
IsStorable→IsEncodable (tracks bytes) h = h.0
IsStorable→IsEncodable (timecode t) h = tt
IsStorable→IsEncodable (simple_block b) h = h.0
IsStorable→IsEncodable ebml_head h = h
IsStorable→IsEncodable void h = h
IsStorable→IsEncodable segment h = h
IsStorable→IsEncodable seek_head h = elim h [ ]
IsStorable→IsEncodable info h = h
IsStorable→IsEncodable cues h = elim h [ ]
IsStorable→IsEncodable cluster h = h
IsStorable→IsEncodable (unknown x) h = h

pub bytes₃ :
    (a b c : List ℕ) → All IsByte a → All IsByte b → All IsByte c → All IsByte (a ++ b ++ c)
bytes₃ a b c ha hb hc = All-append IsByte (a ++ b) c (All-append IsByte a b ha hb) hc

decode_varint_unknown :
    (rest : List ℕ) → decode_varint (0xff ∷ rest) ≡ ok (some (Varints.unknown, 1))
unfolding decode_varint
decode_varint_unknown rest = ground arith

length-doc_type : length doc_type ≡ 7
unfolding be_bytes varint_size
length-doc_type = refl

pub doc_type-IsByte : All IsByte doc_type
doc_type-IsByte =
    bytes₃ (shortest doc_type_id) (shortest 4) (b'w' ∷ b'e' ∷ b'b' ∷ b'm' ∷ [])
      (shortest-IsByte doc_type_id) (shortest-IsByte 4) (omega arith)

doc_type_size :
    (rest : List ℕ)
    → All IsByte rest
    → decode_varint (varint_bytes 4 (length doc_type) ++ doc_type ++ rest)
      ≡ ok (some (value (length doc_type), length (varint_bytes 4 (length doc_type))))
doc_type_size rest k =
    let size : List ℕ = varint_bytes 4 (length doc_type) in
    let four : length size ≡ 4 = length-be_bytes 4 _ in
    rw (append_assoc size doc_type rest, four)
      (decode_varint-varint_bytes 4 (length doc_type) (doc_type ++ rest) (omega arith) (omega arith)
        (omega (arith, length-doc_type)) (All-append IsByte doc_type rest doc_type-IsByte k))

module _ (order : ByteOrder) where
  open order use {read_uint_lem, read_i16_lem}

  decode_uint-be_bytes : (t : ℕ) → t < 2 ^ 64 → decode_uint order (be_bytes 8 t) ≡ ok t
  unfolding decode_uint
  decode_uint-be_bytes t h =
      let eight : length (be_bytes 8 t) ≡ 8 = length-be_bytes 8 t in
      let read : order.read_uint (be_bytes 8 t) ≡ t =
        read_uint_lem (be_bytes 8 t) (omega arith) (omega arith)
        ∙ be_value-be_bytes 8 t
        ∙ mod-eq_of_lt h in
      rw (eight, read)

  unknown_size :
      (tag : ℕ) (e : WebmElement) (rest : List ℕ)
      → tag ≤ eight_max
      → All IsByte rest
      → should_unwrap tag ≡ true
      → decode order tag [] ≡ ok e
      → decode_element (webm order) (shortest tag ++ (0xff ∷ []) ++ rest)
        ≡ ok (some (e, length (shortest tag ++ (0xff ∷ []))))
  unknown_size tag e rest ht k w d =
      decode_element-unwrapped (webm order) tag Varints.unknown (0xff ∷ []) rest ht (omega arith)
        (omega arith, k) (decode_varint_unknown rest) w d

  shortest_size :
      (tag : ℕ) (body rest : List ℕ) (e : WebmElement)
      → tag ≤ eight_max
      → length body ≤ eight_max
      → All IsByte body
      → All IsByte rest
      → should_unwrap tag ≡ false
      → decode order tag body ≡ ok e
      → decode_element (webm order) (shortest tag ++ shortest (length body) ++ body ++ rest)
        ≡ ok (some (e, length (shortest tag ++ shortest (length body) ++ body)))
  shortest_size tag body rest e ht hb hbytes k w d =
      let size : List ℕ = shortest (length body) in
      let read : decode_varint (size ++ body ++ rest)
          ≡ ok (some (value (length body), length size)) =
        rw (append_assoc size body rest, length-shortest (length body))
          (decode_varint-shortest (length body) (body ++ rest) hb
            (All-append IsByte body rest hbytes k)) in
      decode_element-wrapped (webm order) tag size body rest ht
        (omega (arith, length-shortest (length body), varint_size_bounds (length body))) hb
        (bytes₃ size body rest (shortest-IsByte (length body)) hbytes k) read w d

  abbrev pub block_body : SimpleBlock → List ℕ
  block_body b = shortest b.track ++ (be_bytes 2 b.timecode ++ be_bytes 1 b.flags ++ b.payload)

  pub block_body-IsByte : (b : SimpleBlock) → All IsByte b.payload → All IsByte (block_body b)
  block_body-IsByte b h = All-append IsByte (shortest b.track) _ (shortest-IsByte b.track) (
      bytes₃ (be_bytes 2 b.timecode) (be_bytes 1 b.flags) b.payload (be_bytes-IsByte 2 b.timecode)
        (be_bytes-IsByte 1 b.flags) h)

  abbrev flat_tail : SimpleBlock → List ℕ
  flat_tail b =
      (b.timecode / 256 ^ 1 % 256)
      ∷ (b.timecode / 256 ^ 0 % 256)
      ∷ (b.flags / 256 ^ 0 % 256)
      ∷ b.payload

  block_tail :
      (b : SimpleBlock) → be_bytes 2 b.timecode ++ be_bytes 1 b.flags ++ b.payload ≡ flat_tail b
  unfolding be_bytes
  block_tail b = refl

  track_size : (track : ℕ) → track ≤ 31 → varint_size track ≡ 1
  unfolding varint_size
  track_size track h = ground arith

  length-block_body :
      (b : SimpleBlock) → b.track ≤ 31 → length (block_body b) ≡ 4 + length b.payload
  length-block_body b h =
      rw
        (
          length-append (shortest b.track) _,
          length-shortest b.track,
          track_size b.track h,
          block_tail b,
        )
        (omega arith)

  be_bytes_one : (v : ℕ) → be_bytes 1 v ≡ (v / 256 ^ 0 % 256) ∷ []
  unfolding be_bytes
  be_bytes_one v = refl

  -- Behind a track number of one byte: two bytes of timecode, one of flags, and the payload.
  simple_block_at-flat_tail :
      (b : SimpleBlock) (x : ℕ)
      → IsStorable (simple_block b)
      → simple_block_at order (x ∷ flat_tail b) (ok (some (value b.track, 1))) ≡ ok (simple_block b)
  unfolding simple_block_at
  simple_block_at-flat_tail b x h =
      let long : ltb (suc (suc (suc (suc (length b.payload))))) 4 ≡ false =
        le→ltb _ 4 (omega arith) in
      let time : (b.timecode / 256 % 256) * 256 + b.timecode / 1 % 256 ≡ b.timecode = omega arith in
      let flag : b.flags / 1 % 256 ≡ b.flags = omega arith in rw (long, read_i16_lem, time, flag)

  decode_simple_block-block_body :
      (b : SimpleBlock)
      → IsStorable (simple_block b)
      → decode_simple_block order (block_body b) ≡ ok (simple_block b)
  unfolding decode_simple_block
  decode_simple_block-block_body b h =
      let tail_bytes : All IsByte (flat_tail b) =
        (omega arith, (omega arith, (omega arith, h.3))) in
      let read : decode_varint (shortest b.track ++ flat_tail b)
          ≡ ok (some (value b.track, varint_size b.track)) =
        decode_varint-shortest b.track (flat_tail b) (omega arith) tail_bytes in
      rw (block_tail b, read, track_size b.track h.0.0, be_bytes_one)
        (simple_block_at-flat_tail b _ h)

  -- On a header of a known element `decode` gives the element back.
  pub decode_element-webm_bytes :
      (e : WebmElement) (rest : List ℕ)
      → IsStorable e
      → All IsByte rest
      → decode_element (webm order) (webm_bytes e ++ rest) ≡ ok (some (e, length (webm_bytes e)))
  unfolding decode should_unwrap
  decode_element-webm_bytes ebml_head rest h k =
      decode_element-wrapped (webm order) ebml_head_id (varint_bytes 4 (length doc_type)) doc_type
        rest (omega arith) (omega (arith, length-be_bytes 4 (128 ^ 4 + length doc_type)))
        (omega (arith, length-doc_type))
        (bytes₃ (varint_bytes 4 (length doc_type)) doc_type rest (be_bytes-IsByte 4 _)
          doc_type-IsByte k)
        (doc_type_size rest k) refl refl
  decode_element-webm_bytes segment rest h k =
      unknown_size segment_id segment rest (omega arith) k refl refl
  decode_element-webm_bytes cluster rest h k =
      unknown_size cluster_id cluster rest (omega arith) k refl refl
  decode_element-webm_bytes (tracks bytes) rest h k =
      shortest_size tracks_id bytes rest (tracks bytes) (omega arith) h.0 h.1 k refl refl
  decode_element-webm_bytes (timecode t) rest h k =
      let eight : length (be_bytes 8 t) ≡ 8 = length-be_bytes 8 t in
      rw eight at (
        shortest_size timecode_id (be_bytes 8 t) rest (timecode t) (omega arith) (omega arith)
          (be_bytes-IsByte 8 t) k refl
          (rw (decode_uint-be_bytes t h) (unfold map_timecode in refl)))
  decode_element-webm_bytes (simple_block b) rest h k = rw (length-block_body b h.0.0) at (
      shortest_size simple_block_id (block_body b) rest (simple_block b) (omega arith)
        (omega (arith, length-block_body b h.0.0)) (block_body-IsByte b h.3) k refl
        (decode_simple_block-block_body b h))
  decode_element-webm_bytes void rest h k = elim h [ ]
  decode_element-webm_bytes info rest h k = elim h [ ]
  decode_element-webm_bytes seek_head rest h k = elim h [ ]
  decode_element-webm_bytes cues rest h k = elim h [ ]
  decode_element-webm_bytes (unknown x) rest h k = elim h [ ]

  -- Whatever `encode_webm_element` is given within the ranges of the Rust types and of a varint (a
  -- track of at most 31; no `Void`, `Info`, `Unknown`, which it refuses, and no `SeekHead` or
  -- `Cues`, for which it writes nothing), it succeeds, and `decode_element` reads the same element
  -- back from its output, followed by any bytes, with the length of the output.
  pub decode_element-encode_webm_element :
      (e : WebmElement) (rest : List ℕ)
      → IsStorable e
      → All IsByte rest
      → let (r, c) = encode_webm_element order e new_vec in
        (r ≡ ok tt)
        × (decode_element (webm order) (c.bytes ++ rest) ≡ ok (some (e, length c.bytes)))
  decode_element-encode_webm_element e rest h k =
      rw (encode_webm_element-at_end order e [] (IsStorable→IsEncodable e h))
        (refl, decode_element-webm_bytes e rest h k)
