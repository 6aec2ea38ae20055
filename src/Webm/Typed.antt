-- ===== src/Webm/Typed.antt =====
-- What decoding gives lies in the ranges of the Rust types of the fields.
use webmetro.Base.{
  ℕ, zero, suc, ◌+◌, ◌^◌, ◌||◌, ◌≤◌, ◌<◌, ◌≡◌, refl, arith, Bool, true, false, Option, none, some,
  List, [], ◌∷◌, length, take, drop, get_or, All, All-take, All-drop, length-drop, ltb, ◌==◌,
  if◌then◌else◌, Bool-cases, inl, inr, Result, ok, err, Decoded-cases,
}
use native.Mathlib.Nat.{pow-le-pow_right}
use webmetro.Base.BigEndian.{be_value-lt}
use webmetro.ByteOrder.{ByteOrder}
use webmetro.Ebml.Varint.{EbmlError, Varint, value, unknown, decode_varint}
use webmetro.Ebml.Varint.Decode.{IsByte}
use webmetro.Ebml.Tag.{decode_uint, decode_tag, decode_id, decode_size}
use webmetro.Ebml.Element.{
  EbmlLayout, slice, layout, payload_size, check_tag, check_space, decode_body, decode_layout,
  decode_element,
}
use webmetro.Ebml.Element.Bounds.{decode_varint-lt}
use webmetro.Webm.{
  SimpleBlock, WebmElement, ebml_head, void, segment, seek_head, info, cues, cluster, tracks,
  timecode, simple_block, ebml_head_id, void_id, segment_id, seek_head_id, segment_info_id, cues_id,
  tracks_id, cluster_id, timecode_id, simple_block_id, should_unwrap, map_timecode, simple_block_at,
  decode_simple_block, decode, webm,
}
use webmetro.Webm as Elements

-- The fields lie in the ranges of their types; a number from a varint has at most 56 bits.
abbrev pub IsTyped : WebmElement → Type 0
IsTyped (tracks bytes) = All IsByte bytes
IsTyped (timecode t) = t < 2 ^ 64
IsTyped (simple_block b) =
    (b.track < 2 ^ 56) × (b.timecode < 2 ^ 16) × (b.flags < 256) × All IsByte b.payload
IsTyped (Elements.unknown id) = id < 2 ^ 56
IsTyped e = Unit

abbrev GivesTyped : Result EbmlError WebmElement → Type 0
GivesTyped (ok e) = IsTyped e
GivesTyped (err x) = Unit

GivesTyped-if :
    (b : Bool) (x y : Result EbmlError WebmElement)
    → GivesTyped x
    → GivesTyped y
    → GivesTyped (if b then x else y)
GivesTyped-if true x y hx hy = hx
GivesTyped-if false x y hx hy = hy

pow_256_le : (n : ℕ) → n ≤ 8 → 256 ^ n ≤ 2 ^ 64
pow_256_le n h = pow-le-pow_right {n = 256} (omega arith) h

get_or-IsByte : (bs : List ℕ) (n : ℕ) → All IsByte bs → get_or bs n 0 < 256
get_or-IsByte [] n h = omega arith
get_or-IsByte (b ∷ bs) zero h = h.0
get_or-IsByte (b ∷ bs) (suc n) h = get_or-IsByte bs n h.1

decode_size_id :
    (i m : ℕ) (r : Result EbmlError (Option (Varint × ℕ))) {id n : ℕ} {size : Varint}
    → decode_size i m r ≡ ok (some (id, size, n))
    → i ≡ id
unfolding decode_size
decode_size_id i m (ok none) e = cc
decode_size_id i m (err x) e = cc
decode_size_id i m (ok (some (s, k))) e = ground arith

decode_tag_id :
    (bs : List ℕ) {id n : ℕ} {size : Varint}
    → All IsByte bs
    → decode_tag bs ≡ ok (some (id, size, n))
    → id < 2 ^ 56
unfolding decode_tag decode_id
decode_tag_id bs {id} h e = elim (Decoded-cases (decode_varint bs)) [
  | inl x ↦ cc (rw x at e)
  | inr (inl (x, y)) ↦ cc (rw y at e)
  | inr (inr ((unknown, m), y)) ↦ cc (rw y at e)
  | inr (inr ((value i, m), y)) ↦
      let same : i ≡ id = decode_size_id i m (decode_varint (drop m bs)) (rw y at e) in
      omega (arith, same, decode_varint-lt bs h y)
]

module _ (order : ByteOrder) where
  open order use {read_i16, read_i16_lem, read_uint, read_uint_lem}

  decode_uint-GivesTyped :
      (bs : List ℕ) → All IsByte bs → GivesTyped (map_timecode (decode_uint order bs))
  unfolding decode_uint map_timecode
  decode_uint-GivesTyped bs h = elim (Bool-cases (ltb (length bs) 1 || ltb 8 (length bs))) [
    | inl bad ↦ rw bad tt
    | inr good ↦
        let low : 1 ≤ length bs = ground arith in
        let high : length bs ≤ 8 = ground arith in
        let value_lt = be_value-lt bs h in
        let bound = pow_256_le (length bs) high in
        rw good (omega (arith, read_uint_lem bs low high, value_lt, bound))
  ]

  read_i16-lt : (bs : List ℕ) → 2 ≤ length bs → All IsByte bs → read_i16 bs < 2 ^ 16
  read_i16-lt [] long h = absurd (omega arith)
  read_i16-lt (hi ∷ []) long h = absurd (omega arith)
  read_i16-lt (hi ∷ lo ∷ bs) long h = omega (arith, read_i16_lem hi lo bs, h.0, h.1.0)

  decode_simple_block-GivesTyped :
      (bs : List ℕ) → All IsByte bs → GivesTyped (decode_simple_block order bs)
  unfolding decode_simple_block simple_block_at
  decode_simple_block-GivesTyped bs h = elim (Decoded-cases (decode_varint bs)) [
    | inl x ↦ rw x tt
    | inr (inl (x, y)) ↦ rw y tt
    | inr (inr ((unknown, m), y)) ↦ rw y tt
    | inr (inr ((value i, m), y)) ↦ rw y (elim (Bool-cases (ltb (length bs) (m + 2 + 1))) [
      | inl short ↦ rw short tt
      | inr long ↦
          let room : m + 2 + 1 ≤ length bs = ground arith in
          let field = All-drop IsByte m bs h in
          rw long (
            decode_varint-lt bs h y,
            read_i16-lt (drop m bs) (omega (arith, length-drop m bs)) field,
            get_or-IsByte bs (m + 2) h,
            All-drop IsByte (m + 2 + 1) bs h,
          )
    ])
  ]

  decode-GivesTyped :
      (id : ℕ) (bs : List ℕ) → id < 2 ^ 56 → All IsByte bs → GivesTyped (decode order id bs)
  unfolding decode
  decode-GivesTyped id bs small h = GivesTyped-if (id == ebml_head_id) _ _ tt (
      GivesTyped-if (id == void_id) _ _ tt (
        GivesTyped-if (id == segment_id) _ _ tt (
          GivesTyped-if (id == seek_head_id) _ _ tt (
            GivesTyped-if (id == segment_info_id) _ _ tt (
              GivesTyped-if (id == cues_id) _ _ tt (
                GivesTyped-if (id == tracks_id) _ _ h (
                  GivesTyped-if (id == cluster_id) _ _ tt (
                    GivesTyped-if (id == timecode_id) _ _ (decode_uint-GivesTyped bs h) (
                      GivesTyped-if (id == simple_block_id) _ _
                        (decode_simple_block-GivesTyped bs h) small)))))))))

  layout_id :
      (bs : List ℕ) (id offset : ℕ) (size : Result EbmlError ℕ) {info : EbmlLayout}
      → layout bs id offset size ≡ ok (some info)
      → info.element_id ≡ id
  unfolding layout
  layout_id bs id offset (err x) e = cc
  layout_id bs id offset (ok k) e = ground arith

  check_tag_id :
      (bs : List ℕ) (r : Result EbmlError (Option (ℕ × Varint × ℕ))) {info : EbmlLayout}
      → ((id n : ℕ) (size : Varint) → r ≡ ok (some (id, size, n)) → id < 2 ^ 56)
      → check_tag (webm order) bs r ≡ ok (some info)
      → info.element_id < 2 ^ 56
  unfolding check_tag
  check_tag_id bs (ok none) h e = cc
  check_tag_id bs (err x) h e = cc
  check_tag_id bs (ok (some (id, size, n))) h e =
      rw (layout_id bs id n (payload_size (should_unwrap id) size) e) (h id n size refl)

  decode_body-IsTyped :
      (n : ℕ) (r : Result EbmlError WebmElement) {x : WebmElement} {m : ℕ}
      → GivesTyped r
      → decode_body (webm order) n r ≡ ok (some (x, m))
      → IsTyped x
  unfolding decode_body
  decode_body-IsTyped n (err y) h e = cc
  decode_body-IsTyped n (ok y) {x} h e = let same : y ≡ x = ground arith in rw (← same) h

  -- What is decoded from bytes is in the ranges of its types.
  pub decode_element-IsTyped :
      (bs : List ℕ) {x : WebmElement} {n : ℕ}
      → All IsByte bs
      → decode_element (webm order) bs ≡ ok (some (x, n))
      → IsTyped x
  unfolding decode_element decode_layout
  decode_element-IsTyped bs {x} {n} h e = elim (Decoded-cases (check_space (webm order) bs)) [
    | inl y ↦ cc (rw y at e)
    | inr (inl (z, y)) ↦ cc (rw y at e)
    | inr (inr (found, y)) ↦
        let small : found.element_id < 2 ^ 56 =
          unfold check_space in
          check_tag_id bs (decode_tag bs) (λ id m size p. decode_tag_id bs h p) y in
        let body = slice found.body_offset found.element_len bs in
        let typed : All IsByte body =
          unfold slice in
          All-drop IsByte found.body_offset (take found.element_len bs)
            (All-take IsByte found.element_len bs h) in
        decode_body-IsTyped found.element_len (decode order found.element_id body)
          (decode-GivesTyped found.element_id body small typed) (rw y at e)
  ]
