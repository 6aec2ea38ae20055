-- ===== src/Ebml/Element/Prefix.antt =====
-- Decoding looks at no byte behind the element: what is decided stays decided when more arrives.
use webmetro.Base.{
  ℕ, ◌+◌, ◌≤◌, ◌≡◌, ◌∙◌, sym, refl, inl, inr, Bool-cases, arith, List, [], ◌∷◌, ◌++◌, length, drop,
  All, Result, ok, err, none, some, Option, ltb, le→ltb, length-append, Decoded-cases, ltb_false→le,
  ◌%◌, ◌^◌, take-append_le, drop-append_le, All-append, All-drop, ◌==◌, false,
}
use webmetro.Ebml.Varint.{EbmlError, Varint, value, unknown, decode_varint}
use webmetro.Ebml.Varint.Decode.{IsByte, size_of, read_varint, decode_varint-read_varint}
use webmetro.Ebml.Tag.{decode_tag, decode_id, decode_size}
use webmetro.Ebml.Element.{
  EbmlLayout, FromEbml, slice, layout, check_tag, check_space, decode_layout, decode_element,
}

-- A verdict: an error or a result, and not the call for more bytes.
abbrev pub Decided {ℓ κ} : {E : Type ℓ} {A : Type κ} → Result E (Option A) → Type 0
Decided (ok none) = ⊥
Decided (ok (some a)) = Unit
Decided (err e) = Unit

read_varint-append :
    (bs more : List ℕ) → Decided (read_varint bs) → read_varint (bs ++ more) ≡ read_varint bs
read_varint-append [] more d = elim d [ ]
read_varint-append (b ∷ bs) more d = elim (Bool-cases (size_of b == 9)) [
  | inl corrupt ↦ rw corrupt
  | inr sound ↦ elim (Bool-cases (ltb (length (b ∷ bs)) (size_of b))) [
    | inl short ↦ absurd (rw (sound, short) at d)
    | inr long ↦
        let there : size_of b ≤ length (b ∷ bs) = ground arith in
        let still : ltb (length (b ∷ (bs ++ more))) (size_of b) ≡ false =
          le→ltb _ _ (omega (arith, length-append bs more)) in
        rw (sound, long, still, take-append_le (size_of b) (b ∷ bs) more there)
  ]
]

pub decode_varint-append :
    (bs more : List ℕ)
    → All IsByte bs
    → All IsByte more
    → Decided (decode_varint bs)
    → decode_varint (bs ++ more) ≡ decode_varint bs
decode_varint-append bs more h k d =
    let e = decode_varint-read_varint bs h in
    decode_varint-read_varint (bs ++ more) (All-append IsByte bs more h k)
    ∙ read_varint-append bs more (rw e at d)
    ∙ sym e

-- A varint takes 1 to 8 bytes, and they are there.
pub decode_varint_bounds :
    (bs : List ℕ) {v : Varint} {n : ℕ}
    → All IsByte bs
    → decode_varint bs ≡ ok (some (v, n))
    → (1 ≤ n) × (n ≤ 8) × (n ≤ length bs)
decode_varint_bounds [] h e = unfold decode_varint in cc
decode_varint_bounds (b ∷ bs) h e =
    let read : read_varint (b ∷ bs) ≡ ok (some (_, _)) =
      sym (decode_varint-read_varint (b ∷ bs) h) ∙ e in
    ground arith

Decided-decode_size :
    (element_id n : ℕ) (r : Result EbmlError (Option (Varint × ℕ)))
    → Decided (decode_size element_id n r)
    → Decided r
unfolding decode_size
Decided-decode_size element_id n (ok none) d = d
Decided-decode_size element_id n (ok (some x)) d = tt
Decided-decode_size element_id n (err e) d = tt

decode_tag-append :
    (bs more : List ℕ)
    → All IsByte bs
    → All IsByte more
    → Decided (decode_tag bs)
    → decode_tag (bs ++ more) ≡ decode_tag bs
unfolding decode_tag decode_id
decode_tag-append bs more h k d = elim (Decoded-cases (decode_varint bs)) [
  | inl e ↦ absurd (rw e at d)
  | inr (inl (x, e)) ↦ rw (decode_varint-append bs more h k (rw e tt), e)
  | inr (inr ((unknown, n), e)) ↦ rw (decode_varint-append bs more h k (rw e tt), e)
  | inr (inr ((value id, n), e)) ↦
      let cut : drop n (bs ++ more) ≡ drop n bs ++ more =
        drop-append_le n bs more (decode_varint_bounds bs h e).2 in
      let d' : Decided (decode_varint (drop n bs)) = Decided-decode_size id n _ (rw e at d) in
      rw (
        decode_varint-append bs more h k (rw e tt),
        e,
        cut,
        decode_varint-append (drop n bs) more (All-drop IsByte n bs h) k d',
      )
]

layout-append :
    (bs more : List ℕ) (element_id body_offset : ℕ) (size : Result EbmlError ℕ)
    → Decided (layout bs element_id body_offset size)
    → layout (bs ++ more) element_id body_offset size ≡ layout bs element_id body_offset size
unfolding layout
layout-append bs more element_id body_offset (err e) d = refl
layout-append bs more element_id body_offset (ok size) d =
    elim (Bool-cases (ltb (length bs) ((body_offset + size) % 2 ^ 64))) [
      | inl short ↦ absurd (rw short at d)
      | inr long ↦
          let still : ltb (length (bs ++ more)) ((body_offset + size) % 2 ^ 64) ≡ false =
            le→ltb _ _ (omega (arith, length-append bs more, ltb_false→le _ _ long)) in
          rw (long, still)
    ]

layout_le :
    (bs : List ℕ) (element_id body_offset : ℕ) (size : Result EbmlError ℕ) {info : EbmlLayout}
    → layout bs element_id body_offset size ≡ ok (some info)
    → info.element_len ≤ length bs
unfolding layout
layout_le bs element_id body_offset (err e) h = cc
layout_le bs element_id body_offset (ok size) h = ground arith

module _ {ℓ} {Self : Type ℓ} (t : FromEbml Self) where
  Decided-check_tag :
      (bs : List ℕ) (r : Result EbmlError (Option (ℕ × Varint × ℕ)))
      → Decided (check_tag t bs r)
      → Decided r
  unfolding check_tag
  Decided-check_tag bs (ok none) d = d
  Decided-check_tag bs (ok (some x)) d = tt
  Decided-check_tag bs (err e) d = tt

  check_tag-append :
      (bs more : List ℕ) (r : Result EbmlError (Option (ℕ × Varint × ℕ)))
      → Decided (check_tag t bs r)
      → check_tag t (bs ++ more) r ≡ check_tag t bs r
  unfolding check_tag
  check_tag-append bs more (ok none) d = refl
  check_tag-append bs more (ok (some (id, size, n))) d = layout-append bs more id n _ d
  check_tag-append bs more (err e) d = refl

  -- Once `check_space` has found an element or an error, more bytes behind do not change it.
  pub check_space-append :
      (bs more : List ℕ)
      → All IsByte bs
      → All IsByte more
      → Decided (check_space t bs)
      → check_space t (bs ++ more) ≡ check_space t bs
  unfolding check_space
  check_space-append bs more h k d =
      rw (decode_tag-append bs more h k (Decided-check_tag bs (decode_tag bs) d))
        (check_tag-append bs more (decode_tag bs) d)

  check_tag_le :
      (bs : List ℕ) (r : Result EbmlError (Option (ℕ × Varint × ℕ))) {info : EbmlLayout}
      → check_tag t bs r ≡ ok (some info)
      → info.element_len ≤ length bs
  unfolding check_tag
  check_tag_le bs (ok none) h = cc
  check_tag_le bs (ok (some (id, size, n))) h = layout_le bs id n _ h
  check_tag_le bs (err e) h = cc

  -- The element that `check_space` finds lies within the buffer.
  pub check_space_le :
      (bs : List ℕ) {info : EbmlLayout}
      → check_space t bs ≡ ok (some info)
      → info.element_len ≤ length bs
  unfolding check_space
  check_space_le bs h = check_tag_le bs (decode_tag bs) h

  Decided-decode_layout :
      (bs : List ℕ) (r : Result EbmlError (Option EbmlLayout))
      → Decided (decode_layout t bs r)
      → Decided r
  unfolding decode_layout
  Decided-decode_layout bs (ok none) d = d
  Decided-decode_layout bs (ok (some x)) d = tt
  Decided-decode_layout bs (err e) d = tt

  -- Once `decode_element` has decided on an element or an error, any bytes that arrive behind leave
  -- its answer unchanged.
  pub decode_element-append :
      (bs more : List ℕ)
      → All IsByte bs
      → All IsByte more
      → Decided (decode_element t bs)
      → decode_element t (bs ++ more) ≡ decode_element t bs
  unfolding decode_element decode_layout slice
  decode_element-append bs more h k d =
      let d' : Decided (check_space t bs) = Decided-decode_layout bs _ d in
      elim (Decoded-cases (check_space t bs)) [
        | inl e ↦ absurd (rw e at d')
        | inr (inl (x, e)) ↦ rw (check_space-append bs more h k d', e)
        | inr (inr (info, e)) ↦ rw (
          check_space-append bs more h k d',
          e,
          take-append_le info.element_len bs more (check_space_le bs e),
        )
      ]
