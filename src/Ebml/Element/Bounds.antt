-- ===== src/Ebml/Element/Bounds.antt =====
-- The numbers that decoding slices by lie within the buffer, and no `usize` sum wraps.
use webmetro.Base.{
  ℕ, suc, ◌+◌, ◌*◌, ◌^◌, ◌≤◌, ◌<◌, ◌≡◌, ◌∙◌, refl, sym, arith, true, false, Bool, List, [], ◌∷◌,
  length, take, drop, All, All-take, All-drop, Result, ok, err, some, none, Option, inl, inr,
  length-take, length-drop, Decoded-cases,
}
use webmetro.Base.BigEndian.{be_value, be_value-lt}
use webmetro.Ebml.Varint.{EbmlError, Varint, value, unknown, decode_varint}
use webmetro.Ebml.Varint.Decode.{IsByte, read_varint, decode_varint-read_varint}
use webmetro.Ebml.Tag.{decode_tag, decode_id, decode_size}
use webmetro.Ebml.Element.{EbmlLayout, FromEbml, payload_size, layout, check_tag, check_space}
use webmetro.Ebml.Element.Prefix.{decode_varint_bounds}

mul_le : (a b p : ℕ) → a ≤ b → a * p ≤ b * p
mul_le a b p h = grind arith

whole_lt :
    (k m b : ℕ) (bs : List ℕ)
    → b < 2 * m
    → All IsByte bs
    → k ≤ length bs
    → m * 256 ^ k ≡ 128 ^ suc k
    → be_value (take (suc k) (b ∷ bs)) < 2 * 128 ^ suc k
unfolding be_value
whole_lt k m b bs hi h l weight =
    let p : ℕ = 256 ^ k in
    let len : length (take k bs) ≡ k = omega (arith, length-take k bs) in
    let low : be_value (take k bs) < p =
      rw len at (be_value-lt (take k bs) (All-take IsByte k bs h)) in
    let top : (b + 1) * p ≤ 2 * m * p = mul_le (b + 1) (2 * m) p (omega arith) in
    rw len (omega arith)

-- A value has at most 56 bits.
pub decode_varint-lt :
    (bs : List ℕ) {v n : ℕ} → All IsByte bs → decode_varint bs ≡ ok (some (value v, n)) → v < 2 ^ 56
decode_varint-lt [] h e = unfold decode_varint in cc
decode_varint-lt (b ∷ bs) {v} {n} h e =
    let read : read_varint (b ∷ bs) ≡ ok (some (value v, n)) =
      sym (decode_varint-read_varint (b ∷ bs) h) ∙ e in
    ground (
      arith,
      whole_lt 0 128 b bs,
      whole_lt 1 64 b bs,
      whole_lt 2 32 b bs,
      whole_lt 3 16 b bs,
      whole_lt 4 8 b bs,
      whole_lt 5 4 b bs,
      whole_lt 6 2 b bs,
      whole_lt 7 1 b bs,
    )

abbrev SizeFits : Varint → Type 0
SizeFits (value v) = v < 2 ^ 56
SizeFits unknown = Unit

decode_varint-SizeFits :
    (bs : List ℕ) (s : Varint) {n : ℕ}
    → All IsByte bs
    → decode_varint bs ≡ ok (some (s, n))
    → SizeFits s
decode_varint-SizeFits bs (value v) h e = decode_varint-lt bs h e
decode_varint-SizeFits bs unknown h e = tt

pub decode_size_inv :
    (i m : ℕ) (r : Result EbmlError (Option (Varint × ℕ))) {id n : ℕ} {size : Varint}
    → decode_size i m r ≡ ok (some (id, size, n))
    → (k : ℕ) × (r ≡ ok (some (size, k))) × (m + k ≡ n)
unfolding decode_size
decode_size_inv i m (ok none) e = cc
decode_size_inv i m (err x) e = cc
decode_size_inv i m (ok (some (s, k))) e = (k, ground arith, ground arith)

-- A header takes 2 to 16 bytes, and they are there.
pub decode_tag_bounds :
    (bs : List ℕ) {id n : ℕ} {size : Varint}
    → All IsByte bs
    → decode_tag bs ≡ ok (some (id, size, n))
    → SizeFits size × (2 ≤ n) × (n ≤ 16) × (n ≤ length bs)
unfolding decode_tag decode_id
decode_tag_bounds bs {id} {n} {size} h e = elim (Decoded-cases (decode_varint bs)) [
  | inl x ↦ cc (rw x at e)
  | inr (inl (x, y)) ↦ cc (rw y at e)
  | inr (inr ((unknown, m), y)) ↦ cc (rw y at e)
  | inr (inr ((value i, m), y)) ↦
      let (k, sized, sum) = decode_size_inv i m (decode_varint (drop m bs)) (rw y at e) in
      let bytes : All IsByte (drop m bs) = All-drop IsByte m bs h in
      let (m_lo, m_hi, m_le) = decode_varint_bounds bs h y in
      let (k_lo, k_hi, k_le) = decode_varint_bounds (drop m bs) bytes sized in
      (
        decode_varint-SizeFits (drop m bs) size bytes sized,
        omega arith,
        omega arith,
        omega (arith, length-drop m bs),
      )
]

-- What `check_space` returns can be sliced.
pub record IsWithin (bs : List ℕ) (info : EbmlLayout) : Type 0 where
  pub header : 2 ≤ info.body_offset
  pub payload : info.body_offset ≤ info.element_len
  pub fits : info.element_len ≤ length bs

payload_size-lt :
    (unwrap : Bool) (size : Varint) {n : ℕ}
    → SizeFits size
    → payload_size unwrap size ≡ ok n
    → n < 2 ^ 56
unfolding payload_size
payload_size-lt true size h e = ground arith
payload_size-lt false (value v) h e = ground arith
payload_size-lt false unknown h e = cc

layout-IsWithin :
    (bs : List ℕ) (id n : ℕ) (size : Result EbmlError ℕ) {info : EbmlLayout}
    → 2 ≤ n
    → n ≤ 16
    → ((k : ℕ) → size ≡ ok k → k < 2 ^ 56)
    → layout bs id n size ≡ ok (some info)
    → IsWithin bs info
unfolding layout
layout-IsWithin bs id n (err x) lo hi small e = cc
layout-IsWithin bs id n (ok k) lo hi small e = ground (arith, small k refl)

module _ {ℓ} {Self : Type ℓ} (t : FromEbml Self) where
  check_tag-IsWithin :
      (bs : List ℕ) (r : Result EbmlError (Option (ℕ × Varint × ℕ))) {info : EbmlLayout}
      → ((id n : ℕ) (size : Varint)
          → r ≡ ok (some (id, size, n))
          → SizeFits size × (2 ≤ n) × (n ≤ 16) × (n ≤ length bs))
      → check_tag t bs r ≡ ok (some info)
      → IsWithin bs info
  unfolding check_tag
  check_tag-IsWithin bs (ok none) h e = cc
  check_tag-IsWithin bs (err x) h e = cc
  check_tag-IsWithin bs (ok (some (id, size, n))) h e =
      let (fits, lo, hi, le) = h id n size refl in
      layout-IsWithin bs id n (payload_size (t.should_unwrap id) size) lo hi
        (λ k p. payload_size-lt (t.should_unwrap id) size fits p) e

  -- On every byte string for which `check_space` returns a layout, the header takes at least two
  -- bytes, the payload does not start behind the element's end, and that end lies within the
  -- buffer.
  pub check_space-IsWithin :
      (bs : List ℕ) {info : EbmlLayout}
      → All IsByte bs
      → check_space t bs ≡ ok (some info)
      → IsWithin bs info
  unfolding check_space
  check_space-IsWithin bs h e =
      check_tag-IsWithin bs (decode_tag bs) (λ id n size p. decode_tag_bounds bs h p) e
