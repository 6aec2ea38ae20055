-- ===== src/Ebml/Element/Read.antt =====
-- Reading back an element that has been written: the header leads to exactly its payload.
use webmetro.Base.{
  ℕ, ◌+◌, ◌%◌, ◌^◌, ◌≤◌, ◌<◌, ◌≡◌, arith, true, false, List, [], ◌++◌, length, All, ok, some, ltb,
  le→ltb, append_assoc, append-nil, drop-length_append, take-length_append, length-append,
}
use webmetro.Ebml.Varint.{Varint, value, eight_max, decode_varint}
use webmetro.Ebml.Varint.Decode.{IsByte}
use webmetro.Ebml.Varint.Encode.{varint_size_bounds}
use webmetro.Ebml.Tag.{decode_tag}
use webmetro.Ebml.Tag.Write.{shortest}
use webmetro.Ebml.Tag.Read.{decode_tag-shortest, length-shortest}
use webmetro.Ebml.Element.{
  FromEbml, slice, payload_size, layout, check_tag, check_space, decode_body, decode_layout,
  decode_element,
}
use native.Mathlib.Nat.{mod-eq_of_lt}

slice-append :
    (head body rest : List ℕ)
    → slice (length head) (length (head ++ body)) (head ++ body ++ rest) ≡ body
unfolding slice
slice-append head body rest =
    rw (take-length_append (head ++ body) rest, drop-length_append head body)

header_small :
    (tag : ℕ) (size body : List ℕ)
    → tag ≤ eight_max
    → length size ≤ 8
    → length body ≤ eight_max
    → length (shortest tag ++ size ++ body) < 2 ^ 64
header_small tag size body ht hs hb = omega (
  arith,
  length-append (shortest tag ++ size) body,
  length-append (shortest tag) size,
  length-shortest tag,
  varint_size_bounds tag,
)

module _ {ℓ} {Self : Type ℓ} (t : FromEbml Self) where
  -- The payload is what stands between the header and the announced length; an unwrapped
  -- element has none of its own.
  decode_element-layout :
      (tag : ℕ) (size : Varint) (head body rest : List ℕ) {x : Self}
      → decode_tag (head ++ body ++ rest) ≡ ok (some (tag, size, length head))
      → payload_size (t.should_unwrap tag) size ≡ ok (length body)
      → length (head ++ body) < 2 ^ 64
      → t.decode tag body ≡ ok x
      → decode_element t (head ++ body ++ rest) ≡ ok (some (x, length (head ++ body)))
  unfolding decode_element check_space check_tag layout decode_layout decode_body
  decode_element-layout tag size head body rest e p small d =
      let total : (length head + length body) % 2 ^ 64 ≡ length (head ++ body) =
        rw (← length-append head body) (mod-eq_of_lt small) in
      let there : ltb (length (head ++ body ++ rest)) (length (head ++ body)) ≡ false =
        le→ltb _ _ (omega (arith, length-append (head ++ body) rest)) in
      rw (e, p, total, there, slice-append head body rest, d)

  pub decode_element-wrapped :
      (tag : ℕ) (size body rest : List ℕ) {x : Self}
      → tag ≤ eight_max
      → length size ≤ 8
      → length body ≤ eight_max
      → All IsByte (size ++ body ++ rest)
      → decode_varint (size ++ body ++ rest) ≡ ok (some (value (length body), length size))
      → t.should_unwrap tag ≡ false
      → t.decode tag body ≡ ok x
      → decode_element t (shortest tag ++ size ++ body ++ rest)
        ≡ ok (some (x, length (shortest tag ++ size ++ body)))
  unfolding payload_size
  decode_element-wrapped tag size body rest ht hs hb bytes e w d =
      let head : List ℕ = shortest tag ++ size in
      let regroup : head ++ body ++ rest ≡ shortest tag ++ (size ++ body ++ rest) =
        simp append_assoc in
      let read : decode_tag (head ++ body ++ rest)
          ≡ ok (some (tag, value (length body), length head)) =
        rw (regroup, length-append (shortest tag) size)
          (decode_tag-shortest tag (length size) (value (length body)) (size ++ body ++ rest) ht
            bytes e) in
      decode_element-layout tag (value (length body)) head body rest read (rw w)
        (header_small tag size body ht hs hb) d

  pub decode_element-unwrapped :
      (tag : ℕ) (size : Varint) (size_bytes rest : List ℕ) {x : Self}
      → tag ≤ eight_max
      → length size_bytes ≤ 8
      → All IsByte (size_bytes ++ rest)
      → decode_varint (size_bytes ++ rest) ≡ ok (some (size, length size_bytes))
      → t.should_unwrap tag ≡ true
      → t.decode tag [] ≡ ok x
      → decode_element t (shortest tag ++ size_bytes ++ rest)
        ≡ ok (some (x, length (shortest tag ++ size_bytes)))
  unfolding payload_size
  decode_element-unwrapped tag size size_bytes rest ht hs bytes e w d =
      let head : List ℕ = shortest tag ++ size_bytes in
      let read : decode_tag (head ++ [] ++ rest) ≡ ok (some (tag, size, length head)) =
        rw
          (
            append-nil head,
            append_assoc (shortest tag) size_bytes rest,
            length-append (shortest tag) size_bytes,
          )
          (decode_tag-shortest tag (length size_bytes) size (size_bytes ++ rest) ht bytes e) in
      rw (append-nil head) at (
        decode_element-layout tag size head [] rest read (rw w)
          (header_small tag size_bytes [] ht hs (omega arith)) d)
