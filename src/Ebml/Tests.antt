-- ===== src/Ebml/Tests.antt =====
-- The unit tests of src/ebml.rs as runs of the model, and its theorems at concrete inputs.
use webmetro.Base.{
  ℕ, List, false, ltb, if◌then◌else◌, ◌+◌, ◌≤◌, ◌^◌, ◌-◌, ◌≡◌, refl, arith, [], ◌∷◌, ◌++◌, length,
  ok, err, some, none, ◌⊎◌,
}
use webmetro.Base.BigEndian.{be_bytes}
use webmetro.ByteOrder.Reference.{reference}
use webmetro.Io.{new_vec, new_array, write_all, overwrite, out_of_range, write_zero}
use webmetro.Ebml.Varint.{
  eight_max, corrupt_varint, unknown_element_id, value, unknown, decode_varint, encode_varint,
  size_loop, put_number,
}
use webmetro.Ebml.Varint.Decode.{read_varint, decode_varint-read_varint}
use webmetro.Ebml.Varint.Encode.{
  encode_varint-varint_bytes, varint_bytes, varint_size, varint_size-least,
}
use webmetro.Ebml.Varint.RoundTrip.{decode_varint-encode_varint}
use webmetro.Ebml.Element.{
  FromEbml, check_space, check_tag, payload_size, layout, slice, decode_body, decode_layout,
  decode_element,
}
use webmetro.Ebml.Element.Bounds.{IsWithin, check_space-IsWithin}
use webmetro.Ebml.Element.Prefix.{decode_element-append}
use webmetro.Ebml.Tag.{decode_tag, decode_id, decode_size}

-- `fail_corrupted_varints`, `incomplete_varints` and `parse_varints`.
decode_varints :
    (decode_varint (0 ∷ 0 ∷ 0 ∷ []) ≡ err corrupt_varint)
    × (decode_varint [] ≡ ok none)
    × (decode_varint (0x40 ∷ []) ≡ ok none)
    × (decode_varint (0x01 ∷ 0 ∷ 0 ∷ []) ≡ ok none)
    × (decode_varint (0xff ∷ []) ≡ ok (some (unknown, 1)))
    × (decode_varint (0x7f ∷ 0xff ∷ []) ≡ ok (some (unknown, 2)))
    × (decode_varint (0x40 ∷ 52 ∷ []) ≡ ok (some (value 52, 2)))
    × (decode_varint (0x83 ∷ 0x11 ∷ []) ≡ ok (some (value 3, 1)))
unfolding decode_varint
decode_varints = (refl, refl, refl, refl, refl, refl, refl, refl)

-- `encode_varints`: the seven-byte value, the value that is refused, and the lack of space.
encode_varints :
    ((encode_varint reference (value 0x03FFFFFFFFFF) new_vec).1.bytes
      ≡ 0x02 ∷ 0x03 ∷ 0xff ∷ 0xff ∷ 0xff ∷ 0xff ∷ 0xff ∷ [])
    × ((encode_varint reference (value 0xFFFFFFFFFFFFFF) new_vec).0 ≡ err out_of_range)
    × ((encode_varint reference (value 127) (new_array 0)).0 ≡ err write_zero)
unfolding encode_varint size_loop put_number write_all overwrite be_bytes
encode_varints = (refl, refl, refl)

-- `fail_corrupted_tags`, `incomplete_tags` and `parse_tags`.
decode_tags :
    (decode_tag (0x80 ∷ 0 ∷ []) ≡ err corrupt_varint)
    × (decode_tag (0x7f ∷ 0xff ∷ 0x40 ∷ 0 ∷ []) ≡ err unknown_element_id)
    × (decode_tag (0x40 ∷ 0 ∷ 0x40 ∷ []) ≡ ok none)
    × (decode_tag (0x80 ∷ 0x7f ∷ 0xff ∷ []) ≡ ok (some (0, unknown, 3)))
    × (decode_tag (0x85 ∷ 0x40 ∷ 52 ∷ []) ≡ ok (some (5, value 52, 3)))
unfolding decode_tag decode_id decode_size decode_varint
decode_tags = (refl, refl, refl, refl, refl)

decode_varint-read_varint_example : decode_varint (0x40 ∷ 52 ∷ []) ≡ read_varint (0x40 ∷ 52 ∷ [])
decode_varint-read_varint_example = decode_varint-read_varint (0x40 ∷ 52 ∷ []) (omega arith)

varint_size-least_example : (varint_size 127 ≡ 1) ⊎ (128 ^ (varint_size 127 - 1) ≤ 127 + 1)
varint_size-least_example = varint_size-least 127

decode_varint-encode_varint_example :
    let (r, c) = encode_varint reference (value 300) new_vec in
    (r ≡ ok tt) × (decode_varint (c.bytes ++ (9 ∷ [])) ≡ ok (some (value 300, length c.bytes)))
decode_varint-encode_varint_example =
    decode_varint-encode_varint reference 300 (9 ∷ []) (omega arith) (omega arith)

-- An element of an unknown kind, as the test of src/ebml.rs decodes it: its ID and its length.
generic : FromEbml (ℕ × ℕ)
generic = record { should_unwrap = λ id. false; decode = λ id bytes. ok (id, length bytes) }

abbrev void_element : List ℕ
void_element = 0xec ∷ 0x82 ∷ 7 ∷ 7 ∷ []

check_space-IsWithin_example :
    IsWithin void_element (record { element_id = 0x6c; body_offset = 2; element_len = 4 })
unfolding check_space decode_tag decode_id decode_size decode_varint check_tag payload_size layout
    generic
check_space-IsWithin_example = check_space-IsWithin generic void_element (omega arith) refl

decode_element-append_example :
    decode_element generic (void_element ++ (1 ∷ [])) ≡ decode_element generic void_element
unfolding decode_element decode_layout decode_body slice check_space decode_tag decode_id
    decode_size decode_varint check_tag payload_size layout generic
decode_element-append_example =
    decode_element-append generic void_element (1 ∷ []) (omega arith) (omega arith) tt

encode_varint-varint_bytes_example : encode_varint reference (value 300) (new_array 1) ≡ (
    if ltb eight_max 300
    then (err out_of_range, new_array 1)
    else write_all (varint_bytes (varint_size 300) 300) (new_array 1))
encode_varint-varint_bytes_example = encode_varint-varint_bytes reference 300 (new_array 1)
