-- ===== src/Ebml/Element.antt =====
-- src/ebml.rs, lines 200 to 262: the trait `FromEbml` and its two provided methods.
pub mod Prefix
pub mod Bounds
pub mod Read
use webmetro.Base.{
  ℕ, ◌+◌, ◌%◌, ◌^◌, Bool, true, false, Option, none, some, List, length, take, drop, ltb,
  if◌then◌else◌, Result, ok, err,
}
use webmetro.Ebml.Varint.{EbmlError, unknown_element_length, Varint, value, unknown}
use webmetro.Ebml.Tag.{decode_tag}

pub record EbmlLayout : Type 0 where
  pub element_id : ℕ
  pub body_offset : ℕ
  pub element_len : ℕ

-- The required methods.
pub record FromEbml {ℓ} (Self : Type ℓ) : Type ℓ where
  pub should_unwrap : ℕ → Bool
  pub decode : ℕ → List ℕ → Result EbmlError Self

-- `bytes[from..to]`
unfoldable pub slice : ℕ → ℕ → List ℕ → List ℕ
slice from to bytes = drop from (take to bytes)

unfoldable pub payload_size : Bool → Varint → Result EbmlError ℕ
payload_size true size = ok 0
payload_size false unknown = err unknown_element_length
payload_size false (value size) = ok size

-- `body_offset + payload_size` is a `usize` of 64 bits.
unfoldable pub layout : List ℕ → ℕ → ℕ → Result EbmlError ℕ → Result EbmlError (Option EbmlLayout)
layout bytes element_id body_offset (err e) = err e
layout bytes element_id body_offset (ok size) =
    let element_len = (body_offset + size) % 2 ^ 64 in
    if ltb (length bytes) element_len
    then ok none
    else ok (
        some (record {
          element_id = element_id;
          body_offset = body_offset;
          element_len = element_len;
        }))

module _ {ℓ} {Self : Type ℓ} (t : FromEbml Self) where
  open t use {should_unwrap, decode}

  unfoldable pub check_tag :
      List ℕ → Result EbmlError (Option (ℕ × Varint × ℕ)) → Result EbmlError (Option EbmlLayout)
  check_tag bytes (ok none) = ok none
  check_tag bytes (err e) = err e
  check_tag bytes (ok (some (element_id, payload_size_tag, body_offset))) =
      layout bytes element_id body_offset (payload_size (should_unwrap element_id) payload_size_tag)

  unfoldable pub check_space : List ℕ → Result EbmlError (Option EbmlLayout)
  check_space bytes = check_tag bytes (decode_tag bytes)

  unfoldable pub decode_body : ℕ → Result EbmlError Self → Result EbmlError (Option (Self × ℕ))
  decode_body element_len (ok element) = ok (some (element, element_len))
  decode_body element_len (err e) = err e

  unfoldable pub decode_layout :
      List ℕ → Result EbmlError (Option EbmlLayout) → Result EbmlError (Option (Self × ℕ))
  decode_layout bytes (err e) = err e
  decode_layout bytes (ok none) = ok none
  decode_layout bytes (ok (some info)) =
      decode_body info.element_len
        (decode info.element_id (slice info.body_offset info.element_len bytes))

  unfoldable pub decode_element : List ℕ → Result EbmlError (Option (Self × ℕ))
  decode_element bytes = decode_layout bytes (check_space bytes)
