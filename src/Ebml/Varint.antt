-- ===== src/Ebml/Varint.antt =====
-- src/ebml.rs, lines 10 to 162: EBML varints, read from a slice and written to a `Write`.
pub mod Marker
pub mod Decode
pub mod Encode
pub mod RoundTrip
use webmetro.Base.{
  ℕ, zero, suc, ◌+◌, ◌-◌, ◌*◌, ◌/◌, ◌%◌, ◌^◌, bit_and, bit_or, Bool, true, false, not, Option, none,
  some, List, [], ◌∷◌, length, take, replicate, ltb, leb, ◌==◌, if◌then◌else◌, Result, ok, err,
}
use webmetro.ByteOrder.{ByteOrder}
use webmetro.Io.{IoResult, out_of_range, raise, write_all}

pub data EbmlError : Type 0 where
  corrupt_varint unknown_element_id unknown_element_length corrupt_payload : EbmlError

-- `Varint::Value` and `Varint::Unknown`.
pub data Varint : Type 0 where
  value : ℕ → Varint
  unknown : Varint

-- The local variables of `decode_varint` while it looks for the length marker.
pub record Scan : Type 0 where
  pub payload : ℕ
  pub value_length : ℕ
  pub mask : ℕ
  pub unknown_marker : ℕ

-- `!0` is the initial `unknown_marker`.
abbrev pub scan_start : Scan
scan_start = record { payload = 0; value_length = 1; mask = 0x80; unknown_marker = 2 ^ 64 - 1 }

-- `while mask > 0` on the first byte. The mask is halved in each round, so nine are enough.
unfoldable pub marker_loop : ℕ → ℕ → Scan → Scan
marker_loop zero b s = s
marker_loop (suc fuel) b s =
    let rest =
      marker_loop fuel b (record s { value_length = s.value_length + 1; mask = s.mask / 2 }) in
    if ltb 0 s.mask
    then (if not (bit_and s.mask b == 0)
        then record s { payload = bit_and b (0xff - s.mask); unknown_marker = s.mask - 1 }
        else rest)
    else s

-- `for i in 1..value_length`: the rounds left, the bytes from `bytes[i]` on, and the two
-- accumulators. The list does not run out, since its length has been tested before.
unfoldable pub value_loop : ℕ → List ℕ → ℕ → ℕ → ℕ × ℕ
value_loop zero bytes v marker = (v, marker)
value_loop (suc n) [] v marker = (v, marker)
value_loop (suc n) (b ∷ bytes) v marker =
    value_loop n bytes ((v * 2 ^ 8 % 2 ^ 64 + b) % 2 ^ 64)
      ((marker * 2 ^ 8 % 2 ^ 64 + 0xff) % 2 ^ 64)

unfoldable pub finish_varint : ℕ → ℕ × ℕ → Varint × ℕ
finish_varint n (v, marker) = if v == marker then (unknown, n) else (value v, n)

unfoldable pub decode_varint : List ℕ → Result EbmlError (Option (Varint × ℕ))
unfolding marker_loop value_loop finish_varint
decode_varint [] = ok none
decode_varint (b ∷ bs) =
    let s = marker_loop 9 b scan_start in
    if s.mask == 0
    then err corrupt_varint
    else if ltb (length (b ∷ bs)) s.value_length
    then ok none
    else ok (
        some (
          finish_varint s.value_length
            (value_loop (s.value_length - 1) bs s.payload s.unknown_marker)))

abbrev pub small_flag : ℕ
small_flag = 0x80

abbrev pub eight_max : ℕ
eight_max = 2 ^ (8 * 7) - 2

abbrev pub four_flag : ℕ
four_flag = 0x10 * 2 ^ (8 * 3)

abbrev pub four_max : ℕ
four_max = four_flag - 2

-- `while value >= (flag - 1)`: the flag and the size. Eight rounds are enough below `eight_max`.
unfoldable pub size_loop : ℕ → ℕ → ℕ → ℕ → ℕ × ℕ
size_loop zero v flag size = (flag, size)
size_loop (suc fuel) v flag size =
    let rest = size_loop fuel v (flag * 2 ^ (8 - 1) % 2 ^ 64) (size + 1) in
    if leb (flag - 1) v then rest else (flag, size)

module _ (order : ByteOrder) where
  open order use {put_uint, put_u32}

  -- The 8-byte buffer, filled from the front and written out up to `size`.
  unfoldable pub put_number : ℕ × ℕ → IoResult (Unit {0})
  put_number (size, number) = write_all (take size (put_uint number size (replicate 8 0)))

  unfoldable pub encode_varint : Varint → IoResult (Unit {0})
  encode_varint unknown = put_number (1, 0xff)
  encode_varint (value v) =
      if ltb eight_max v
      then raise out_of_range
      else (let (flag, size) = size_loop 8 v small_flag 1 in put_number (size, bit_or flag v))

  unfoldable pub put_four : ℕ → IoResult (Unit {0})
  put_four number = write_all (put_u32 (number % 2 ^ 32) (replicate 4 0))

  unfoldable pub encode_varint_4 : Varint → IoResult (Unit {0})
  encode_varint_4 unknown = put_four (bit_or four_flag (four_flag - 1))
  encode_varint_4 (value v) =
      if ltb four_max v then raise out_of_range else put_four (bit_or four_flag v)
