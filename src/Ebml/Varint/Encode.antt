-- ===== src/Ebml/Varint/Encode.antt =====
-- What the varint encoders write, in plain arithmetic, on any writer.
use webmetro.Base.{
  ℕ, ◌+◌, ◌%◌, ◌^◌, ◌≤◌, ◌<◌, ◌≡◌, Bool-cases, inl, inr, ◌⊎◌, ◌-◌, append-nil, arith, bit_or, List,
  [], ◌∷◌, ◌++◌, take, drop, replicate, ltb, if◌then◌else◌, err, take-length_append,
}
use webmetro.Base.Bits.{bit_or-pow}
use webmetro.Base.BigEndian.{be_bytes, length-be_bytes}
use webmetro.ByteOrder.{ByteOrder}
use webmetro.Io.{Cursor, out_of_range, write_all}
use webmetro.Ebml.Varint.{
  value, unknown, small_flag, eight_max, four_max, size_loop, put_number, encode_varint, put_four,
  encode_varint_4,
}

-- The least number of bytes in which `v` is not the pattern of all ones.
unfoldable pub varint_size : ℕ → ℕ
varint_size v =
    if ltb (v + 1) (128 ^ 1)
    then 1
    else if ltb (v + 1) (128 ^ 2)
    then 2
    else if ltb (v + 1) (128 ^ 3)
    then 3
    else if ltb (v + 1) (128 ^ 4)
    then 4
    else if ltb (v + 1) (128 ^ 5)
    then 5
    else if ltb (v + 1) (128 ^ 6)
    then 6
    else if ltb (v + 1) (128 ^ 7)
    then 7
    else 8

-- `n` bytes that carry `v` below the marker bit.
abbrev pub varint_bytes : ℕ → ℕ → List ℕ
varint_bytes n v = be_bytes n (128 ^ n + v)

pub varint_size-fits : (v : ℕ) → v ≤ eight_max → v + 1 < 128 ^ varint_size v
unfolding varint_size
varint_size-fits v h = ground arith

pub varint_size-least : (v : ℕ) → (varint_size v ≡ 1) ⊎ (128 ^ (varint_size v - 1) ≤ v + 1)
unfolding varint_size
varint_size-least v = ground arith

size_loop-varint_size :
    (v : ℕ) → v ≤ eight_max → size_loop 8 v small_flag 1 ≡ (128 ^ varint_size v, varint_size v)
unfolding size_loop varint_size
size_loop-varint_size v h = ground arith

flag-bit_or : (v : ℕ) → v ≤ eight_max → bit_or (128 ^ varint_size v) v ≡ 128 ^ varint_size v + v
unfolding varint_size
flag-bit_or v h = ground (
  arith,
  bit_or-pow 7 v,
  bit_or-pow 14 v,
  bit_or-pow 21 v,
  bit_or-pow 28 v,
  bit_or-pow 35 v,
  bit_or-pow 42 v,
  bit_or-pow 49 v,
  bit_or-pow 56 v,
)

pub varint_size_bounds : (v : ℕ) → (1 ≤ varint_size v) × (varint_size v ≤ 8)
unfolding varint_size
varint_size_bounds v = ground arith

module _ (order : ByteOrder) where
  open order use {put_uint_lem, put_u32_lem}

  pub put_number-be_bytes :
      (n x : ℕ) (c : Cursor) → n ≤ 8 → put_number order (n, x) c ≡ write_all (be_bytes n x) c
  unfolding put_number
  put_number-be_bytes n x c h =
      let zeros : List ℕ = replicate 8 0 in
      let cut : take n (be_bytes n x ++ drop n zeros) ≡ be_bytes n x =
        rw length-be_bytes at (take-length_append (be_bytes n x) (drop n zeros)) in
      rw (put_uint_lem x n zeros h h, cut)

  -- `encode_varint` on any writer: a value above 2 ^ 56 - 2 is refused and nothing is written; any
  -- other one is a single write of its shortest form.
  pub encode_varint-varint_bytes :
      (v : ℕ) (c : Cursor)
      → encode_varint order (value v) c ≡ (
          if ltb eight_max v
          then (err out_of_range, c)
          else write_all (varint_bytes (varint_size v) v) c)
  unfolding encode_varint
  encode_varint-varint_bytes v c = elim (Bool-cases (ltb eight_max v)) [
    | inl big ↦ rw big
    | inr small ↦
        let fits : v ≤ eight_max = ground arith in
        rw (
          small,
          size_loop-varint_size v fits,
          flag-bit_or v fits,
          put_number-be_bytes (varint_size v) (128 ^ varint_size v + v) c (varint_size_bounds v).1,
        )
  ]

  pub encode_varint_unknown : (c : Cursor) → encode_varint order unknown c ≡ write_all (0xff ∷ []) c
  unfolding encode_varint be_bytes
  encode_varint_unknown c = put_number-be_bytes 1 0xff c (omega arith)

  put_four-be_bytes :
      (x : ℕ) (c : Cursor) → x < 2 ^ 32 → put_four order x c ≡ write_all (be_bytes 4 x) c
  unfolding put_four
  put_four-be_bytes x c h =
      let zeros : List ℕ = replicate 4 0 in
      let low : x % 2 ^ 32 ≡ x = omega arith in
      let cut : be_bytes 4 x ++ drop 4 zeros ≡ be_bytes 4 x = append-nil (be_bytes 4 x) in
      rw (low, put_u32_lem x zeros (omega arith), cut)

  -- The fixed form: four bytes whatever the value.
  pub encode_varint_4-varint_bytes :
      (v : ℕ) (c : Cursor)
      → encode_varint_4 order (value v) c
        ≡ (if ltb four_max v then (err out_of_range, c) else write_all (varint_bytes 4 v) c)
  unfolding encode_varint_4
  encode_varint_4-varint_bytes v c = elim (Bool-cases (ltb four_max v)) [
    | inl big ↦ rw big
    | inr small ↦
        let fits : v < 2 ^ 28 = ground arith in
        rw (small, bit_or-pow 28 v fits, put_four-be_bytes (2 ^ 28 + v) c (omega arith))
  ]

  pub encode_varint_4_unknown :
      (c : Cursor) → encode_varint_4 order unknown c ≡ write_all (be_bytes 4 0x1fffffff) c
  unfolding encode_varint_4
  encode_varint_4_unknown c = put_four-be_bytes 0x1fffffff c (omega arith)
