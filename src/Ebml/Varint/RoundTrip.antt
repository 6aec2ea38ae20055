-- ===== src/Ebml/Varint/RoundTrip.antt =====
-- What the varint encoders write, `decode_varint` reads back.
use webmetro.Base.{
  ℕ, zero, suc, ◌+◌, ◌-◌, ◌*◌, ◌/◌, ◌%◌, ◌^◌, ◌≤◌, ◌<◌, ◌≡◌, refl, ◌∙◌, arith, some, List, [], ◌∷◌,
  ◌++◌, length, take, All, ok, take-length_append, le→ltb, length-append, All-append,
}
use webmetro.Base.BigEndian.{
  be_bytes, be_value, be_value-be_bytes, be_bytes-IsByte, length-be_bytes,
}
use webmetro.ByteOrder.{ByteOrder}
use webmetro.Io.{new_vec}
use webmetro.Io.Append.{write_all-at_end}
use webmetro.Ebml.Varint.{value, eight_max, decode_varint, encode_varint}
use webmetro.Ebml.Varint.Decode.{
  IsByte, size_of, read_number, read_varint, decode_varint-read_varint,
}
use webmetro.Ebml.Varint.Encode.{
  varint_size, varint_size_bounds, varint_size-fits, varint_bytes, encode_varint-varint_bytes,
}
use native.Mathlib.Nat.{mod-eq_of_lt, pow-suc}

read_varint_lem :
    (b n : ℕ) (bs : List ℕ)
    → size_of b ≡ n
    → n ≤ 8
    → n ≤ length (b ∷ bs)
    → read_varint (b ∷ bs) ≡ ok (some (read_number n (be_value (take n (b ∷ bs))), n))
read_varint_lem b n bs size small long = rw size (ground arith)

-- A number written in `k + 1` bytes, whose first byte announces as many, is read back.
read_varint-be_bytes :
    (k whole : ℕ) (rest : List ℕ)
    → k ≤ 7
    → whole < 256 ^ suc k
    → size_of (whole / 256 ^ k % 256) ≡ suc k
    → read_varint (be_bytes (suc k) whole ++ rest) ≡ ok (some (read_number (suc k) whole, suc k))
read_varint-be_bytes k whole rest small fits size =
    let bytes : List ℕ = be_bytes (suc k) whole in
    let long : length (bytes ++ rest) ≡ suc k + length rest =
      omega (arith, length-append bytes rest, length-be_bytes (suc k) whole) in
    let front : take (suc k) (bytes ++ rest) ≡ bytes =
      rw length-be_bytes at (take-length_append bytes rest) in
    let spelt : be_value bytes ≡ whole = be_value-be_bytes (suc k) whole ∙ mod-eq_of_lt fits in
    let read : read_varint (bytes ++ rest)
        ≡ ok (some (read_number (suc k) (be_value (take (suc k) (bytes ++ rest))), suc k)) =
      unfold be_bytes in
      read_varint_lem (whole / 256 ^ k % 256) (suc k) (be_bytes k whole ++ rest) size (omega arith)
        long_enough in
    rw (front, spelt) at read
  where
    long_enough : suc k ≤ length ((whole / 256 ^ k % 256) ∷ (be_bytes k whole ++ rest))
    long_enough = omega (arith, length-append (be_bytes k whole) rest, length-be_bytes k whole)

first_byte_size :
    (k v : ℕ) → k ≤ 7 → v + 1 < 128 ^ suc k → size_of ((128 ^ suc k + v) / 256 ^ k % 256) ≡ suc k
first_byte_size zero v hi h = ground arith
first_byte_size (suc zero) v hi h = ground arith
first_byte_size (suc (suc zero)) v hi h = ground arith
first_byte_size (suc (suc (suc zero))) v hi h = ground arith
first_byte_size (suc (suc (suc (suc zero)))) v hi h = ground arith
first_byte_size (suc (suc (suc (suc (suc zero))))) v hi h = ground arith
first_byte_size (suc (suc (suc (suc (suc (suc zero)))))) v hi h = ground arith
first_byte_size (suc (suc (suc (suc (suc (suc (suc zero))))))) v hi h = ground arith
first_byte_size (suc (suc (suc (suc (suc (suc (suc (suc n)))))))) v hi h = absurd (omega arith)

pow_room : (k : ℕ) → 2 * 128 ^ suc k ≤ 256 ^ suc k
pow_room zero = omega arith
pow_room (suc k) = omega (arith, pow-suc 128 (suc k), pow-suc 256 (suc k), pow_room k)

read_number_value : (n v : ℕ) → v + 1 < 128 ^ n → read_number n (128 ^ n + v) ≡ value v
read_number_value n v h =
    let back : 128 ^ n + v - 128 ^ n ≡ v = omega arith in rw back (ground arith)

-- Any size that has room for the value is read back, the shortest and the padded ones.
pub read_varint-varint_bytes :
    (n v : ℕ) (rest : List ℕ)
    → 1 ≤ n
    → n ≤ 8
    → v + 1 < 128 ^ n
    → read_varint (varint_bytes n v ++ rest) ≡ ok (some (value v, n))
read_varint-varint_bytes zero v rest lo hi h = absurd (omega arith)
read_varint-varint_bytes (suc k) v rest lo hi h =
    let read : read_varint (varint_bytes (suc k) v ++ rest)
        ≡ ok (some (read_number (suc k) (128 ^ suc k + v), suc k)) =
      read_varint-be_bytes k (128 ^ suc k + v) rest (omega arith) (omega (arith, pow_room k))
        (first_byte_size k v (omega arith) h) in
    rw (read_number_value (suc k) v h) at read

pub decode_varint-varint_bytes :
    (n v : ℕ) (rest : List ℕ)
    → 1 ≤ n
    → n ≤ 8
    → v + 1 < 128 ^ n
    → All IsByte rest
    → decode_varint (varint_bytes n v ++ rest) ≡ ok (some (value v, n))
decode_varint-varint_bytes n v rest lo hi h bytes =
    decode_varint-read_varint _
      (All-append IsByte (varint_bytes n v) rest (be_bytes-IsByte n (128 ^ n + v)) bytes)
    ∙ read_varint-varint_bytes n v rest lo hi h

pub decode_varint-shortest :
    (v : ℕ) (rest : List ℕ)
    → v ≤ eight_max
    → All IsByte rest
    → decode_varint (varint_bytes (varint_size v) v ++ rest) ≡ ok (some (value v, varint_size v))
decode_varint-shortest v rest h =
    decode_varint-varint_bytes (varint_size v) v rest (varint_size_bounds v).0
      (varint_size_bounds v).1 (varint_size-fits v h)

module _ (order : ByteOrder) where
  -- A value up to 2 ^ 56 - 2 is written, and `decode_varint` reads it back from what was written,
  -- whatever bytes follow, with the number of bytes written.
  pub decode_varint-encode_varint :
      (v : ℕ) (rest : List ℕ)
      → v ≤ eight_max
      → All IsByte rest
      → let (r, c) = encode_varint order (value v) new_vec in
        (r ≡ ok tt) × (decode_varint (c.bytes ++ rest) ≡ ok (some (value v, length c.bytes)))
  decode_varint-encode_varint v rest h bytes =
      let n : ℕ = varint_size v in
      rw
        (
          encode_varint-varint_bytes order v new_vec,
          le→ltb eight_max v h,
          write_all-at_end [] (varint_bytes n v),
          length-be_bytes n (128 ^ n + v),
        )
        (refl, decode_varint-shortest v rest h bytes)
