-- ===== src/ByteOrder/Reference.antt =====
-- An implementation of the byte-order operations, which shows that their laws can be met.
use webmetro.Base.{ℕ, ◌+◌, ◌*◌, ◌≡◌, refl, List, ◌∷◌, ◌++◌, drop}
use webmetro.Base.BigEndian.{be_bytes, be_value}
use webmetro.ByteOrder.{ByteOrder}

unfoldable pub read_two : List ℕ → ℕ
read_two (hi ∷ lo ∷ bs) = hi * 256 + lo
read_two _ = 0

pub read_two_lem : (hi lo : ℕ) (bs : List ℕ) → read_two (hi ∷ lo ∷ bs) ≡ hi * 256 + lo
unfolding read_two
read_two_lem hi lo bs = refl

abbrev pub reference : ByteOrder
reference = record {
  read_uint = be_value;
  read_i16 = read_two;
  put_uint = λ v n slice. be_bytes n v ++ drop n slice;
  put_u32 = λ v slice. be_bytes 4 v ++ drop 4 slice;
  put_u64 = λ v slice. be_bytes 8 v ++ drop 8 slice;
  put_i16 = λ v slice. be_bytes 2 v ++ drop 2 slice;
  put_u8 = λ v slice. be_bytes 1 v ++ drop 1 slice;
  read_uint_lem = λ bs lo hi. refl;
  read_i16_lem = read_two_lem;
  put_uint_lem = λ v n slice fits room. refl;
  put_u32_lem = λ v slice room. refl;
  put_u64_lem = λ v slice room. refl;
  put_i16_lem = λ v slice room. refl;
  put_u8_lem = λ v slice room. refl;
}
