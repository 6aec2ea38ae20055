-- ===== src/ByteOrder.antt =====
-- What src/ebml.rs and src/webm.rs use of the crates `byteorder` (`BigEndian::read_*`) and
-- `bytes` (`BufMut::put_*` on a byte slice). The crates are parameters: each operation comes with
-- its documented effect, in plain arithmetic on bytes.
pub mod Reference
use webmetro.Base.{ℕ, ◌+◌, ◌*◌, ◌≤◌, ◌≡◌, List, ◌∷◌, ◌++◌, length, drop}
use webmetro.Base.BigEndian.{be_bytes, be_value}

-- A `put` takes the value and the slice, and gives the slice back with its front overwritten.
-- An `i16` is its bit pattern, below 2 ^ 16.
pub record ByteOrder : Type 0 where
  pub read_uint : List ℕ → ℕ
  pub read_i16 : List ℕ → ℕ
  pub put_uint : ℕ → ℕ → List ℕ → List ℕ
  pub put_u32 : ℕ → List ℕ → List ℕ
  pub put_u64 : ℕ → List ℕ → List ℕ
  pub put_i16 : ℕ → List ℕ → List ℕ
  pub put_u8 : ℕ → List ℕ → List ℕ
  pub read_uint_lem : (bs : List ℕ) → 1 ≤ length bs → length bs ≤ 8 → read_uint bs ≡ be_value bs
  pub read_i16_lem : (hi lo : ℕ) (bs : List ℕ) → read_i16 (hi ∷ lo ∷ bs) ≡ hi * 256 + lo
  pub put_uint_lem :
      (v n : ℕ) (slice : List ℕ)
      → n ≤ 8
      → n ≤ length slice
      → put_uint v n slice ≡ be_bytes n v ++ drop n slice
  pub put_u32_lem :
      (v : ℕ) (slice : List ℕ) → 4 ≤ length slice → put_u32 v slice ≡ be_bytes 4 v ++ drop 4 slice
  pub put_u64_lem :
      (v : ℕ) (slice : List ℕ) → 8 ≤ length slice → put_u64 v slice ≡ be_bytes 8 v ++ drop 8 slice
  pub put_i16_lem :
      (v : ℕ) (slice : List ℕ) → 2 ≤ length slice → put_i16 v slice ≡ be_bytes 2 v ++ drop 2 slice
  pub put_u8_lem :
      (v : ℕ) (slice : List ℕ) → 1 ≤ length slice → put_u8 v slice ≡ be_bytes 1 v ++ drop 1 slice
