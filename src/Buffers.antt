-- ===== src/Buffers.antt =====
-- What src/stream_parser.rs and src/chunk.rs use of the crate `bytes`: `BytesMut` and `Bytes`. A
-- buffer is the list of the bytes that it holds, and the crate's operations on it are parameters
-- with their documented effect. Out of range they panic, and then nothing is said of them.
pub mod Reference
use webmetro.Base.{ℕ, ◌≤◌, ◌≡◌, List, [], ◌++◌, length, take, drop}

-- `split_to` gives what it cuts off, and what is left in the buffer.
pub record Buffers : Type 0 where
  pub split_to : List ℕ → ℕ → List ℕ × List ℕ
  pub advance : List ℕ → ℕ → List ℕ
  pub put : List ℕ → List ℕ → List ℕ
  pub clear : List ℕ → List ℕ
  pub extend_from_slice : List ℕ → List ℕ → List ℕ
  pub split_to_lem : (b : List ℕ) (n : ℕ) → n ≤ length b → split_to b n ≡ (take n b, drop n b)
  pub advance_lem : (b : List ℕ) (n : ℕ) → n ≤ length b → advance b n ≡ drop n b
  pub put_lem : (b more : List ℕ) → put b more ≡ b ++ more
  pub clear_lem : (b : List ℕ) → clear b ≡ []
  pub extend_from_slice_lem : (b more : List ℕ) → extend_from_slice b more ≡ b ++ more
