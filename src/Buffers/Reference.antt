-- ===== src/Buffers/Reference.antt =====
-- An implementation of the buffer operations, which shows that their laws can be met.
use webmetro.Base.{refl, [], ◌++◌, take, drop}
use webmetro.Buffers.{Buffers}

abbrev pub list_buffers : Buffers
list_buffers = record {
  split_to = λ b n. (take n b, drop n b);
  advance = λ b n. drop n b;
  put = λ b more. b ++ more;
  clear = λ b. [];
  extend_from_slice = λ b more. b ++ more;
  split_to_lem = λ b n h. refl;
  advance_lem = λ b n h. refl;
  put_lem = λ b more. refl;
  clear_lem = λ b. refl;
  extend_from_slice_lem = λ b more. refl;
}
