-- ===== src/Ebml/Tag/Read.antt =====
-- Reading back a header that has been written.
use webmetro.Base.{ℕ, ◌+◌, ◌≤◌, ◌≡◌, List, ◌++◌, length, drop, All, ok, some, drop-length_append}
use webmetro.Base.BigEndian.{be_bytes-IsByte, length-be_bytes}
use webmetro.Ebml.Varint.{Varint, eight_max, decode_varint}
use webmetro.Ebml.Varint.Decode.{IsByte}
use webmetro.Ebml.Varint.Encode.{varint_size}
use webmetro.Ebml.Varint.RoundTrip.{decode_varint-shortest}
use webmetro.Ebml.Tag.{decode_tag, decode_id, decode_size}
use webmetro.Ebml.Tag.Write.{shortest}

pub shortest-IsByte : (v : ℕ) → All IsByte (shortest v)
shortest-IsByte v = be_bytes-IsByte _ _

pub length-shortest : (v : ℕ) → length (shortest v) ≡ varint_size v
length-shortest v = length-be_bytes _ _

-- An ID in its shortest form, and behind it any size that `decode_varint` reads.
pub decode_tag-shortest :
    (tag n : ℕ) (size : Varint) (rest : List ℕ)
    → tag ≤ eight_max
    → All IsByte rest
    → decode_varint rest ≡ ok (some (size, n))
    → decode_tag (shortest tag ++ rest) ≡ ok (some (tag, size, length (shortest tag) + n))
unfolding decode_tag decode_id decode_size
decode_tag-shortest tag n size rest ht h e =
    let id : List ℕ = shortest tag in
    let gone : drop (varint_size tag) (id ++ rest) ≡ rest =
      rw (length-shortest tag) at (drop-length_append id rest) in
    rw (decode_varint-shortest tag rest ht h, gone, e, length-shortest tag)
