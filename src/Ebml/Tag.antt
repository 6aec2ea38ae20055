-- ===== src/Ebml/Tag.antt =====
-- src/ebml.rs, lines 78 to 111 and 164 to 198: element headers, and whole elements written out.
pub mod Write
pub mod Read
use webmetro.Base.{
  ℕ, ◌+◌, ◌-◌, ◌<◌, ◌||◌, Option, none, some, List, length, drop, replicate, ltb, if◌then◌else◌,
  Result, ok, err,
}
use webmetro.ByteOrder.{ByteOrder}
use webmetro.Io.{IoResult, ◌>>=◌, ◌>>◌, write_all, tell, seek_start}
use webmetro.Ebml.Varint.{
  EbmlError, unknown_element_id, corrupt_payload, Varint, value, unknown, decode_varint,
  encode_varint, encode_varint_4,
}

-- The payload size, once the ID and its length are known.
unfoldable pub decode_size :
    ℕ → ℕ → Result EbmlError (Option (Varint × ℕ)) → Result EbmlError (Option (ℕ × Varint × ℕ))
decode_size element_id id_size (ok none) = ok none
decode_size element_id id_size (err e) = err e
decode_size element_id id_size (ok (some (element_length, length_size))) =
    ok (some (element_id, element_length, id_size + length_size))

unfoldable pub decode_id :
    List ℕ → Result EbmlError (Option (Varint × ℕ)) → Result EbmlError (Option (ℕ × Varint × ℕ))
decode_id bytes (ok none) = ok none
decode_id bytes (err e) = err e
decode_id bytes (ok (some (unknown, n))) = err unknown_element_id
decode_id bytes (ok (some (value element_id, id_size))) =
    decode_size element_id id_size (decode_varint (drop id_size bytes))

unfoldable pub decode_tag : List ℕ → Result EbmlError (Option (ℕ × Varint × ℕ))
decode_tag bytes = decode_id bytes (decode_varint bytes)

module _ (order : ByteOrder) where
  open order use {read_uint, put_u64}

  unfoldable pub decode_uint : List ℕ → Result EbmlError ℕ
  decode_uint bytes =
      if ltb (length bytes) 1 || ltb 8 (length bytes)
      then err corrupt_payload
      else ok (read_uint bytes)

  -- The size is written as "unknown", and overwritten once `content` is done. `start - 4` and
  -- `end - start` are the positions that `tell` gave.
  unfoldable pub encode_element : ℕ → IoResult (Unit {0}) → IoResult (Unit {0})
  encode_element tag content = do
    encode_varint order (value tag)
    encode_varint_4 order unknown
    start ← tell
    content
    end ← tell
    seek_start (start - 4)
    encode_varint_4 order (value (end - start))
    seek_start end

  unfoldable pub encode_tag_header : ℕ → Varint → IoResult (Unit {0})
  encode_tag_header tag size = do encode_varint order (value tag); encode_varint order size

  unfoldable pub encode_bytes : ℕ → List ℕ → IoResult (Unit {0})
  encode_bytes tag bytes = do encode_tag_header tag (value (length bytes)); write_all bytes

  unfoldable pub encode_integer : ℕ → ℕ → IoResult (Unit {0})
  encode_integer tag v = do encode_tag_header tag (value 8); write_all (put_u64 v (replicate 8 0))
