-- ===== src/Ebml/Tag/Write.antt =====
-- What the element encoders write: header and payload, appended.
use webmetro.Base.{
  ℕ, ◌^◌, ◌+◌, ◌-◌, ◌≤◌, ◌≡◌, ◌∙◌, arith, false, List, [], ◌∷◌, ◌++◌, length, replicate, ok, none,
  le→ltb, append_assoc, append-nil, length-append,
}
use webmetro.Base.BigEndian.{be_bytes, length-be_bytes}
use webmetro.ByteOrder.{ByteOrder}
use webmetro.Io.{IoResult, write_all, tell, seek_start}
use webmetro.Io.Append.{
  at_end, Appends, write_all-Appends, Appends-append, write_all-at_end, write_all-middle,
}
use webmetro.Ebml.Varint.{value, unknown, eight_max, four_max, encode_varint}
use webmetro.Ebml.Varint.Encode.{
  varint_size, varint_bytes, encode_varint-varint_bytes, encode_varint_unknown,
  encode_varint_4-varint_bytes, encode_varint_4_unknown,
}
use webmetro.Ebml.Tag.{encode_element, encode_tag_header, encode_bytes, encode_integer}

-- The shortest varint of `v`.
abbrev pub shortest : ℕ → List ℕ
shortest v = varint_bytes (varint_size v) v

write_all_over :
    (xs old ys out : List ℕ)
    → length out ≡ length old
    → write_all out (record { bytes = xs ++ old ++ ys; position = length xs; fixed = false }) ≡ (
      ok tt,
      record { bytes = xs ++ out ++ ys; position = length xs + length out; fixed = false },
    )
write_all_over xs old ys out e =
    rw (append_assoc xs old ys, append_assoc xs out ys) (write_all-middle xs old ys out e)

module _ (order : ByteOrder) where
  open order use {put_u64_lem}

  pub encode_varint-Appends :
      (v : ℕ) → v ≤ eight_max → Appends (encode_varint order (value v)) (shortest v)
  encode_varint-Appends v h room bs fits =
      encode_varint-varint_bytes order v _
      ∙ rw (le→ltb eight_max v h) (write_all-Appends (shortest v) room bs fits)

  pub encode_varint_unknown-Appends : Appends (encode_varint order unknown) (0xff ∷ [])
  encode_varint_unknown-Appends room bs fits =
      encode_varint_unknown order _ ∙ write_all-Appends (0xff ∷ []) room bs fits

  pub encode_tag_header-Appends :
      (tag size : ℕ)
      → tag ≤ eight_max
      → size ≤ eight_max
      → Appends (encode_tag_header order tag (value size)) (shortest tag ++ shortest size)
  unfolding encode_tag_header
  encode_tag_header-Appends tag size ht hs =
      Appends-append (encode_varint order (value tag)) (encode_varint order (value size))
        (shortest tag) (shortest size) (encode_varint-Appends tag ht)
        (encode_varint-Appends size hs)

  pub encode_tag_header_unknown-Appends :
      (tag : ℕ)
      → tag ≤ eight_max
      → Appends (encode_tag_header order tag unknown) (shortest tag ++ (0xff ∷ []))
  unfolding encode_tag_header
  encode_tag_header_unknown-Appends tag ht =
      Appends-append (encode_varint order (value tag)) (encode_varint order unknown) (shortest tag)
        (0xff ∷ []) (encode_varint-Appends tag ht) encode_varint_unknown-Appends

  pub encode_bytes-Appends :
      (tag : ℕ) (bytes : List ℕ)
      → tag ≤ eight_max
      → length bytes ≤ eight_max
      → Appends (encode_bytes order tag bytes) (shortest tag ++ shortest (length bytes) ++ bytes)
  unfolding encode_bytes
  encode_bytes-Appends tag bytes ht hs =
      Appends-append (encode_tag_header order tag (value (length bytes))) (write_all bytes)
        (shortest tag ++ shortest (length bytes)) bytes
        (encode_tag_header-Appends tag (length bytes) ht hs) (write_all-Appends bytes)

  pub encode_integer-Appends :
      (tag v : ℕ)
      → tag ≤ eight_max
      → Appends (encode_integer order tag v) (shortest tag ++ shortest 8 ++ be_bytes 8 v)
  unfolding encode_integer
  encode_integer-Appends tag v ht =
      let zeros : List ℕ = replicate 8 0 in
      rw (put_u64_lem v zeros (omega arith), append-nil (be_bytes 8 v))
        (Appends-append (encode_tag_header order tag (value 8)) (write_all (be_bytes 8 v))
          (shortest tag ++ shortest 8) (be_bytes 8 v)
          (encode_tag_header-Appends tag 8 ht (omega arith)) (write_all-Appends (be_bytes 8 v)))

  -- Into a growing vector `encode_element` puts the ID, the size of the content in four bytes, and
  -- the content.
  pub encode_element-at_end :
      (tag : ℕ) (content : IoResult (Unit {0})) (body bs : List ℕ)
      → tag ≤ eight_max
      → length body ≤ four_max
      → Appends content body
      → encode_element order tag content (at_end bs)
        ≡ (ok tt, at_end (bs ++ (shortest tag ++ varint_bytes 4 (length body) ++ body)))
  unfolding encode_element tell seek_start
  encode_element-at_end tag content body bs ht hb hc =
      let id : List ℕ = shortest tag in
      let blank : List ℕ = be_bytes 4 0x1fffffff in
      let size : List ℕ = varint_bytes 4 (length body) in
      let back : length (bs ++ id ++ blank) - 4 ≡ length (bs ++ id) =
        omega (arith, length-append (bs ++ id) blank, length-be_bytes 4 0x1fffffff) in
      let long : length (bs ++ id ++ blank ++ body) - length (bs ++ id ++ blank) ≡ length body =
        omega (arith, length-append (bs ++ id ++ blank) body) in
      let same : length (bs ++ id ++ blank ++ body) ≡ length (bs ++ id ++ size ++ body) = rw (
        length-append (bs ++ id ++ blank) body,
        length-append (bs ++ id) blank,
        length-append (bs ++ id ++ size) body,
        length-append (bs ++ id) size,
        length-be_bytes 4 0x1fffffff,
        length-be_bytes 4 (128 ^ 4 + length body),
      ) in
      let joined : bs ++ id ++ size ++ body ≡ bs ++ (id ++ size ++ body) = simp append_assoc in
      rw (
        encode_varint-Appends tag ht none bs tt,
        encode_varint_4_unknown order (at_end (bs ++ id)),
        write_all-at_end (bs ++ id) blank,
        hc none (bs ++ id ++ blank) tt,
        back,
        long,
        encode_varint_4-varint_bytes order (length body) _,
        le→ltb four_max (length body) hb,
        write_all_over (bs ++ id) blank body size
            (rw (length-be_bytes 4 (128 ^ 4 + length body), length-be_bytes 4 0x1fffffff)),
        same,
        joined,
      )
