-- ===== src/StreamParser/Typed.antt =====
-- The elements that the parser gives are in the ranges of their Rust types.
use webmetro.Base.{
  ℕ, zero, suc, ◌+◌, ◌<◌, List, length, drop, All, All-drop, Decoded-cases, inl, inr,
}
use webmetro.ByteOrder.{ByteOrder}
use webmetro.Buffers.{Buffers}
use webmetro.Ebml.Varint.Decode.{IsByte}
use webmetro.Ebml.Element.{decode_element}
use webmetro.Webm.{webm}
use webmetro.Webm.Typed.{IsTyped, decode_element-IsTyped}
use webmetro.StreamParser.{Arrival, parse_ebml}
use webmetro.StreamParser.Feed.{content, IsFeed, content-IsByte}
use webmetro.StreamParser.Run.{
  poll_all, decode_all, decode_all-some, decode_all-none, decode_all-err, poll_all-decode_all,
}

module _ (order : ByteOrder) where
  pub decode_all-IsTyped :
      (fuel : ℕ) (bs : List ℕ) → All IsByte bs → All IsTyped (decode_all (webm order) fuel bs).0
  decode_all-IsTyped zero bs h = unfold decode_all in tt
  decode_all-IsTyped (suc fuel) bs h = elim (Decoded-cases (decode_element (webm order) bs)) [
    | inl e ↦ rw (decode_all-none (webm order) fuel bs e) tt
    | inr (inl (x, e)) ↦ rw (decode_all-err (webm order) fuel bs e) tt
    | inr (inr ((x, n), e)) ↦ rw (decode_all-some (webm order) fuel bs e) (
      decode_element-IsTyped order bs h e,
      decode_all-IsTyped fuel (drop n bs) (All-drop IsByte n bs h),
    )
  ]

  -- For every feed (bytes in any pieces and with any waits, and no error) and no buffer limit,
  -- every element that the parser gives, polled with fuel above the number of bytes and arrivals,
  -- is in the ranges of its Rust types: a timecode is below 2^64, a block's track below 2^56, its
  -- time two bytes, its flags one byte, the data of a block and of tracks are bytes, and the
  -- number of an unknown element is below 2^56.
  pub poll_all-IsTyped :
      (buffers : Buffers) (s : List Arrival) (fuel : ℕ)
      → IsFeed s
      → length (content s) + length s < fuel
      → All IsTyped (poll_all buffers (webm order) fuel (parse_ebml s)).0
  poll_all-IsTyped buffers s fuel feed enough =
      rw (poll_all-decode_all buffers (webm order) s fuel feed enough)
        (decode_all-IsTyped (suc (length (content s))) (content s) (content-IsByte s feed))
