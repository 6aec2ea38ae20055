-- ===== src/Chunk/Head.antt =====
-- The 15 bytes at the front of a cluster, and its time span.
use webmetro.Base.{
  ltb, leb, ◌==◌, if◌then◌else◌, ℕ, ◌+◌, ◌-◌, ◌%◌, ◌≤◌, ◌<◌, ◌^◌, ◌≡◌, refl, arith, List, [], ◌++◌,
  length, leb, ◌==◌, if◌then◌else◌, some, ok, take, append-nil, true, take-ge_length,
}
use webmetro.Base.BigEndian.{be_bytes}
use webmetro.ByteOrder.{ByteOrder}
use webmetro.Buffers.{Buffers}
use webmetro.Io.{new_array}
use webmetro.Io.Append.{Appends, Appends-append}
use webmetro.Ebml.Varint.Encode.{varint_size}
use webmetro.Ebml.Tag.Write.{encode_tag_header_unknown-Appends, encode_integer-Appends}
use webmetro.Webm.{cluster, timecode, cluster_id, timecode_id, encode_webm_element}
use webmetro.Webm.Write.{webm_bytes}
use webmetro.Chunk.{
  ClusterHead, sign_extend, observe_simpleblock_timecode, write_head, update_timecode,
}

-- A cluster tag of unknown size, and a timecode.
abbrev pub head_bytes : ℕ → List ℕ
head_bytes t = webm_bytes cluster ++ webm_bytes (timecode t)

length-head_bytes : (t : ℕ) → length (head_bytes t) ≡ 15
unfolding varint_size be_bytes
length-head_bytes t = refl

module _ (order : ByteOrder) where
  write_head-Appends : (t : ℕ) → Appends (write_head order t) (head_bytes t)
  unfolding write_head encode_webm_element
  write_head-Appends t =
      Appends-append (encode_webm_element order cluster) (encode_webm_element order (timecode t))
        (webm_bytes cluster) (webm_bytes (timecode t))
        (encode_tag_header_unknown-Appends order cluster_id (omega arith))
        (encode_integer-Appends order timecode_id t (omega arith))

  -- Both tags are written into the array of 15 bytes with success, for every timecode, and they
  -- fill it: its bytes are the cluster tag of unknown size and the timecode element.
  pub write_head-new_array :
      (t : ℕ)
      → write_head order t (new_array 15)
        ≡ (ok tt, record { bytes = head_bytes t; position = 15; fixed = true })
  write_head-new_array t =
      let len : length (head_bytes t) ≡ 15 = length-head_bytes t in
      let fits : length (head_bytes t) ≤ 15 = omega (arith, len) in
      rw (len, append-nil (head_bytes t)) at (write_head-Appends t (some 15) [] fits)

  module _ (buffers : Buffers) where
    open buffers use {clear_lem, extend_from_slice_lem}

    -- Whatever the head was, it starts at `t` then, and has the bytes for `t`.
    pub update_timecode-head_bytes :
        (head : ClusterHead) (t : ℕ)
        → let head' = update_timecode order buffers head t in
          (head'.start ≡ t) × (head'.bytes ≡ head_bytes t)
    unfolding update_timecode
    update_timecode-head_bytes head t =
        let all : take 15 (head_bytes t) ≡ head_bytes t =
          take-ge_length 15 (head_bytes t) (omega (arith, length-head_bytes t)) in
        rw (write_head-new_array t, all, clear_lem, extend_from_slice_lem) (refl, refl)

    -- A head is moved to any timecode `t` with its duration kept, its bytes replaced by those for
    -- `t`, and its keyframe flag untouched, when its start is not behind its end and the new end is below 2^64.
    pub update_timecode_lem :
        (head : ClusterHead) (t : ℕ)
        → head.start ≤ head.end
        → head.end < 2 ^ 64
        → t + (head.end - head.start) < 2 ^ 64
        → update_timecode order buffers head t ≡ record {
          keyframe = head.keyframe;
          start = t;
          end = t + (head.end - head.start);
          bytes = head_bytes t;
        }
    unfolding update_timecode
    update_timecode_lem head t ordered small fits =
        let delta : (head.end + 2 ^ 64 - head.start) % 2 ^ 64 ≡ head.end - head.start =
          omega arith in
        let sum : (t + (head.end - head.start)) % 2 ^ 64 ≡ t + (head.end - head.start) =
          omega arith in
        let all : take 15 (head_bytes t) ≡ head_bytes t =
          take-ge_length 15 (head_bytes t) (omega (arith, length-head_bytes t)) in
        rw (write_head-new_array t, delta, sum, all, clear_lem, extend_from_slice_lem)

-- The end of a cluster after a block at `w`, an `i16` by its bits: a time behind the start moves the
-- end, an earlier one does not, and one before time 0 comes out just below 2^64.
abbrev pub observed_end : ClusterHead → ℕ → ℕ
observed_end head w =
    if ltb w (2 ^ 15)
    then (if w == 0 then head.end else head.start + w)
    else (if leb (2 ^ 16 - w) head.start then head.end else 2 ^ 64 - (2 ^ 16 - w - head.start))

-- For a start below 2^64 - 2^15, a block moves the end of its cluster to its own time if that is
-- behind the start, and leaves it for a time at or before the start; but a negative time that
-- lies before time 0 sets the end to a number just below 2^64.
pub observe_simpleblock_timecode-observed_end :
    (head : ClusterHead) (w : ℕ)
    → w < 2 ^ 16
    → head.start < 2 ^ 64 - 2 ^ 15
    → observe_simpleblock_timecode head w ≡ record head { end = observed_end head w }
unfolding observe_simpleblock_timecode sign_extend
observe_simpleblock_timecode-observed_end head w hw hs = ground arith
