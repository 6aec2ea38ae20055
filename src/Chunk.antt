-- ===== src/Chunk.antt =====
-- src/chunk.rs, lines 13 to 104: cluster heads, and chunks with the iteration over their bytes.
pub mod Head
pub mod Chunker
pub mod Documents
pub mod Fits
pub mod Group
pub mod Redecode
pub mod Normal
pub mod Stripped
pub mod Resend
pub mod Again
pub mod Run
pub mod Tests
pub mod Examples
pub mod Limit
use webmetro.Base.{
  ℕ, ◌+◌, ◌-◌, ◌%◌, ◌^◌, Bool, true, false, ◌&&◌, Option, none, some, List, [], take, ltb, leb,
  if◌then◌else◌,
}
use webmetro.ByteOrder.{ByteOrder}
use webmetro.Buffers.{Buffers}
use webmetro.Io.{Cursor, IoResult, ◌>>◌, new_array}
use webmetro.Webm.{cluster, timecode, encode_webm_element}

pub record ClusterHead : Type 0 where
  pub keyframe : Bool
  pub start : ℕ
  pub end : ℕ
  pub bytes : List ℕ

-- `timecode as u64`: the bit pattern of an `i16`, with its sign extended.
unfoldable pub sign_extend : ℕ → ℕ
sign_extend w = if ltb w (2 ^ 15) then w else w + (2 ^ 64 - 2 ^ 16)

-- The sums of `u64` wrap, as they do in a release build.
unfoldable pub observe_simpleblock_timecode : ClusterHead → ℕ → ClusterHead
observe_simpleblock_timecode head w =
    let absolute_timecode = (head.start + sign_extend w) % 2 ^ 64 in
    if ltb head.start absolute_timecode then record head { end = absolute_timecode } else head

module _ (order : ByteOrder) where
  -- The two tags go to an array of 15 bytes. Each write is unwrapped: the first error would panic.
  unfoldable pub write_head : ℕ → IoResult (Unit {0})
  write_head time = encode_webm_element order cluster >> encode_webm_element order (timecode time)

module _ (order : ByteOrder) (buffers : Buffers) where
  open buffers use {clear, extend_from_slice}

  unfoldable pub update_timecode : ClusterHead → ℕ → ClusterHead
  update_timecode head time =
      let delta = (head.end + 2 ^ 64 - head.start) % 2 ^ 64 in
      let cursor = (write_head order time (new_array 15)).1 in
      record head {
        start = time;
        end = (time + delta) % 2 ^ 64;
        bytes = extend_from_slice (clear head.bytes) (take cursor.position cursor.bytes);
      }

  -- `ClusterHead::new`
  unfoldable pub new_head : ℕ → ClusterHead
  new_head time = update_timecode (record { keyframe = false; start = 0; end = 0; bytes = [] }) time

-- The variants `Headers`, `Cluster`, `RemainingBody` and `Empty`.
pub data Chunk : Type 0 where
  headers : List ℕ → Chunk
  cluster_chunk : ClusterHead → List ℕ → Chunk
  remaining_body : List ℕ → Chunk
  empty : Chunk

-- `start` and `stop` are `u128`, to which a `u64` is widened.
unfoldable pub overlaps : Chunk → ℕ → ℕ → Bool
overlaps (cluster_chunk head body) start stop = leb head.start stop && leb start head.end
overlaps _ start stop = true

-- `Iterator::next` of a chunk.
unfoldable pub chunk_next : Chunk → Option (List ℕ) × Chunk
chunk_next (headers bytes) = (some bytes, empty)
chunk_next (cluster_chunk head body) = (some head.bytes, remaining_body body)
chunk_next (remaining_body bytes) = (some bytes, empty)
chunk_next empty = (none, empty)
