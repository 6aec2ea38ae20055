-- ===== src/Fixers.antt =====
-- src/fixers.rs, lines 10 to 82: the two adapters of a chunk stream that keep state, but for the
-- clock.
pub mod Timecodes
pub mod StartingPoint
pub mod Throttle
pub mod Pace
mod Tests
use webmetro.Base.{
  ℕ, ◌+◌, ◌-◌, ◌%◌, ◌^◌, Bool, true, false, ◌||◌, Option, none, some, List, [], ◌∷◌, ltb,
  if◌then◌else◌, Result, ok, err, Poll, ready, pending,
}
use webmetro.ByteOrder.{ByteOrder}
use webmetro.Buffers.{Buffers}
use webmetro.Error.{WebmetroError}
use webmetro.Chunk.{ClusterHead, update_timecode, Chunk, headers, cluster_chunk}

pub record ChunkTimecodeFixer : Type 0 where
  pub current_offset : ℕ
  pub last_observed_timecode : ℕ
  pub assumed_duration : ℕ

-- `ChunkTimecodeFixer::new`
abbrev pub new_fixer : ChunkTimecodeFixer
new_fixer = record { current_offset = 0; last_observed_timecode = 0; assumed_duration = 33 }

-- The sums and differences of `u64` wrap, as they do in a release build.
unfoldable pub rebase : ChunkTimecodeFixer → ℕ → ChunkTimecodeFixer
rebase f start =
    if ltb start f.last_observed_timecode
    then (let next_timecode = (f.last_observed_timecode + f.assumed_duration) % 2 ^ 64 in
        record f { current_offset = (next_timecode + 2 ^ 64 - start) % 2 ^ 64 })
    else f

module _ (order : ByteOrder) (buffers : Buffers) where
  unfoldable pub process : ChunkTimecodeFixer → Chunk → Chunk × ChunkTimecodeFixer
  process f (cluster_chunk head body) =
      let rebased = rebase f head.start in
      let head' =
        update_timecode order buffers head ((head.start + rebased.current_offset) % 2 ^ 64) in
      (cluster_chunk head' body, record rebased { last_observed_timecode = head'.end })
  process f chunk = (chunk, f)

-- What the polls of the stream of chunks give, in their order, up to its end.
abbrev pub ChunkStream : Type 0
ChunkStream = List (Poll (Result WebmetroError Chunk))

pub record StartingPointFinder : Type 0 where
  pub stream : ChunkStream
  pub seen_header : Bool
  pub seen_keyframe : Bool

unfoldable pub find_starting_point : ChunkStream → StartingPointFinder
find_starting_point stream = record { stream = stream; seen_header = false; seen_keyframe = false }

-- One turn of the loop: `none` skips the chunk.
unfoldable pub admit : Chunk → Bool → Bool → Option Chunk × (Bool × Bool)
admit (cluster_chunk head body) seen_header seen_keyframe =
    let seen = head.keyframe || seen_keyframe in
    if seen
    then (some (cluster_chunk head body), (seen_header, seen))
    else (none, (seen_header, seen))
admit (headers bytes) seen_header seen_keyframe =
    if seen_header
    then (none, (seen_header, false))
    else (some (headers bytes), (true, seen_keyframe))
admit chunk seen_header seen_keyframe = (some chunk, (seen_header, seen_keyframe))

abbrev pub Found : Type 0
Found = Poll (Option (Result WebmetroError Chunk)) × StartingPointFinder

unfoldable pub found : ChunkStream → Option Chunk × (Bool × Bool) → (Bool → Bool → Found) → Found
found stream (some chunk, (seen_header, seen_keyframe)) continue = (
  ready (some (ok chunk)),
  record { stream = stream; seen_header = seen_header; seen_keyframe = seen_keyframe },
)
found stream (none, (seen_header, seen_keyframe)) continue = continue seen_header seen_keyframe

-- The loop of `poll_next`, by what the stream still has to give.
unfoldable pub find : ChunkStream → Bool → Bool → Found
find [] h k = (ready none, record { stream = []; seen_header = h; seen_keyframe = k })
find (pending ∷ s) h k = (pending, record { stream = s; seen_header = h; seen_keyframe = k })
find (ready (err e) ∷ s) h k =
    (ready (some (err e)), record { stream = s; seen_header = h; seen_keyframe = k })
find (ready (ok chunk) ∷ s) h k = found s (admit chunk h k) (λ h' k'. find s h' k')

unfoldable pub poll_found : StartingPointFinder → Found
poll_found f = find f.stream f.seen_header f.seen_keyframe
