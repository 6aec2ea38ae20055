-- ===== src/Fixers/Tests.antt =====
-- The theorems on the fixers at concrete inputs.
use webmetro.Base.{
  none, some, All, ◌≡◌, suc, arith, refl, List, [], ◌∷◌, ok, true, false, Bool, ready, pending, ℕ,
}
use webmetro.ByteOrder.Reference.{reference}
use webmetro.Buffers.Reference.{list_buffers}
use webmetro.Chunk.{Chunk, headers, cluster_chunk}
use webmetro.Chunk.Head.{head_bytes}
use webmetro.Fixers.{ChunkStream, find_starting_point, new_fixer}
use webmetro.Clock.Reference.{counter}
use webmetro.Fixers.Throttle.{Throttle, started, snooze, pass, poll_throttled}
use webmetro.Fixers.Pace.{poll_at, given}
use webmetro.Fixers.Pace.Timing.{given-waits, given-AreInTime}
use webmetro.Fixers.Timecodes.{IsSpan, AreMoved, process_all, process_all-AreMoved}
use webmetro.Fixers.StartingPoint.{found_all, shown, found_all-shown}

abbrev cluster_at : Bool → ℕ → ℕ → Chunk
cluster_at keyframe start end =
    cluster_chunk
      (record { keyframe = keyframe; start = start; end = end; bytes = head_bytes start })
      (1 ∷ 2 ∷ [])

-- A source that starts again at time 0.
abbrev restarting : List Chunk
restarting =
    headers (9 ∷ [])
    ∷ cluster_at true 0 1000
    ∷ headers (9 ∷ [])
    ∷ cluster_at true 0 500
    ∷ cluster_at false 600 700
    ∷ []

restarting-IsSpan : All (IsSpan 1000) restarting
restarting-IsSpan = (
  tt,
  (
    (omega arith, omega arith),
    (tt, ((omega arith, omega arith), ((omega arith, omega arith), tt))),
  ),
)

abbrev steady : List Chunk
steady = headers (9 ∷ []) ∷ cluster_at true 0 1000 ∷ cluster_at false 1000 1500 ∷ []

process_all-AreMoved_example :
    AreMoved 0 restarting (process_all reference list_buffers new_fixer restarting)
process_all-AreMoved_example =
    process_all-AreMoved reference list_buffers new_fixer restarting 1000
      (record { gap = refl; offset = omega arith }) restarting-IsSpan (omega arith)

-- A listener that joins between keyframes of a stream that then begins anew.
abbrev joined : ChunkStream
joined =
    ready (ok (headers (9 ∷ [])))
    ∷ ready (ok (cluster_at false 0 10))
    ∷ pending
    ∷ ready (ok (cluster_at true 10 20))
    ∷ ready (ok (headers (9 ∷ [])))
    ∷ ready (ok (cluster_at false 20 30))
    ∷ ready (ok (cluster_at true 30 40))
    ∷ []

found_all-shown_example : found_all (suc 7) (find_starting_point joined) ≡ shown [] joined
found_all-shown_example = found_all-shown joined 7 (omega arith)

-- A header and two clusters, the second a second long.
abbrev film : ChunkStream
film =
    ready (ok (headers (9 ∷ [])))
    ∷ ready (ok (cluster_at true 0 40))
    ∷ pending
    ∷ ready (ok (cluster_at false 40 1040))
    ∷ ready (ok (cluster_at false 1040 1080))
    ∷ []

abbrev film_throttle : Throttle counter
film_throttle = record { stream = film; start_time = none; sleep = 5000 }

-- The clock runs from 4000, the second cluster is due.
abbrev running : Throttle counter
running = record {
  stream =
      pending
      ∷ ready (ok (cluster_at false 40 1040))
      ∷ ready (ok (cluster_at false 1040 1080))
      ∷ [];
  start_time = some 4000;
  sleep = 4040;
}

given-waits_example :
    given counter ((4041, 4041) ∷ (4042, 4042) ∷ (5039, 5039) ∷ []) running
    ≡ ok (cluster_at false 40 1040) ∷ []
unfolding poll_at poll_throttled pass given
given-waits_example =
    given-waits counter ((4041, 4041) ∷ []) running 4000 4042 4042
      (record { keyframe = false; start = 40; end = 1040; bytes = head_bytes 40 }) (1 ∷ 2 ∷ [])
      (ready (ok (cluster_at false 1040 1080)) ∷ []) ((5039, 5039) ∷ []) refl refl refl (refl, tt)

given-AreInTime_example :
    given counter ((4041, 4041) ∷ (4042, 4042) ∷ (5040, 5041) ∷ []) running
    ≡ ok (cluster_at false 40 1040) ∷ ok (cluster_at false 1040 1080) ∷ []
unfolding poll_throttled pass snooze started
given-AreInTime_example =
    given-AreInTime counter ((4041, 4041) ∷ (4042, 4042) ∷ (5040, 5041) ∷ []) running
      (refl, (refl, (refl, tt))) (omega arith)
