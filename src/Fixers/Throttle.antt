-- ===== src/Fixers/Throttle.antt =====
-- src/fixers.rs, lines 84 to 132 and 154: the adapter that lets chunks through in real time.
use webmetro.Base.{Option, none, some, [], ◌∷◌, Result, ok, Poll, ready, pending, if◌then◌else◌}
use webmetro.Error.{WebmetroError}
use webmetro.Chunk.{Chunk, ClusterHead, cluster_chunk}
use webmetro.Clock.{Clock}
use webmetro.Fixers.{ChunkStream}

module _ (clock : Clock) where
  open clock use {Instant, plus, minus, is_reached}

  -- `sleep` is the deadline of the timer.
  pub record Throttle : Type 0 where
    pub stream : ChunkStream
    pub start_time : Option Instant
    pub sleep : Instant

  -- `Throttle::new` at the time `now`
  unfoldable pub throttle : Instant → ChunkStream → Throttle
  throttle now wrap = record { stream = wrap; start_time = none; sleep = now }

  abbrev pub Throttled : Type 0
  Throttled = Poll (Option (Result WebmetroError Chunk)) × Throttle

  -- `get_or_insert_with`
  unfoldable pub started : Option Instant → Instant → Instant
  started none start = start
  started (some start) _ = start

  -- A cluster starts the clock at its end, if it does not run yet, and sets the timer.
  unfoldable pub snooze : Instant → ClusterHead → Throttle → Throttle
  snooze now head th =
      let start = started th.start_time (minus now head.end) in
      record th { start_time = some start; sleep = plus start head.end }

  -- The poll of the stream below, when the timer is ready.
  unfoldable pub pass : Instant → ChunkStream → Throttle → Throttled
  pass now [] th = (ready none, th)
  pass now (pending ∷ stream) th = (pending, record th { stream = stream })
  pass now (ready (ok (cluster_chunk head body)) ∷ stream) th =
      (ready (some (ok (cluster_chunk head body))), snooze now head (record th { stream = stream }))
  pass now (ready item ∷ stream) th = (ready (some item), record th { stream = stream })

  -- `poll_next`: the timer reads the clock as `polled`, `Instant::now()` then gives `now`.
  unfoldable pub poll_throttled : Instant → Instant → Throttle → Throttled
  poll_throttled polled now th =
      if is_reached th.sleep polled then pass now th.stream th else (pending, th)
