-- ===== src/Commands/Paced/InTime.antt =====
-- With the throttle or without it: the same chunks.
use mathlib.Core.Option
use webmetro.Base.{
  ℕ, suc, ◌<◌, ◌≡◌, ◌∙◌, refl, ap, arith, Bool, true, false, Option, none, some, List, length-drop,
  Poll, [], ◌∷◌, length, map, ok, err, ready, pending,
}
use webmetro.ByteOrder.{ByteOrder}
use webmetro.Buffers.{Buffers}
use webmetro.Clock.{Clock}
use webmetro.StreamParser.{Arrival, parse_ebml}
use webmetro.Chunk.{Chunk, headers, cluster_chunk, remaining_body, empty}
use webmetro.Chunk.Chunker.{chunk_webm}
use webmetro.Chunk.Run.{chunk_all}
use webmetro.Fixers.{ChunkStream}
use webmetro.Fixers.Throttle.{Throttle, throttle, snooze, pass, poll_throttled}
use webmetro.Fixers.Pace.{Item, Readings, items_of}
use webmetro.Fixers.Pace.Timing.{AreInTime, pass-stream}
use webmetro.Streams.{Stream, Streams}
use webmetro.Commands.{Duration}
use webmetro.Commands.Filter.{Output, chunk_stream, copy_chunks, run_filter}
use webmetro.Commands.Paced.{FilterArgs, next_chunk, drained, paced, paced_chunks, filter_run}

items_of-map : (items : Stream Chunk) → items_of (map ready items) ≡ items
items_of-map [] = refl
items_of-map (item ∷ items) = ap (◌∷◌ item) (items_of-map items)

length-map : (items : Stream Chunk) → length (map {B = Poll Item} ready items) ≡ length items
length-map [] = refl
length-map (item ∷ items) = ap suc (length-map items)

module _ (clock : Clock) where
  open clock use {Instant, is_reached}

  -- One poll when the timer is ready.
  next_chunk-pass :
      (now : Instant) (s : ChunkStream) (th : Throttle clock) (rest : Option (Stream Chunk))
      → th.stream ≡ s
      → (0 < length s → rest ≡ some (items_of (pass clock now s th).1.stream))
      → next_chunk (pass clock now s th).0 rest ≡ some (items_of s)
  unfolding pass snooze next_chunk
  next_chunk-pass now [] th rest e h = refl
  next_chunk-pass now (pending ∷ s) th rest e h = h (omega arith)
  next_chunk-pass now (ready (err x) ∷ s) th rest e h = rw (h (omega arith)) refl
  next_chunk-pass now (ready (ok (headers b)) ∷ s) th rest e h = rw (h (omega arith)) refl
  next_chunk-pass now (ready (ok (cluster_chunk c b)) ∷ s) th rest e h = rw (h (omega arith)) refl
  next_chunk-pass now (ready (ok (remaining_body b)) ∷ s) th rest e h = rw (h (omega arith)) refl
  next_chunk-pass now (ready (ok empty) ∷ s) th rest e h = rw (h (omega arith)) refl

  -- Polled once more than its stream has answers, each time in time, the throttle gives all items.
  drained-items_of :
      (readings : Readings clock) (th : Throttle clock)
      → AreInTime clock readings th
      → length th.stream < length readings
      → drained clock readings th ≡ some (items_of th.stream)
  unfolding drained poll_throttled
  drained-items_of [] th h long = absurd (omega (arith, long))
  drained-items_of ((polled, now) ∷ readings) th (reached, h) long =
      let th' = (pass clock now th.stream th).1 in
      let later : AreInTime clock readings th' = rw reached at h in
      let moved = pass-stream clock now th.stream th refl in
      let rest : 0 < length th.stream → drained clock readings th' ≡ some (items_of th'.stream) =
        λ pos.
          drained-items_of readings th' later
            (rw moved (omega (arith, length-drop 1 th.stream, long, pos))) in
      rw reached (next_chunk-pass now th.stream th (drained clock readings th') refl rest)

  -- The polls of a throttle in front of the items: one more than there are items, each when the timer is ready.
  abbrev pub AreEnough : Bool → Instant → Readings clock → Stream Chunk → Type 0
  AreEnough false now readings items = Unit
  AreEnough true now readings items =
      AreInTime clock readings (throttle clock now (map ready items))
      × (length items < length readings)

  pub paced_lem :
      (throttled : Bool) (now : Instant) (readings : Readings clock) (items : Stream Chunk)
      → AreEnough throttled now readings items
      → paced clock throttled now readings items ≡ some items
  unfolding paced throttle
  paced_lem false now readings items h = refl
  paced_lem true now readings items (in_time, long) =
      drained-items_of readings (throttle clock now (map ready items)) in_time
        (rw (length-map items) long)
      ∙ ap some (items_of-map items)

  module _ (streams : Streams) (order : ByteOrder) (buffers : Buffers) where
    abbrev pub AreEnoughFor :
        Bool
        → Option Duration
        → Option Duration
        → Instant
        → Readings clock
        → Option (Stream Chunk)
        → Type 0
    AreEnoughFor throttled skip take now readings none = Unit
    AreEnoughFor throttled skip take now readings (some items) =
        AreEnough throttled now readings (chunk_stream streams order buffers skip take items)

    pub paced_chunks_lem :
        (throttled : Bool) (skip take : Option Duration) (now : Instant) (readings : Readings clock)
        (items : Option (Stream Chunk))
        → AreEnoughFor throttled skip take now readings items
        → paced_chunks clock streams order buffers throttled skip take now readings items
          ≡ Option.map (chunk_stream streams order buffers skip take) items
    unfolding paced_chunks
    paced_chunks_lem throttled skip take now readings none h = refl
    paced_chunks_lem throttled skip take now readings (some items) h =
        paced_lem throttled now readings (chunk_stream streams order buffers skip take items) h

    module _ (output : Output) where
      open output use {Out}

      copied_lem :
          (args : FilterArgs) (out : Out) (items : Option (Stream Chunk))
          → Option.map
              (λ cs. copy_chunks streams order buffers output cs out)
              (Option.map (chunk_stream streams order buffers args.skip args.take) items)
            ≡ Option.map
                (λ cs.
                  copy_chunks streams order buffers output
                    (chunk_stream streams order buffers args.skip args.take cs)
                    out)
                items
      copied_lem args out none = refl
      copied_lem args out (some items) = refl

      -- Whatever its arguments, `filter` writes with the throttle what it writes without: its
      -- result and its output are those of the loop over the chain of adapters alone, on every
      -- input, errors included, and every output, if the throttle, where there is one, is polled
      -- more often than the chain has items, each time when its timer is ready.
      pub filter_run-run_filter :
          (fuel : ℕ) (now : Instant) (readings : Readings clock) (args : FilterArgs)
          (stdin : List Arrival) (out : Out)
          → AreEnoughFor args.throttle args.skip args.take now readings
              (chunk_all order buffers fuel (chunk_webm (parse_ebml stdin)))
          → filter_run clock streams order buffers output fuel now readings args stdin out
            ≡ run_filter streams order buffers output fuel args.skip args.take stdin out
      unfolding filter_run run_filter
      filter_run-run_filter fuel now readings args stdin out h =
          let items = chunk_all order buffers fuel (chunk_webm (parse_ebml stdin)) in
          rw (paced_chunks_lem args.throttle args.skip args.take now readings items h)
            (copied_lem args out items)
