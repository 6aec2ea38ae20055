-- ===== src/Commands/Paced.antt =====
-- src/commands/filter.rs and src/commands/send.rs: the optional throttle behind the chain of
-- adapters, and `filter::run` with its arguments. The stream of the throttle is the chain, waits
-- left out; the clock is read twice at each poll.
pub mod InTime
use mathlib.Core.Option
use webmetro.Base.{
  ℕ, Bool, Option, none, some, List, [], ◌∷◌, map, Result, Poll, ready, pending, if◌then◌else◌,
}
use webmetro.ByteOrder.{ByteOrder}
use webmetro.Buffers.{Buffers}
use webmetro.Error.{WebmetroError}
use webmetro.Clock.{Clock}
use webmetro.StreamParser.{Arrival, parse_ebml}
use webmetro.Chunk.{Chunk}
use webmetro.Chunk.Chunker.{chunk_webm}
use webmetro.Chunk.Run.{chunk_all}
use webmetro.Fixers.Throttle.{Throttle, throttle, poll_throttled}
use webmetro.Fixers.Pace.{Item, Readings}
use webmetro.Streams.{Stream, Streams}
use webmetro.Commands.{Duration}
use webmetro.Commands.Filter.{Output, chunk_stream, copy_chunks}

pub record FilterArgs : Type 0 where
  pub throttle : Bool
  pub skip : Option Duration
  pub take : Option Duration

-- A poll, and what the later ones give: `none` when there is no poll left.
unfoldable pub next_chunk : Poll (Option Item) → Option (Stream Chunk) → Option (Stream Chunk)
next_chunk (ready none) rest = some []
next_chunk (ready (some item)) rest = Option.map (λ items. item ∷ items) rest
next_chunk pending rest = rest

module _ (clock : Clock) where
  open clock use {Instant}

  -- The throttle, polled until its end.
  unfoldable pub drained : Readings clock → Throttle clock → Option (Stream Chunk)
  drained [] th = none
  drained ((polled, now) ∷ readings) th =
      let (answer, th') = poll_throttled clock polled now th in
      next_chunk answer (drained readings th')

  -- `if args.throttle`: the throttle is made at the time `now`.
  unfoldable pub paced : Bool → Instant → Readings clock → Stream Chunk → Option (Stream Chunk)
  paced throttled now readings items =
      let waited = drained readings (throttle clock now (map ready items)) in
      if throttled then waited else some items

  module _ (streams : Streams) (order : ByteOrder) (buffers : Buffers) where
    -- The chunks that `run` loops over, from the items of the chunker.
    unfoldable pub paced_chunks :
        Bool
        → Option Duration
        → Option Duration
        → Instant
        → Readings clock
        → Option (Stream Chunk)
        → Option (Stream Chunk)
    paced_chunks throttled skip take now readings none = none
    paced_chunks throttled skip take now readings (some items) =
        paced throttled now readings (chunk_stream streams order buffers skip take items)

    -- `filter::run`; `none` when the fuel of the chunker is out, or the throttle is polled too little.
    unfoldable pub filter_run :
        (output : Output)
        → ℕ
        → Instant
        → Readings clock
        → FilterArgs
        → List Arrival
        → output.Out
        → Option (Result WebmetroError (Unit {0}) × output.Out)
    filter_run output fuel now readings args stdin out =
        Option.map (λ items. copy_chunks streams order buffers output items out)
          (paced_chunks args.throttle args.skip args.take now readings
            (chunk_all order buffers fuel (chunk_webm (parse_ebml stdin))))
