-- ===== src/Commands/Filter.antt =====
-- src/commands/filter.rs and src/commands/send.rs: the same chain of adapters, written to the
-- standard output or sent as the body of a request. The throttle, which is optional in both, is in
-- Commands/Paced. The options of a window are in seconds.
use mathlib.Core.Option
use webmetro.Base.{ℕ, zero, suc, ◌+◌, ◌-◌, ◌^◌, Option, none, some, List, [], ◌∷◌, Result, ok, err}
use webmetro.ByteOrder.{ByteOrder}
use webmetro.Buffers.{Buffers}
use webmetro.Error.{WebmetroError}
use webmetro.StreamParser.{Arrival, parse_ebml}
use webmetro.Chunk.{Chunk, overlaps, chunk_next}
use webmetro.Chunk.Chunker.{chunk_webm}
use webmetro.Chunk.Run.{chunk_all}
use webmetro.Fixers.{new_fixer, process}
use webmetro.Streams.{Stream, Streams}
use webmetro.Commands.{Duration, as_millis}

unfoldable pub start_time : Option Duration → ℕ
start_time none = 0
start_time (some skip) = as_millis skip

-- `std::u128::MAX` without a limit. The sum is below 2 ^ 128 for all durations.
unfoldable pub stop_time : Option Duration → ℕ → ℕ
stop_time none start = 2 ^ 128 - 1
stop_time (some take) start = as_millis take + start

-- What the standard output is to `write_all`: `shown` is what has been written to it so far.
pub record Output : Type 1 where
  pub Out : Type 0
  pub write_all : List ℕ → Out → Result WebmetroError (Unit {0}) × Out
  pub shown : Out → List ℕ

module _ (streams : Streams) (order : ByteOrder) (buffers : Buffers) where
  open streams use {map_ok, try_filter, try_flatten}

  -- `map_ok(.. process ..).try_filter(.. overlaps ..)`
  unfoldable pub chunk_stream : Option Duration → Option Duration → Stream Chunk → Stream Chunk
  chunk_stream skip take items =
      let start = start_time skip in
      let stop = stop_time take start in
      try_filter (λ chunk. overlaps chunk start stop)
        (map_ok (process order buffers) new_fixer items)

  -- `iter(webm_chunk).map(Ok)`: a chunk has at most two buffers, and then it is empty.
  unfoldable pub iter_chunk : ℕ → Chunk → Stream (List ℕ)
  iter_chunk zero chunk = []
  iter_chunk (suc fuel) chunk =
      let (buffer, chunk') = chunk_next chunk in
      let rest = iter_chunk fuel chunk' in elim buffer [ none ↦ [] | some bytes ↦ ok bytes ∷ rest ]

  -- The body of the request of `send`, and the stream of a listener of the server.
  unfoldable pub flat_buffers : Stream Chunk → Stream (List ℕ)
  flat_buffers items =
      try_flatten (map_ok (λ (u : Unit {0}) chunk. (iter_chunk 3 chunk, u)) tt items)

  module _ (output : Output) where
    open output use {Out, write_all}

    -- `?` on a write: an error ends the rest.
    unfoldable pub after_write :
        Result WebmetroError (Unit {0}) × Out
        → Result WebmetroError (Unit {0}) × Out
        → Result WebmetroError (Unit {0}) × Out
    after_write (ok u, out) again = again
    after_write (err e, out) again = (err e, out)

    -- `try_for_each(|buffer| io::stdout().write_all(&buffer))`
    unfoldable pub write_buffers : Stream (List ℕ) → Out → Result WebmetroError (Unit {0}) × Out
    write_buffers [] out = (ok tt, out)
    write_buffers (err e ∷ rest) out = (err e, out)
    write_buffers (ok buffer ∷ rest) out =
        let written = write_all buffer out in after_write written (write_buffers rest written.1)

    -- The loop of `filter::run`; each error returns from it.
    unfoldable pub copy_chunks : Stream Chunk → Out → Result WebmetroError (Unit {0}) × Out
    copy_chunks [] out = (ok tt, out)
    copy_chunks (err e ∷ rest) out = (err e, out)
    copy_chunks (ok chunk ∷ rest) out =
        let written = write_buffers (iter_chunk 3 chunk) out in
        after_write written (copy_chunks rest written.1)

    -- `filter::run` on the standard input `stdin`; `none` when the fuel of the chunker is out.
    unfoldable pub run_filter :
        ℕ
        → Option Duration
        → Option Duration
        → List Arrival
        → Out
        → Option (Result WebmetroError (Unit {0}) × Out)
    run_filter fuel skip take stdin out =
        Option.map (λ items. copy_chunks (chunk_stream skip take items) out)
          (chunk_all order buffers fuel (chunk_webm (parse_ebml stdin)))
