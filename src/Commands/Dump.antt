-- ===== src/Commands/Dump.antt =====
-- src/commands/dump.rs: a line for each element of the standard input.
use webmetro.Base.{ℕ, zero, suc, Option, none, some, List, [], ◌∷◌, length, Result, ok, err}
use webmetro.ByteOrder.{ByteOrder}
use webmetro.Buffers.{Buffers}
use webmetro.Error.{WebmetroError}
use webmetro.Webm.{WebmElement, tracks, simple_block, webm}
use webmetro.StreamParser.{Arrival, EbmlStreamingParser, parse_ebml, next}
use webmetro.StreamParser.Run.{Ending, finished, stopped, out_of_fuel}

-- What a line tells: for an element with bytes their number or its time, else all of the element.
pub data Line : Type 0 where
  tracks_line : ℕ → Line
  block_line : ℕ → Line
  element_line : WebmElement → Line

unfoldable pub line_of : WebmElement → Line
line_of (tracks slice) = tracks_line (length slice)
line_of (simple_block block) = block_line block.timecode
line_of other = element_line other

-- One turn of the loop, with the `rest` of its lines.
unfoldable pub dumped :
    Result WebmetroError (Option WebmElement) → List Line × Ending → List Line × Ending
dumped (err e) rest = ([], stopped e)
dumped (ok none) rest = ([], finished)
dumped (ok (some element)) (lines, end) = (line_of element ∷ lines, end)

module _ (order : ByteOrder) (buffers : Buffers) where
  unfoldable pub dump_events : ℕ → EbmlStreamingParser → List Line × Ending
  dump_events zero events = ([], out_of_fuel)
  dump_events (suc fuel) events =
      let (element, events') = next buffers (webm order) events in
      let rest = dump_events fuel events' in dumped element rest

  -- `dump::run` on the standard input `stdin`, with fuel for the calls of `next`.
  unfoldable pub run_dump : ℕ → List Arrival → List Line × Ending
  run_dump fuel stdin = dump_events fuel (parse_ebml stdin)
