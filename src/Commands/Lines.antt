-- ===== src/Commands/Lines.antt =====
-- What `dump` prints, against the elements of the bytes.
use webmetro.Base.{
  ℕ, zero, suc, ◌+◌, ◌≤◌, ◌<◌, ◌≡◌, refl, arith, Option, none, some, List, map, length, drop,
  length-drop, All, All-drop, Result, ok, err, Poll, ready, pending,
}
use webmetro.ByteOrder.{ByteOrder}
use webmetro.Buffers.{Buffers}
use webmetro.Error.{WebmetroError}
use webmetro.Ebml.Varint.Decode.{IsByte}
use webmetro.Webm.{WebmElement, webm}
use webmetro.StreamParser.{Arrival, EbmlStreamingParser, parse_ebml, poll_event}
use webmetro.StreamParser.Await.{settled, next-poll_event}
use webmetro.StreamParser.Feed.{
  content, IsFeed, IsOn, IsOn-mono, Agrees, Agrees-err, poll_event-Agrees, content-IsByte,
}
use webmetro.StreamParser.Run.{
  Ending, decode_all, decode_all-some, decode_all-none, decode_all-err, decode_element_bounds,
}
use webmetro.Commands.Dump.{Line, line_of, dumped, dump_events, run_dump}

-- The lines of elements.
abbrev pub as_lines : List WebmElement × Ending → List Line × Ending
as_lines (xs, end) = (map line_of xs, end)

module _ (order : ByteOrder) (buffers : Buffers) where
  -- The lines of whatever is left, from a parser with less work.
  abbrev IsDumped : ℕ → Type 0
  IsDumped m =
      (f g : ℕ) (p : EbmlStreamingParser) (whole : List ℕ)
      → IsOn whole m p
      → All IsByte whole
      → length whole < f
      → length whole < g
      → dump_events order buffers f p ≡ as_lines (decode_all (webm order) g whole)

  event_lines :
      (m f g bound : ℕ) (whole : List ℕ)
      (r : Poll (Option (Result WebmetroError WebmElement)) × EbmlStreamingParser)
      → IsDumped m
      → Agrees buffers (webm order) whole bound r
      → bound ≤ m
      → All IsByte whole
      → length whole ≤ f
      → length whole ≤ g
      → (let (element, p') = settled buffers (webm order) r in
          dumped element (dump_events order buffers f p'))
        ≡ as_lines (decode_all (webm order) (suc g) whole)
  unfolding dumped
  event_lines m f g bound whole (ready none, q) rest agrees le h lf lg =
      rw (decode_all-none (webm order) g whole agrees) refl
  event_lines m f g bound whole (pending, q) rest agrees le h lf lg =
      unfold dump_events in
      rest (suc f) (suc g) q whole (IsOn-mono whole bound m q le agrees) h (omega arith)
        (omega arith)
  event_lines m f g bound whole (ready (some (err e)), q) rest agrees le h lf lg =
      let (x, same, e') = Agrees-err buffers (webm order) whole bound e q agrees in
      rw (same, decode_all-err (webm order) g whole e') refl
  event_lines m f g bound whole (ready (some (ok x)), q) rest (n, e, on) le h lf lg =
      let long = decode_element_bounds (webm order) whole h e in
      let shorter = length-drop n whole in
      rw
        (
          decode_all-some (webm order) g whole e,
          rest f g q (drop n whole) (IsOn-mono (drop n whole) bound m q le on)
              (All-drop IsByte n whole h) (omega (arith, long.0, long.1, shorter))
              (omega (arith, long.0, long.1, shorter)),
        )
        refl

  dump_events-lines : (m : ℕ) → IsDumped m
  unfolding dump_events
  dump_events-lines zero f g p whole on h lf lg = absurd (omega (arith, on.smaller))
  dump_events-lines (suc m) zero g p whole on h lf lg = absurd (omega arith)
  dump_events-lines (suc m) (suc f) zero p whole on h lf lg = absurd (omega arith)
  dump_events-lines (suc m) (suc f) (suc g) p whole on h lf lg =
      let rest = dump_events-lines m in
      let bound : ℕ = length whole + length p.stream in
      let event = poll_event buffers (webm order) p in
      let agrees : Agrees buffers (webm order) whole bound event =
        rw on.pool_is at (poll_event-Agrees buffers (webm order) p on.roomy on.buffered on.fed) in
      let smaller : bound < suc m = rw on.pool_is at on.smaller in
      rw (next-poll_event buffers (webm order) p) (
        event_lines m f g bound whole event rest agrees (omega arith) h (omega arith) (omega arith))

  -- `dump` prints a line for each element of the bytes, in order, however they are cut into pieces and
  -- whatever waits lie between, and ends as their decoding ends, on every feed (with no error of
  -- the stream) and with more fuel than bytes.
  pub run_dump-as_lines :
      (s : List Arrival) (fuel : ℕ)
      → IsFeed s
      → length (content s) < fuel
      → run_dump order buffers fuel s
        ≡ as_lines (decode_all (webm order) (suc (length (content s))) (content s))
  unfolding run_dump parse_ebml
  run_dump-as_lines s fuel feed enough =
      dump_events-lines (length (content s) + length s + 1) fuel (suc (length (content s)))
        (parse_ebml s) (content s)
        (record { roomy = tt; buffered = tt; fed = feed; pool_is = refl; smaller = omega arith })
        (content-IsByte s feed) enough (omega arith)
