-- ===== src/Commands/Send/Sends.antt =====
-- What `send` asks of the server, and what it makes of the answer.

use webmetro.Base.{ℕ, suc, ◌+◌, ◌≤◌, ◌≡◌, some, List, length, map, All, ok}
use webmetro.ByteOrder.{ByteOrder}
use webmetro.Buffers.{Buffers}
use webmetro.Clock.{Clock}
use webmetro.Webm.{webm}
use webmetro.StreamParser.{Arrival}
use webmetro.StreamParser.Feed.{content, IsFeed}
use webmetro.StreamParser.Run.{decode_all, finished}
use webmetro.Chunk.Documents.{Document, IsDocument, elements}
use webmetro.Chunk.Group.{chunks}
use webmetro.Chunk.Run.{chunk_all-chunks}
use webmetro.Fixers.{new_fixer}
use webmetro.Fixers.Pace.{Readings}
use webmetro.Fixers.Timecodes.{process_all}
use webmetro.Streams.{Streams}
use webmetro.Commands.Filter.{Output}
use webmetro.Commands.Pipeline.{
  in_window, all_parts, joined, chunk_stream-in_window, flat_buffers-all_parts,
}
use webmetro.Commands.Copy.{IsReliable, Copies, write_buffers-Writes}
use webmetro.Commands.Paced.InTime.{AreEnoughFor, paced_chunks_lem}
use webmetro.Commands.Send.{SendArgs, HttpClient, copy_response, send_request, run_send}

-- The buffers of the chunks of documents with fixed timecodes, in the window of the arguments.
abbrev pub window : ByteOrder → Buffers → SendArgs → List Document → List (List ℕ)
window order buffers args ds =
    let fixed = process_all order buffers new_fixer (chunks order buffers ds) in
    all_parts (in_window args.skip args.take fixed)

module _ (client : HttpClient) (clock : Clock) (streams : Streams) (order : ByteOrder)
    (buffers : Buffers) (output : Output) where
  open client use {Target, put, request}
  open clock use {Instant}
  open output use {Out}

  -- For every feed whose bytes decode with no error to the elements of documents, `send` puts to
  -- an accepted location a body that is just the buffers of the documents' chunks with fixed
  -- timecodes in the window of `skip` and `take` (without the clusters that end before it or start
  -- behind it), with the throttle, polled often enough and in time, or without; and where the
  -- server answers this body with one that does not fail, `send` succeeds on a reliable output,
  -- and writes exactly the answer. Fuel that is more by two than the bytes and arrivals is enough.
  pub run_send-Copies :
      (s : List Arrival) (ds : List Document) (fuel : ℕ) (now : Instant) (readings : Readings clock)
      (args : SendArgs) (out : Out) (target : Target) (answer : List (List ℕ))
      → IsReliable streams order buffers output
      → IsFeed s
      → All IsDocument ds
      → decode_all (webm order) (suc (length (content s))) (content s) ≡ (elements ds, finished)
      → length (content s) + length s + 2 ≤ fuel
      → AreEnoughFor clock streams order buffers args.throttle args.skip args.take now readings
          (some (map ok (chunks order buffers ds)))
      → put args.url ≡ ok target
      → request target (map ok (window order buffers args ds)) ≡ ok (map ok answer)
      → Copies streams order buffers output
          (run_send client clock streams order buffers output fuel now readings args s out)
          out
          (joined answer)
  unfolding run_send send_request copy_response
  run_send-Copies s ds fuel now readings args out target answer reliable feed good decoded enough
        in_time at_url answers =
      let cs = chunks order buffers ds in
      rw
        (
          at_url,
          chunk_all-chunks order buffers s ds fuel feed good decoded enough,
          paced_chunks_lem clock streams order buffers args.throttle args.skip args.take now
              readings (some (map ok cs)) in_time,
          chunk_stream-in_window streams order buffers args.skip args.take cs,
          flat_buffers-all_parts streams order buffers
              (in_window args.skip args.take (process_all order buffers new_fixer cs)),
          answers,
        )
        (write_buffers-Writes streams order buffers output reliable answer out)
