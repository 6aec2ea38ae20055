-- ===== src/Commands/Send.antt =====
-- src/commands/send.rs: the body is put to a server, and the answer's body is written to the
-- standard output. The client is that of the crate `hyper`, a parameter without laws.
pub mod Sends
mod Tests
use mathlib.Core.Option
use webmetro.Base.{ℕ, Bool, Option, some, List, Result, ok, err}
use webmetro.ByteOrder.{ByteOrder}
use webmetro.Buffers.{Buffers}
use webmetro.Error.{WebmetroError}
use webmetro.Clock.{Clock}
use webmetro.StreamParser.{Arrival, parse_ebml}
use webmetro.Chunk.Chunker.{chunk_webm}
use webmetro.Chunk.Run.{chunk_all}
use webmetro.Fixers.Pace.{Readings}
use webmetro.Streams.{Stream, Streams}
use webmetro.Commands.{Duration}
use webmetro.Commands.Filter.{Output, flat_buffers, write_buffers}
use webmetro.Commands.Paced.{paced_chunks}

pub record SendArgs : Type 0 where
  pub url : List ℕ
  pub throttle : Bool
  pub skip : Option Duration
  pub take : Option Duration

-- `put` makes a request to a location, and `request` sends it with a body, and gives the items of
-- the body of the answer.
pub record HttpClient : Type 1 where
  pub Target : Type 0
  pub put : List ℕ → Result WebmetroError Target
  pub request : Target → Stream (List ℕ) → Result WebmetroError (Stream (List ℕ))

module _ (client : HttpClient) (clock : Clock) (streams : Streams) (order : ByteOrder)
    (buffers : Buffers) (output : Output) where
  open client use {Target, put, request}
  open clock use {Instant}
  open output use {Out}

  abbrev pub Sent : Type 0
  Sent = Result WebmetroError (Unit {0}) × Out

  -- The loop over the answer, each of whose items or writes may fail.
  unfoldable pub copy_response : Result WebmetroError (Stream (List ℕ)) → Out → Sent
  copy_response (err e) out = (err e, out)
  copy_response (ok response) out = write_buffers streams order buffers output response out

  -- From the request on: a location that is no URL ends it before anything is sent.
  unfoldable pub send_request :
      Result WebmetroError Target → Option (Stream (List ℕ)) → Out → Option Sent
  send_request (err e) payload out = some (err e, out)
  send_request (ok target) payload out =
      Option.map (λ body. copy_response (request target body) out) payload

  -- `send::run`; `none` as for `filter`.
  unfoldable pub run_send :
      ℕ → Instant → Readings clock → SendArgs → List Arrival → Out → Option Sent
  run_send fuel now readings args stdin out =
      let items =
        paced_chunks clock streams order buffers args.throttle args.skip args.take now readings
          (chunk_all order buffers fuel (chunk_webm (parse_ebml stdin))) in
      send_request (put args.url) (Option.map (flat_buffers streams order buffers) items) out
