-- ===== src/StreamParser.antt =====
-- src/stream_parser.rs: EBML elements out of a stream of byte buffers.
pub mod Feed
pub mod Run
pub mod Typed
pub mod Await
pub mod Limit
pub mod Bounded
mod Tests
mod Limits
use webmetro.Base.{
  ℕ, Bool, true, false, Option, none, some, List, [], ◌∷◌, length, leb, if◌then◌else◌, Result, ok,
  err, Poll, ready, pending,
}
use webmetro.Buffers.{Buffers}
use webmetro.Error.{WebmetroError, resources_exceeded, ebml_error}
use webmetro.Ebml.Varint.{EbmlError}
use webmetro.Ebml.Element.{EbmlLayout, FromEbml, check_space}

-- What the polls of the underlying stream give, in their order; the end of the list is the end of
-- the stream.
pub data Arrival : Type 0 where
  later : Arrival
  chunk : List ℕ → Arrival
  failed : WebmetroError → Arrival

pub record EbmlStreamingParser : Type 0 where
  pub stream : List Arrival
  pub buffer : List ℕ
  pub buffer_size_limit : Option ℕ
  pub borrowed : List ℕ

-- `parse_ebml` and `with_soft_limit`.
unfoldable pub parse_ebml : List Arrival → EbmlStreamingParser
parse_ebml stream = record { stream = stream; buffer = []; buffer_size_limit = none; borrowed = [] }

unfoldable pub with_soft_limit : EbmlStreamingParser → ℕ → EbmlStreamingParser
with_soft_limit p limit = record p { buffer_size_limit = some limit }

-- The soft limit is tested before a refill only.
unfoldable pub over_limit : Option ℕ → List ℕ → Bool
over_limit none buffer = false
over_limit (some limit) buffer = leb limit (length buffer)

-- `map_err(Into::into)`
unfoldable pub map_ebml {ℓ} : {T : Type ℓ} → Result EbmlError T → Result WebmetroError T
map_ebml (ok x) = ok x
map_ebml (err e) = err (ebml_error e)

module _ {ℓ} (buffers : Buffers) {T : Type ℓ} (t : FromEbml T) where
  open buffers use {split_to, advance, put}

  abbrev pub Event : Type ℓ
  Event = Poll (Option (Result WebmetroError T))

  -- An element has been found: it is cut off the buffer and decoded.
  unfoldable pub take_element : EbmlLayout → EbmlStreamingParser → Event × EbmlStreamingParser
  take_element info p =
      let (bytes, buffer) = split_to p.buffer info.element_len in
      let borrowed = advance bytes info.body_offset in
      (
        ready (some (map_ebml (t.decode info.element_id borrowed))),
        record p { buffer = buffer; borrowed = borrowed },
      )

  -- One round of the loop up to the refill: `refill` is the rest of the round.
  unfoldable pub poll_round :
      Result EbmlError (Option EbmlLayout)
      → EbmlStreamingParser
      → Event × EbmlStreamingParser
      → Event × EbmlStreamingParser
  poll_round (err e) p refill = (ready (some (err (ebml_error e))), p)
  poll_round (ok (some info)) p refill = take_element info p
  poll_round (ok none) p refill =
      if over_limit p.buffer_size_limit p.buffer
      then (ready (some (err resources_exceeded)), p)
      else refill

  -- The loop of `poll_event`, by what the stream still has to give.
  unfoldable pub poll_loop : List Arrival → EbmlStreamingParser → Event × EbmlStreamingParser
  poll_loop [] p = poll_round (check_space t p.buffer) p (ready none, record p { stream = [] })
  poll_loop (later ∷ stream) p =
      poll_round (check_space t p.buffer) p (pending, record p { stream = stream })
  poll_loop (failed e ∷ stream) p =
      poll_round (check_space t p.buffer) p (ready (some (err e)), record p { stream = stream })
  poll_loop (chunk buf ∷ stream) p =
      let again = poll_loop stream (record p { stream = stream; buffer = put p.buffer buf }) in
      poll_round (check_space t p.buffer) p again

  unfoldable pub poll_event : EbmlStreamingParser → Event × EbmlStreamingParser
  poll_event p = poll_loop p.stream p

  -- `next` has the same loop, and waits where the stream is pending.
  abbrev pub Awaited : Type ℓ
  Awaited = Result WebmetroError (Option T) × EbmlStreamingParser

  unfoldable pub next_element : EbmlLayout → EbmlStreamingParser → Awaited
  next_element info p =
      let (bytes, buffer) = split_to p.buffer info.element_len in
      let borrowed = advance bytes info.body_offset in
      (
        elim (t.decode info.element_id borrowed) [
          | ok x ↦ ok (some x)
          | err e ↦ err (ebml_error e)
        ],
        record p { buffer = buffer; borrowed = borrowed },
      )

  unfoldable pub next_round :
      Result EbmlError (Option EbmlLayout) → EbmlStreamingParser → Awaited → Awaited
  next_round (err e) p refill = (err (ebml_error e), p)
  next_round (ok (some info)) p refill = next_element info p
  next_round (ok none) p refill =
      if over_limit p.buffer_size_limit p.buffer then (err resources_exceeded, p) else refill

  unfoldable pub next_loop : List Arrival → EbmlStreamingParser → Awaited
  next_loop [] p = next_round (check_space t p.buffer) p (ok none, record p { stream = [] })
  next_loop (later ∷ stream) p =
      let again = next_loop stream (record p { stream = stream }) in
      next_round (check_space t p.buffer) p again
  next_loop (failed e ∷ stream) p =
      next_round (check_space t p.buffer) p (err e, record p { stream = stream })
  next_loop (chunk buf ∷ stream) p =
      let again = next_loop stream (record p { stream = stream; buffer = put p.buffer buf }) in
      next_round (check_space t p.buffer) p again

  unfoldable pub next : EbmlStreamingParser → Awaited
  next p = next_loop p.stream p
