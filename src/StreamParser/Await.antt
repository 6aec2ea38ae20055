-- ===== src/StreamParser/Await.antt =====
-- `next` is `poll_event` until it is ready.
use webmetro.Base.{
  ◌≡◌, refl, Option, none, some, List, [], ◌∷◌, Result, ok, err, Poll, ready, pending, Bool-cases,
  inl, inr, Result-cases,
}
use webmetro.Buffers.{Buffers}
use webmetro.Error.{WebmetroError}
use webmetro.Ebml.Varint.{EbmlError}
use webmetro.Ebml.Element.{EbmlLayout, FromEbml, check_space}
use webmetro.StreamParser.{
  Arrival, later, chunk, failed, EbmlStreamingParser, over_limit, map_ebml, take_element,
  poll_round, poll_loop, poll_event, next_element, next_round, next_loop, next,
}

module _ (buffers : Buffers) {T : Type 0} (t : FromEbml T) where
  -- What `next` returns for an answer of `poll_event`; after a wait it goes on with the parser.
  abbrev pub settled :
      Poll (Option (Result WebmetroError T)) × EbmlStreamingParser
      → Result WebmetroError (Option T) × EbmlStreamingParser
  settled (ready none, p) = (ok none, p)
  settled (ready (some (ok x)), p) = (ok (some x), p)
  settled (ready (some (err e)), p) = (err e, p)
  settled (pending, p) = next buffers t p

  next_element-settled :
      (info : EbmlLayout) (p : EbmlStreamingParser)
      → next_element buffers t info p ≡ settled (take_element buffers t info p)
  unfolding next_element take_element map_ebml
  next_element-settled info p =
      elim (Result-cases (
        t.decode info.element_id
          (buffers.advance (buffers.split_to p.buffer info.element_len).0 info.body_offset))) [
            | inl (x, e) ↦ rw e
            | inr (x, e) ↦ rw e
          ]

  next_round-settled :
      (r : Result EbmlError (Option EbmlLayout)) (p : EbmlStreamingParser)
      (refill : Poll (Option (Result WebmetroError T)) × EbmlStreamingParser)
      → next_round buffers t r p (settled refill) ≡ settled (poll_round buffers t r p refill)
  unfolding next_round poll_round
  next_round-settled (err e) p refill = refl
  next_round-settled (ok (some info)) p refill = next_element-settled info p
  next_round-settled (ok none) p refill =
      elim (Bool-cases (over_limit p.buffer_size_limit p.buffer)) [ inl e ↦ rw e | inr e ↦ rw e ]

  next_loop-settled :
      (s : List Arrival) (p : EbmlStreamingParser)
      → next_loop buffers t s p ≡ settled (poll_loop buffers t s p)
  unfolding next_loop poll_loop next
  next_loop-settled [] p = next_round-settled (check_space t p.buffer) p _
  next_loop-settled (later ∷ s) p = next_round-settled (check_space t p.buffer) p _
  next_loop-settled (failed e ∷ s) p = next_round-settled (check_space t p.buffer) p _
  next_loop-settled (chunk buf ∷ s) p =
      let q = record p { stream = s; buffer = buffers.put p.buffer buf } in
      rw (next_loop-settled s q)
        (next_round-settled (check_space t p.buffer) p (poll_loop buffers t s q))

  -- In every state of the parser, with or without a limit and whatever its stream gives, `next`
  -- returns what `poll_event` is ready with and leaves the parser as `poll_event` does, and where
  -- that is pending it is `next` of the parser that is left.
  pub next-poll_event :
      (p : EbmlStreamingParser) → next buffers t p ≡ settled (poll_event buffers t p)
  unfolding next poll_event
  next-poll_event p = next_loop-settled p.stream p
