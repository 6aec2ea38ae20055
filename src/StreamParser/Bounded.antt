-- ===== src/StreamParser/Bounded.antt =====
-- How much a parser with a soft limit keeps in its buffer.
use webmetro.Base.{
  ℕ, ◌+◌, ◌≤◌, ◌<◌, ◌≡◌, arith, inl, inr, some, List, [], ◌∷◌, length, drop, leb, Bool-cases,
  Decoded-cases, leb_false→lt, All, All-append, All-drop, length-append, length-drop,
}
use webmetro.Buffers.{Buffers}
use webmetro.Ebml.Varint.Decode.{IsByte}
use webmetro.Ebml.Element.{FromEbml, check_space}
use webmetro.Ebml.Element.Bounds.{IsWithin, check_space-IsWithin}
use webmetro.StreamParser.{
  Arrival, later, chunk, failed, EbmlStreamingParser, over_limit, take_element, poll_round,
  poll_loop, poll_event,
}
use webmetro.StreamParser.Limit.{Polled}

-- Pieces of at most `size` bytes.
abbrev pub IsPiece : ℕ → Arrival → Type 0
IsPiece size (chunk buf) = All IsByte buf × (length buf ≤ size)
IsPiece size _ = Unit

-- A parser with `limit`, fed with pieces of at most `size` bytes.
pub record IsBounded (limit size : ℕ) (p : EbmlStreamingParser) : Type 0 where
  pub limited : p.buffer_size_limit ≡ some limit
  pub buffered : All IsByte p.buffer
  pub fed : All (IsPiece size) p.stream
  pub small : length p.buffer ≤ limit + size

module _ (buffers : Buffers) {T : Type 0} (t : FromEbml T) where
  open buffers use {put_lem, split_to_lem}

  round-IsBounded :
      (limit size : ℕ) (p : EbmlStreamingParser) (refill : Polled buffers t)
      → IsBounded limit size p
      → (length p.buffer < limit → IsBounded limit size refill.1)
      → IsBounded limit size (poll_round buffers t (check_space t p.buffer) p refill).1
  unfolding poll_round over_limit take_element
  round-IsBounded limit size p refill h go_on =
      let over : over_limit p.buffer_size_limit p.buffer ≡ leb limit (length p.buffer) =
        rw h.limited in
      elim (Decoded-cases (check_space t p.buffer)) [
        | inl e ↦ elim (Bool-cases (leb limit (length p.buffer))) [
          | inl full ↦ rw (e, over, full) h
          | inr room ↦ rw (e, over, room) (go_on (leb_false→lt limit (length p.buffer) room))
        ]
        | inr (inl (x, e)) ↦ rw e h
        | inr (inr (info, e)) ↦
            let within : IsWithin p.buffer info = check_space-IsWithin t p.buffer h.buffered e in
            let fits : info.element_len ≤ length p.buffer = within.fits in
            let cut : ((buffers.split_to p.buffer info.element_len).1)
                ≡ drop info.element_len p.buffer =
              rw (split_to_lem p.buffer info.element_len fits) in
            rw e (record {
              limited = h.limited;
              buffered = rw cut (All-drop IsByte info.element_len p.buffer h.buffered);
              fed = h.fed;
              small = rw cut (omega (arith, length-drop info.element_len p.buffer, h.small));
            })
      ]

  moved_on :
      (limit size : ℕ) (s : List Arrival) (p : EbmlStreamingParser)
      → IsBounded limit size p
      → All (IsPiece size) s
      → IsBounded limit size (record p { stream = s })
  moved_on limit size s p h fed = record {
    limited = h.limited;
    buffered = h.buffered;
    fed = fed;
    small = h.small;
  }

  loop-IsBounded :
      (limit size : ℕ) (s : List Arrival) (p : EbmlStreamingParser)
      → IsBounded limit size p
      → All (IsPiece size) s
      → IsBounded limit size (poll_loop buffers t s p).1
  unfolding poll_loop
  loop-IsBounded limit size [] p h fed =
      round-IsBounded limit size p _ h (λ room. moved_on limit size [] p h tt)
  loop-IsBounded limit size (later ∷ s) p h fed =
      round-IsBounded limit size p _ h (λ room. moved_on limit size s p h fed.1)
  loop-IsBounded limit size (failed e ∷ s) p h fed =
      round-IsBounded limit size p _ h (λ room. moved_on limit size s p h fed.1)
  loop-IsBounded limit size (chunk buf ∷ s) p h ((bytes, short), fed) =
      round-IsBounded limit size p _ h (λ room.
        loop-IsBounded limit size s (record p { stream = s; buffer = buffers.put p.buffer buf })
          (record {
            limited = h.limited;
            buffered = rw (put_lem p.buffer buf) (All-append IsByte p.buffer buf h.buffered bytes);
            fed = fed;
            small =
                rw (put_lem p.buffer buf) (omega (arith, length-append p.buffer buf, short, room));
          })
          fed)

  -- A parser with a soft limit, on a stream of pieces of at most `size` bytes, never has more than
  -- the limit and one piece in its buffer: every poll keeps it so, whatever it answers.
  pub poll_event-IsBounded :
      (limit size : ℕ) (p : EbmlStreamingParser)
      → IsBounded limit size p
      → IsBounded limit size (poll_event buffers t p).1
  unfolding poll_event
  poll_event-IsBounded limit size p h = loop-IsBounded limit size p.stream p h h.fed
