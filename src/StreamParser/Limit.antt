-- ===== src/StreamParser/Limit.antt =====
-- The soft limit of a parser: what it changes, and what it bounds.
use webmetro.Base.{
  ℕ, zero, suc, ◌≤◌, ◌≡◌, ◌∙◌, refl, ◌⊎◌, inl, inr, Option, none, some, List, [], ◌∷◌, take, length,
  leb, Result, ok, err, ready, pending, Bool-cases, leb→le, Decoded-cases,
}
use webmetro.Buffers.{Buffers}
use webmetro.Error.{resources_exceeded}
use webmetro.Ebml.Varint.{EbmlError}
use webmetro.Ebml.Element.{EbmlLayout, FromEbml, check_space}
use webmetro.StreamParser.{
  Arrival, later, chunk, failed, EbmlStreamingParser, with_soft_limit, over_limit, take_element,
  poll_round, poll_loop, poll_event, Event,
}
use webmetro.StreamParser.Run.{Ending, stopped, poll_all, after_poll, after_event}

module _ (buffers : Buffers) {T : Type 0} (t : FromEbml T) where
  abbrev pub Polled : Type 0
  Polled = Event buffers t × EbmlStreamingParser

  -- The limit has struck: the buffer has as many bytes, and no whole element in front.
  pub record IsExceeded (limit : ℕ) (r : Polled) : Type 0 where
    pub answer : r.0 ≡ ready (some (err resources_exceeded))
    pub full : limit ≤ length r.1.buffer
    pub incomplete : check_space t r.1.buffer ≡ ok none

  -- An answer under a limit, and the answer without one.
  abbrev pub IsLimited : ℕ → Polled → Polled → Type 0
  IsLimited limit r free = (r ≡ (free.0, with_soft_limit free.1 limit)) ⊎ IsExceeded limit r

  round-IsLimited :
      (limit : ℕ) (p : EbmlStreamingParser) (refill free : Polled)
      → IsLimited limit refill free
      → p.buffer_size_limit ≡ none
      → let space = check_space t p.buffer in
        IsLimited limit
          (poll_round buffers t space (with_soft_limit p limit) refill)
          (poll_round buffers t space p free)
  unfolding poll_round over_limit with_soft_limit take_element
  round-IsLimited limit p refill free sim unlimited =
      elim (Decoded-cases (check_space t p.buffer)) [
        | inl e ↦ elim (Bool-cases (leb limit (length p.buffer))) [
          | inl full ↦ inr (
              rw (e, full)
                (record {
                  answer = refl;
                  full = leb→le limit (length p.buffer) full;
                  incomplete = e;
                }))
          | inr room ↦ rw (e, room, unlimited) sim
        ]
        | inr (inl (x, e)) ↦ inl (rw e)
        | inr (inr (info, e)) ↦ inl (rw e)
      ]

  loop-IsLimited :
      (limit : ℕ) (s : List Arrival) (p : EbmlStreamingParser)
      → p.buffer_size_limit ≡ none
      → IsLimited limit (poll_loop buffers t s (with_soft_limit p limit)) (poll_loop buffers t s p)
  unfolding poll_loop with_soft_limit
  loop-IsLimited limit [] p unlimited = round-IsLimited limit p _ _ (inl refl) unlimited
  loop-IsLimited limit (later ∷ s) p unlimited = round-IsLimited limit p _ _ (inl refl) unlimited
  loop-IsLimited limit (failed e ∷ s) p unlimited = round-IsLimited limit p _ _ (inl refl) unlimited
  loop-IsLimited limit (chunk buf ∷ s) p unlimited =
      let q = record p { stream = s; buffer = buffers.put p.buffer buf } in
      round-IsLimited limit p _ _ (loop-IsLimited limit s q unlimited) unlimited

  -- A soft limit changes no answer but one: a poll of a parser with a limit gives what the parser
  -- without one gives, and leaves the same parser but for the limit, or else it gives the error
  -- of exceeded resources, and then the buffer has as many bytes as the limit, or more, and
  -- no whole element in front.
  pub poll_event-IsLimited :
      (limit : ℕ) (p : EbmlStreamingParser)
      → p.buffer_size_limit ≡ none
      → IsLimited limit (poll_event buffers t (with_soft_limit p limit)) (poll_event buffers t p)
  unfolding poll_event with_soft_limit
  poll_event-IsLimited limit p unlimited = loop-IsLimited limit p.stream p unlimited

  -- The limit of a parser stays what it is.
  round-limit :
      (space : Result EbmlError (Option EbmlLayout)) (p : EbmlStreamingParser) (refill : Polled)
      → refill.1.buffer_size_limit ≡ p.buffer_size_limit
      → (poll_round buffers t space p refill).1.buffer_size_limit ≡ p.buffer_size_limit
  unfolding poll_round take_element
  round-limit (err e) p refill same = refl
  round-limit (ok (some info)) p refill same = refl
  round-limit (ok none) p refill same =
      elim (Bool-cases (over_limit p.buffer_size_limit p.buffer)) [
        | inl e ↦ rw e
        | inr e ↦ rw e same
      ]

  pub loop-limit :
      (s : List Arrival) (p : EbmlStreamingParser)
      → (poll_loop buffers t s p).1.buffer_size_limit ≡ p.buffer_size_limit
  unfolding poll_loop
  loop-limit [] p = round-limit (check_space t p.buffer) p _ refl
  loop-limit (later ∷ s) p = round-limit (check_space t p.buffer) p _ refl
  loop-limit (failed e ∷ s) p = round-limit (check_space t p.buffer) p _ refl
  loop-limit (chunk buf ∷ s) p =
      round-limit (check_space t p.buffer) p _
        (loop-limit s (record p { stream = s; buffer = buffers.put p.buffer buf }))

  pub poll_event-limit :
      (p : EbmlStreamingParser) → (poll_event buffers t p).1.buffer_size_limit ≡ p.buffer_size_limit
  unfolding poll_event
  poll_event-limit p = loop-limit p.stream p

  -- A run under a limit against the run without one.
  abbrev pub IsCut : List T × Ending → List T × Ending → Type 0
  IsCut cut whole = (cut ≡ whole) ⊎ ((n : ℕ) × (cut ≡ (take n whole.0, stopped resources_exceeded)))

  after_poll-IsCut :
      (event : Event buffers t) (cut whole : List T × Ending)
      → IsCut cut whole
      → IsCut (after_poll t event cut) (after_poll t event whole)
  unfolding after_poll after_event
  after_poll-IsCut pending cut whole sim = sim
  after_poll-IsCut (ready none) cut whole sim = inl refl
  after_poll-IsCut (ready (some (err e))) cut whole sim = inl refl
  after_poll-IsCut (ready (some (ok x))) cut whole (inl same) = inl (rw same)
  after_poll-IsCut (ready (some (ok x))) cut whole (inr (n, same)) = inr (suc n, rw same)

  -- So a parser with a soft limit, polled on to its end, gives the elements that it gives without
  -- one and ends alike, or it gives the first of them and then ends with the error of exceeded
  -- resources: no element before it is lost, changed or added.
  pub poll_all-IsCut :
      (limit fuel : ℕ) (p : EbmlStreamingParser)
      → p.buffer_size_limit ≡ none
      → IsCut (poll_all buffers t fuel (with_soft_limit p limit)) (poll_all buffers t fuel p)
  unfolding poll_all
  poll_all-IsCut limit zero p unlimited = inl refl
  poll_all-IsCut limit (suc fuel) p unlimited =
      let free = poll_event buffers t p in
      elim (poll_event-IsLimited limit p unlimited) [
        | inl same ↦
            let rest = poll_all-IsCut limit fuel free.1 (poll_event-limit p ∙ unlimited) in
            rw same (after_poll-IsCut free.0 _ _ rest)
        | inr over ↦ unfold after_poll after_event in inr (0, rw over.answer)
      ]
