-- ===== src/StreamParser/Run.antt =====
-- A parser polled to its end gives the elements of all the bytes that the stream brings, however
-- they are cut into buffers and whatever waits lie between.
use webmetro.Base.{
  ℕ, zero, suc, ◌+◌, ◌≤◌, ◌<◌, ◌≡◌, ◌∙◌, refl, sym, arith, Option, none, some, List, [], ◌∷◌,
  length, drop, All, All-drop, Result, ok, err, Poll, ready, pending, length-drop, inl, inr,
  Decoded-cases,
}
use webmetro.Buffers.{Buffers}
use webmetro.Error.{WebmetroError, ebml_error}
use webmetro.Ebml.Varint.{EbmlError}
use webmetro.Ebml.Varint.Decode.{IsByte}
use webmetro.Ebml.Element.{FromEbml, check_space, decode_body, decode_layout, decode_element}
use webmetro.Ebml.Element.Bounds.{IsWithin, check_space-IsWithin}
use webmetro.Iterator.{advance_iter, iter_next, push_next, collect}
use webmetro.StreamParser.{Arrival, EbmlStreamingParser, parse_ebml, poll_event}
use webmetro.StreamParser.Feed.{
  content, IsFeed, IsOn, IsOn-mono, Agrees, Agrees-err, poll_event-Agrees, content-IsByte,
}

pub data Ending : Type 0 where
  finished out_of_fuel : Ending
  stopped : WebmetroError → Ending

module _ {T : Type 0} (t : FromEbml T) where
  unfoldable pub after_event : Option (Result WebmetroError T) → List T × Ending → List T × Ending
  after_event none rest = ([], finished)
  after_event (some (err e)) rest = ([], stopped e)
  after_event (some (ok x)) (xs, end) = (x ∷ xs, end)

  unfoldable pub after_poll :
      Poll (Option (Result WebmetroError T)) → List T × Ending → List T × Ending
  unfolding after_event
  after_poll pending rest = rest
  after_poll (ready event) rest = after_event event rest

  after_decode : Result EbmlError (Option (T × ℕ)) → List T × Ending → List T × Ending
  after_decode (ok none) rest = ([], finished)
  after_decode (err e) rest = ([], stopped (ebml_error e))
  after_decode (ok (some (x, n))) (xs, end) = (x ∷ xs, end)

  used : Result EbmlError (Option (T × ℕ)) → ℕ
  used (ok (some (x, n))) = n
  used _ = 0

  -- The elements of a byte string by repeated `decode_element`, up to the first error or up to
  -- where bytes are missing.
  unfoldable pub decode_all : ℕ → List ℕ → List T × Ending
  unfolding after_decode used
  decode_all zero bytes = ([], out_of_fuel)
  decode_all (suc fuel) bytes =
      let r = decode_element t bytes in
      let rest = decode_all fuel (drop (used r) bytes) in after_decode r rest

  -- The bytes that it leaves.
  unread : Result EbmlError (Option (T × ℕ)) → List ℕ → List ℕ → List ℕ
  unread (ok (some x)) bytes rest = rest
  unread _ bytes rest = bytes

  unfoldable pub remainder : ℕ → List ℕ → List ℕ
  unfolding unread used
  remainder zero bytes = bytes
  remainder (suc fuel) bytes =
      let r = decode_element t bytes in
      let rest = remainder fuel (drop (used r) bytes) in unread r bytes rest

  pub remainder-some :
      (g : ℕ) (bytes : List ℕ) {x : T} {n : ℕ}
      → decode_element t bytes ≡ ok (some (x, n))
      → remainder (suc g) bytes ≡ remainder g (drop n bytes)
  unfolding remainder
  remainder-some g bytes e = rw e

  pub remainder-none :
      (g : ℕ) (bytes : List ℕ) → decode_element t bytes ≡ ok none → remainder (suc g) bytes ≡ bytes
  unfolding remainder
  remainder-none g bytes e = rw e

  -- One step of it, for each answer of `decode_element`.
  pub decode_all-some :
      (g : ℕ) (bytes : List ℕ) {x : T} {n : ℕ}
      → decode_element t bytes ≡ ok (some (x, n))
      → decode_all (suc g) bytes ≡ (let (xs, end) = decode_all g (drop n bytes) in (x ∷ xs, end))
  unfolding decode_all
  decode_all-some g bytes e = rw e

  pub decode_all-none :
      (g : ℕ) (bytes : List ℕ)
      → decode_element t bytes ≡ ok none
      → decode_all (suc g) bytes ≡ ([], finished)
  unfolding decode_all
  decode_all-none g bytes e = rw e

  pub decode_all-err :
      (g : ℕ) (bytes : List ℕ) {x : EbmlError}
      → decode_element t bytes ≡ err x
      → decode_all (suc g) bytes ≡ ([], stopped (ebml_error x))
  unfolding decode_all
  decode_all-err g bytes e = rw e

  decode_body_size :
      (len : ℕ) (r : Result EbmlError T) {x : T} {n : ℕ}
      → decode_body t len r ≡ ok (some (x, n))
      → len ≡ n
  unfolding decode_body
  decode_body_size len (ok y) e = ground arith
  decode_body_size len (err y) e = cc

  -- A decoded element took at least two bytes, and they were there.
  pub decode_element_bounds :
      (bytes : List ℕ) {x : T} {n : ℕ}
      → All IsByte bytes
      → decode_element t bytes ≡ ok (some (x, n))
      → (2 ≤ n) × (n ≤ length bytes)
  unfolding decode_element decode_layout
  decode_element_bounds bytes {n = n} h e = elim (Decoded-cases (check_space t bytes)) [
    | inl c ↦ cc (rw c at e)
    | inr (inl (y, c)) ↦ cc (rw c at e)
    | inr (inr (info, c)) ↦
        let within : IsWithin bytes info = check_space-IsWithin t bytes h c in
        let size : info.element_len ≡ n = decode_body_size info.element_len _ (rw c at e) in
        omega (arith, within.header, within.payload, within.fits)
  ]

-- Polls until the stream has ended or an error has come.
unfoldable pub poll_all :
    {T : Type 0} → Buffers → FromEbml T → ℕ → EbmlStreamingParser → List T × Ending
unfolding after_poll
poll_all buffers t zero p = ([], out_of_fuel)
poll_all buffers t (suc fuel) p =
    let (event, p') = poll_event buffers t p in
    let rest = poll_all buffers t fuel p' in after_poll t event rest

module _ (buffers : Buffers) {T : Type 0} (t : FromEbml T) where
  -- One poll and one step of `decode_all`, the rest of both runs being equal.
  poll_step :
      (f g bound : ℕ) (whole : List ℕ)
      (r : Poll (Option (Result WebmetroError T)) × EbmlStreamingParser)
      → bound ≤ f
      → length whole ≤ g
      → All IsByte whole
      → Agrees buffers t whole bound r
      → ((k : ℕ) (q : EbmlStreamingParser) (more : List ℕ)
          → IsOn more f q
          → All IsByte more
          → length more < k
          → poll_all buffers t f q ≡ decode_all t k more)
      → after_poll t r.0 (poll_all buffers t f r.1) ≡ decode_all t (suc g) whole
  unfolding after_poll decode_all
  poll_step f g bound whole (ready none, q) le long h agrees again = rw agrees
  poll_step f g bound whole (pending, q) le long h agrees again =
      again (suc g) q whole (IsOn-mono whole bound f q le agrees) h (omega arith)
  poll_step f g bound whole (ready (some (ok x)), q) le long h (n, e, on) again = rw (
    e,
    again g q (drop n whole) (IsOn-mono (drop n whole) bound f q le on) (All-drop IsByte n whole h)
        (omega (arith, length-drop n whole, decode_element_bounds t whole h e)),
  )
  poll_step f g bound whole (ready (some (err e)), q) le long h agrees again =
      let (x, same, e') = Agrees-err buffers t whole bound e q agrees in rw (same, e') refl

  poll_all-IsOn :
      (f g : ℕ) (p : EbmlStreamingParser) (whole : List ℕ)
      → IsOn whole f p
      → All IsByte whole
      → length whole < g
      → poll_all buffers t f p ≡ decode_all t g whole
  unfolding poll_all
  poll_all-IsOn zero g p whole on h l = absurd (omega (arith, on.smaller))
  poll_all-IsOn (suc f) zero p whole on h l = absurd (omega arith)
  poll_all-IsOn (suc f) (suc g) p whole on h l =
      let work_p : ℕ = length whole + length p.stream in
      let agrees : Agrees buffers t whole work_p (poll_event buffers t p) =
        rw on.pool_is at (poll_event-Agrees buffers t p on.roomy on.buffered on.fed) in
      poll_step f g work_p whole (poll_event buffers t p)
        (omega (arith, rw on.pool_is at on.smaller)) (omega arith) h agrees
        (λ k q more on' h' l'. poll_all-IsOn f k q more on' h' l')

  -- However the bytes of a stream are cut into buffers, and wherever it makes the parser wait: with
  -- no limit and no error of the stream, polling to the end gives the elements of the whole
  -- byte string, in order, and ends as decoding the whole ends: with its error, or where no
  -- whole element is left. The fuel that is enough counts the bytes and the polls.
  pub poll_all-decode_all :
      (s : List Arrival) (fuel : ℕ)
      → IsFeed s
      → length (content s) + length s < fuel
      → poll_all buffers t fuel (parse_ebml s) ≡ decode_all t (suc (length (content s))) (content s)
  unfolding parse_ebml
  poll_all-decode_all s fuel feed enough =
      poll_all-IsOn fuel (suc (length (content s))) (parse_ebml s) (content s)
        (record { roomy = tt; buffered = tt; fed = feed; pool_is = refl; smaller = enough })
        (content-IsByte s feed) (omega arith)

  -- So two streams of the same bytes cannot be told apart.
  pub poll_all_fragments :
      (s r : List Arrival) (fuel : ℕ)
      → IsFeed s
      → IsFeed r
      → content s ≡ content r
      → length (content s) + length s < fuel
      → length (content r) + length r < fuel
      → poll_all buffers t fuel (parse_ebml s) ≡ poll_all buffers t fuel (parse_ebml r)
  poll_all_fragments s r fuel hs hr same enough_s enough_r =
      poll_all-decode_all s fuel hs enough_s
      ∙ (rw same)
      ∙ sym (poll_all-decode_all r fuel hr enough_r)

-- The iterator gives the same elements, and takes an error for the end.
pub collect-decode_all :
    {T : Type 0} (t : FromEbml T) (fuel : ℕ) (bytes : List ℕ)
    → collect t fuel bytes ≡ (decode_all t fuel bytes).0
unfolding collect iter_next advance_iter push_next decode_all
collect-decode_all t zero bytes = refl
collect-decode_all t (suc fuel) bytes = elim (Decoded-cases (decode_element t bytes)) [
  | inl e ↦ rw e
  | inr (inl (x, e)) ↦ rw e
  | inr (inr ((x, n), e)) ↦ rw (e, collect-decode_all t fuel (drop n bytes))
]
