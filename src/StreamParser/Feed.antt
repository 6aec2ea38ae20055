-- ===== src/StreamParser/Feed.antt =====
-- One call of `poll_event` against `decode_element` on everything that the stream will bring.
pub mod Pool
pub use Pool.{
  content, IsFeed, pool, work, IsOn, content-IsByte, IsOn-mono, HasRoom, HasRoom-mono,
  over_limit-HasRoom,
}
use webmetro.Base.{
  false, ℕ, ◌+◌, ◌≤◌, ◌<◌, ◌≡◌, ◌∙◌, refl, sym, arith, Option, none, some, List, [], ◌∷◌, ◌++◌,
  length, take, drop, All, All-append, Result, ok, err, Poll, ready, pending, append-nil,
  append_assoc, length-append, inl, inr, Decoded-cases, Result-cases, length-take, All-drop,
  drop-append_le, length-drop,
}
use webmetro.Buffers.{Buffers}
use webmetro.Error.{
  WebmetroError, ebml_error, resources_exceeded, http_error, hyper_error, warp_error, io_error,
  application_error,
}
use webmetro.Ebml.Varint.Decode.{IsByte}
use webmetro.Ebml.Varint.{EbmlError}
use webmetro.Ebml.Element.{
  EbmlLayout, FromEbml, check_space, decode_element, decode_layout, decode_body, slice,
}
use webmetro.Ebml.Element.Prefix.{Decided, decode_element-append}
use webmetro.Ebml.Element.Bounds.{IsWithin, check_space-IsWithin}
use webmetro.StreamParser.{
  Arrival, later, chunk, failed, EbmlStreamingParser, over_limit, map_ebml, take_element,
  poll_round, poll_loop, poll_event,
}

module _ (buffers : Buffers) {T : Type 0} (t : FromEbml T) where
  open buffers use {put_lem, split_to_lem, advance_lem}

  -- The answer of a poll, against `decode_element` on `whole`.
  abbrev pub Agrees :
      List ℕ → ℕ → Poll (Option (Result WebmetroError T)) × EbmlStreamingParser → Type 0
  Agrees whole bound (ready none, p) = decode_element t whole ≡ ok none
  Agrees whole bound (pending, p) = IsOn whole bound p
  Agrees whole bound (ready (some (ok x)), p) =
      (n : ℕ) × (decode_element t whole ≡ ok (some (x, n))) × IsOn (drop n whole) bound p
  Agrees whole bound (ready (some (err (ebml_error e))), p) = decode_element t whole ≡ err e
  Agrees whole bound (ready (some (err _)), p) = ⊥

  -- The only error that a parser can give then is that of decoding.
  pub Agrees-err :
      (whole : List ℕ) (bound : ℕ) (e : WebmetroError) (p : EbmlStreamingParser)
      → Agrees whole bound (ready (some (err e)), p)
      → (x : EbmlError) × (e ≡ ebml_error x) × (decode_element t whole ≡ err x)
  Agrees-err whole bound (ebml_error x) p h = (x, refl, h)
  Agrees-err whole bound resources_exceeded p h = elim h [ ]
  Agrees-err whole bound (http_error x) p h = elim h [ ]
  Agrees-err whole bound (hyper_error x) p h = elim h [ ]
  Agrees-err whole bound (warp_error x) p h = elim h [ ]
  Agrees-err whole bound (io_error x) p h = elim h [ ]
  Agrees-err whole bound (application_error x) p h = elim h [ ]

  -- What `decode_element` makes of the buffer it makes of everything.
  Decided-decode_element :
      (p : EbmlStreamingParser) {r : Result EbmlError (Option (T × ℕ))}
      → All IsByte p.buffer
      → IsFeed p.stream
      → Decided r
      → decode_element t p.buffer ≡ r
      → decode_element t (pool p) ≡ r
  Decided-decode_element p h feed d e =
      decode_element-append t p.buffer (content p.stream) h (content-IsByte p.stream feed) (rw e d)
      ∙ e

  error_early :
      (p : EbmlStreamingParser) {x : EbmlError}
      → All IsByte p.buffer
      → IsFeed p.stream
      → check_space t p.buffer ≡ err x
      → decode_element t (pool p) ≡ err x
  error_early p h feed e =
      Decided-decode_element p h feed tt (unfold decode_element decode_layout in rw e)

  abbrev payload_of : EbmlStreamingParser → EbmlLayout → List ℕ
  payload_of p info = drop info.body_offset (take info.element_len p.buffer)

  found_early :
      (p : EbmlStreamingParser) (info : EbmlLayout) {r : Result EbmlError (Option (T × ℕ))}
      → All IsByte p.buffer
      → IsFeed p.stream
      → check_space t p.buffer ≡ ok (some info)
      → Decided r
      → decode_body t info.element_len (t.decode info.element_id (payload_of p info)) ≡ r
      → decode_element t (pool p) ≡ r
  found_early p info h feed e d body =
      Decided-decode_element p h feed d (unfold decode_element decode_layout slice in rw (e, body))

  taken :
      (p : EbmlStreamingParser) (info : EbmlLayout) (borrowed : List ℕ)
      → HasRoom p.buffer_size_limit (length (pool p))
      → All IsByte p.buffer
      → IsFeed p.stream
      → IsWithin p.buffer info
      → IsOn
          (drop info.element_len (pool p))
          (work p)
          (record p { buffer = drop info.element_len p.buffer; borrowed = borrowed })
  taken p info borrowed lim h feed within =
      let rest : List ℕ = content p.stream in
      record {
        roomy =
            HasRoom-mono p.buffer_size_limit (length (drop info.element_len p.buffer ++ rest))
              (length (pool p))
              (omega (
                arith,
                length-append (drop info.element_len p.buffer) rest,
                length-append p.buffer rest,
                length-drop info.element_len p.buffer,
              ))
              lim;
        buffered = All-drop IsByte info.element_len p.buffer h;
        fed = feed;
        pool_is = sym (drop-append_le info.element_len p.buffer rest within.fits);
        smaller = omega (
          arith,
          within.header,
          within.payload,
          within.fits,
          length-append (drop info.element_len p.buffer) rest,
          length-append p.buffer rest,
          length-drop info.element_len p.buffer,
        );
      }

  take_element-Agrees :
      (p : EbmlStreamingParser) (info : EbmlLayout)
      → HasRoom p.buffer_size_limit (length (pool p))
      → All IsByte p.buffer
      → IsFeed p.stream
      → check_space t p.buffer ≡ ok (some info)
      → Agrees (pool p) (work p) (take_element buffers t info p)
  unfolding take_element map_ebml
  take_element-Agrees p info lim h feed e =
      let within : IsWithin p.buffer info = check_space-IsWithin t p.buffer h e in
      let cut : length (take info.element_len p.buffer) ≡ info.element_len =
        omega (arith, length-take info.element_len p.buffer, within.fits) in
      let inside : info.body_offset ≤ length (take info.element_len p.buffer) =
        omega (arith, within.payload) in
      let on = taken p info (payload_of p info) lim h feed within in
      rw (split_to_lem p.buffer info.element_len within.fits, advance_lem _ info.body_offset inside)
        (elim (Result-cases (t.decode info.element_id (payload_of p info))) [
          | inl (x, d) ↦
              rw d
                (info.element_len, found_early p info h feed e tt (unfold decode_body in rw d), on)
          | inr (x, d) ↦ rw d (found_early p info h feed e tt (unfold decode_body in rw d))
        ])

  poll_round-Agrees :
      (p : EbmlStreamingParser)
      (refill : Poll (Option (Result WebmetroError T)) × EbmlStreamingParser)
      → HasRoom p.buffer_size_limit (length (pool p))
      → All IsByte p.buffer
      → IsFeed p.stream
      → (check_space t p.buffer ≡ ok none → Agrees (pool p) (work p) refill)
      → Agrees (pool p) (work p) (poll_round buffers t (check_space t p.buffer) p refill)
  unfolding poll_round
  poll_round-Agrees p refill lim h feed more =
      let over : over_limit p.buffer_size_limit p.buffer ≡ false =
        over_limit-HasRoom p.buffer_size_limit p.buffer (
          HasRoom-mono p.buffer_size_limit (length p.buffer) (length (pool p))
            (omega (arith, length-append p.buffer (content p.stream))) lim) in
      elim (Decoded-cases (check_space t p.buffer)) [
        | inl e ↦ rw (e, over) (more e)
        | inr (inl (x, e)) ↦ rw e (error_early p h feed e)
        | inr (inr (info, e)) ↦ rw e (take_element-Agrees p info lim h feed e)
      ]

  Agrees-mono :
      (whole : List ℕ) (a b : ℕ) (r : Poll (Option (Result WebmetroError T)) × EbmlStreamingParser)
      → a ≤ b
      → Agrees whole a r
      → Agrees whole b r
  Agrees-mono whole a b (ready none, p) le h = h
  Agrees-mono whole a b (pending, p) le h = IsOn-mono whole a b p le h
  Agrees-mono whole a b (ready (some (ok x)), p) le (n, e, on) =
      (n, e, IsOn-mono (drop n whole) a b p le on)
  Agrees-mono whole a b (ready (some (err (ebml_error e))), p) le h = h
  Agrees-mono whole a b (ready (some (err resources_exceeded)), p) le h = h
  Agrees-mono whole a b (ready (some (err (http_error e))), p) le h = h
  Agrees-mono whole a b (ready (some (err (hyper_error e))), p) le h = h
  Agrees-mono whole a b (ready (some (err (warp_error e))), p) le h = h
  Agrees-mono whole a b (ready (some (err (io_error e))), p) le h = h
  Agrees-mono whole a b (ready (some (err (application_error e))), p) le h = h

  none_yet : (b : List ℕ) → check_space t b ≡ ok none → decode_element t b ≡ ok none
  unfolding decode_element decode_layout
  none_yet b e = rw e

  waited :
      (s : List Arrival) (p : EbmlStreamingParser)
      → p.stream ≡ later ∷ s
      → HasRoom p.buffer_size_limit (length (pool p))
      → All IsByte p.buffer
      → IsFeed p.stream
      → IsOn (pool p) (work p) (record p { stream = s })
  waited s p here lim h feed = record {
    roomy = rw here at lim;
    buffered = h;
    fed = rw here at feed;
    pool_is = rw here;
    smaller = rw here (omega arith);
  }

  poll_loop-Agrees :
      (s : List Arrival) (p : EbmlStreamingParser)
      → p.stream ≡ s
      → HasRoom p.buffer_size_limit (length (pool p))
      → All IsByte p.buffer
      → IsFeed p.stream
      → Agrees (pool p) (work p) (poll_loop buffers t s p)
  unfolding poll_loop
  poll_loop-Agrees [] p here lim h feed =
      poll_round-Agrees p _ lim h feed λ e. rw (here, append-nil) (none_yet p.buffer e)
  poll_loop-Agrees (later ∷ s) p here lim h feed =
      poll_round-Agrees p _ lim h feed λ e. waited s p here lim h feed
  poll_loop-Agrees (chunk buf ∷ s) p here lim h feed =
      let q : EbmlStreamingParser = record p { stream = s; buffer = buffers.put p.buffer buf } in
      let feed' : All IsByte buf × IsFeed s = rw here at feed in
      let joined : pool q ≡ pool p = rw (put_lem, here, append_assoc p.buffer buf (content s)) in
      let fewer : length (pool p) + length s ≤ work p = rw here (omega arith) in
      let bytes : All IsByte q.buffer = rw put_lem (All-append IsByte p.buffer buf h feed'.0) in
      poll_round-Agrees p _ lim h feed λ e.
        Agrees-mono (pool p) (length (pool p) + length s) (work p) (poll_loop buffers t s q) fewer
          (rw joined at (poll_loop-Agrees s q refl (rw joined lim) bytes feed'.1))
  poll_loop-Agrees (failed x ∷ s) p here lim h feed = elim (rw here at feed) [ ]

  -- One poll of a parser with no limit that can strike, against `decode_element` on all the bytes that it has
  -- and will get.
  pub poll_event-Agrees :
      (p : EbmlStreamingParser)
      → HasRoom p.buffer_size_limit (length (pool p))
      → All IsByte p.buffer
      → IsFeed p.stream
      → Agrees (pool p) (work p) (poll_event buffers t p)
  unfolding poll_event
  poll_event-Agrees p = poll_loop-Agrees p.stream p refl
