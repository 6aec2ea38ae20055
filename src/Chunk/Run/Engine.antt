-- ===== src/Chunk/Run/Engine.antt =====
-- The chunker polled to its end, with its parser, against the state machine on the elements.
use webmetro.Base.{
  ℕ, zero, suc, ◌+◌, ◌≤◌, ◌<◌, ◌≡◌, refl, ap, arith, Option, none, some, List, [], ◌∷◌, length,
  drop, ◌⊎◌, inl, inr, All, All-drop, Result, ok, err, Poll, ready, pending, length-drop,
}
use webmetro.ByteOrder.{ByteOrder}
use webmetro.Buffers.{Buffers}
use webmetro.Error.{WebmetroError, ebml_error}
use webmetro.Ebml.Varint.Decode.{IsByte}
use webmetro.Io.{new_vec}
use webmetro.Webm.{WebmElement, webm}
use webmetro.StreamParser.{Arrival, EbmlStreamingParser, parse_ebml, poll_event}
use webmetro.StreamParser.Feed.{
  HasRoom, content, IsFeed, IsOn, IsOn-mono, Agrees, Agrees-err, poll_event-Agrees, content-IsByte,
}
use webmetro.StreamParser.Run.{
  Ending, finished, stopped, decode_all, decode_all-some, decode_all-none, decode_all-err,
  decode_element_bounds,
}
use webmetro.Chunk.{Chunk}
use webmetro.Chunk.Chunker.{
  ChunkerState, building_header, building_cluster, ended, WebmChunker, Step, go_on, emit,
  on_element, on_end, Item, after_step, after_event, chunker_round, poll_next,
}
use webmetro.Chunk.Group.{push_step, push_end, close, chunked}

abbrev pub Items : Type 0
Items = List (Result WebmetroError Chunk)

abbrev pub push_item : Result WebmetroError Chunk → Option Items → Option Items
push_item item none = none
push_item item (some items) = some (item ∷ items)

-- What a caller does with the answer of a poll: it polls on after a wait or a chunk, and stops at the
-- end and at an error.
unfoldable pub handle : Option (Item × WebmChunker) → (WebmChunker → Option Items) → Option Items
handle none again = none
handle (some (pending, c)) again = again c
handle (some (ready none, c)) again = some []
handle (some (ready (some (err e)), c)) again = some (err e ∷ [])
handle (some (ready (some (ok chunk)), c)) again = push_item (ok chunk) (again c)

module _ (order : ByteOrder) (buffers : Buffers) where
  -- Polls the chunker to its end, with fuel for the polls and for each of them; `none` when it is out.
  unfoldable pub chunk_all : ℕ → WebmChunker → Option Items
  chunk_all zero c = none
  chunk_all (suc fuel) c = handle (poll_next order buffers (suc fuel) c) (λ c'. chunk_all fuel c')

  -- What the chunker makes of the bytes `whole`.
  abbrev pub grouped : ℕ → Option ℕ → ChunkerState → List ℕ → Items
  grouped g limit s whole =
      let (xs, end) = decode_all (webm order) g whole in chunked order buffers limit end s xs

  -- Where the rest of a run has been dealt with, for less work.
  abbrev IsDone : ℕ → Type 0
  IsDone m =
      (k f g : ℕ) (c : WebmChunker) (more : List ℕ)
      → IsOn more m c.source
      → m ≤ k
      → m ≤ f
      → All IsByte more
      → length more < g
      → handle (poll_next order buffers k c) (λ c'. chunk_all f c')
        ≡ some (grouped g c.buffer_size_limit c.state more)

  step_rest :
      (m k f g : ℕ) (c : WebmChunker) (step : Step) (more : List ℕ)
      → IsDone m
      → IsOn more m c.source
      → m ≤ k
      → m < f
      → All IsByte more
      → length more < g
      → handle
          (after_step order buffers c step (λ c'. poll_next order buffers k c'))
          (λ c'. chunk_all f c')
        ≡ some (
            let (xs, end) = decode_all (webm order) g more in
            push_step order buffers step (λ s. chunked order buffers c.buffer_size_limit end s xs))
  unfolding handle after_step push_step chunk_all
  step_rest m k f g c (go_on s) more rest on le lt h l =
      rest k f g (record c { state = s }) more on le (omega arith) h l
  step_rest m k f g c (emit (err e) s) more rest on le lt h l = refl
  step_rest m k zero g c (emit (ok chunk) s) more rest on le lt h l = absurd (omega arith)
  step_rest m k (suc f) g c (emit (ok chunk) s) more rest on le lt h l =
      ap (push_item (ok chunk))
        (rest (suc f) f g (record c { state = s }) more on (omega arith) (omega arith) h l)

  abbrev IsLive : ChunkerState → Type 0
  IsLive ended = ⊥
  IsLive _ = Unit

  chunked-live :
      (limit : Option ℕ) (end : Ending) (s : ChunkerState) (x : WebmElement) (xs : List WebmElement)
      → IsLive s
      → chunked order buffers limit end s (x ∷ xs)
        ≡ push_step order buffers
            (on_element order buffers limit s x)
            (λ s'. chunked order buffers limit end s' xs)
  unfolding chunked
  chunked-live limit end (building_header buffer) x xs live = refl
  chunked-live limit end (building_cluster head buffer) x xs live = refl
  chunked-live limit end ended x xs live = elim live [ ]

  chunked-close :
      (limit : Option ℕ) (end : Ending) (s : ChunkerState)
      → IsLive s
      → chunked order buffers limit end s [] ≡ close order buffers end s
  unfolding chunked
  chunked-close limit end (building_header buffer) live = refl
  chunked-close limit end (building_cluster head buffer) live = refl
  chunked-close limit end ended live = elim live [ ]

  -- The end of the source: a last cluster, and then the end of the chunks.
  end_step :
      (f : ℕ) (s : ChunkerState) (limit : Option ℕ) (q : EbmlStreamingParser)
      → handle
          (some (
            ready ((on_end order buffers s).0),
            record { source = q; buffer_size_limit = limit; state = (on_end order buffers s).1 },
          ))
          (λ c'. chunk_all (suc f) c')
        ≡ some (close order buffers finished s)
  unfolding handle on_end close push_end chunk_all poll_next chunker_round
  end_step f (building_header buffer) limit q = refl
  end_step f (building_cluster head buffer) limit q = refl
  end_step f ended limit q = refl

  -- One event of the source, and the first step of `decode_all`.
  event_step :
      (m bound k f g : ℕ) (c : WebmChunker) (whole : List ℕ)
      (r : Poll (Option (Result WebmetroError WebmElement)) × EbmlStreamingParser)
      → IsDone m
      → IsLive c.state
      → Agrees buffers (webm order) whole bound r
      → bound ≤ m
      → m ≤ k
      → m < f
      → All IsByte whole
      → length whole ≤ g
      → handle
          (after_event order buffers
            (record c { source = r.1 })
            r.0
            (λ c'. poll_next order buffers k c'))
          (λ c'. chunk_all f c')
        ≡ some (grouped (suc g) c.buffer_size_limit c.state whole)
  unfolding after_event
  event_step m bound k zero g c whole r rest live agrees b le lt h l = absurd (omega arith)
  event_step m bound k (suc f) g c whole (pending, q) rest live agrees b le lt h l =
      let on = IsOn-mono whole bound m q b agrees in
      let again =
        rest (suc f) f (suc g) (record c { source = q }) whole on (omega arith) (omega arith) h
          (omega arith) in
      unfold handle chunk_all in again
  event_step m bound k (suc f) g c whole (ready none, q) rest live agrees b le lt h l =
      rw
        (
          decode_all-none (webm order) g whole agrees,
          chunked-close c.buffer_size_limit finished c.state live,
        )
        (end_step f c.state c.buffer_size_limit q)
  event_step m bound k (suc f) g c whole (ready (some (ok x)), q) rest live (n, e, on) b le lt h l =
      let long = decode_element_bounds (webm order) whole h e in
      let shorter : length (drop n whole) < g =
        omega (arith, length-drop n whole, long.0, long.1) in
      let step = on_element order buffers c.buffer_size_limit c.state x in
      let (xs, end) = decode_all (webm order) g (drop n whole) in
      rw
        (
          decode_all-some (webm order) g whole e,
          chunked-live c.buffer_size_limit end c.state x xs live,
        )
        (step_rest m k (suc f) g (record c { source = q }) step (drop n whole) rest
          (IsOn-mono (drop n whole) bound m q b on) le lt (All-drop IsByte n whole h) shorter)
  event_step m bound k (suc f) g c whole (ready (some (err e)), q) rest live agrees b le lt h l =
      let (x, same, e') = Agrees-err buffers (webm order) whole bound e q agrees in
      unfold handle close in
      rw (
        same,
        decode_all-err (webm order) g whole e',
        chunked-close c.buffer_size_limit (stopped (ebml_error x)) c.state live,
      )

  live_round :
      (s : ChunkerState) (c : WebmChunker) (again : WebmChunker → Option (Item × WebmChunker))
      → IsLive s
      → chunker_round order buffers s c again ≡ (
          let (event, source) = poll_event buffers (webm order) c.source in
          after_event order buffers (record c { source = source }) event again)
  unfolding chunker_round
  live_round (building_header buffer) c again live = refl
  live_round (building_cluster head buffer) c again live = refl
  live_round ended c again live = elim live [ ]

  IsLive-cases : (s : ChunkerState) → IsLive s ⊎ (s ≡ ended)
  IsLive-cases (building_header buffer) = inl tt
  IsLive-cases (building_cluster head buffer) = inl tt
  IsLive-cases ended = inr refl

  handle-grouped : (m : ℕ) → IsDone m
  unfolding poll_next
  handle-grouped m zero f g c whole on le lf h l = absurd (omega (arith, on.smaller))
  handle-grouped zero (suc k) f g c whole on le lf h l = absurd (omega (arith, on.smaller))
  handle-grouped (suc m) (suc k) f zero c whole on le lf h l = absurd (omega arith)
  handle-grouped (suc m) (suc k) f (suc g) c whole on le lf h l =
      let rest = handle-grouped m in
      let bound : ℕ = length whole + length c.source.stream in
      let event = poll_event buffers (webm order) c.source in
      elim (IsLive-cases c.state) [
        | inl live ↦
            let agrees : Agrees buffers (webm order) whole bound event =
              rw on.pool_is at
                (poll_event-Agrees buffers (webm order) c.source on.roomy on.buffered on.fed) in
            let smaller : bound < suc m = rw on.pool_is at on.smaller in
            rw (live_round c.state c (λ c'. poll_next order buffers k c') live) (
              event_step m bound k f g c whole event rest live agrees (omega arith) (omega arith)
                (omega arith) h (omega arith))
        | inr e ↦ unfold handle chunker_round chunked in rw e
      ]

  -- The same with a limit on the parser that is more than all the bytes.
  pub chunk_all-HasRoom :
      (s : List Arrival) (parsed limit : Option ℕ) (fuel : ℕ)
      → IsFeed s
      → HasRoom parsed (length (content s))
      → length (content s) + length s + 2 ≤ fuel
      → chunk_all fuel (record {
        source = record (parse_ebml s) { buffer_size_limit = parsed };
        buffer_size_limit = limit;
        state = building_header new_vec;
      })
        ≡ some (grouped (suc (length (content s))) limit (building_header new_vec) (content s))
  unfolding chunk_all parse_ebml
  chunk_all-HasRoom s parsed limit zero feed room enough = absurd (omega arith)
  chunk_all-HasRoom s parsed limit (suc f) feed room enough =
      let c : WebmChunker = record {
        source = record (parse_ebml s) { buffer_size_limit = parsed };
        buffer_size_limit = limit;
        state = building_header new_vec;
      } in
      let on : IsOn (content s) (length (content s) + length s + 1) c.source = record {
        roomy = room;
        buffered = tt;
        fed = feed;
        pool_is = refl;
        smaller = omega arith;
      } in
      handle-grouped (length (content s) + length s + 1) (suc f) f (suc (length (content s))) c
        (content s) on (omega arith) (omega arith) (content-IsByte s feed) (omega arith)
