-- ===== src/Chunk/Limit.antt =====
-- The soft limits of the chunker and of its parser: what they change.
pub mod Element
use webmetro.Base.{
  ℕ, zero, suc, ◌≡◌, ◌∙◌, refl, ◌⊎◌, inl, inr, Option, none, some, [], ◌∷◌, ◌++◌, take, length, leb,
  Result, ok, err, Poll, ready, pending, Bool-cases,
}
use webmetro.ByteOrder.{ByteOrder}
use webmetro.Buffers.{Buffers}
use webmetro.Error.{WebmetroError, resources_exceeded}
use webmetro.Io.{Cursor, new_vec}
use webmetro.Webm.{
  WebmElement, ebml_head, void, segment, seek_head, cues, tracks, info, cluster, timecode,
  simple_block, unknown, webm,
}
use webmetro.StreamParser.{poll_event}
use webmetro.StreamParser.Limit.{poll_event-IsLimited, poll_event-limit}
use webmetro.Chunk.{Chunk, ClusterHead, cluster_chunk}
use webmetro.Chunk.Chunker.{
  ChunkerState, building_header, building_cluster, ended, WebmChunker, with_soft_limit, is_full,
  Step, go_on, emit, encode, stored, restarted, in_header, in_cluster, on_element, Item, after_step,
  after_event, chunker_round, poll_next,
}
use webmetro.Chunk.Run.{Items, push_item, handle, chunk_all}
use webmetro.Chunk.Limit.Element.{IsLimitedStep, on_element-IsLimitedStep}

module _ (order : ByteOrder) (buffers : Buffers) where
  -- Both limits: that of the parser, and that of the chunker.
  abbrev pub with_limits : ℕ → ℕ → WebmChunker → WebmChunker
  with_limits parsed built c =
      with_soft_limit (record c { source = webmetro.StreamParser.with_soft_limit c.source parsed })
        built

  abbrev pub IsFree : WebmChunker → Type 0
  IsFree c = (c.source.buffer_size_limit ≡ none) × (c.buffer_size_limit ≡ none)

  abbrev IsExceeded : Option (Item × WebmChunker) → Type 0
  IsExceeded r = (c : WebmChunker) × (r ≡ some (ready (some (err resources_exceeded)), c))

  abbrev IsLimitedPoll : ℕ → ℕ → Option (Item × WebmChunker) → Option (Item × WebmChunker) → Type 0
  IsLimitedPoll parsed built r none = (r ≡ none) ⊎ IsExceeded r
  IsLimitedPoll parsed built r (some (item, c)) =
      ((r ≡ some (item, with_limits parsed built c)) × IsFree c) ⊎ IsExceeded r

  exceeded :
      (parsed built : ℕ) (r free : Option (Item × WebmChunker))
      → IsExceeded r
      → IsLimitedPoll parsed built r free
  exceeded parsed built r none h = inr h
  exceeded parsed built r (some (item, c)) h = inr h

  abbrev AreLimited : ℕ → ℕ → (WebmChunker → Option (Item × WebmChunker)) → Type 0
  AreLimited parsed built again =
      (c : WebmChunker)
      → IsFree c
      → IsLimitedPoll parsed built (again (with_limits parsed built c)) (again c)

  after_step-IsLimitedPoll :
      (parsed built : ℕ) (c : WebmChunker) (step free : Step)
      (again : WebmChunker → Option (Item × WebmChunker))
      → IsFree c
      → IsLimitedStep step free
      → AreLimited parsed built again
      → IsLimitedPoll parsed built
          (after_step order buffers (with_limits parsed built c) step again)
          (after_step order buffers c free again)
  unfolding after_step with_soft_limit
  after_step-IsLimitedPoll parsed built c step (go_on s) again h (inl e) rest =
      rw e (rest (record c { state = s }) h)
  after_step-IsLimitedPoll parsed built c step (emit item s) again h (inl e) rest =
      rw e (inl (refl, h))
  after_step-IsLimitedPoll parsed built c step free again h (inr e) rest =
      exceeded parsed built _ _ (rw e (_, refl))

  after_event-IsLimitedPoll :
      (parsed built : ℕ) (c : WebmChunker)
      (event : Poll (Option (Result WebmetroError WebmElement)))
      (again : WebmChunker → Option (Item × WebmChunker))
      → IsFree c
      → AreLimited parsed built again
      → IsLimitedPoll parsed built
          (after_event order buffers (with_limits parsed built c) event again)
          (after_event order buffers c event again)
  unfolding after_event with_soft_limit
  after_event-IsLimitedPoll parsed built c pending again h rest = inl (refl, h)
  after_event-IsLimitedPoll parsed built c (ready none) again h rest = inl (refl, h)
  after_event-IsLimitedPoll parsed built c (ready (some (err e))) again h rest = inl (refl, h)
  after_event-IsLimitedPoll parsed built c (ready (some (ok x))) again h rest =
      let step : IsLimitedStep (on_element order buffers (some built) c.state x)
          (on_element order buffers c.buffer_size_limit c.state x) =
        rw h.1 (on_element-IsLimitedStep order buffers built c.state x) in
      after_step-IsLimitedPoll parsed built c _ _ again h step rest

  event-IsLimitedPoll :
      (parsed built : ℕ) (c : WebmChunker) (again : WebmChunker → Option (Item × WebmChunker))
      → IsFree c
      → AreLimited parsed built again
      → IsLimitedPoll parsed built
          (after_event order buffers
            (record (with_limits parsed built c) {
              source = (poll_event buffers (webm order) (with_limits parsed built c).source).1;
            })
            (poll_event buffers (webm order) (with_limits parsed built c).source).0
            again)
          (after_event order buffers
            (record c { source = (poll_event buffers (webm order) c.source).1 })
            (poll_event buffers (webm order) c.source).0
            again)
  unfolding with_soft_limit
  event-IsLimitedPoll parsed built c again h rest =
      let (event, source) = poll_event buffers (webm order) c.source in
      let free' : IsFree (record c { source = source }) =
        (poll_event-limit buffers (webm order) c.source ∙ h.0, h.1) in
      elim (poll_event-IsLimited buffers (webm order) parsed c.source h.0) [
        | inl e ↦ rw e (
            after_event-IsLimitedPoll parsed built (record c { source = source }) event again free'
              rest)
        | inr over ↦ exceeded parsed built _ _ (unfold after_event in rw over.answer (_, refl))
      ]

  chunker_round-IsLimitedPoll :
      (parsed built : ℕ) (s : ChunkerState) (c : WebmChunker)
      (again : WebmChunker → Option (Item × WebmChunker))
      → IsFree c
      → AreLimited parsed built again
      → IsLimitedPoll parsed built
          (chunker_round order buffers s (with_limits parsed built c) again)
          (chunker_round order buffers s c again)
  unfolding chunker_round
  chunker_round-IsLimitedPoll parsed built ended c again h rest =
      unfold with_soft_limit in inl (refl, h)
  chunker_round-IsLimitedPoll parsed built (building_header b) c again h rest =
      event-IsLimitedPoll parsed built c again h rest
  chunker_round-IsLimitedPoll parsed built (building_cluster hd b) c again h rest =
      event-IsLimitedPoll parsed built c again h rest

  poll_next-IsLimitedPoll :
      (parsed built fuel : ℕ) → AreLimited parsed built (λ c. poll_next order buffers fuel c)
  unfolding poll_next with_soft_limit
  poll_next-IsLimitedPoll parsed built zero c h = inl refl
  poll_next-IsLimitedPoll parsed built (suc fuel) c h =
      chunker_round-IsLimitedPoll parsed built c.state c (λ c'. poll_next order buffers fuel c') h
        (poll_next-IsLimitedPoll parsed built fuel)

  -- A run under limits against the run without any.
  abbrev pub IsCutShort : Option Items → Option Items → Type 0
  IsCutShort cut none = Unit
  IsCutShort cut (some items) =
      (cut ≡ some items) ⊎ ((n : ℕ) × (cut ≡ some (take n items ++ (err resources_exceeded ∷ []))))

  cut_now : (items : Option Items) → IsCutShort (some (err resources_exceeded ∷ [])) items
  cut_now none = tt
  cut_now (some items) = inr (0, refl)

  push_item-IsCutShort :
      (item : Result WebmetroError Chunk) (cut items : Option Items)
      → IsCutShort cut items
      → IsCutShort (push_item item cut) (push_item item items)
  push_item-IsCutShort item cut none h = tt
  push_item-IsCutShort item cut (some items) (inl e) = inl (rw e)
  push_item-IsCutShort item cut (some items) (inr (n, e)) = inr (suc n, rw e)

  handle-IsCutShort :
      (parsed built : ℕ) (r free : Option (Item × WebmChunker)) (again : WebmChunker → Option Items)
      → IsLimitedPoll parsed built r free
      → ((c : WebmChunker) → IsFree c → IsCutShort (again (with_limits parsed built c)) (again c))
      → IsCutShort (handle r again) (handle free again)
  unfolding handle
  handle-IsCutShort parsed built r none again h rest = tt
  handle-IsCutShort parsed built r (some (pending, c)) again (inl (e, h)) rest = rw e (rest c h)
  handle-IsCutShort parsed built r (some (ready none, c)) again (inl (e, h)) rest = rw e (inl refl)
  handle-IsCutShort parsed built r (some (ready (some (err x)), c)) again (inl (e, h)) rest =
      rw e (inl refl)
  handle-IsCutShort parsed built r (some (ready (some (ok x)), c)) again (inl (e, h)) rest =
      rw e (push_item-IsCutShort (ok x) _ _ (rest c h))
  handle-IsCutShort parsed built r (some (item, c)) again (inr (c', e)) rest = rw e (cut_now _)

  -- With a soft limit on the chunker and one on its parser, polling to the end gives the items
  -- that it gives without any, or the first of them and then the error of exceeded resources,
  -- from every state of a chunker and a parser without limits: no chunk before it is lost,
  -- changed or added. The fuel that is enough without limits is enough with them.
  pub chunk_all-IsCutShort :
      (parsed built fuel : ℕ) (c : WebmChunker)
      → IsFree c
      → IsCutShort
          (chunk_all order buffers fuel (with_limits parsed built c))
          (chunk_all order buffers fuel c)
  unfolding chunk_all
  chunk_all-IsCutShort parsed built zero c h = tt
  chunk_all-IsCutShort parsed built (suc fuel) c h =
      handle-IsCutShort parsed built _ _ (λ c'. chunk_all order buffers fuel c')
        (poll_next-IsLimitedPoll parsed built (suc fuel) c h)
        (λ c' h'. chunk_all-IsCutShort parsed built fuel c' h')
