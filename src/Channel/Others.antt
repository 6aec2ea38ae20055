-- ===== src/Channel/Others.antt =====
-- What a step of a channel leaves to senders that are not on its list, and to those that are.
use webmetro.Base.{◌≡◌, ◌≢◌, ◌⊎◌, ◌∙◌, refl, sym, inl, inr, List, [], ◌∷◌, ◌++◌, All}
use webmetro.Mpsc.{Mpsc}
use webmetro.Channel.{send, drop_transmitter, poll_listener, drop_listener}
use webmetro.Channel.Delivery.{send-with_room, retain-queued}
use webmetro.Channel.Sound.{
  World, Event, sends, closes, joins, polls, leaves, perform, IsSound, new_listener-with_listener,
}
use webmetro.Channel.Session.{Listed, Listed-with_room, queued-header_sent}

module _ (mpsc : Mpsc) where
  open mpsc use {
    Sender, Queues, queued, IsMade, mpsc_channel, fresh, queued_made, queued_received_other,
    queued_left_other,
  }

  pub perform-name : (e : Event mpsc) (w : World mpsc) → (perform mpsc e w).0.name ≡ w.0.name
  unfolding perform send drop_transmitter poll_listener drop_listener
  perform-name (sends chunk) (c, q) = refl
  perform-name closes (c, q) = refl
  perform-name joins w = rw (new_listener-with_listener mpsc w)
  perform-name (polls t) (c, q) = refl
  perform-name (leaves t) (c, q) = refl

  Listed-last :
      (t u : Sender) (ss : List Sender)
      → Listed mpsc t (ss ++ (u ∷ []))
      → Listed mpsc t ss ⊎ (t ≡ u)
  Listed-last t u [] (inl e) = inr e
  Listed-last t u [] (inr l) = elim l [ ]
  Listed-last t u (s ∷ ss) (inl e) = inl (inl e)
  Listed-last t u (s ∷ ss) (inr l) = elim (Listed-last t u ss l) [
    | inl h ↦ inl (inr h)
    | inr e ↦ inr e
  ]

  -- A sender that a step puts on the list had no queue before.
  pub Listed-perform :
      (e : Event mpsc) (w : World mpsc) (t : Sender)
      → IsSound mpsc w
      → Listed mpsc t (perform mpsc e w).0.listeners
      → Listed mpsc t w.0.listeners ⊎ (IsMade t w.1 → ⊥)
  unfolding perform drop_transmitter poll_listener drop_listener
  Listed-perform (sends chunk) (c, q) t h l =
      let kept = (send-with_room mpsc chunk c q h.distinct).0 in
      inl ((Listed-with_room mpsc q t c.listeners (rw kept at l)).0)
  Listed-perform closes (c, q) t h l = inl l
  Listed-perform joins (c, q) t h l =
      let l' = rw (new_listener-with_listener mpsc (c, q)) at l in
      elim (Listed-last t (mpsc_channel 5 q).0 c.listeners l') [
        | inl old ↦ inl old
        | inr new ↦ inr (λ made. fresh 5 q t made new)
      ]
  Listed-perform (polls u) (c, q) t h l = inl l
  Listed-perform (leaves u) (c, q) t h l = inl l

  Listed-differ : (t : Sender) (ss : List Sender) → (Listed mpsc t ss → ⊥) → All (λ s. s ≢ t) ss
  Listed-differ t [] h = tt
  Listed-differ t (s ∷ ss) h = (λ e. h (inl (sym e)), Listed-differ t ss (λ l. h (inr l)))

  -- An event that is no poll and no drop of `t` itself.
  abbrev pub IsElsewhere : Sender → Event mpsc → Type 0
  IsElsewhere t (polls u) = t ≢ u
  IsElsewhere t (leaves u) = t ≢ u
  IsElsewhere t e = Unit

  -- A step of a channel leaves the queues of the listeners of others as they are.
  pub queued-perform :
      (e : Event mpsc) (w : World mpsc) (t : Sender)
      → IsMade t w.1
      → (Listed mpsc t w.0.listeners → ⊥)
      → IsElsewhere t e
      → queued t (perform mpsc e w).1 ≡ queued t w.1
  unfolding perform send drop_transmitter poll_listener drop_listener
  queued-perform (sends chunk) (c, q) t made apart other =
      retain-queued mpsc chunk c.listeners q t (Listed-differ t c.listeners apart)
  queued-perform closes (c, q) t made apart other = refl
  queued-perform joins (c, q) t made apart other =
      let (u, q') = mpsc_channel 5 q in
      rw (new_listener-with_listener mpsc (c, q))
        (queued-header_sent mpsc c.header_chunk u t q' (fresh 5 q t made) ∙ queued_made 5 t q made)
  queued-perform (polls u) (c, q) t made apart other = queued_received_other u t q other
  queued-perform (leaves u) (c, q) t made apart other = queued_left_other u t q other
