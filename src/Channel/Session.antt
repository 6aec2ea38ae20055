-- ===== src/Channel/Session.antt =====
-- What one listener gets in a sequence of steps of its channel.
use webmetro.Base.{
  ◌≡◌, ◌≢◌, ◌∙◌, refl, sym, true, Option, none, some, List, [], ◌∷◌, ◌++◌, ltb, if◌then◌else◌,
  Bool-cases, inl, inr, ◌⊎◌, Poll, ready, pending, append-nil,
}
use webmetro.Chunk.{Chunk}
use webmetro.Mpsc.{Mpsc}
use webmetro.Channel.{send, drop_transmitter, poll_listener, drop_listener}
use webmetro.Channel.Delivery.{with_room, AreDelivered, send-with_room}
use webmetro.Channel.Sound.{
  World, Event, sends, closes, joins, polls, leaves, perform, IsSound, header_sent,
  new_listener-with_listener,
}

module _ (mpsc : Mpsc) where
  open mpsc use {
    Sender, Queues, start_send, drop_sender, queued, room, IsMade, mpsc_channel, receive, fresh,
    received, queued_received, idle, queued_idle, queued_received_other, queued_left_other,
    queued_made, queued_other, same_receiver, same_receiver_iff,
  }

  abbrev pub Listed : Sender → List Sender → Type 0
  Listed s [] = ⊥
  Listed s (t ∷ ts) = (s ≡ t) ⊎ Listed s ts

  -- The chunks that are sent.
  abbrev pub sent_by : List (Event mpsc) → List Chunk
  sent_by [] = []
  sent_by (sends chunk ∷ es) = chunk ∷ sent_by es
  sent_by (_ ∷ es) = sent_by es

  abbrev pub taken : Poll (Option Chunk) → List Chunk
  taken (ready (some chunk)) = chunk ∷ []
  taken _ = []

  -- The chunks that `s` gets from its polls.
  unfoldable pub got_at : Sender → Event mpsc → World mpsc → List Chunk
  got_at s (polls t) w = if same_receiver s t then taken ((poll_listener mpsc t w).0) else []
  got_at s _ w = []

  unfoldable pub got : Sender → List (Event mpsc) → World mpsc → List Chunk
  got s [] w = []
  got s (e ∷ es) w = got_at s e w ++ got s es (perform mpsc e w)

  abbrev pub Stays : Sender → List (Event mpsc) → Type 0
  Stays s [] = Unit
  Stays s (leaves t ∷ es) = (s ≢ t) × Stays s es
  Stays s (_ ∷ es) = Stays s es

  Listed-kept :
      (q : Queues) (s t : Sender) (ss : List Sender)
      → ltb 0 (room t q) ≡ true
      → (Listed s (with_room mpsc q ss) → Listed s ss × (ltb 0 (room s q) ≡ true))
      → Listed s (t ∷ with_room mpsc q ss)
      → Listed s (t ∷ ss) × (ltb 0 (room s q) ≡ true)
  Listed-kept q s t ss e rest (inl same) = (inl same, rw same e)
  Listed-kept q s t ss e rest (inr l) = let (l', free) = rest l in (inr l', free)

  pub Listed-with_room :
      (q : Queues) (s : Sender) (ss : List Sender)
      → Listed s (with_room mpsc q ss)
      → Listed s ss × (ltb 0 (room s q) ≡ true)
  Listed-with_room q s [] h = elim h [ ]
  Listed-with_room q s (t ∷ ss) h = elim (Bool-cases (ltb 0 (room t q))) [
    | inl e ↦ Listed-kept q s t ss e (Listed-with_room q s ss) (rw e at h)
    | inr e ↦ let (l, free) = Listed-with_room q s ss (rw e at h) in (inr l, free)
  ]

  delivered_to :
      (chunk : Chunk) (q q' : Queues) (s : Sender) (ss : List Sender)
      → AreDelivered mpsc chunk q q' ss
      → Listed s ss
      → queued s q' ≡ (if ltb 0 (room s q) then queued s q ++ (chunk ∷ []) else queued s q)
  delivered_to chunk q q' s [] d l = elim l [ ]
  delivered_to chunk q q' s (t ∷ ss) (dt, d) (inl e) = rw e dt
  delivered_to chunk q q' s (t ∷ ss) (dt, d) (inr l) = delivered_to chunk q q' s ss d l

  Listed-snoc : (s t : Sender) (ss : List Sender) → s ≢ t → Listed s (ss ++ (t ∷ [])) → Listed s ss
  Listed-snoc s t [] other (inl e) = absurd (other e)
  Listed-snoc s t [] other (inr l) = elim l [ ]
  Listed-snoc s t (u ∷ ss) other (inl e) = inl e
  Listed-snoc s t (u ∷ ss) other (inr l) = inr (Listed-snoc s t ss other l)

  taken-idle :
      (answer : Poll (Option Chunk)) → ((c : Chunk) → answer ≢ ready (some c)) → taken answer ≡ []
  taken-idle (ready (some c)) h = absurd (h c refl)
  taken-idle (ready none) h = refl
  taken-idle pending h = refl

  -- A poll takes the front of the queue and nothing else.
  taken-receive :
      (s : Sender) (q : Queues) (cs : List Chunk)
      → queued s q ≡ cs
      → cs ≡ taken ((receive s q).0) ++ queued s (receive s q).1
  taken-receive s q [] e = rw (taken-idle ((receive s q).0) (λ c. idle s c q e), queued_idle s q e)
  taken-receive s q (c ∷ cs) e = rw (received s c cs q e, queued_received s c cs q e)

  pub queued-header_sent :
      (h : Option Chunk) (s t : Sender) (q : Queues)
      → t ≢ s
      → queued t (header_sent mpsc h s q) ≡ queued t q
  queued-header_sent none s t q other = refl
  queued-header_sent (some c) s t q other = queued_other s t c q other

  -- One step, as the listener `s` sees it.
  abbrev pub IsSeen : Sender → Event mpsc → World mpsc → Type 0
  IsSeen s e w =
      Listed s w.0.listeners
      × (queued s w.1 ++ sent_by (e ∷ []) ≡ got_at s e w ++ queued s (perform mpsc e w).1)

  send-IsSeen :
      (s : Sender) (chunk : Chunk) (w : World mpsc)
      → IsSound mpsc w
      → Listed s (perform mpsc (sends chunk) w).0.listeners
      → IsSeen s (sends chunk) w
  unfolding perform got_at
  send-IsSeen s chunk (c, q) sound l =
      let (kept, stored, delivered) = send-with_room mpsc chunk c q sound.distinct in
      let (before, free) = Listed-with_room q s c.listeners (rw kept at l) in
      let w' = send mpsc chunk (c, q) in
      (before, sym (rw free at (delivered_to chunk q w'.1 s c.listeners delivered before)))

  join-IsSeen :
      (s : Sender) (w : World mpsc)
      → IsMade s w.1
      → Listed s (perform mpsc joins w).0.listeners
      → IsSeen s joins w
  unfolding perform got_at
  join-IsSeen s (c, q) made l =
      let (t, q') = mpsc_channel 5 q in
      let new = new_listener-with_listener mpsc (c, q) in
      let other : s ≢ t = fresh 5 q s made in
      (
        Listed-snoc s t c.listeners other (rw new at l),
        rw (append-nil, new)
            (sym (queued-header_sent c.header_chunk t s q' other ∙ queued_made 5 s q made)),
      )

  poll-IsSeen :
      (s t : Sender) (w : World mpsc)
      → Listed s (perform mpsc (polls t) w).0.listeners
      → IsSeen s (polls t) w
  unfolding perform got_at poll_listener
  poll-IsSeen s t (c, q) l = elim (Bool-cases (same_receiver s t)) [
    | inl e ↦
        let same : s ≡ t = (same_receiver_iff s t).0 e in
        (l, rw (append-nil, e, ← same) (taken-receive s q (queued s q) refl))
    | inr e ↦
        let other : s ≢ t = λ same. cc (e, (same_receiver_iff s t).1 same) in
        (l, rw (append-nil, e) (sym (queued_received_other t s q other)))
  ]

  pub perform-IsSeen :
      (s : Sender) (e : Event mpsc) (w : World mpsc)
      → IsSound mpsc w
      → IsMade s w.1
      → Stays s (e ∷ [])
      → Listed s (perform mpsc e w).0.listeners
      → IsSeen s e w
  perform-IsSeen s (sends chunk) w sound made stays l = send-IsSeen s chunk w sound l
  perform-IsSeen s joins w sound made stays l = join-IsSeen s w made l
  perform-IsSeen s (polls t) w sound made stays l = poll-IsSeen s t w l
  perform-IsSeen s closes (c, q) sound made stays l =
      unfold perform drop_transmitter got_at in (l, rw append-nil)
  perform-IsSeen s (leaves t) (c, q) sound made (other, tt) l =
      unfold perform drop_listener got_at in
      (l, rw append-nil (sym (queued_left_other t s q other)))
