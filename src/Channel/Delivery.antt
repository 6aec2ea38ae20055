-- ===== src/Channel/Delivery.antt =====
-- What a transmitter's chunk does to the listeners and to their queues.
use webmetro.Base.{
  ◌<◌, ◌≡◌, ◌≢◌, ◌∙◌, refl, sym, arith, Option, none, some, List, [], ◌∷◌, ◌++◌, All, ltb,
  if◌then◌else◌, Bool-cases, inl, inr, ltb→lt, ltb_false→le,
}
use mathlib.Core.Path.{subst}
use webmetro.Chunk.{Chunk, headers, cluster_chunk, remaining_body, empty}
use webmetro.Mpsc.{Mpsc}
use webmetro.Channel.{queue_header, join, new_listener, Channel, remember, retain, send}

module _ (mpsc : Mpsc) where
  open mpsc use {
    mpsc_channel, queued_new, room_new, room_sent, Sender, Queues, start_send, drop_sender, queued,
    room, sent, queued_sent, refused, queued_refused, queued_dropped, queued_other, room_other,
    room_dropped,
  }

  -- No listener stands twice in a list.
  abbrev pub IsDistinct : List Sender → Type 0
  IsDistinct [] = Unit
  IsDistinct (s ∷ ss) = All (λ t. t ≢ s) ss × IsDistinct ss

  -- The listeners that keep up.
  abbrev pub with_room : Queues → List Sender → List Sender
  with_room q [] = []
  with_room q (s ∷ ss) = if ltb 0 (room s q) then s ∷ with_room q ss else with_room q ss

  -- Whether each listener with room has `chunk` at the end of its queue, and each other one is left as it was.
  abbrev pub AreDelivered : Chunk → Queues → Queues → List Sender → Type 0
  AreDelivered chunk q q' ss =
      All (λ t. queued t q' ≡ (if ltb 0 (room t q) then queued t q ++ (chunk ∷ []) else queued t q))
        ss

  -- Two states in which a listener's queue is the same.
  abbrev IsSame : Queues → Queues → Sender → Type 0
  IsSame q q' t = (queued t q' ≡ queued t q) × (room t q' ≡ room t q)

  with_room_same :
      (ss : List Sender) (q q' : Queues) → All (IsSame q q') ss → with_room q' ss ≡ with_room q ss
  with_room_same [] q q' h = refl
  with_room_same (s ∷ ss) q q' (hs, h) = rw (hs.1, with_room_same ss q q' h)

  AreDelivered-same :
      (chunk : Chunk) (ss : List Sender) (q q' r : Queues)
      → All (IsSame q q') ss
      → AreDelivered chunk q' r ss
      → AreDelivered chunk q r ss
  AreDelivered-same chunk [] q q' r h d = tt
  AreDelivered-same chunk (s ∷ ss) q q' r (hs, h) (ds, d) =
      (rw (hs.0, hs.1) at ds, AreDelivered-same chunk ss q q' r h d)

  -- After its turn, whether it took the chunk or was dropped, a listener leaves the others as they were.
  turn : Sender → Chunk → Queues → Queues
  turn s chunk q = let (taken, q') = start_send s chunk q in if taken then q' else drop_sender s q'

  turn-IsSame : (s t : Sender) (chunk : Chunk) (q : Queues) → t ≢ s → IsSame q (turn s chunk q) t
  unfolding turn
  turn-IsSame s t chunk q other = elim (Bool-cases ((start_send s chunk q).0)) [
    | inl e ↦ rw e (queued_other s t chunk q other, room_other s t chunk q other)
    | inr e ↦ rw e (
      queued_dropped s t (start_send s chunk q).1 ∙ queued_other s t chunk q other,
      room_dropped s t (start_send s chunk q).1 other ∙ room_other s t chunk q other,
    )
  ]

  turn-queued :
      (s : Sender) (chunk : Chunk) (q : Queues)
      → queued s (turn s chunk q)
        ≡ (if ltb 0 (room s q) then queued s q ++ (chunk ∷ []) else queued s q)
  unfolding turn
  turn-queued s chunk q = elim (Bool-cases (ltb 0 (room s q))) [
    | inl e ↦
        let some_room = ltb→lt 0 (room s q) e in
        rw (e, sent s chunk q some_room) (queued_sent s chunk q some_room)
    | inr e ↦
        let no_room : room s q ≡ 0 = omega (arith, ltb_false→le 0 (room s q) e) in
        rw (e, refused s chunk q no_room)
          (queued_dropped s s (start_send s chunk q).1 ∙ queued_refused s chunk q no_room)
  ]

  retain-turn :
      (chunk : Chunk) (s : Sender) (ss : List Sender) (q : Queues)
      → retain mpsc chunk (s ∷ ss) q ≡ (
          let r = retain mpsc chunk ss (turn s chunk q) in
          ((if ltb 0 (room s q) then s ∷ r.0 else r.0), r.1))
  unfolding retain turn
  retain-turn chunk s ss q = elim (Bool-cases (ltb 0 (room s q))) [
    | inl e ↦ rw (e, sent s chunk q (ltb→lt 0 (room s q) e))
    | inr e ↦
        let no_room : room s q ≡ 0 = omega (arith, ltb_false→le 0 (room s q) e) in
        rw (e, refused s chunk q no_room)
  ]

  pub retain-queued :
      (chunk : Chunk) (ss : List Sender) (q : Queues) (t : Sender)
      → All (λ s. s ≢ t) ss
      → queued t (retain mpsc chunk ss q).1 ≡ queued t q
  retain-queued chunk [] q t h = unfold retain in refl
  retain-queued chunk (s ∷ ss) q t (hs, h) =
      let other : t ≢ s = λ e. hs (sym e) in
      rw (retain-turn chunk s ss q)
        (retain-queued chunk ss (turn s chunk q) t h ∙ (turn-IsSame s t chunk q other).0)

  others-IsSame :
      (s : Sender) (chunk : Chunk) (q : Queues) (ss : List Sender)
      → All (λ t. t ≢ s) ss
      → All (IsSame q (turn s chunk q)) ss
  others-IsSame s chunk q [] h = tt
  others-IsSame s chunk q (t ∷ ss) (ht, h) =
      (turn-IsSame s t chunk q ht, others-IsSame s chunk q ss h)

  retain-with_room :
      (chunk : Chunk) (ss : List Sender) (q : Queues)
      → IsDistinct ss
      → ((retain mpsc chunk ss q).0 ≡ with_room q ss)
        × AreDelivered chunk q (retain mpsc chunk ss q).1 ss
  retain-with_room chunk [] q h = unfold retain in (refl, tt)
  retain-with_room chunk (s ∷ ss) q (hs, h) =
      let q1 : Queues = turn s chunk q in
      let (kept, delivered) = retain-with_room chunk ss q1 h in
      let same = others-IsSame s chunk q ss hs in
      let r = retain mpsc chunk ss q1 in
      let here : AreDelivered chunk q r.1 (s ∷ ss) = (
        retain-queued chunk ss q1 s hs ∙ turn-queued s chunk q,
        AreDelivered-same chunk ss q q1 r.1 same delivered,
      ) in
      let after : (retain mpsc chunk (s ∷ ss) q).1 ≡ r.1 = rw (retain-turn chunk s ss q) in
      (
        rw (retain-turn chunk s ss q, kept, with_room_same ss q q1 same),
        subst (λ q'. AreDelivered chunk q q' (s ∷ ss)) (sym after) here,
      )

  -- The header that a channel stores after a chunk, where `old` is the one before.
  abbrev pub IsStored : Chunk → Option Chunk → Option Chunk → Type 0
  IsStored (headers bytes) old new = new ≡ some (headers bytes)
  IsStored (cluster_chunk head body) old new = new ≡ old
  IsStored (remaining_body bytes) old new = new ≡ old
  IsStored empty old new = new ≡ old

  remember-IsStored :
      (chunk : Chunk) (old : Option Chunk) → IsStored chunk old (remember mpsc chunk old)
  unfolding remember
  remember-IsStored (headers bytes) old = refl
  remember-IsStored (cluster_chunk head body) old = refl
  remember-IsStored (remaining_body bytes) old = refl
  remember-IsStored empty old = refl

  -- `send` keeps, in order, exactly the listeners whose queues have room for the chunk, puts the
  -- chunk at the end of each of their queues, leaves the queue of each listener that it drops as
  -- it was, and stores the chunk if it is a header, and keeps the stored one if not, when no
  -- listener stands twice in the channel's list.
  pub send-with_room :
      (chunk : Chunk) (c : Channel mpsc) (q : Queues)
      → IsDistinct c.listeners
      → let (c', q') = send mpsc chunk (c, q) in
        (c'.listeners ≡ with_room q c.listeners)
        × IsStored chunk c.header_chunk c'.header_chunk
        × AreDelivered chunk q q' c.listeners
  unfolding send
  send-with_room chunk c q h =
      let (kept, delivered) = retain-with_room chunk c.listeners q h in
      (kept, remember-IsStored chunk c.header_chunk, delivered)

  abbrev pub header_queue : Option Chunk → List Chunk
  header_queue none = []
  header_queue (some chunk) = chunk ∷ []

  -- What `Listener::new` makes of a channel: a listener `s` behind the others, in the queues `q'`.
  abbrev pub joined : Channel mpsc → Sender → Queues → Option (Sender × (Channel mpsc × Queues))
  joined c s q' = some (s, (record c { listeners = c.listeners ++ (s ∷ []) }, q'))

  queue_header-queued :
      (h : Option Chunk) (s : Sender) (q : Queues)
      → queued s q ≡ []
      → room s q ≡ 6
      → (q' : Queues) × (queue_header mpsc h s q ≡ some q')
        × (queued s q' ≡ header_queue h)
        × (4 < room s q')
  unfolding queue_header
  queue_header-queued none s q e r = (q, refl, e, omega arith)
  queue_header-queued (some chunk) s q e r =
      let some_room : 0 < room s q = omega arith in
      (
        (start_send s chunk q).1,
        rw (sent s chunk q some_room),
        queued_sent s chunk q some_room ∙ rw e,
        omega (arith, room_sent s chunk q some_room),
      )

  -- `Listener::new` never panics: in every state of the channel it adds one listener behind the others,
  -- whose queue holds the stored header, if there is one, and nothing else, and has room for five
  -- more chunks at least; nothing else of the channel changes.
  pub new_listener-joined :
      (c : Channel mpsc) (q : Queues)
      → (s : Sender) × (q' : Queues) × (new_listener mpsc (c, q) ≡ joined c s q')
        × (queued s q' ≡ header_queue c.header_chunk)
        × (4 < room s q')
  unfolding new_listener join
  new_listener-joined c q =
      let (s, q1) = mpsc_channel 5 q in
      let (q', e, held, free) =
        queue_header-queued c.header_chunk s q1 (queued_new 5 q) (room_new 5 q) in
      (s, q', rw e, held, free)
