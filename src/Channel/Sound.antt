-- ===== src/Channel/Sound.antt =====
-- The steps of a channel with its queues, and what every one of them keeps: no listener stands twice,
-- and each has a queue.
use webmetro.Base.{
  ◌<◌, ◌≡◌, ◌≢◌, refl, sym, arith, Option, none, some, List, [], ◌∷◌, ◌++◌, All, ltb, Bool-cases,
  inl, inr,
}
use webmetro.Chunk.{Chunk}
use webmetro.Mpsc.{Mpsc}
use webmetro.Channel.{
  Channel, retain, send, drop_transmitter, queue_header, join, new_listener, poll_listener,
  drop_listener,
}
use webmetro.Channel.Delivery.{IsDistinct, with_room, send-with_room}

module _ (mpsc : Mpsc) where
  open mpsc use {
    receive, drop_receiver, room_new, sent, Sender, Queues, start_send, drop_sender, queued, room,
    IsMade, mpsc_channel, made_new, fresh, made_channel, made_sent, made_dropped, made_received,
    made_left,
  }

  abbrev pub World : Type 0
  World = Channel mpsc × Queues

  -- What can happen to a channel, each under its mutex or at one receiver.
  pub data Event : Type 0 where
    sends : Chunk → Event
    closes joins : Event
    polls leaves : Sender → Event

  abbrev pub entered : World → Option (Sender × World) → World
  entered w none = w
  entered w (some (s, v)) = v

  unfoldable pub perform : Event → World → World
  perform (sends chunk) w = send mpsc chunk w
  perform closes w = drop_transmitter mpsc w
  perform joins w = entered w (new_listener mpsc w)
  perform (polls s) w = (poll_listener mpsc s w).1
  perform (leaves s) w = drop_listener mpsc s w

  unfoldable pub run : List Event → World → World
  run [] w = w
  run (e ∷ es) w = run es (perform e w)

  pub record IsSound (w : World) : Type 0 where
    pub distinct : IsDistinct mpsc w.0.listeners
    pub made : All (λ s. IsMade s w.1) w.0.listeners

  -- Listeners with room are among the listeners.
  All-with_room :
      (P : Sender → Type 0) (q : Queues) (ss : List Sender) → All P ss → All P (with_room mpsc q ss)
  All-with_room P q [] h = tt
  All-with_room P q (s ∷ ss) (hs, h) = elim (Bool-cases (ltb 0 (room s q))) [
    | inl e ↦ rw e (hs, All-with_room P q ss h)
    | inr e ↦ rw e (All-with_room P q ss h)
  ]

  with_room-IsDistinct :
      (q : Queues) (ss : List Sender) → IsDistinct mpsc ss → IsDistinct mpsc (with_room mpsc q ss)
  with_room-IsDistinct q [] h = tt
  with_room-IsDistinct q (s ∷ ss) (hs, h) = elim (Bool-cases (ltb 0 (room s q))) [
    | inl e ↦ rw e (All-with_room (λ t. t ≢ s) q ss hs, with_room-IsDistinct q ss h)
    | inr e ↦ rw e (with_room-IsDistinct q ss h)
  ]

  pub made-retain :
      (chunk : Chunk) (ss : List Sender) (q : Queues) (t : Sender)
      → IsMade t q
      → IsMade t (retain mpsc chunk ss q).1
  unfolding retain
  made-retain chunk [] q t h = h
  made-retain chunk (s ∷ ss) q t h =
      let q' : Queues = (start_send s chunk q).1 in
      let kept = made-retain chunk ss q' t (made_sent s t chunk q h) in
      let left =
        made-retain chunk ss (drop_sender s q') t (made_dropped s t q' (made_sent s t chunk q h)) in
      elim (Bool-cases ((start_send s chunk q).0)) [ inl e ↦ rw e kept | inr e ↦ rw e left ]

  -- The queues once the stored header has been sent.
  abbrev pub header_sent : Option Chunk → Sender → Queues → Queues
  header_sent none s q = q
  header_sent (some c) s q = (start_send s c q).1

  queue_header-header_sent :
      (h : Option Chunk) (s : Sender) (q : Queues)
      → 0 < room s q
      → queue_header mpsc h s q ≡ some (header_sent h s q)
  unfolding queue_header
  queue_header-header_sent none s q free = refl
  queue_header-header_sent (some c) s q free = rw (sent s c q free)

  -- The world after `Listener::new`.
  abbrev pub with_listener : World → World
  with_listener (c, q) =
      let (s, q') = mpsc_channel 5 q in
      (record c { listeners = c.listeners ++ (s ∷ []) }, header_sent c.header_chunk s q')

  pub new_listener-with_listener :
      (w : World) → new_listener mpsc w ≡ some ((mpsc_channel 5 w.1).0, with_listener w)
  unfolding new_listener join
  new_listener-with_listener (c, q) =
      let (s, q') = mpsc_channel 5 q in
      rw (queue_header-header_sent c.header_chunk s q' (omega (arith, room_new 5 q)))

  pub made-header_sent :
      (h : Option Chunk) (s t : Sender) (q : Queues) → IsMade t q → IsMade t (header_sent h s q)
  made-header_sent none s t q m = m
  made-header_sent (some c) s t q m = made_sent s t c q m

  pub made-with_listener : (w : World) → IsMade (mpsc_channel 5 w.1).0 (with_listener w).1
  made-with_listener (c, q) =
      let (s, q') = mpsc_channel 5 q in made-header_sent c.header_chunk s s q' (made_new 5 q)

  All-map :
      (P Q : Sender → Type 0) (ss : List Sender) → ((s : Sender) → P s → Q s) → All P ss → All Q ss
  All-map P Q [] f h = tt
  All-map P Q (s ∷ ss) f (hs, h) = (f s hs, All-map P Q ss f h)

  All-snoc :
      (P : Sender → Type 0) (ss : List Sender) (s : Sender)
      → All P ss
      → P s
      → All P (ss ++ (s ∷ []))
  All-snoc P [] s h hs = (hs, tt)
  All-snoc P (t ∷ ss) s (ht, h) hs = (ht, All-snoc P ss s h hs)

  IsDistinct-snoc :
      (ss : List Sender) (s : Sender)
      → IsDistinct mpsc ss
      → All (λ t. t ≢ s) ss
      → IsDistinct mpsc (ss ++ (s ∷ []))
  IsDistinct-snoc [] s h k = (tt, tt)
  IsDistinct-snoc (t ∷ ss) s (ht, h) (kt, k) =
      (All-snoc (λ u. u ≢ t) ss s ht (λ e. kt (sym e)), IsDistinct-snoc ss s h k)

  with_listener-IsSound : (w : World) → IsSound w → IsSound (with_listener w)
  with_listener-IsSound (c, q) h =
      let (s, q') = mpsc_channel 5 q in
      record {
        distinct =
            IsDistinct-snoc c.listeners s h.distinct
              (All-map (λ t. IsMade t q) (λ t. t ≢ s) c.listeners (λ t m. fresh 5 q t m) h.made);
        made =
            All-snoc (λ t. IsMade t (header_sent c.header_chunk s q')) c.listeners s
              (All-map (λ t. IsMade t q) (λ t. IsMade t (header_sent c.header_chunk s q'))
                c.listeners (λ t m. made-header_sent c.header_chunk s t q' (made_channel 5 t q m))
                h.made)
              (made-header_sent c.header_chunk s s q' (made_new 5 q));
      }

  pub made-send :
      (chunk : Chunk) (w : World) (t : Sender) → IsMade t w.1 → IsMade t (send mpsc chunk w).1
  unfolding send
  made-send chunk (c, q) t m = made-retain chunk c.listeners q t m

  send-IsSound : (chunk : Chunk) (w : World) → IsSound w → IsSound (send mpsc chunk w)
  send-IsSound chunk (c, q) h =
      let w' = send mpsc chunk (c, q) in
      let (kept, stored, delivered) = send-with_room mpsc chunk c q h.distinct in
      let still : All (λ s. IsMade s w'.1) c.listeners =
        All-map (λ s. IsMade s q) (λ s. IsMade s w'.1) c.listeners
          (λ s m. made-send chunk (c, q) s m) h.made in
      record {
        distinct = rw kept (with_room-IsDistinct q c.listeners h.distinct);
        made = rw kept (All-with_room (λ s. IsMade s w'.1) q c.listeners still);
      }

  pub perform-joins : (w : World) → perform joins w ≡ with_listener w
  unfolding perform
  perform-joins w = rw (new_listener-with_listener w)

  -- Every step of a channel, by any transmitter and any listener, keeps it sound: no listener
  -- stands twice on its list, and each has a queue of its own.
  pub perform-IsSound : (e : Event) (w : World) → IsSound w → IsSound (perform e w)
  unfolding perform drop_transmitter poll_listener drop_listener
  perform-IsSound (sends chunk) w h = send-IsSound chunk w h
  perform-IsSound closes (c, q) h = record { distinct = h.distinct; made = h.made }
  perform-IsSound joins w h = rw (new_listener-with_listener w) (with_listener-IsSound w h)
  perform-IsSound (polls s) (c, q) h = record {
    distinct = h.distinct;
    made =
        All-map (λ t. IsMade t q) (λ t. IsMade t (receive s q).1) c.listeners
          (λ t m. made_received s t q m) h.made;
  }
  perform-IsSound (leaves s) (c, q) h = record {
    distinct = h.distinct;
    made =
        All-map (λ t. IsMade t q) (λ t. IsMade t (drop_receiver s q)) c.listeners
          (λ t m. made_left s t q m) h.made;
  }

  pub made-perform : (e : Event) (w : World) (t : Sender) → IsMade t w.1 → IsMade t (perform e w).1
  unfolding perform drop_transmitter poll_listener drop_listener
  made-perform (sends chunk) w t m = made-send chunk w t m
  made-perform closes (c, q) t m = m
  made-perform joins (c, q) t m =
      let (s, q') = mpsc_channel 5 q in
      rw (new_listener-with_listener (c, q))
        (made-header_sent c.header_chunk s t q' (made_channel 5 t q m))
  made-perform (polls s) (c, q) t m = made_received s t q m
  made-perform (leaves s) (c, q) t m = made_left s t q m

  -- So it stays sound through any sequence of steps, from a new channel on too.
  pub run-IsSound : (es : List Event) (w : World) → IsSound w → IsSound (run es w)
  unfolding run
  run-IsSound [] w h = h
  run-IsSound (e ∷ es) w h = run-IsSound es (perform e w) (perform-IsSound e w h)
