-- ===== src/Channel/InOrder.antt =====
-- Whole sequences of steps: a listener gets what was stored when it came, and then all that is sent.
use mathlib.Core.Path.{subst}
use webmetro.Base.{
  ◌<◌, ◌≡◌, ◌∙◌, refl, sym, ap, arith, Option, none, some, List, [], ◌∷◌, ◌++◌, append_assoc,
  append-nil, some-injective,
}
use webmetro.Channel.Session.{Listed, sent_by, got_at, got, Stays, perform-IsSeen}
use webmetro.Chunk.{Chunk, headers, cluster_chunk, remaining_body, empty}
use webmetro.Mpsc.{Mpsc}
use webmetro.Channel.{remember, send, drop_transmitter, new_listener, poll_listener, drop_listener}
use webmetro.Channel.Delivery.{header_queue}
use webmetro.Channel.Sound.{
  World, Event, sends, closes, joins, polls, leaves, perform, run, IsSound, perform-joins,
  made-with_listener, header_sent, with_listener, new_listener-with_listener, perform-IsSound,
  made-perform,
}

module _ (mpsc : Mpsc) where
  open mpsc use {
    Sender, Queues, start_send, queued, room, IsMade, mpsc_channel, queued_sent, queued_new,
    room_new,
  }

  sent_by-cons :
      (e : Event mpsc) (es : List (Event mpsc))
      → sent_by mpsc (e ∷ es) ≡ sent_by mpsc (e ∷ []) ++ sent_by mpsc es
  sent_by-cons (sends chunk) es = refl
  sent_by-cons closes es = refl
  sent_by-cons joins es = refl
  sent_by-cons (polls t) es = refl
  sent_by-cons (leaves t) es = refl

  Stays-cons :
      (s : Sender) (e : Event mpsc) (es : List (Event mpsc))
      → Stays mpsc s (e ∷ es)
      → Stays mpsc s (e ∷ []) × Stays mpsc s es
  Stays-cons s (sends chunk) es h = (tt, h)
  Stays-cons s closes es h = (tt, h)
  Stays-cons s joins es h = (tt, h)
  Stays-cons s (polls t) es h = (tt, h)
  Stays-cons s (leaves t) es (other, h) = ((other, tt), h)

  in_order :
      (s : Sender) (es : List (Event mpsc)) (w : World mpsc)
      → IsSound mpsc w
      → IsMade s w.1
      → Stays mpsc s es
      → Listed mpsc s (run mpsc es w).0.listeners
      → Listed mpsc s w.0.listeners
        × (queued s w.1 ++ sent_by mpsc es ≡ got mpsc s es w ++ queued s (run mpsc es w).1)
  unfolding run got
  in_order s [] w sound made stays l = (l, rw append-nil)
  in_order s (e ∷ es) w sound made stays l =
      let w' = perform mpsc e w in
      let (stays_now, stays_on) = Stays-cons s e es stays in
      let (after, rest) =
        in_order s es w' (perform-IsSound mpsc e w sound) (made-perform mpsc e w s made) stays_on
          l in
      let (before, seen) = perform-IsSeen mpsc s e w sound made stays_now after in
      (
        before,
        rw (
          sent_by-cons e es,
          ← append_assoc (queued s w.1) (sent_by mpsc (e ∷ [])) (sent_by mpsc es),
          seen,
          append_assoc (got_at mpsc s e w) (queued s w'.1) (sent_by mpsc es),
          rest,
          append_assoc (got_at mpsc s e w) (got mpsc s es w') (queued s (run mpsc es w').1),
        ),
      )

  queued_stored :
      (h : Option Chunk) (s : Sender) (q : Queues)
      → queued s q ≡ []
      → 0 < room s q
      → queued s (header_sent mpsc h s q) ≡ header_queue mpsc h
  queued_stored none s q e free = e
  queued_stored (some c) s q e free = queued_sent s c q free ∙ rw e

  pub queued-with_listener :
      (w : World mpsc)
      → queued (mpsc_channel 5 w.1).0 (with_listener mpsc w).1 ≡ header_queue mpsc w.0.header_chunk
  queued-with_listener (c, q) =
      let (s, q') = mpsc_channel 5 q in
      queued_stored c.header_chunk s q' (queued_new 5 q) (omega (arith, room_new 5 q))

  -- What a listener that joins `w` as `s` has got and what its queue holds, after the steps `es`.
  abbrev pub InOrder : World mpsc → List (Event mpsc) → Sender × World mpsc → Type 0
  InOrder w es (s, v) =
      Stays mpsc s es
      → Listed mpsc s (run mpsc es v).0.listeners
      → header_queue mpsc w.0.header_chunk ++ sent_by mpsc es
        ≡ got mpsc s es v ++ queued s (run mpsc es v).1

  joined-InOrder :
      (w : World mpsc) (es : List (Event mpsc))
      → IsSound mpsc w
      → InOrder w es ((mpsc_channel 5 w.1).0, with_listener mpsc w)
  joined-InOrder w es sound stays l =
      let s = (mpsc_channel 5 w.1).0 in
      let v = with_listener mpsc w in
      let sound' = rw (perform-joins mpsc w) at (perform-IsSound mpsc joins w sound) in
      let made = made-with_listener mpsc w in
      rw (queued-with_listener w) at ((in_order s es v sound' made stays l).1)

  -- Nothing is lost, doubled or reordered: whatever transmitters and listeners do after a listener
  -- has joined a sound channel, as long as it has not left and is still on the list,
  -- the stored header (if there is one) and then the chunks sent since are, in order,
  -- those that it has got and then those in its queue.
  pub got-sent_by :
      (w : World mpsc) (es : List (Event mpsc)) (s : Sender) (v : World mpsc)
      → IsSound mpsc w
      → new_listener mpsc w ≡ some (s, v)
      → Stays mpsc s es
      → Listed mpsc s (run mpsc es v).0.listeners
      → header_queue mpsc w.0.header_chunk ++ sent_by mpsc es
        ≡ got mpsc s es v ++ queued s (run mpsc es v).1
  got-sent_by w es s v sound e =
      let same : ((mpsc_channel 5 w.1).0, with_listener mpsc w) ≡ (s, v) =
        some-injective (sym (new_listener-with_listener mpsc w) ∙ e) in
      subst (InOrder w es) same (joined-InOrder w es sound)

  -- The last header that has been sent since a transmitter left, or else `old`.
  abbrev pub last_header : List (Event mpsc) → Option Chunk → Option Chunk
  last_header [] old = old
  last_header (sends (headers bytes) ∷ es) old = last_header es (some (headers bytes))
  last_header (closes ∷ es) old = last_header es none
  last_header (_ ∷ es) old = last_header es old

  -- The header that a channel stores is the last one sent since a transmitter, whichever it
  -- is, was dropped, after any sequence of steps.
  pub run-last_header :
      (es : List (Event mpsc)) (w : World mpsc)
      → (run mpsc es w).0.header_chunk ≡ last_header es w.0.header_chunk
  unfolding run perform send remember drop_transmitter poll_listener drop_listener
  run-last_header [] w = refl
  run-last_header (sends (headers b) ∷ es) (c, q) =
      run-last_header es (send mpsc (headers b) (c, q))
  run-last_header (sends (cluster_chunk h b) ∷ es) (c, q) =
      run-last_header es (send mpsc (cluster_chunk h b) (c, q))
  run-last_header (sends (remaining_body b) ∷ es) (c, q) =
      run-last_header es (send mpsc (remaining_body b) (c, q))
  run-last_header (sends empty ∷ es) (c, q) = run-last_header es (send mpsc empty (c, q))
  run-last_header (closes ∷ es) (c, q) = run-last_header es (drop_transmitter mpsc (c, q))
  run-last_header (joins ∷ es) w =
      let w' = perform mpsc joins w in
      let kept : w'.0.header_chunk ≡ w.0.header_chunk = rw (new_listener-with_listener mpsc w) in
      run-last_header es w' ∙ ap (last_header es) kept
  run-last_header (polls s ∷ es) (c, q) = run-last_header es ((poll_listener mpsc s (c, q)).1)
  run-last_header (leaves s ∷ es) (c, q) = run-last_header es (drop_listener mpsc s (c, q))
