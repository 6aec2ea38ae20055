-- ===== src/Commands/Server/Served.antt =====
-- Every event keeps the server's channels in order, and the viewers that stay.
use webmetro.Base.{ℕ, ◌≡◌, ◌≢◌, refl, inl, inr, true, List, [], ◌∷◌, Bool-cases, Option-cases, ◌==◌}
use webmetro.Mpsc.{Mpsc}
use webmetro.WeakTable.{WeakTable}
use webmetro.Channel.{new_channel, drop_transmitter, drop_listener}
use webmetro.Channel.Sound.{Event, sends, closes, polls, leaves, perform, made-perform}
use webmetro.Commands.Server.{
  Server, new_server, world, with_world, transmits_to, listens_to, is_alive, channel_of, without,
  drop_first, polled, left, ServerEvent, requests, transmits, hangs_up, reads, departs, serve,
  serve_all,
}
use webmetro.Commands.Server.Locate.{IsRunning}
use webmetro.Commands.Server.Running.{with_world-IsRunning}
use webmetro.Commands.Server.Quiet.{rehold, IsViewer}
use webmetro.Commands.Server.Route.{route-IsQuiet}

module _ (mpsc : Mpsc) (weak : WeakTable) where
  open mpsc use {Sender, Queues, same_receiver, same_receiver_iff}
  open weak use {stored, stored_new}

  transmits_to-drop_first :
      (h k : ℕ) (ts : List ℕ) → transmits_to h (drop_first k ts) ≡ true → transmits_to h ts ≡ true
  unfolding drop_first transmits_to
  transmits_to-drop_first h k [] e = e
  transmits_to-drop_first h k (j ∷ ts) e = elim (Bool-cases (j == h)) [
    | inl a ↦ rw a refl
    | inr a ↦ elim (Bool-cases (j == k)) [
      | inl b ↦ rw a (rw b at e)
      | inr b ↦ rw a (transmits_to-drop_first h k ts (rw (b, a) at e))
    ]
  ]

  listens_to-without :
      (h : ℕ) (t : Sender) (ls : List (ℕ × Sender))
      → listens_to mpsc weak h (without mpsc weak t ls) ≡ true
      → listens_to mpsc weak h ls ≡ true
  unfolding without listens_to
  listens_to-without h t [] e = e
  listens_to-without h t ((j, u) ∷ ls) e = elim (Bool-cases (j == h)) [
    | inl a ↦ rw a refl
    | inr a ↦ elim (Bool-cases (same_receiver u t)) [
      | inl b ↦ rw a (listens_to-without h t ls (rw b at e))
      | inr b ↦ rw a (listens_to-without h t ls (rw (b, a) at e))
    ]
  ]

  channel_of-without :
      (t u : Sender) (ls : List (ℕ × Sender))
      → t ≢ u
      → channel_of mpsc weak t (without mpsc weak u ls) ≡ channel_of mpsc weak t ls
  unfolding without channel_of
  channel_of-without t u [] other = refl
  channel_of-without t u ((j, v) ∷ ls) other = elim (Bool-cases (same_receiver v u)) [
    | inl b ↦ elim (Bool-cases (same_receiver v t)) [
      | inl a ↦ absurd (other (cc (((same_receiver_iff v u).0 b), ((same_receiver_iff v t).0 a))))
      | inr a ↦ rw (b, a) (channel_of-without t u ls other)
    ]
    | inr b ↦ elim (Bool-cases (same_receiver v t)) [
      | inl a ↦ rw (b, a) refl
      | inr a ↦ rw (b, a) (channel_of-without t u ls other)
    ]
  ]

  new_server-IsRunning : (queues : Queues) → IsRunning mpsc weak (new_server mpsc weak queues)
  unfolding new_server is_alive transmits_to listens_to new_channel
  new_server-IsRunning queues = record {
    held = λ h a. cc;
    known = λ name h e. cc (stored_new name, e);
    sound = λ h. record { distinct = tt; made = tt };
    apart = λ h k t a b. elim a [ ];
  }

  pub serve-IsRunning :
      (e : ServerEvent mpsc weak) (s : Server mpsc weak)
      → IsRunning mpsc weak s
      → IsRunning mpsc weak (serve mpsc weak e s)
  unfolding serve polled left perform with_world
  serve-IsRunning (requests r) s run = (route-IsQuiet mpsc weak r s run).running
  serve-IsRunning (transmits h chunk) s run = elim (Bool-cases (transmits_to h s.transmitters)) [
    | inl e ↦ rw e (with_world-IsRunning mpsc weak (sends chunk) h s run)
    | inr e ↦ rw e run
  ]
  serve-IsRunning (hangs_up h) s run = elim (Bool-cases (transmits_to h s.transmitters)) [
    | inl e ↦
        let s' = with_world mpsc weak h (drop_transmitter mpsc (world mpsc weak h s)) s in
        rw e (
          rehold mpsc weak s' (drop_first h s.transmitters) s.listeners
            (with_world-IsRunning mpsc weak closes h s run)
            (λ k a. inl (transmits_to-drop_first k h s.transmitters a)) (λ k a. inl a))
    | inr e ↦ rw e run
  ]
  serve-IsRunning (reads t) s run = elim (Option-cases (channel_of mpsc weak t s.listeners)) [
    | inl e ↦ rw e run
    | inr (h, e) ↦ rw e (with_world-IsRunning mpsc weak (polls t) h s run)
  ]
  serve-IsRunning (departs t) s run = elim (Option-cases (channel_of mpsc weak t s.listeners)) [
    | inl e ↦ rw e run
    | inr (h, e) ↦
        let s' = with_world mpsc weak h (drop_listener mpsc t (world mpsc weak h s)) s in
        rw e (
          rehold mpsc weak s' s.transmitters (without mpsc weak t s.listeners)
            (with_world-IsRunning mpsc weak (leaves t) h s run) (λ k a. inl a)
            (λ k a. inl (listens_to-without k t s.listeners a)))
  ]

  pub serve_all-kept :
      (es : List (ServerEvent mpsc weak)) (s : Server mpsc weak)
      → IsRunning mpsc weak s
      → IsRunning mpsc weak (serve_all mpsc weak es s)
  unfolding serve_all
  serve_all-kept [] s run = run
  serve_all-kept (e ∷ es) s run = serve_all-kept es (serve mpsc weak e s) (serve-IsRunning e s run)

  -- The server starts in order and stays so, whatever requests, streams and clients there are: a
  -- channel that a connection holds stands under its own name in the map, the map has only
  -- pointers to channels that have been made, of the name they stand under, no listener stands
  -- twice on the list of a channel or on those of two, and each has a queue.
  pub serve_all-IsRunning :
      (queues : Queues) (es : List (ServerEvent mpsc weak))
      → IsRunning mpsc weak (serve_all mpsc weak es (new_server mpsc weak queues))
  serve_all-IsRunning queues es =
      serve_all-kept es (new_server mpsc weak queues) (new_server-IsRunning queues)

  -- A client stays unless it departs.
  abbrev pub Remains : Sender → ServerEvent mpsc weak → Type 0
  Remains t (departs u) = t ≢ u
  Remains t e = Unit

  with_world-IsViewer :
      (e : Event mpsc) (k : ℕ) (s : Server mpsc weak) (t : Sender) (h : ℕ)
      → IsViewer mpsc weak t h s
      → IsViewer mpsc weak t h (with_world mpsc weak k (perform mpsc e (world mpsc weak k s)) s)
  unfolding with_world
  with_world-IsViewer e k s t h v = record {
    small = v.small;
    made = made-perform mpsc e (world mpsc weak k s) t v.made;
    viewing = v.viewing;
  }

  pub serve-IsViewer :
      (e : ServerEvent mpsc weak) (s : Server mpsc weak) (t : Sender) (h : ℕ)
      → IsRunning mpsc weak s
      → Remains t e
      → IsViewer mpsc weak t h s
      → IsViewer mpsc weak t h (serve mpsc weak e s)
  unfolding serve polled left perform with_world
  serve-IsViewer (requests r) s t h run stays v = (route-IsQuiet mpsc weak r s run).viewer t h v
  serve-IsViewer (transmits k chunk) s t h run stays v =
      elim (Bool-cases (transmits_to k s.transmitters)) [
        | inl e ↦ rw e (with_world-IsViewer (sends chunk) k s t h v)
        | inr e ↦ rw e v
      ]
  serve-IsViewer (hangs_up k) s t h run stays v =
      elim (Bool-cases (transmits_to k s.transmitters)) [
        | inl e ↦
            let v' = with_world-IsViewer closes k s t h v in
            rw e (record { small = v'.small; made = v'.made; viewing = v'.viewing })
        | inr e ↦ rw e v
      ]
  serve-IsViewer (reads u) s t h run stays v =
      elim (Option-cases (channel_of mpsc weak u s.listeners)) [
        | inl e ↦ rw e v
        | inr (k, e) ↦ rw e (with_world-IsViewer (polls u) k s t h v)
      ]
  serve-IsViewer (departs u) s t h run stays v =
      elim (Option-cases (channel_of mpsc weak u s.listeners)) [
        | inl e ↦ rw e v
        | inr (k, e) ↦
            let v' = with_world-IsViewer (leaves u) k s t h v in
            rw e (record {
              small = v'.small;
              made = v'.made;
              viewing = rw (channel_of-without t u s.listeners stays) v.viewing;
            })
      ]
