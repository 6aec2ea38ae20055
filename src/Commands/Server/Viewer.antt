-- ===== src/Commands/Server/Viewer.antt =====
-- What a client gets from the server after its request, over any sequence of events.
use webmetro.Base.{
  ℕ, ◌≡◌, ◌≢◌, ◌∙◌, ◌⊎◌, refl, sym, inl, inr, false, some, List, [], ◌∷◌, ◌++◌, Bool-cases,
  Option-cases, some-injective, if◌then◌else◌, ◌==◌, ==_iff, append-nil, append_assoc,
}
use webmetro.Chunk.{Chunk}
use webmetro.Mpsc.{Mpsc}
use webmetro.WeakTable.{WeakTable}
use webmetro.Channel.{send, drop_transmitter, poll_listener, drop_listener}
use webmetro.Channel.Sound.{sends, closes, polls, leaves, perform}
use webmetro.Channel.Session.{Listed, taken, got_at}
use webmetro.Commands.Server.{
  Server, world, with_world, transmits_to, channel_of, polled, left, ServerEvent, requests,
  transmits, hangs_up, reads, departs, serve, serve_all,
}
use webmetro.Commands.Server.Locate.{IsRunning}
use webmetro.Commands.Server.Quiet.{IsViewer, with_world-seen}
use webmetro.Commands.Server.Route.{route-IsQuiet}
use webmetro.Commands.Server.Served.{serve-IsRunning, serve-IsViewer, Remains}

module _ (mpsc : Mpsc) (weak : WeakTable) where
  open mpsc use {Sender, queued, same_receiver, same_receiver_iff}

  -- The chunks that sources bring to the channel `h`.
  abbrev pub brought_at : ℕ → ServerEvent mpsc weak → Server mpsc weak → List Chunk
  brought_at h (transmits k chunk) s =
      if transmits_to k s.transmitters then (if h == k then chunk ∷ [] else []) else []
  brought_at h e s = []

  abbrev pub brought : ℕ → List (ServerEvent mpsc weak) → Server mpsc weak → List Chunk
  brought h [] s = []
  brought h (e ∷ es) s = brought_at h e s ++ brought h es (serve mpsc weak e s)

  -- The chunks that the client `t` of the channel `h` reads.
  abbrev pub read_at : Sender → ℕ → ServerEvent mpsc weak → Server mpsc weak → List Chunk
  read_at t h (reads u) s =
      if same_receiver t u then taken mpsc ((poll_listener mpsc u (world mpsc weak h s)).0) else []
  read_at t h e s = []

  abbrev pub read : Sender → ℕ → List (ServerEvent mpsc weak) → Server mpsc weak → List Chunk
  read t h [] s = []
  read t h (e ∷ es) s = read_at t h e s ++ read t h es (serve mpsc weak e s)

  abbrev pub AllRemain : Sender → List (ServerEvent mpsc weak) → Type 0
  AllRemain t [] = Unit
  AllRemain t (e ∷ es) = Remains mpsc weak t e × AllRemain t es

  abbrev pub IsOnList : Sender → ℕ → Server mpsc weak → Type 0
  IsOnList t h s = Listed mpsc t (s.channels h).listeners

  -- One event, as the client `t` of the channel `h` sees it.
  abbrev IsServed : Sender → ℕ → ServerEvent mpsc weak → Server mpsc weak → Type 0
  IsServed t h e s =
      IsOnList t h s
      × (queued t s.queues ++ brought_at h e s
          ≡ read_at t h e s ++ queued t (serve mpsc weak e s).queues)

  -- A step without chunks.
  silent :
      {h k : ℕ} (xs ys : List Chunk)
      → ((h ≡ k) × (xs ++ [] ≡ ys)) ⊎ ((h ≢ k) × (ys ≡ xs))
      → xs ++ [] ≡ ys
  silent xs ys (inl (same, e)) = e
  silent xs ys (inr (other, e)) = append-nil xs ∙ sym e

  transmits-IsServed :
      (t : Sender) (h k : ℕ) (chunk : Chunk) (s : Server mpsc weak)
      → IsRunning mpsc weak s
      → IsViewer mpsc weak t h s
      → IsOnList t h (serve mpsc weak (transmits k chunk) s)
      → IsServed t h (transmits k chunk) s
  unfolding serve perform got_at with_world send
  transmits-IsServed t h k chunk s run v l = elim (Bool-cases (transmits_to k s.transmitters)) [
    | inr e ↦ (rw e at l, rw (e, append-nil) refl)
    | inl e ↦
        let (before, seen) =
          with_world-seen mpsc weak (sends chunk) k s t h run v.made tt (λ _. tt) (rw e at l) in
        (
          before,
          elim seen [
            | inl (same, eq) ↦ rw (e, (==_iff h k).1 same) eq
            | inr (other, eq) ↦ elim (Bool-cases (h == k)) [
              | inl a ↦ absurd (other ((==_iff h k).0 a))
              | inr a ↦ rw (e, a, append-nil) (sym eq)
            ]
          ],
        )
  ]

  hangs_up-IsServed :
      (t : Sender) (h k : ℕ) (s : Server mpsc weak)
      → IsRunning mpsc weak s
      → IsViewer mpsc weak t h s
      → IsOnList t h (serve mpsc weak (hangs_up k) s)
      → IsServed t h (hangs_up k) s
  unfolding serve perform got_at with_world drop_transmitter
  hangs_up-IsServed t h k s run v l = elim (Bool-cases (transmits_to k s.transmitters)) [
    | inr e ↦ (rw e at l, rw (e, append-nil) refl)
    | inl e ↦
        let (before, seen) =
          with_world-seen mpsc weak closes k s t h run v.made tt (λ _. tt) (rw e at l) in
        (
          before,
          rw e (
              silent (queued t s.queues) (queued t (perform mpsc closes (world mpsc weak k s)).1)
                seen),
        )
  ]

  reads-IsServed :
      (t : Sender) (h : ℕ) (u : Sender) (s : Server mpsc weak)
      → IsRunning mpsc weak s
      → IsViewer mpsc weak t h s
      → IsOnList t h (serve mpsc weak (reads u) s)
      → IsServed t h (reads u) s
  unfolding serve perform got_at polled with_world poll_listener
  reads-IsServed t h u s run v l =
      let at_h : (j : ℕ) → channel_of mpsc weak u s.listeners ≡ some j → t ≡ u → h ≡ j =
        λ j e same. some-injective (sym v.viewing ∙ (rw same e)) in
      elim (Option-cases (channel_of mpsc weak u s.listeners)) [
        | inl e ↦
            let other : same_receiver t u ≡ false = elim (Bool-cases (same_receiver t u)) [
              | inl a ↦ cc (v.viewing, rw (← ((same_receiver_iff t u).0 a)) at e)
              | inr a ↦ a
            ] in
            (rw e at l, rw (e, other, append-nil) refl)
        | inr (k, e) ↦
            let elsewhere : k ≢ h → t ≢ u = λ differ same. differ (sym (at_h k e same)) in
            let (before, seen) =
              with_world-seen mpsc weak (polls u) k s t h run v.made tt elsewhere (rw e at l) in
            (
              before,
              elim seen [
                | inl (same, eq) ↦ rw e eq
                | inr (differ, eq) ↦ elim (Bool-cases (same_receiver t u)) [
                  | inl a ↦ absurd (differ (at_h k e ((same_receiver_iff t u).0 a)))
                  | inr a ↦ rw (e, a, append-nil) (sym eq)
                ]
              ],
            )
      ]

  departs-IsServed :
      (t : Sender) (h : ℕ) (u : Sender) (s : Server mpsc weak)
      → IsRunning mpsc weak s
      → IsViewer mpsc weak t h s
      → t ≢ u
      → IsOnList t h (serve mpsc weak (departs u) s)
      → IsServed t h (departs u) s
  unfolding serve perform got_at left with_world drop_listener
  departs-IsServed t h u s run v stays l =
      elim (Option-cases (channel_of mpsc weak u s.listeners)) [
        | inl e ↦ (rw e at l, rw (e, append-nil) refl)
        | inr (k, e) ↦
            let (before, seen) =
              with_world-seen mpsc weak (leaves u) k s t h run v.made (stays, tt) (λ _. stays)
                (rw e at l) in
            (
              before,
              rw e (
                  silent (queued t s.queues)
                    (queued t (perform mpsc (leaves u) (world mpsc weak k s)).1) seen),
            )
      ]

  serve-IsServed :
      (t : Sender) (h : ℕ) (e : ServerEvent mpsc weak) (s : Server mpsc weak)
      → IsRunning mpsc weak s
      → IsViewer mpsc weak t h s
      → Remains mpsc weak t e
      → IsOnList t h (serve mpsc weak e s)
      → IsServed t h e s
  serve-IsServed t h (requests r) s run v stays l =
      unfold serve in
      let (before, same) = (route-IsQuiet mpsc weak r s run).same t h v l in
      (before, append-nil (queued t s.queues) ∙ sym same)
  serve-IsServed t h (transmits k chunk) s run v stays l = transmits-IsServed t h k chunk s run v l
  serve-IsServed t h (hangs_up k) s run v stays l = hangs_up-IsServed t h k s run v l
  serve-IsServed t h (reads u) s run v stays l = reads-IsServed t h u s run v l
  serve-IsServed t h (departs u) s run v stays l = departs-IsServed t h u s run v stays l

  -- What the client has and what was brought to its channel, in order, is what it reads and what its queue
  -- holds then.
  pub served_in_order :
      (t : Sender) (h : ℕ) (es : List (ServerEvent mpsc weak)) (s : Server mpsc weak)
      → IsRunning mpsc weak s
      → IsViewer mpsc weak t h s
      → AllRemain t es
      → IsOnList t h (serve_all mpsc weak es s)
      → IsOnList t h s
        × (queued t s.queues ++ brought h es s
            ≡ read t h es s ++ queued t (serve_all mpsc weak es s).queues)
  unfolding serve_all
  served_in_order t h [] s run v stays l = (l, rw append-nil)
  served_in_order t h (e ∷ es) s run v (stays, stays_on) l =
      let s' = serve mpsc weak e s in
      let (after, rest) =
        served_in_order t h es s' (serve-IsRunning mpsc weak e s run)
          (serve-IsViewer mpsc weak e s t h run stays v) stays_on l in
      let (before, seen) = serve-IsServed t h e s run v stays after in
      (
        before,
        rw (
          ← append_assoc (queued t s.queues) (brought_at h e s) (brought h es s'),
          seen,
          append_assoc (read_at t h e s) (queued t s'.queues) (brought h es s'),
          rest,
          append_assoc (read_at t h e s) (read t h es s')
              (queued t (serve_all mpsc weak es s').queues),
        ),
      )
