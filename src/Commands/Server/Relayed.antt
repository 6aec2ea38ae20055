-- ===== src/Commands/Server/Relayed.antt =====
-- From the sources of a channel to a client that has asked for its name.
use mathlib.Core.Path.{subst}
use webmetro.Base.{
  length, arith, ◌≢◌, ℕ, ◌<◌, ◌≡◌, ◌∙◌, refl, sym, ap, List, [], ◌∷◌, ◌++◌, set_same,
}
use webmetro.Mpsc.{Mpsc}
use webmetro.WeakTable.{WeakTable}
use webmetro.Channel.Delivery.{header_queue}
use webmetro.Channel.InOrder.{queued-with_listener}
use webmetro.Channel.Sound.{joins, perform, perform-joins, made-with_listener}
use webmetro.Commands.Server.{
  Routed, get, Server, world, with_world, channel_of, ServerEvent, serve_all, route, locate,
}
use webmetro.Commands.Server.Locate.{IsRunning, locate-IsLocated}
use webmetro.Commands.Server.Quiet.{IsViewer}
use webmetro.Commands.Server.Route.{with_viewer, route-IsQuiet, route-unnamed}
use webmetro.Commands.Server.Viewer.{brought, read, AllRemain, IsOnList, served_in_order}
use webmetro.Commands.Server.Lookup.{request_for, looked_up, route-looked_up}

module _ (mpsc : Mpsc) (weak : WeakTable) where
  open mpsc use {Sender, Queues, queued, mpsc_channel, same_receiver_iff}

  -- The client `t` of the channel `h`, which has joined `s` last, after the events.
  abbrev pub IsInOrder : List (ServerEvent mpsc weak) → Server mpsc weak → ℕ × Sender → Type 0
  IsInOrder es s (h, t) =
      AllRemain mpsc weak t es
      → IsOnList mpsc weak t h (serve_all mpsc weak es s)
      → header_queue mpsc (s.channels h).header_chunk ++ brought mpsc weak h es s
        ≡ read mpsc weak t h es s ++ queued t (serve_all mpsc weak es s).queues

  with_viewer-IsViewer :
      (k : ℕ) (s : Server mpsc weak)
      → k < s.next
      → IsViewer mpsc weak (mpsc_channel 5 s.queues).0 k (with_viewer mpsc weak k s)
  unfolding with_world channel_of
  with_viewer-IsViewer k s small =
      let t = (mpsc_channel 5 s.queues).0 in
      record {
        small = small;
        made =
            rw (perform-joins mpsc (world mpsc weak k s))
              (made-with_listener mpsc (world mpsc weak k s));
        viewing = rw ((same_receiver_iff t t).1 refl) refl;
      }

  queued-with_viewer :
      (k : ℕ) (s : Server mpsc weak)
      → let s' = with_viewer mpsc weak k s in
        queued (mpsc_channel 5 s.queues).0 s'.queues
        ≡ header_queue mpsc (s'.channels k).header_chunk
  unfolding with_world
  queued-with_viewer k s =
      let w = world mpsc weak k s in
      let joined = perform-joins mpsc w in
      rw (set_same k (perform mpsc joins w).0 s.channels, joined) (queued-with_listener mpsc w)

  with_viewer-IsInOrder :
      (k : ℕ) (s : Server mpsc weak) (es : List (ServerEvent mpsc weak))
      → IsRunning mpsc weak (with_viewer mpsc weak k s)
      → k < s.next
      → IsInOrder es (with_viewer mpsc weak k s) (k, (mpsc_channel 5 s.queues).0)
  with_viewer-IsInOrder k s es run small stays l =
      let t = (mpsc_channel 5 s.queues).0 in
      rw (queued-with_viewer k s) at (
        (served_in_order mpsc weak t k es (with_viewer mpsc weak k s) run
          (with_viewer-IsViewer k s small) stays l).1)

  abbrev first_or : {A : Type 0} → A → List A → A
  first_or a [] = a
  first_or a (x ∷ xs) = x

  longer : {A : Type 0} (x : A) (xs : List A) → xs ≢ x ∷ xs
  longer x xs e = omega (arith, ap length e)

  -- A client asks for a name while the server runs, and becomes the listener `t` of the channel
  -- `h`. Then, whatever requests, sources and clients there are, as long as it does not depart
  -- and is still on the channel's list: the header that the channel had, and then the chunks
  -- that any source has brought to this channel since, and to no other, are in order the chunks
  -- that the client has read and those in its queue.
  pub get_in_order :
      (name : List ℕ) (s : Server mpsc weak) (es : List (ServerEvent mpsc weak)) (h : ℕ)
      (t : Sender)
      → IsRunning mpsc weak s
      → let s' = (route mpsc weak (request_for get name) s).1 in
        s'.listeners ≡ (h, t) ∷ s.listeners
        → AllRemain mpsc weak t es
        → IsOnList mpsc weak t h (serve_all mpsc weak es s')
        → header_queue mpsc (s'.channels h).header_chunk ++ brought mpsc weak h es s'
          ≡ read mpsc weak t h es s' ++ queued t (serve_all mpsc weak es s').queues
  get_in_order [] s es h t run joined =
      let rejected = route-unnamed mpsc weak (request_for get []) s refl in
      let same : s.listeners ≡ (h, t) ∷ s.listeners =
        ap (λ (r : Routed mpsc weak). r.1.listeners) (sym rejected) ∙ joined in
      absurd (longer (h, t) s.listeners same)
  get_in_order (b ∷ bs) s es h t run joined =
      let name = b ∷ bs in
      let r = route mpsc weak (request_for get name) s in
      let (k, s2) = looked_up mpsc weak get name s in
      let at_r : r.1 ≡ with_viewer mpsc weak k s2 =
        ap (λ r'. r'.1) (route-looked_up mpsc weak get name s (λ e. cc)) in
      let once = locate-IsLocated mpsc weak name s run in
      let twice = locate-IsLocated mpsc weak name (locate mpsc weak name s).1 once.running in
      let small : k < s2.next = (twice.running.known name k twice.found).0 in
      let run' : IsRunning mpsc weak (with_viewer mpsc weak k s2) =
        subst (IsRunning mpsc weak) at_r
          (route-IsQuiet mpsc weak (request_for get name) s run).running in
      let same : (k, (mpsc_channel 5 s2.queues).0) ≡ (h, t) =
        ap (first_or (h, t)) (sym (ap (λ (x : Server mpsc weak). x.listeners) at_r) ∙ joined) in
      subst (λ (x : Server mpsc weak). IsInOrder es x (h, t)) (sym at_r)
        (subst (IsInOrder es (with_viewer mpsc weak k s2)) same
          (with_viewer-IsInOrder k s2 es run' small))
