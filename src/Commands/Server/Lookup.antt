-- ===== src/Commands/Server/Lookup.antt =====
-- Whom a request for a name meets: a channel that has a connection, or a new one.
use mathlib.Core.Path.{subst}
use webmetro.Base.{
  ℕ, ◌≡◌, ◌≢◌, ◌∙◌, refl, sym, ap, inl, inr, true, Option, none, some, List, [], ◌∷◌,
  some-injective, set_same,
}
use webmetro.Mpsc.{Mpsc}
use webmetro.WeakTable.{WeakTable, upgraded}
use webmetro.Channel.Sound.{joins, perform, new_listener-with_listener}
use webmetro.Commands.Server.{
  Method, head, get, post, put, other_method, Request, empty_body, listening, relaying, Routed,
  Response, media_response, Header, content_type, x_accel_buffering, cache_control, Server,
  with_world, world, is_alive, locate, channel_filter, head_found, get_found, post_found, filtered,
  or_else, route,
}
use webmetro.Commands.Server.Locate.{
  IsRunning, locate-IsLocated, locate-Located, table_after, alive-upgraded,
}
use webmetro.Commands.Server.Route.{with_viewer, listened-with_viewer}

abbrev pub request_for : Method → List ℕ → Request
request_for m name = record { method = m; path = (b'l' ∷ b'i' ∷ b'v' ∷ b'e' ∷ []) ∷ name ∷ [] }

-- What tells a client, and a proxy on the way, that the answer is a live WebM stream.
abbrev webm_headers : List Header
webm_headers =
    content_type "video/webm" ∷ x_accel_buffering "no" ∷ cache_control "no-cache, no-store" ∷ []

module _ (mpsc : Mpsc) (weak : WeakTable) where
  open mpsc use {Sender, mpsc_channel}
  open weak use {Table, stored}

  -- `HEAD` looks the name up once, `GET` twice, any other method three times.
  abbrev pub looked_up : Method → List ℕ → Server mpsc weak → ℕ × Server mpsc weak
  looked_up head name s = locate mpsc weak name s
  looked_up get name s = locate mpsc weak name (locate mpsc weak name s).1
  looked_up _ name s = locate mpsc weak name (locate mpsc weak name (locate mpsc weak name s).1).1

  -- The answer to a request that finds the channel `h`; `t` is the sender for a new listener.
  abbrev pub answer_of : Method → ℕ → Sender → Option (Response mpsc weak)
  answer_of head h t = some (record { headers = webm_headers; body = empty_body })
  answer_of get h t = some (record { headers = webm_headers; body = listening t })
  answer_of post h t = some (record { headers = []; body = relaying h })
  answer_of put h t = some (record { headers = []; body = relaying h })
  answer_of other_method h t = none

  abbrev pub transmitters_of : Method → ℕ → List ℕ → List ℕ
  transmitters_of post h ts = h ∷ ts
  transmitters_of put h ts = h ∷ ts
  transmitters_of m h ts = ts

  abbrev pub listeners_of : Method → ℕ → Sender → List (ℕ × Sender) → List (ℕ × Sender)
  listeners_of get h t ls = (h, t) ∷ ls
  listeners_of m h t ls = ls

  abbrev pub connected : Method → ℕ → Server mpsc weak → Server mpsc weak
  connected get h s = with_viewer mpsc weak h s
  connected m h s = record s { transmitters = transmitters_of m h s.transmitters }

  route_byte :
      (m : Method) (b : ℕ) (bs : List ℕ) (s : Server mpsc weak)
      → let (h, s') = looked_up m (b ∷ bs) s in
        route mpsc weak (request_for m (b ∷ bs)) s
        ≡ (answer_of m h (mpsc_channel 5 s'.queues).0, connected m h s')
  unfolding route or_else filtered channel_filter head_found get_found post_found media_response
  route_byte head b bs s = refl
  route_byte get b bs s =
      let (h, s') = looked_up get (b ∷ bs) s in rw (listened-with_viewer mpsc weak h s') refl
  route_byte post b bs s = refl
  route_byte put b bs s = refl
  route_byte other_method b bs s = refl

  pub route-looked_up :
      (m : Method) (name : List ℕ) (s : Server mpsc weak)
      → name ≢ []
      → let (h, s') = looked_up m name s in
        route mpsc weak (request_for m name) s
        ≡ (answer_of m h (mpsc_channel 5 s'.queues).0, connected m h s')
  route-looked_up m [] s some_name = absurd (some_name refl)
  route-looked_up m (b ∷ bs) s some_name = route_byte m b bs s

  pub connected_fields :
      (m : Method) (h : ℕ) (s : Server mpsc weak)
      → let s' = connected m h s in
        let t = (mpsc_channel 5 s.queues).0 in
        (s'.transmitters ≡ transmitters_of m h s.transmitters)
        × (s'.listeners ≡ listeners_of m h t s.listeners)
        × ((s.channels h).header_chunk ≡ (s'.channels h).header_chunk)
  unfolding with_world perform
  connected_fields head h s = (refl, refl, refl)
  connected_fields get h s =
      let w' = perform mpsc joins (world mpsc weak h s) in
      let kept : w'.0.header_chunk ≡ (s.channels h).header_chunk =
        rw (new_listener-with_listener mpsc (world mpsc weak h s)) in
      (refl, refl, rw (set_same h w'.0 s.channels) (sym kept))
  connected_fields post h s = (refl, refl, refl)
  connected_fields put h s = (refl, refl, refl)
  connected_fields other_method h s = (refl, refl, refl)

  -- Another table.
  abbrev pub retabled : Server mpsc weak → Table → Server mpsc weak
  retabled s t = record s { table = t }

  -- A name that has a connection is found, and nothing but the table changes.
  locate_live :
      (name : List ℕ) (h : ℕ) (s : Server mpsc weak)
      → IsRunning mpsc weak s
      → is_alive mpsc weak s h ≡ true
      → (s.channels h).name ≡ name
      → (t : Table) × (locate mpsc weak name s ≡ (h, retabled s t))
        × IsRunning mpsc weak (retabled s t)
  locate_live name h s run lives named =
      let at_h : stored name s.table ≡ some h = rw named at (run.held h lives) in
      elim (locate-Located mpsc weak name s run) [
        | inl (k, old, _, e) ↦
            let same : k ≡ h = some-injective (sym old ∙ at_h) in
            let e' : locate mpsc weak name s ≡ (h, retabled s (table_after mpsc weak name s)) =
              rw same at e in
            (
              table_after mpsc weak name s,
              e',
              subst (λ (r : ℕ × Server mpsc weak). IsRunning mpsc weak r.1) e'
                  (locate-IsLocated mpsc weak name s run).running,
            )
        | inr (gone, _) ↦ cc (
          gone,
          ap (upgraded (is_alive mpsc weak s)) at_h,
          alive-upgraded mpsc weak (is_alive mpsc weak s) h lives,
        )
      ]

  looked_up_live :
      (m : Method) (name : List ℕ) (h : ℕ) (s : Server mpsc weak)
      → IsRunning mpsc weak s
      → is_alive mpsc weak s h ≡ true
      → (s.channels h).name ≡ name
      → (t : Table) × (looked_up m name s ≡ (h, retabled s t))
  unfolding is_alive
  looked_up_live m name h s run lives named =
      let (t1, e1, run1) = locate_live name h s run lives named in
      let (t2, e2, run2) = locate_live name h (retabled s t1) run1 lives named in
      let (t3, e3, run3) = locate_live name h (retabled s t2) run2 lives named in
      let twice : locate mpsc weak name (locate mpsc weak name s).1 ≡ (h, retabled s t2) =
        rw e1 e2 in
      let thrice : locate mpsc weak name (locate mpsc weak name (locate mpsc weak name s).1).1
          ≡ (h, retabled s t3) =
        rw twice e3 in
      elim m as (λ m'. (t : Table) × (looked_up m' name s ≡ (h, retabled s t))) [
        | head ↦ (t1, e1)
        | get ↦ (t2, twice)
        | post ↦ (t3, thrice)
        | put ↦ (t3, thrice)
        | other_method ↦ (t3, thrice)
      ]

  -- What a request for a name does once its channel `h` has been looked up.
  abbrev pub IsAnswered : Method → ℕ → Server mpsc weak → Routed mpsc weak → Type 0
  IsAnswered m h s (answer, s') =
      let t = (mpsc_channel 5 s.queues).0 in
      (answer ≡ answer_of m h t)
      × (s'.transmitters ≡ transmitters_of m h s.transmitters)
      × (s'.listeners ≡ listeners_of m h t s.listeners)

  -- Looking the name up has found `h`, and kept the connections.
  pub looked_up-IsAnswered :
      (m : Method) (name : List ℕ) (s s' : Server mpsc weak) (h : ℕ)
      → name ≢ []
      → looked_up m name s ≡ (h, s')
      → s'.queues ≡ s.queues
      → s'.transmitters ≡ s.transmitters
      → s'.listeners ≡ s.listeners
      → let r = route mpsc weak (request_for m name) s in
        IsAnswered m h s r × ((r.1.channels h).header_chunk ≡ (s'.channels h).header_chunk)
  looked_up-IsAnswered m name s s' h some_name e qs ts ls =
      let (ts', ls', kept) = connected_fields m h s' in
      rw (route-looked_up m name s some_name, e, ← qs, ← ts, ← ls) ((refl, ts', ls'), sym kept)

  -- While any connection holds the channel of a name that is not empty, every request for the name
  -- is answered from that channel: `HEAD` with an empty body, `GET` with a new listener of it as
  -- the body, both with the headers of a live WebM stream, `POST` and `PUT` with a transmitter to
  -- it and no headers, and other methods are rejected; the other connections stay, and the channel
  -- keeps its header.
  pub route-live :
      (m : Method) (name : List ℕ) (h : ℕ) (s : Server mpsc weak)
      → name ≢ []
      → IsRunning mpsc weak s
      → is_alive mpsc weak s h ≡ true
      → (s.channels h).name ≡ name
      → let r = route mpsc weak (request_for m name) s in
        IsAnswered m h s r × ((r.1.channels h).header_chunk ≡ (s.channels h).header_chunk)
  route-live m name h s some_name run lives named =
      let (t, e) = looked_up_live m name h s run lives named in
      looked_up-IsAnswered m name s (retabled s t) h some_name e refl refl refl
