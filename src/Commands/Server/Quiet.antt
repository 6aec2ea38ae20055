-- ===== src/Commands/Server/Quiet.antt =====
-- What a request leaves to the viewers that are there already.
use webmetro.Base.{
  ℕ, ◌<◌, ◌≡◌, ◌≢◌, ◌∙◌, ◌⊎◌, refl, sym, ap, arith, inl, inr, Bool, true, false, ◌||◌, some, List,
  [], ◌∷◌, ◌++◌, Bool-cases, set-cases,
}
use webmetro.Mpsc.{Mpsc}
use webmetro.WeakTable.{WeakTable}
use webmetro.Channel.Sound.{Event, perform}
use webmetro.Channel.Session.{Listed, Stays, perform-IsSeen, sent_by, got_at}
use webmetro.Channel.Others.{IsElsewhere, queued-perform}
use webmetro.Commands.Server.{
  Server, world, with_world, is_alive, transmits_to, listens_to, channel_of, locate,
}
use webmetro.Commands.Server.Locate.{IsRunning, locate-IsLocated}

module _ (mpsc : Mpsc) (weak : WeakTable) where
  open mpsc use {Sender, Queues, queued, IsMade, same_receiver, same_receiver_iff}
  open weak use {stored}

  pub ||-cases : (a b : Bool) → (a || b) ≡ true → (a ≡ true) ⊎ (b ≡ true)
  ||-cases true b e = inl refl
  ||-cases false b e = inr e

  -- The channel of a handle that a connection may hold.
  abbrev pub IsKnown : ℕ → Server mpsc weak → Type 0
  IsKnown h s = stored (s.channels h).name s.table ≡ some h

  -- Other connections, to channels that are known.
  pub rehold :
      (s : Server mpsc weak) (ts : List ℕ) (ls : List (ℕ × Sender))
      → IsRunning mpsc weak s
      → ((h : ℕ) → transmits_to h ts ≡ true → (transmits_to h s.transmitters ≡ true) ⊎ IsKnown h s)
      → ((h : ℕ)
          → listens_to mpsc weak h ls ≡ true
          → (listens_to mpsc weak h s.listeners ≡ true) ⊎ IsKnown h s)
      → IsRunning mpsc weak (record s { transmitters = ts; listeners = ls })
  unfolding is_alive
  rehold s ts ls run f g = record {
    held = λ h a. elim (||-cases (transmits_to h ts) (listens_to mpsc weak h ls) a) [
      | inl e ↦ elim (f h e) [ inl old ↦ run.held h (rw old refl) | inr k ↦ k ]
      | inr e ↦ elim (g h e) [
        | inl old ↦ run.held h (elim (Bool-cases (transmits_to h s.transmitters)) [
          | inl b ↦ rw b refl
          | inr b ↦ rw b old
        ])
        | inr k ↦ k
      ]
    ];
    known = run.known;
    sound = run.sound;
    apart = run.apart;
  }

  -- The client behind `t` listens to the channel `h`.
  pub record IsViewer (t : Sender) (h : ℕ) (s : Server mpsc weak) : Type 0 where
    pub small : h < s.next
    pub made : IsMade t s.queues
    pub viewing : channel_of mpsc weak t s.listeners ≡ some h

  -- A change that takes no viewer's queue and gives it nothing.
  pub record IsQuiet (s s' : Server mpsc weak) : Type 0 where
    pub running : IsRunning mpsc weak s'
    pub viewer : (t : Sender) (h : ℕ) → IsViewer t h s → IsViewer t h s'
    pub same :
        (t : Sender) (h : ℕ)
        → IsViewer t h s
        → Listed mpsc t (s'.channels h).listeners
        → Listed mpsc t (s.channels h).listeners × (queued t s'.queues ≡ queued t s.queues)

  pub IsQuiet-refl : (s : Server mpsc weak) → IsRunning mpsc weak s → IsQuiet s s
  IsQuiet-refl s run = record { running = run; viewer = λ t h v. v; same = λ t h v l. (l, refl) }

  pub IsQuiet-trans : (s s' s'' : Server mpsc weak) → IsQuiet s s' → IsQuiet s' s'' → IsQuiet s s''
  IsQuiet-trans s s' s'' a b = record {
    running = b.running;
    viewer = λ t h v. b.viewer t h (a.viewer t h v);
    same = λ t h v l.
        let (l', e') = b.same t h (a.viewer t h v) l in
        let (l'', e) = a.same t h v l' in (l'', e' ∙ e);
  }

  pub locate-IsQuiet :
      (name : List ℕ) (s : Server mpsc weak)
      → IsRunning mpsc weak s
      → IsQuiet s (locate mpsc weak name s).1
  locate-IsQuiet name s run =
      let at_name = locate-IsLocated mpsc weak name s run in
      record {
        running = at_name.running;
        viewer = λ t h v. record {
          small = omega (arith, v.small, at_name.next_kept);
          made = rw at_name.queues_kept v.made;
          viewing = rw at_name.listeners_kept v.viewing;
        };
        same = λ t h v l.
            (rw (at_name.channels_kept h v.small) at l, ap (queued t) at_name.queues_kept);
      }

  -- A step of one channel, as the viewer of any channel sees it.
  pub with_world-seen :
      (e : Event mpsc) (k : ℕ) (s : Server mpsc weak) (t : Sender) (h : ℕ)
      → IsRunning mpsc weak s
      → IsMade t s.queues
      → Stays mpsc t (e ∷ [])
      → (k ≢ h → IsElsewhere mpsc t e)
      → Listed mpsc t
          ((with_world mpsc weak k (perform mpsc e (world mpsc weak k s)) s).channels h).listeners
      → let q' = (perform mpsc e (world mpsc weak k s)).1 in
        Listed mpsc t (s.channels h).listeners
        × (((h ≡ k)
              × (queued t s.queues ++ sent_by mpsc (e ∷ [])
                  ≡ got_at mpsc t e (world mpsc weak h s) ++ queued t q'))
            ⊎ ((h ≢ k) × (queued t q' ≡ queued t s.queues)))
  unfolding with_world
  with_world-seen e k s t h run made stays elsewhere l =
      let w = world mpsc weak k s in
      let w' = perform mpsc e w in
      elim (set-cases k w'.0 s.channels h) [
        | inl (same, at_h) ↦
            let (before, eq) = perform-IsSeen mpsc t e w (run.sound k) made stays (rw at_h at l) in
            (rw same before, inl (same, rw same eq))
        | inr (other, at_h) ↦
            let before = rw at_h at l in
            (
              before,
              inr (
                other,
                queued-perform mpsc e w t made (λ there. other (run.apart h k t before there))
                    (elsewhere (λ e. other (sym e))),
              ),
            )
      ]
