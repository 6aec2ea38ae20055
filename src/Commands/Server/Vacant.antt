-- ===== src/Commands/Server/Vacant.antt =====
-- A request for a name that nobody is connected to.
use mathlib.Core.Path.{subst}
use webmetro.Base.{
  ℕ, suc, ◌<◌, ◌≡◌, ◌≢◌, ◌∙◌, refl, ap, arith, inl, inr, true, none, List, [], set_same,
}
use webmetro.Mpsc.{Mpsc}
use webmetro.WeakTable.{WeakTable}
use webmetro.Channel.{Channel, new_channel}
use webmetro.Commands.Server.{
  Method, head, get, post, put, other_method, Server, is_alive, locate, route,
}
use webmetro.Commands.Server.Locate.{IsRunning, IsLocated, locate-IsLocated, locate-Located}
use webmetro.Commands.Server.Lookup.{request_for, looked_up, looked_up-IsAnswered, IsAnswered}

module _ (mpsc : Mpsc) (weak : WeakTable) where
  -- No connection holds a channel of the name.
  abbrev pub IsVacant : List ℕ → Server mpsc weak → Type 0
  IsVacant name s = (h : ℕ) → is_alive mpsc weak s h ≡ true → (s.channels h).name ≢ name

  -- A look-up that has made the channel `n`, and leaves the rest.
  record IsNew (n : ℕ) (name : List ℕ) (s : Server mpsc weak) (r : ℕ × Server mpsc weak)
      : Type 0 where
    at : r.0 ≡ n
    next : r.1.next ≡ suc n
    made : r.1.channels n ≡ new_channel mpsc name
    located : IsLocated mpsc weak name s r
    vacant : IsVacant name r.1

  IsVacant-kept :
      (name : List ℕ) (s s' : Server mpsc weak)
      → IsRunning mpsc weak s
      → IsVacant name s
      → s'.transmitters ≡ s.transmitters
      → s'.listeners ≡ s.listeners
      → ((h : ℕ) → h < s.next → s'.channels h ≡ s.channels h)
      → IsVacant name s'
  unfolding is_alive
  IsVacant-kept name s s' run vacant ts ls kept h lives =
      let lives' : is_alive mpsc weak s h ≡ true = rw (ts, ls) at lives in
      let small = (run.known (s.channels h).name h (run.held h lives')).0 in
      rw (kept h small) (vacant h lives')

  locate-IsNew :
      (name : List ℕ) (s : Server mpsc weak)
      → IsRunning mpsc weak s
      → IsVacant name s
      → IsNew s.next name s (locate mpsc weak name s)
  locate-IsNew name s run vacant =
      let located = locate-IsLocated mpsc weak name s run in
      elim (locate-Located mpsc weak name s run) [
        | inl (h, old, lives, e) ↦ absurd (vacant h lives ((run.known name h old).1))
        | inr (gone, e) ↦ record {
          at = rw e refl;
          next = rw e refl;
          made = rw e (set_same s.next (new_channel mpsc name) s.channels);
          located = located;
          vacant =
              IsVacant-kept name s (locate mpsc weak name s).1 run vacant located.transmitters_kept
                located.listeners_kept located.channels_kept;
        }
      ]

  again :
      (n : ℕ) (name : List ℕ) (s : Server mpsc weak) (r : ℕ × Server mpsc weak)
      → IsNew n name s r
      → IsNew (suc n) name s (locate mpsc weak name r.1)
  again n name s r new =
      let new' = locate-IsNew name r.1 new.located.running new.vacant in
      let first = new.located in
      let second = new'.located in
      record {
        at = new'.at ∙ new.next;
        next = new'.next ∙ ap suc new.next;
        made =
            subst (λ j. (locate mpsc weak name r.1).1.channels j ≡ new_channel mpsc name) new.next
              new'.made;
        located = record {
          running = second.running;
          found = second.found;
          queues_kept = second.queues_kept ∙ first.queues_kept;
          transmitters_kept = second.transmitters_kept ∙ first.transmitters_kept;
          listeners_kept = second.listeners_kept ∙ first.listeners_kept;
          channels_kept = λ h small.
              second.channels_kept h (omega (arith, small, first.next_kept))
              ∙ first.channels_kept h small;
          next_kept = omega (arith, first.next_kept, second.next_kept);
        };
        vacant = new'.vacant;
      }

  -- The channel that a request gets, where `n` is the next: each look-up makes one.
  abbrev pub newest : Method → ℕ → ℕ
  newest head n = n
  newest get n = suc n
  newest _ n = suc (suc n)

  looked_up-IsNew :
      (m : Method) (name : List ℕ) (s : Server mpsc weak)
      → IsRunning mpsc weak s
      → IsVacant name s
      → IsNew (newest m s.next) name s (looked_up mpsc weak m name s)
  looked_up-IsNew m name s run vacant =
      let once = locate-IsNew name s run vacant in
      let twice = again s.next name s (locate mpsc weak name s) once in
      let thrice =
        again (suc s.next) name s (locate mpsc weak name (locate mpsc weak name s).1) twice in
      elim m as (λ m'. IsNew (newest m' s.next) name s (looked_up mpsc weak m' name s)) [
        | head ↦ once
        | get ↦ twice
        | post ↦ thrice
        | put ↦ thrice
        | other_method ↦ thrice
      ]

  -- While nobody is connected to a name that is not empty, a request for it gets a channel that
  -- did not exist before, without a header, and answers from it as from any channel; other
  -- connections stay.
  pub route-vacant :
      (m : Method) (name : List ℕ) (s : Server mpsc weak)
      → name ≢ []
      → IsRunning mpsc weak s
      → IsVacant name s
      → let h = newest m s.next in
        let r = route mpsc weak (request_for m name) s in
        IsAnswered mpsc weak m h s r × ((r.1.channels h).header_chunk ≡ none)
  route-vacant m name s some_name run vacant =
      let new = looked_up-IsNew m name s run vacant in
      let s' = (looked_up mpsc weak m name s).1 in
      let same : looked_up mpsc weak m name s ≡ (newest m s.next, s') = ap (λ h. (h, s')) new.at in
      let (answered, header) =
        looked_up-IsAnswered mpsc weak m name s s' (newest m s.next) some_name same
          new.located.queues_kept new.located.transmitters_kept new.located.listeners_kept in
      (answered, header ∙ unfold new_channel in ap (λ (c : Channel mpsc). c.header_chunk) new.made)
