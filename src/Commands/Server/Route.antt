-- ===== src/Commands/Server/Route.antt =====
-- A request disturbs no viewer: `routes` of src/commands/relay.rs, filter by filter.
use mathlib.Core.Path.{subst}
use webmetro.Base.{
  ℕ, ◌≡◌, ◌≢◌, ◌∙◌, refl, sym, ap, inl, inr, false, Option, none, some, List, [], ◌∷◌, Bool-cases,
  if◌then◌else◌, ◌==◌, ==_iff, append-nil, same_bytes,
}
use webmetro.Mpsc.{Mpsc}
use webmetro.WeakTable.{WeakTable}
use webmetro.Channel.{new_listener}
use webmetro.Channel.Sound.{joins, perform, made-perform, new_listener-with_listener, perform-joins}
use webmetro.Channel.Session.{got_at}
use webmetro.Commands.Server.{
  Method, head, get, post, put, other_method, Request, live, Server, world, with_world,
  transmits_to, listens_to, channel_of, locate, channel_filter, media_response, listening, Routed,
  head_found, listened, get_found, post_found, filtered, or_else, route,
}
use webmetro.Commands.Server.Locate.{IsRunning, locate-IsLocated}
use webmetro.Commands.Server.Running.{with_world-IsRunning}
use webmetro.Commands.Server.Quiet.{
  IsKnown, rehold, IsQuiet, IsQuiet-refl, IsQuiet-trans, locate-IsQuiet, with_world-seen, ||-cases,
}

module _ (mpsc : Mpsc) (weak : WeakTable) where
  open mpsc use {
    Sender, Queues, mpsc_channel, queued, IsMade, same_receiver, same_receiver_iff, fresh,
  }
  open weak use {stored}

  -- The server with a new listener of the channel `k`.
  abbrev pub with_viewer : ℕ → Server mpsc weak → Server mpsc weak
  with_viewer k s = record (with_world mpsc weak k (perform mpsc joins (world mpsc weak k s)) s) {
    listeners = (k, (mpsc_channel 5 s.queues).0) ∷ s.listeners;
  }

  pub listened-with_viewer :
      (k : ℕ) (s : Server mpsc weak)
      → listened mpsc weak k (new_listener mpsc (world mpsc weak k s)) s
        ≡ (some (media_response mpsc weak (listening (mpsc_channel 5 s.queues).0)), with_viewer k s)
  unfolding listened
  listened-with_viewer k s =
      let w = world mpsc weak k s in rw (new_listener-with_listener mpsc w, perform-joins mpsc w)

  different : (u t : Sender) → t ≢ u → same_receiver u t ≡ false
  different u t other = elim (Bool-cases (same_receiver u t)) [
    | inl e ↦ absurd (other (sym ((same_receiver_iff u t).0 e)))
    | inr e ↦ e
  ]

  IsKnown-after :
      (k : ℕ) (s s' : Server mpsc weak)
      → s'.table ≡ s.table
      → IsRunning mpsc weak s'
      → IsKnown mpsc weak k s
      → IsKnown mpsc weak k s'
  IsKnown-after k s s' same run known =
      let e : stored (s.channels k).name s'.table ≡ some k = rw same known in
      rw ((run.known (s.channels k).name k e).1) e

  with_viewer-IsQuiet :
      (k : ℕ) (s : Server mpsc weak)
      → IsRunning mpsc weak s
      → IsKnown mpsc weak k s
      → IsQuiet mpsc weak s (with_viewer k s)
  unfolding with_world channel_of listens_to
  with_viewer-IsQuiet k s run known =
      let w = world mpsc weak k s in
      let u = (mpsc_channel 5 s.queues).0 in
      let s' = with_world mpsc weak k (perform mpsc joins w) s in
      let run' = with_world-IsRunning mpsc weak joins k s run in
      let known' = IsKnown-after k s s' refl run' known in
      record {
        running =
            rehold mpsc weak s' s.transmitters ((k, u) ∷ s.listeners) run' (λ h e. inl e)
              (λ h e. elim (||-cases mpsc weak (k == h) (listens_to mpsc weak h s.listeners) e) [
                | inl same ↦ inr (subst (λ j. IsKnown mpsc weak j s') ((==_iff k h).0 same) known')
                | inr old ↦ inl old
              ]);
        viewer = λ t h v. record {
          small = v.small;
          made = made-perform mpsc joins w t v.made;
          viewing = rw (different u t (fresh 5 s.queues t v.made)) v.viewing;
        };
        same = λ t h v l.
            let (before, seen) =
              with_world-seen mpsc weak joins k s t h run v.made tt (λ _. tt) l in
            (
              before,
              elim seen [ inl (_, e) ↦ unfold got_at in sym (rw append-nil at e) | inr (_, e) ↦ e ],
            );
      }

  with_source-IsQuiet :
      (k : ℕ) (s : Server mpsc weak)
      → IsRunning mpsc weak s
      → IsKnown mpsc weak k s
      → IsQuiet mpsc weak s (record s { transmitters = k ∷ s.transmitters })
  unfolding transmits_to
  with_source-IsQuiet k s run known = record {
    running =
        rehold mpsc weak s (k ∷ s.transmitters) s.listeners run
          (λ h e. elim (||-cases mpsc weak (k == h) (transmits_to h s.transmitters) e) [
            | inl same ↦ inr (subst (λ j. IsKnown mpsc weak j s) ((==_iff k h).0 same) known)
            | inr old ↦ inl old
          ])
          (λ h e. inl e);
    viewer = λ t h v. record { small = v.small; made = v.made; viewing = v.viewing };
    same = λ t h v l. (l, refl);
  }

  -- What a route does with the channel it gets keeps the viewers as they are.
  abbrev pub IsQuietRoute : (Method → Option ℕ → Server mpsc weak → Routed mpsc weak) → Type 0
  IsQuietRoute found =
      (m : Method) (s : Server mpsc weak)
      → IsRunning mpsc weak s
      → IsQuiet mpsc weak s (found m none s).1
        × ((k : ℕ) → IsKnown mpsc weak k s → IsQuiet mpsc weak s (found m (some k) s).1)

  head_found-IsQuietRoute : IsQuietRoute (head_found mpsc weak)
  unfolding head_found
  head_found-IsQuietRoute head s run =
      (IsQuiet-refl mpsc weak s run, λ k known. IsQuiet-refl mpsc weak s run)
  head_found-IsQuietRoute get s run =
      (IsQuiet-refl mpsc weak s run, λ k known. IsQuiet-refl mpsc weak s run)
  head_found-IsQuietRoute post s run =
      (IsQuiet-refl mpsc weak s run, λ k known. IsQuiet-refl mpsc weak s run)
  head_found-IsQuietRoute put s run =
      (IsQuiet-refl mpsc weak s run, λ k known. IsQuiet-refl mpsc weak s run)
  head_found-IsQuietRoute other_method s run =
      (IsQuiet-refl mpsc weak s run, λ k known. IsQuiet-refl mpsc weak s run)

  get_found-IsQuietRoute : IsQuietRoute (get_found mpsc weak)
  unfolding get_found
  get_found-IsQuietRoute head s run =
      (IsQuiet-refl mpsc weak s run, λ k known. IsQuiet-refl mpsc weak s run)
  get_found-IsQuietRoute get s run = (
    IsQuiet-refl mpsc weak s run,
    λ k known. rw (listened-with_viewer k s) (with_viewer-IsQuiet k s run known),
  )
  get_found-IsQuietRoute post s run =
      (IsQuiet-refl mpsc weak s run, λ k known. IsQuiet-refl mpsc weak s run)
  get_found-IsQuietRoute put s run =
      (IsQuiet-refl mpsc weak s run, λ k known. IsQuiet-refl mpsc weak s run)
  get_found-IsQuietRoute other_method s run =
      (IsQuiet-refl mpsc weak s run, λ k known. IsQuiet-refl mpsc weak s run)

  post_found-IsQuietRoute : IsQuietRoute (post_found mpsc weak)
  unfolding post_found
  post_found-IsQuietRoute head s run =
      (IsQuiet-refl mpsc weak s run, λ k known. IsQuiet-refl mpsc weak s run)
  post_found-IsQuietRoute get s run =
      (IsQuiet-refl mpsc weak s run, λ k known. IsQuiet-refl mpsc weak s run)
  post_found-IsQuietRoute post s run =
      (IsQuiet-refl mpsc weak s run, λ k known. with_source-IsQuiet k s run known)
  post_found-IsQuietRoute put s run =
      (IsQuiet-refl mpsc weak s run, λ k known. with_source-IsQuiet k s run known)
  post_found-IsQuietRoute other_method s run =
      (IsQuiet-refl mpsc weak s run, λ k known. IsQuiet-refl mpsc weak s run)

  -- The name in a path of the form `/live/name`, of one byte at least.
  abbrev pub named : List (List ℕ) → Option (List ℕ)
  named (segment ∷ [] ∷ []) = none
  named (segment ∷ (b ∷ bs) ∷ []) =
      if same_bytes segment (b'l' ∷ b'i' ∷ b'v' ∷ b'e' ∷ []) then some (b ∷ bs) else none
  named path = none

  abbrev pub found_at : Option (List ℕ) → Server mpsc weak → Option ℕ × Server mpsc weak
  found_at none s = (none, s)
  found_at (some name) s = let (h, s') = locate mpsc weak name s in (some h, s')

  pub channel_filter-found_at :
      (path : List (List ℕ)) (s : Server mpsc weak)
      → channel_filter mpsc weak path s ≡ found_at (named path) s
  unfolding channel_filter
  channel_filter-found_at [] s = refl
  channel_filter-found_at (a ∷ []) s = refl
  channel_filter-found_at (a ∷ [] ∷ []) s = refl
  channel_filter-found_at (a ∷ (n ∷ name) ∷ []) s = elim (Bool-cases (same_bytes a live)) [
    | inl e ↦ rw e refl
    | inr e ↦ rw e refl
  ]
  channel_filter-found_at (a ∷ [] ∷ c ∷ path) s = refl
  channel_filter-found_at (a ∷ (n ∷ name) ∷ c ∷ path) s = refl

  found-IsQuiet :
      (found : Method → Option ℕ → Server mpsc weak → Routed mpsc weak) (m : Method)
      (name : Option (List ℕ)) (s : Server mpsc weak)
      → IsQuietRoute found
      → IsRunning mpsc weak s
      → let (h, s') = found_at name s in IsQuiet mpsc weak s (found m h s').1
  found-IsQuiet found m none s quiet run = (quiet m s run).0
  found-IsQuiet found m (some name) s quiet run =
      let at_name = locate-IsLocated mpsc weak name s run in
      let (h, s') = locate mpsc weak name s in
      let known : IsKnown mpsc weak h s' =
        rw ((at_name.running.known name h at_name.found).1) at_name.found in
      IsQuiet-trans mpsc weak s s' (found m (some h) s').1 (locate-IsQuiet mpsc weak name s run)
        ((quiet m s' at_name.running).1 h known)

  filtered-IsQuiet :
      (found : Method → Option ℕ → Server mpsc weak → Routed mpsc weak) (r : Request)
      (s : Server mpsc weak)
      → IsQuietRoute found
      → IsRunning mpsc weak s
      → IsQuiet mpsc weak s (filtered mpsc weak found r s).1
  filtered-IsQuiet found r s quiet run =
      unfold filtered in
      subst (λ (x : Option ℕ × Server mpsc weak). IsQuiet mpsc weak s (found r.method x.0 x.1).1)
        (sym (channel_filter-found_at r.path s))
        (found-IsQuiet found r.method (named r.path) s quiet run)

  or_else-IsQuiet :
      (s : Server mpsc weak) (r : Routed mpsc weak) (next : Server mpsc weak → Routed mpsc weak)
      → IsQuiet mpsc weak s r.1
      → IsQuiet mpsc weak r.1 (next r.1).1
      → IsQuiet mpsc weak s (or_else mpsc weak r next).1
  unfolding or_else
  or_else-IsQuiet s (some answer, s') next q q' = q
  or_else-IsQuiet s (none, s') next q q' = IsQuiet-trans mpsc weak s s' (next s').1 q q'

  pub route-IsQuiet :
      (r : Request) (s : Server mpsc weak)
      → IsRunning mpsc weak s
      → IsQuiet mpsc weak s (route mpsc weak r s).1
  unfolding route
  route-IsQuiet r s run =
      let a = filtered mpsc weak (head_found mpsc weak) r s in
      let qa = filtered-IsQuiet (head_found mpsc weak) r s head_found-IsQuietRoute run in
      let b = or_else mpsc weak a (filtered mpsc weak (get_found mpsc weak) r) in
      let qb =
        or_else-IsQuiet s a (filtered mpsc weak (get_found mpsc weak) r) qa
          (filtered-IsQuiet (get_found mpsc weak) r a.1 get_found-IsQuietRoute qa.running) in
      or_else-IsQuiet s b (filtered mpsc weak (post_found mpsc weak) r) qb
        (filtered-IsQuiet (post_found mpsc weak) r b.1 post_found-IsQuietRoute qb.running)

  unfound :
      (m : Method) (s : Server mpsc weak)
      → (head_found mpsc weak m none s ≡ (none, s))
        × (get_found mpsc weak m none s ≡ (none, s))
        × (post_found mpsc weak m none s ≡ (none, s))
  unfolding head_found get_found post_found
  unfound head s = (refl, refl, refl)
  unfound get s = (refl, refl, refl)
  unfound post s = (refl, refl, refl)
  unfound put s = (refl, refl, refl)
  unfound other_method s = (refl, refl, refl)

  pub route-unnamed :
      (r : Request) (s : Server mpsc weak) → named r.path ≡ none → route mpsc weak r s ≡ (none, s)
  unfolding route filtered or_else
  route-unnamed r s e =
      let path_rejected : channel_filter mpsc weak r.path s ≡ (none, s) =
        channel_filter-found_at r.path s ∙ ap (λ n. found_at n s) e in
      let (head_rejects, get_rejects, post_rejects) = unfound r.method s in
      rw (path_rejected, head_rejects, path_rejected, get_rejects, path_rejected, post_rejects) refl
