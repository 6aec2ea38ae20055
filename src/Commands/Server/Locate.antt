-- ===== src/Commands/Server/Locate.antt =====
-- The invariant of the server's channels, and that the filter for a name keeps it.
use webmetro.Base.{
  ◌≤◌, ℕ, suc, ◌<◌, ◌≡◌, ◌≢◌, ◌∙◌, ◌⊎◌, refl, sym, ap, arith, inl, inr, Bool, true, false, Option,
  none, some, List, [], Bool-cases, Option-cases, some-injective, ◌==◌, ==_iff, same_bytes-cases,
  set, set_same, set_other, set-elim,
}
use webmetro.Mpsc.{Mpsc}
use webmetro.WeakTable.{WeakTable, upgraded}
use webmetro.Channel.{Channel, new_channel}
use webmetro.Channel.Sound.{IsSound}
use webmetro.Channel.Session.{Listed}
use webmetro.Commands.Server.{Server, world, is_alive, locate, inserted}

module _ (mpsc : Mpsc) (weak : WeakTable) where
  open mpsc use {Sender}
  open weak use {Table, stored, or_insert_with, occupied, vacant, stored_here, stored_other}

  -- The pointer under a name is one that has been made, to a channel of this name; a channel with a
  -- connection stands under its name; channels are sound, and no listener stands in two of them.
  pub record IsRunning (s : Server mpsc weak) : Type 0 where
    pub held : (h : ℕ) → is_alive mpsc weak s h ≡ true → stored (s.channels h).name s.table ≡ some h
    pub known :
        (name : List ℕ) (h : ℕ)
        → stored name s.table ≡ some h
        → (h < s.next) × ((s.channels h).name ≡ name)
    pub sound : (h : ℕ) → IsSound mpsc (world mpsc weak h s)
    pub apart :
        (h k : ℕ) (t : Sender)
        → Listed mpsc t (s.channels h).listeners
        → Listed mpsc t (s.channels k).listeners
        → h ≡ k

  -- The map after the filter.
  abbrev pub table_after : List ℕ → Server mpsc weak → Table
  table_after name s = (or_insert_with (is_alive mpsc weak s) name s.next s.table).1

  pub upgraded-some :
      (alive : ℕ → Bool) (o : Option ℕ) {h : ℕ}
      → upgraded alive o ≡ some h
      → (o ≡ some h) × (alive h ≡ true)
  upgraded-some alive none e = cc
  upgraded-some alive (some k) {h} e = elim (Bool-cases (alive k)) [
    | inl a ↦ let same : k ≡ h = some-injective (rw a at e) in (rw same, rw same at a)
    | inr a ↦ cc (rw a at e)
  ]

  pub alive-upgraded :
      (alive : ℕ → Bool) (h : ℕ) → alive h ≡ true → upgraded alive (some h) ≡ some h
  alive-upgraded alive h a = rw a

  -- The filter finds a channel with a connection, or makes one.
  abbrev pub Located : List ℕ → Server mpsc weak → Type 0
  Located name s =
      ((h : ℕ) × (stored name s.table ≡ some h)
        × (is_alive mpsc weak s h ≡ true)
        × (locate mpsc weak name s ≡ (h, record s { table = table_after name s })))
      ⊎ ((upgraded (is_alive mpsc weak s) (stored name s.table) ≡ none)
          × (locate mpsc weak name s ≡ (
            s.next,
            record s {
              table = table_after name s;
              channels = set s.next (new_channel mpsc name) s.channels;
              next = suc s.next;
            },
          )))

  pub locate-Located : (name : List ℕ) (s : Server mpsc weak) → IsRunning s → Located name s
  unfolding locate inserted
  locate-Located name s run =
      let alive = is_alive mpsc weak s in
      elim (Option-cases (upgraded alive (stored name s.table))) [
        | inl e ↦
            inr (e, rw (vacant alive name s.next s.table e, (==_iff s.next s.next).1 refl) refl)
        | inr (h, e) ↦
            let (old, lives) = upgraded-some alive (stored name s.table) e in
            let small = (run.known name h old).0 in
            let other : (h == s.next) ≡ false = elim (Bool-cases (h == s.next)) [
              | inl p ↦ absurd (omega (arith, (==_iff h s.next).0 p, small))
              | inr p ↦ p
            ] in
            inl (h, old, lives, rw (occupied alive name s.next h s.table e, other) refl)
      ]

  -- What the map has under a name before and after.
  stored_before :
      (name other : List ℕ) (s : Server mpsc weak) {j : ℕ}
      → stored other (table_after name s) ≡ some j
      → ((other ≡ name) × ((locate mpsc weak name s).0 ≡ j)) ⊎ (stored other s.table ≡ some j)
  unfolding locate
  stored_before name other s {j} e = elim (same_bytes-cases other name) [
    | inl same ↦
        let here = stored_here (is_alive mpsc weak s) name s.next s.table in
        inl (same, some-injective (sym here ∙ (rw same at e)))
    | inr differ ↦ elim (stored_other (is_alive mpsc weak s) name other s.next s.table differ) [
      | inl same ↦ inr (sym same ∙ e)
      | inr (gone, _) ↦ cc (gone, e)
    ]
  ]

  stored_kept :
      (name other : List ℕ) (s : Server mpsc weak) (j : ℕ)
      → other ≢ name
      → stored other s.table ≡ some j
      → is_alive mpsc weak s j ≡ true
      → stored other (table_after name s) ≡ some j
  stored_kept name other s j differ e lives =
      let alive = is_alive mpsc weak s in
      elim (stored_other alive name other s.next s.table differ) [
        | inl same ↦ same ∙ e
        | inr (_, dead) ↦
            let up : upgraded alive (stored other s.table) ≡ some j =
              ap (upgraded alive) e ∙ alive-upgraded alive j lives in
            cc (up, dead)
      ]

  -- What the filter leaves: the channel of the name, which is known, and all else as it was.
  pub record IsLocated (name : List ℕ) (s : Server mpsc weak) (r : ℕ × Server mpsc weak)
      : Type 0 where
    pub running : IsRunning r.1
    pub found : stored name r.1.table ≡ some r.0
    pub queues_kept : r.1.queues ≡ s.queues
    pub transmitters_kept : r.1.transmitters ≡ s.transmitters
    pub listeners_kept : r.1.listeners ≡ s.listeners
    pub channels_kept : (h : ℕ) → h < s.next → r.1.channels h ≡ s.channels h
    pub next_kept : s.next ≤ r.1.next

  old-IsLocated :
      (name : List ℕ) (s : Server mpsc weak) (k : ℕ)
      → IsRunning s
      → stored name s.table ≡ some k
      → is_alive mpsc weak s k ≡ true
      → locate mpsc weak name s ≡ (k, record s { table = table_after name s })
      → IsLocated name s (k, record s { table = table_after name s })
  unfolding is_alive
  old-IsLocated name s k run old lives at_k =
      let alive = is_alive mpsc weak s in
      let t' = table_after name s in
      let here : stored name t' ≡ some k =
        unfold locate in
        stored_here alive name s.next s.table ∙ ap (λ (r : ℕ × Server mpsc weak). some r.0) at_k in
      record {
        running = record {
          held = λ h a. elim (same_bytes-cases (s.channels h).name name) [
            | inl same ↦
                let both : some h ≡ some k =
                  sym (run.held h a) ∙ ap (λ n. stored n s.table) same ∙ old in
                ap (λ n. stored n t') same ∙ here ∙ sym both
            | inr differ ↦ stored_kept name (s.channels h).name s h differ (run.held h a) a
          ];
          known = λ n h e. elim (stored_before name n s e) [
            | inl (same, at_h) ↦
                let both : k ≡ h = sym (ap (λ r. r.0) at_k) ∙ at_h in
                rw (same, ← both) (run.known name k old)
            | inr e' ↦ run.known n h e'
          ];
          sound = λ h. run.sound h;
          apart = λ h j t. run.apart h j t;
        };
        found = here;
        queues_kept = refl;
        transmitters_kept = refl;
        listeners_kept = refl;
        channels_kept = λ h small. refl;
        next_kept = omega arith;
      }

  -- A channel among the old ones and a new one.
  new_channel-kept :
      (name : List ℕ) (s : Server mpsc weak) (h : ℕ)
      → h < s.next
      → set s.next (new_channel mpsc name) s.channels h ≡ s.channels h
  new_channel-kept name s h small =
      set_other s.next h (new_channel mpsc name) s.channels (λ e. omega (arith, small, e))

  new_channel_fields :
      (name : List ℕ)
      → ((new_channel mpsc name).name ≡ name) × ((new_channel mpsc name).listeners ≡ [])
  unfolding new_channel
  new_channel_fields name = (refl, refl)

  Listed-old :
      (name : List ℕ) (s : Server mpsc weak) (h : ℕ) (t : Sender)
      → Listed mpsc t (set s.next (new_channel mpsc name) s.channels h).listeners
      → Listed mpsc t (s.channels h).listeners
  Listed-old name s h t =
      set-elim
        (λ (c : Channel mpsc). Listed mpsc t c.listeners → Listed mpsc t (s.channels h).listeners)
        s.next (new_channel mpsc name) s.channels h
        (λ l. elim (rw (new_channel_fields name).1 at l) [ ]) (λ _ l. l)

  new-IsLocated :
      (name : List ℕ) (s : Server mpsc weak)
      → IsRunning s
      → upgraded (is_alive mpsc weak s) (stored name s.table) ≡ none
      → let s' = record s {
        table = table_after name s;
        channels = set s.next (new_channel mpsc name) s.channels;
        next = suc s.next;
      } in
        locate mpsc weak name s ≡ (s.next, s') → IsLocated name s (s.next, s')
  unfolding is_alive
  new-IsLocated name s run gone at_next =
      let alive = is_alive mpsc weak s in
      let t' = table_after name s in
      let channels' = set s.next (new_channel mpsc name) s.channels in
      let made : channels' s.next ≡ new_channel mpsc name =
        set_same s.next (new_channel mpsc name) s.channels in
      let here : stored name t' ≡ some s.next =
        unfold locate in
        stored_here alive name s.next s.table
        ∙ ap (λ (r : ℕ × Server mpsc weak). some r.0) at_next in
      record {
        running = record {
          held = λ h a.
              let e = run.held h a in
              let kept = new_channel-kept name s h (run.known (s.channels h).name h e).0 in
              let differ : (s.channels h).name ≢ name = λ same.
                let up : upgraded alive (stored name s.table) ≡ some h =
                  ap (upgraded alive) (ap (λ n. stored n s.table) (sym same) ∙ e)
                  ∙ alive-upgraded alive h a in
                cc (up, gone) in
              ap (λ (c : Channel mpsc). stored c.name t') kept
              ∙ stored_kept name (s.channels h).name s h differ e a;
          known = λ n h e. elim (stored_before name n s e) [
            | inl (same, at_h) ↦
                let both : s.next ≡ h = sym (ap (λ r. r.0) at_next) ∙ at_h in
                let named : (channels' h).name ≡ n =
                  ap (λ (c : Channel mpsc). c.name) (ap channels' (sym both) ∙ made)
                  ∙ (new_channel_fields name).0
                  ∙ sym same in
                (omega (arith, both), named)
            | inr e' ↦
                let (small, named) = run.known n h e' in
                (
                  omega (arith, small),
                  ap (λ (c : Channel mpsc). c.name) (new_channel-kept name s h small) ∙ named,
                )
          ];
          sound = λ h.
              set-elim (λ (c : Channel mpsc). IsSound mpsc (c, s.queues)) s.next
                (new_channel mpsc name) s.channels h
                (unfold new_channel in record { distinct = tt; made = tt }) (λ _. run.sound h);
          apart = λ h j t a b. run.apart h j t (Listed-old name s h t a) (Listed-old name s j t b);
        };
        found = here;
        queues_kept = refl;
        transmitters_kept = refl;
        listeners_kept = refl;
        channels_kept = λ h small. new_channel-kept name s h small;
        next_kept = omega arith;
      }

  pub locate-IsLocated :
      (name : List ℕ) (s : Server mpsc weak)
      → IsRunning s
      → IsLocated name s (locate mpsc weak name s)
  locate-IsLocated name s run = elim (locate-Located name s run) [
    | inl (h, old, lives, e) ↦ rw e (old-IsLocated name s h run old lives e)
    | inr (gone, e) ↦ rw e (new-IsLocated name s run gone e)
  ]
