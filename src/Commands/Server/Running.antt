-- ===== src/Commands/Server/Running.antt =====
-- Every event keeps the server's channels in order.
use webmetro.Base.{ℕ, ◌≡◌, ◌∙◌, ◌⊎◌, refl, sym, ap, inl, inr, List, [], ◌∷◌, All, set, set-cases}
use webmetro.Mpsc.{Mpsc}
use webmetro.WeakTable.{WeakTable}
use webmetro.Channel.Sound.{World, Event, perform, perform-IsSound, made-perform}
use webmetro.Channel.Session.{Listed}
use webmetro.Channel.Others.{perform-name, Listed-perform}
use webmetro.Commands.Server.{Server, world, with_world, is_alive}
use webmetro.Commands.Server.Locate.{IsRunning}

module _ (mpsc : Mpsc) (weak : WeakTable) where
  open mpsc use {Sender, IsMade, same_receiver}
  open weak use {stored}

  Listed-IsMade :
      (t : Sender) (w : World mpsc) (ss : List Sender)
      → All (λ s. IsMade s w.1) ss
      → Listed mpsc t ss
      → IsMade t w.1
  Listed-IsMade t w [] h l = elim l [ ]
  Listed-IsMade t w (s ∷ ss) (hs, h) (inl e) = rw e hs
  Listed-IsMade t w (s ∷ ss) (hs, h) (inr l) = Listed-IsMade t w ss h l

  All-made :
      (e : Event mpsc) (w : World mpsc) (ss : List Sender)
      → All (λ s. IsMade s w.1) ss
      → All (λ s. IsMade s (perform mpsc e w).1) ss
  All-made e w [] h = tt
  All-made e w (s ∷ ss) (hs, h) = (made-perform mpsc e w s hs, All-made e w ss h)

  -- After a step of the channel `h`: who is on the list of a channel was on it, or had no queue.
  Listed-before :
      (e : Event mpsc) (h k : ℕ) (s : Server mpsc weak) (t : Sender)
      → IsRunning mpsc weak s
      → Listed mpsc t (set h (perform mpsc e (world mpsc weak h s)).0 s.channels k).listeners
      → Listed mpsc t (s.channels k).listeners ⊎ ((k ≡ h) × (IsMade t s.queues → ⊥))
  Listed-before e h k s t run l =
      let w = world mpsc weak h s in
      let c' = (perform mpsc e w).0 in
      elim (set-cases h c' s.channels k) [
        | inl (same, at_h) ↦ elim (Listed-perform mpsc e w t (run.sound h) (rw at_h at l)) [
          | inl old ↦ inl (rw same old)
          | inr new ↦ inr (same, new)
        ]
        | inr (other, at_k) ↦ inl (rw at_k at l)
      ]

  Listed-made :
      (s : Server mpsc weak) (t : Sender) (k : ℕ)
      → IsRunning mpsc weak s
      → Listed mpsc t (s.channels k).listeners
      → IsMade t s.queues
  Listed-made s t k run l =
      Listed-IsMade t (world mpsc weak k s) (s.channels k).listeners (run.sound k).made l

  -- A step of one channel, among the others.
  pub with_world-IsRunning :
      (e : Event mpsc) (h : ℕ) (s : Server mpsc weak)
      → IsRunning mpsc weak s
      → IsRunning mpsc weak (with_world mpsc weak h (perform mpsc e (world mpsc weak h s)) s)
  unfolding with_world is_alive
  with_world-IsRunning e h s run =
      let w = world mpsc weak h s in
      let w' = perform mpsc e w in
      let name_kept : (k : ℕ) → (set h w'.0 s.channels k).name ≡ (s.channels k).name = λ k.
        elim (set-cases h w'.0 s.channels k) [
          | inl (same, at_h) ↦ rw (at_h, same) (perform-name mpsc e w)
          | inr (other, at_k) ↦ rw at_k refl
        ] in
      record {
        held = λ k a. ap (λ n. stored n s.table) (name_kept k) ∙ run.held k a;
        known =
            λ n k known. let (small, named) = run.known n k known in (small, name_kept k ∙ named);
        sound = λ k. elim (set-cases h w'.0 s.channels k) [
          | inl (same, at_h) ↦ rw at_h (perform-IsSound mpsc e w (run.sound h))
          | inr (other, at_k) ↦ rw at_k (record {
            distinct = (run.sound k).distinct;
            made = All-made e w (s.channels k).listeners (run.sound k).made;
          })
        ];
        apart = λ j k t a b. elim (Listed-before e h j s t run a) [
          | inl old_j ↦ elim (Listed-before e h k s t run b) [
            | inl old_k ↦ run.apart j k t old_j old_k
            | inr (_, new) ↦ absurd (new (Listed-made s t j run old_j))
          ]
          | inr (at_j, new) ↦ elim (Listed-before e h k s t run b) [
            | inl old_k ↦ absurd (new (Listed-made s t k run old_k))
            | inr (at_k, _) ↦ at_j ∙ sym at_k
          ]
        ];
      }
