-- ===== src/Base/Update.antt =====
-- Functions on numbers, changed at one of them, and the equality test of byte strings.
use Prim.Native.Nat.{ℕ}
use mathlib.Core.Path.{◌≡◌, refl, ap, ◌∙◌}
use mathlib.Core.Logic.{◌≢◌, ◌↔◌, ◌⊎◌, inl, inr}
use mathlib.Core.Bool.{Bool, true, false, ◌&&◌}
use mathlib.Core.List.{List, [], ◌∷◌}
use webmetro.Base.Tests.{◌==◌, ==_iff, Bool-cases, if◌then◌else◌}

module _ {A : Type 0} where
  abbrev pub set : ℕ → A → (ℕ → A) → ℕ → A
  set i a f j = if j == i then a else f j

  pub set_same : (i : ℕ) (a : A) (f : ℕ → A) → set i a f i ≡ a
  set_same i a f = rw ((==_iff i i).1 refl)

  pub set_other : (i j : ℕ) (a : A) (f : ℕ → A) → j ≢ i → set i a f j ≡ f j
  set_other i j a f other = elim (Bool-cases (j == i)) [
    | inl e ↦ absurd (other ((==_iff j i).0 e))
    | inr e ↦ rw e
  ]

abbrev pub same_bytes : List ℕ → List ℕ → Bool
same_bytes [] [] = true
same_bytes (x ∷ xs) (y ∷ ys) = (x == y) && same_bytes xs ys
same_bytes _ _ = false

same_bytes_refl : (xs : List ℕ) → same_bytes xs xs ≡ true
same_bytes_refl [] = refl
same_bytes_refl (x ∷ xs) = rw ((==_iff x x).1 refl, same_bytes_refl xs)

same_bytes→≡ : (xs ys : List ℕ) → same_bytes xs ys ≡ true → xs ≡ ys
same_bytes→≡ [] [] h = refl
same_bytes→≡ [] (y ∷ ys) h = cc
same_bytes→≡ (x ∷ xs) [] h = cc
same_bytes→≡ (x ∷ xs) (y ∷ ys) h = elim (Bool-cases (x == y)) [
  | inl e ↦ rw ((==_iff x y).0 e, same_bytes→≡ xs ys (rw e at h))
  | inr e ↦ cc (rw e at h)
]

pub same_bytes_iff : (xs ys : List ℕ) → (same_bytes xs ys ≡ true) ↔ (xs ≡ ys)
same_bytes_iff xs ys = (λ h. same_bytes→≡ xs ys h, λ e. rw e (same_bytes_refl ys))

pub same_bytes-cases : (xs ys : List ℕ) → (xs ≡ ys) ⊎ (xs ≢ ys)
same_bytes-cases xs ys = elim (Bool-cases (same_bytes xs ys)) [
  | inl e ↦ inl (same_bytes→≡ xs ys e)
  | inr e ↦ inr (λ p. cc (e, (same_bytes_iff xs ys).1 p))
]

pub ==-cases : (a b : ℕ) → (a ≡ b) ⊎ (a ≢ b)
==-cases a b = elim (Bool-cases (a == b)) [
  | inl e ↦ inl ((==_iff a b).0 e)
  | inr e ↦ inr (λ p. cc (e, (==_iff a b).1 p))
]

-- A property of the function after the change.
pub set-elim {κ} :
    {A : Type 0} (P : A → Type κ) (i : ℕ) (a : A) (f : ℕ → A) (j : ℕ)
    → P a
    → (j ≢ i → P (f j))
    → P (set i a f j)
set-elim P i a f j here there = elim (Bool-cases (j == i)) [
  | inl e ↦ rw e here
  | inr e ↦ rw e (there (λ p. cc (e, (==_iff j i).1 p)))
]

pub set-cases :
    {A : Type 0} (i : ℕ) (a : A) (f : ℕ → A) (j : ℕ)
    → ((j ≡ i) × (set i a f j ≡ a)) ⊎ ((j ≢ i) × (set i a f j ≡ f j))
set-cases i a f j = elim (==-cases j i) [
  | inl same ↦ inl (same, ap (set i a f) same ∙ set_same i a f)
  | inr other ↦ inr (other, set_other i j a f other)
]
