-- ===== src/Base/Outcomes.antt =====
-- Rust's `Result` and `Poll`, and the early return of `?` as a bind.
use mathlib.Core.Path.{◌≡◌, refl}
use mathlib.Core.Option.{Option, none, some}
use native.Mathlib.Omega.{arith}
use mathlib.Core.Logic.{◌⊎◌, inl, inr}

pub data Result {ℓ κ} (E : Type ℓ) (A : Type κ) : Type (ℓ ⊔ κ) where
  ok : A → Result E A
  err : E → Result E A

-- A decoder's answer: a result, an error, or the call for more bytes.
pub Decoded-cases {ℓ κ} :
    {E : Type ℓ} {A : Type κ} (r : Result E (Option A))
    → (r ≡ ok none) ⊎ ((e : E) × (r ≡ err e)) ⊎ ((a : A) × (r ≡ ok (some a)))
Decoded-cases (ok none) = inl refl
Decoded-cases (err e) = inr (inl (e, refl))
Decoded-cases (ok (some a)) = inr (inr (a, refl))

pub data Poll {ℓ} (A : Type ℓ) : Type ℓ where
  ready : A → Poll A
  pending : Poll A

module _ {ℓ κ} {E : Type ℓ} {A : Type κ} where
  pub Result-cases : (r : Result E A) → ((a : A) × (r ≡ ok a)) ⊎ ((e : E) × (r ≡ err e))
  Result-cases (ok a) = inl (a, refl)
  Result-cases (err e) = inr (e, refl)

pub some-injective {ℓ} : {A : Type ℓ} {a b : A} → some a ≡ some b → a ≡ b
some-injective e = ground arith

pub ok-injective {ℓ κ} :
    {E : Type ℓ} {A : Type κ} {a b : A} → ◌≡◌ {A = Result E A} (ok a) (ok b) → a ≡ b
ok-injective e = ground arith
