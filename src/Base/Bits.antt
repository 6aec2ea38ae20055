-- ===== src/Base/Bits.antt =====
-- Masks on one byte by a table, and `|` of a power of two with a smaller number.
use Prim.Native.Nat.{
  ℕ, zero, suc, ◌+◌, ◌*◌, ◌/◌, ◌%◌, ◌^◌, ◌≤◌, ◌<◌, max, bit_or, digits, bit_or-bitwise,
}
use mathlib.Core.Path.{◌≡◌, refl, ◌∙◌}
use mathlib.Core.Bool.{Bool, true, ◌&&◌}
use native.Mathlib.Omega.{arith}
use native.Mathlib.Nat.{pow-suc}

-- A test that holds at each number below a bound.
unfoldable pub all_below : ℕ → (ℕ → Bool) → Bool
all_below zero test = true
all_below (suc bound) test = all_below bound test && test bound

pub all_below_at :
    (bound k : ℕ) (test : ℕ → Bool) → k < bound → all_below bound test ≡ true → test k ≡ true
unfolding all_below
all_below_at zero k test small holds = absurd (omega arith)
all_below_at (suc bound) k test small holds = ground (arith, all_below_at bound k test)

-- One binary digit of `|`, as the native operation is specified: by fuel.
abbrev or_upto : ℕ → ℕ → ℕ → ℕ
or_upto fuel x y = digits (λ rest. rest) max fuel x y

or_upto_digit :
    (fuel x y : ℕ)
    → 1 ≤ x
    → or_upto (suc fuel) x y ≡ or_upto fuel (x / 2) (y / 2) * 2 + max (x % 2) (y % 2)
or_upto_digit fuel zero y positive = absurd (omega arith)
or_upto_digit fuel (suc x) y positive = refl

or_upto_zero : (fuel y : ℕ) → or_upto fuel 0 y ≡ y
or_upto_zero zero y = refl
or_upto_zero (suc fuel) y = refl

one_le_pow : (k : ℕ) → 1 ≤ 2 ^ k
one_le_pow zero = omega arith
one_le_pow (suc k) = omega (arith, pow-suc 2 k, one_le_pow k)

or_upto-pow : (k fuel y : ℕ) → y < 2 ^ k → 2 ^ k ≤ fuel → or_upto fuel (2 ^ k) y ≡ 2 ^ k + y
or_upto-pow k zero y small enough = absurd (omega (arith, one_le_pow k))
or_upto-pow zero (suc fuel) y small enough =
    omega (arith, or_upto_digit fuel 1 y (omega arith), or_upto_zero fuel (y / 2))
or_upto-pow (suc k) (suc fuel) y small enough =
    let whole : 2 ^ suc k ≡ 2 ^ k * 2 = omega (arith, pow-suc 2 k) in
    let half : 2 ^ k * 2 / 2 ≡ 2 ^ k = omega arith in
    let digit = or_upto_digit fuel (2 ^ k * 2) y (omega (arith, one_le_pow k)) in
    let rest = or_upto-pow k fuel (y / 2) (omega arith) (omega (arith, one_le_pow k)) in
    rw whole (omega (arith, rw half at digit, rest))

-- A single bit over smaller numbers is added.
pub bit_or-pow : (k v : ℕ) → v < 2 ^ k → bit_or (2 ^ k) v ≡ 2 ^ k + v
bit_or-pow k v small = bit_or-bitwise (2 ^ k) v ∙ or_upto-pow k (2 ^ k) v small (omega arith)
