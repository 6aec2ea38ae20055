-- ===== src/Base/BigEndian.antt =====
-- Big-endian digits of a number in plain arithmetic: what the byte-order crates are documented to
-- read and write.
use webmetro.Base.Lists.{length, All}
use Prim.Native.Nat.{ℕ, zero, suc, ◌+◌, ◌*◌, ◌/◌, ◌%◌, ◌^◌, ◌≤◌, ◌<◌}
use mathlib.Core.Path.{◌≡◌, refl, sym, ◌∙◌, ap}
use mathlib.Core.List.{List, [], ◌∷◌}
use native.Mathlib.Omega.{arith}
use native.Mathlib.Nat.{pow-suc, mod-lt, mul-add-mod_self_left, mod-eq_of_lt, div-add-mod}

-- The `n` low bytes of `v`, the highest first.
unfoldable pub be_bytes : ℕ → ℕ → List ℕ
be_bytes zero v = []
be_bytes (suc n) v = (v / 256 ^ n % 256) ∷ be_bytes n v

-- The number that the bytes spell.
unfoldable pub be_value : List ℕ → ℕ
be_value [] = 0
be_value (b ∷ bs) = b * 256 ^ length bs + be_value bs

pub length-be_bytes : (n v : ℕ) → length (be_bytes n v) ≡ n
unfolding be_bytes
length-be_bytes zero v = refl
length-be_bytes (suc n) v = omega (arith, length-be_bytes n v)

pub pow_256_pos : (n : ℕ) → 0 < 256 ^ n
pow_256_pos zero = omega arith
pow_256_pos (suc n) = omega (arith, pow-suc 256 n, pow_256_pos n)

-- One more base-256 digit of a remainder.
mod_split : (p v : ℕ) → 0 < p → v / p % 256 * p + v % p ≡ v % (p * 256)
mod_split p v h =
    let q : ℕ = v / p / 256 in
    let r : ℕ = v / p % 256 in
    let low : ℕ = r * p + v % p in
    let small : low < p * 256 = grind (arith, mod-lt v h) in
    let whole : v ≡ p * 256 * q + low =
      omega (arith, div-add-mod v p, ap (λ (t : ℕ). p * t) (div-add-mod (v / p) 256)) in
    sym (
      ap (λ (t : ℕ). t % (p * 256)) whole
      ∙ mul-add-mod_self_left (p * 256) q low
      ∙ mod-eq_of_lt small)

-- The digits spell the number again, up to what does not fit.
pub be_value-be_bytes : (n v : ℕ) → be_value (be_bytes n v) ≡ v % 256 ^ n
unfolding be_value be_bytes
be_value-be_bytes zero v = omega arith
be_value-be_bytes (suc n) v =
    rw (length-be_bytes, be_value-be_bytes n v, pow-suc) (mod_split (256 ^ n) v (pow_256_pos n))

mul_mono : (b p : ℕ) → b < 256 → b * p + p ≤ 256 * p
mul_mono b p h = grind arith

pub be_value-lt : (bs : List ℕ) → All (λ b. b < 256) bs → be_value bs < 256 ^ length bs
unfolding be_value
be_value-lt [] h = omega arith
be_value-lt (b ∷ bs) h =
    rw pow-suc (grind (arith, be_value-lt bs h.1, mul_mono b (256 ^ length bs) h.0))

pub be_bytes-IsByte : (n v : ℕ) → All (λ b. b < 256) (be_bytes n v)
unfolding be_bytes
be_bytes-IsByte zero v = tt
be_bytes-IsByte (suc n) v = (omega arith, be_bytes-IsByte n v)
