-- ===== src/Commands/ParseTime.antt =====
-- Which arguments are times.
use webmetro.Base.{
  ◌∙◌, ◌↔◌, ok-injective, ap, ==_iff, Result-cases, ℕ, ◌+◌, ◌-◌, ◌*◌, ◌^◌, ◌≤◌, ◌<◌, ◌≡◌, refl, sym,
  arith, Bool, true, false, List, [], ◌∷◌, ltb, ◌==◌, All, if◌then◌else◌, ok, err, Bool-cases, inl,
  inr, le→ltb, lt→ltb, ltb→lt, ltb_false→le,
}
use webmetro.Error.{application_error}
use webmetro.Commands.{
  time_of, ParseIntError, pos_overflow, is_digit, parse_digits, parse_u64, parse_time,
}

abbrev pub IsDigit : ℕ → Type 0
IsDigit b = is_digit b ≡ true

-- The number that digits spell behind `v`.
abbrev pub decimal : ℕ → List ℕ → ℕ
decimal v [] = v
decimal v (b ∷ bytes) = decimal (v * 10 + (b - b'0')) bytes

decimal-ge : (v : ℕ) (bytes : List ℕ) → v ≤ decimal v bytes
decimal-ge v [] = omega arith
decimal-ge v (b ∷ bytes) = omega (arith, decimal-ge (v * 10 + (b - b'0')) bytes)

parse_digits-decimal :
    (v : ℕ) (bytes : List ℕ)
    → v < 2 ^ 64
    → All IsDigit bytes
    → parse_digits v bytes
      ≡ (if ltb (decimal v bytes) (2 ^ 64) then ok (decimal v bytes) else err pos_overflow)
unfolding parse_digits
parse_digits-decimal v [] small h = rw (lt→ltb v (2 ^ 64) small)
parse_digits-decimal v (b ∷ bytes) small (hb, h) =
    let next : ℕ = v * 10 + (b - b'0') in
    elim (Bool-cases (ltb next (2 ^ 64))) [
      | inl e ↦ rw (hb, e) (parse_digits-decimal next bytes (ltb→lt next (2 ^ 64) e) h)
      | inr e ↦
          let large = ltb_false→le next (2 ^ 64) e in
          let over : ltb (decimal next bytes) (2 ^ 64) ≡ false =
            le→ltb (decimal next bytes) (2 ^ 64) (omega (arith, decimal-ge next bytes)) in
          rw (hb, e, over)
    ]

parse_digits-IsDigit :
    (v : ℕ) (bytes : List ℕ) {n : ℕ}
    → v < 2 ^ 64
    → parse_digits v bytes ≡ ok n
    → All IsDigit bytes × (n ≡ decimal v bytes) × (n < 2 ^ 64)
unfolding parse_digits
parse_digits-IsDigit v [] {n} small e =
    let same : v ≡ n = ground arith in (tt, sym same, omega (arith, same))
parse_digits-IsDigit v (b ∷ bytes) {n} small e =
    let next : ℕ = v * 10 + (b - b'0') in
    elim (Bool-cases (is_digit b)) [
      | inl d ↦ elim (Bool-cases (ltb next (2 ^ 64))) [
        | inl l ↦
            let (digits, value, fits) =
              parse_digits-IsDigit next bytes (ltb→lt next (2 ^ 64) l) (rw (d, l) at e) in
            ((d, digits), value, fits)
        | inr l ↦ cc (rw (d, l) at e)
      ]
      | inr d ↦ cc (rw d at e)
    ]

-- One `+` in front, or none.
abbrev pub signed : Bool → List ℕ → List ℕ
signed true digits = b'+' ∷ digits
signed false digits = digits

digit_is_no_sign : (b : ℕ) → IsDigit b → (b == b'+') ≡ false
digit_is_no_sign b h = ground arith

parse_u64-signed :
    (sign : Bool) (b : ℕ) (bytes : List ℕ)
    → IsDigit b
    → parse_u64 (signed sign (b ∷ bytes)) ≡ parse_digits 0 (b ∷ bytes)
unfolding parse_u64
parse_u64-signed true b bytes h = refl
parse_u64-signed false b [] h = rw (digit_is_no_sign b h)
parse_u64-signed false b (c ∷ bytes) h = rw (digit_is_no_sign b h)

-- What the argument is if `parse_u64` reads it.
abbrev pub IsNumber : List ℕ → ℕ → Type 0
IsNumber arg n =
    (sign : Bool) × (b : ℕ) × (bytes : List ℕ) × (arg ≡ signed sign (b ∷ bytes))
    × All IsDigit (b ∷ bytes)
    × (n ≡ decimal 0 (b ∷ bytes))
    × (n < 2 ^ 64)

read_digits :
    (sign : Bool) (arg : List ℕ) (b : ℕ) (bytes : List ℕ) {n : ℕ}
    → arg ≡ signed sign (b ∷ bytes)
    → parse_digits 0 (b ∷ bytes) ≡ ok n
    → IsNumber arg n
read_digits sign arg b bytes same e =
    let (digits, value, fits) = parse_digits-IsDigit 0 (b ∷ bytes) (omega arith) e in
    (sign, b, bytes, same, digits, value, fits)

parse_u64-IsNumber : (arg : List ℕ) {n : ℕ} → parse_u64 arg ≡ ok n → IsNumber arg n
unfolding parse_u64
parse_u64-IsNumber [] e = cc
parse_u64-IsNumber (b ∷ []) e = elim (Bool-cases (b == b'+')) [
  | inl p ↦ cc (rw p at e)
  | inr p ↦ read_digits false (b ∷ []) b [] refl (rw p at e)
]
parse_u64-IsNumber (b ∷ c ∷ bytes) e = elim (Bool-cases (b == b'+')) [
  | inl p ↦
      let plus : b ≡ b'+' = (==_iff b b'+').0 p in
      read_digits true (b ∷ c ∷ bytes) c bytes (ap (λ (x : ℕ). x ∷ c ∷ bytes) plus) (rw p at e)
  | inr p ↦ read_digits false (b ∷ c ∷ bytes) b (c ∷ bytes) refl (rw p at e)
]

-- On digits, one at least, with or without a sign `+`, the time in seconds is the number that they
-- spell, and an error if that is 2^64 or more.
parse_time-decimal :
    (describe : ParseIntError → List ℕ) (sign : Bool) (b : ℕ) (bytes : List ℕ)
    → All IsDigit (b ∷ bytes)
    → parse_time describe (signed sign (b ∷ bytes)) ≡ (
        if ltb (decimal 0 (b ∷ bytes)) (2 ^ 64)
        then ok (decimal 0 (b ∷ bytes))
        else err (application_error (describe pos_overflow)))
unfolding parse_time time_of
parse_time-decimal describe sign b bytes h =
    elim (Bool-cases (ltb (decimal 0 (b ∷ bytes)) (2 ^ 64))) [
      | inl e ↦
          rw (
            parse_u64-signed sign b bytes h.0,
            parse_digits-decimal 0 (b ∷ bytes) (omega arith) h,
            e,
          )
      | inr e ↦
          rw (
            parse_u64-signed sign b bytes h.0,
            parse_digits-decimal 0 (b ∷ bytes) (omega arith) h,
            e,
          )
    ]

IsNumber-parse_time :
    (describe : ParseIntError → List ℕ) (arg : List ℕ) {n : ℕ}
    → parse_time describe arg ≡ ok n
    → IsNumber arg n
unfolding parse_time time_of
IsNumber-parse_time describe arg {n} e = elim (Result-cases (parse_u64 arg)) [
  | inl (m, p) ↦
      let same : m ≡ n = ok-injective (rw p at e) in parse_u64-IsNumber arg (rw same at p)
  | inr (x, p) ↦ cc (rw p at e)
]

-- Exactly these arguments are read as a time of `n` seconds, whatever the text of errors: digits,
-- one at least, with or without a sign `+`, that spell `n`, if `n` is below 2^64.
pub parse_time-IsNumber :
    (describe : ParseIntError → List ℕ) (arg : List ℕ) (n : ℕ)
    → (parse_time describe arg ≡ ok n) ↔ IsNumber arg n
parse_time-IsNumber describe arg n = (
  λ e. IsNumber-parse_time describe arg e,
  λ (sign, b, bytes, same, digits, value, small). rw same (
      parse_time-decimal describe sign b bytes digits
      ∙ rw (lt→ltb (decimal 0 (b ∷ bytes)) (2 ^ 64) (rw value at small), value)),
)
