-- ===== src/Commands.antt =====
-- src/commands/mod.rs: how the commands read a time from their arguments.
pub mod ParseTime
pub mod Filter
pub mod Relay
pub mod Server
pub mod Paced
pub mod Send
pub mod Dump
pub mod Lines
pub mod Broadcast
pub mod Pipeline
pub mod Copy
mod Tests
use webmetro.Base.{
  ℕ, suc, ◌+◌, ◌-◌, ◌*◌, ◌^◌, Bool, true, false, ◌&&◌, Option, none, some, List, [], ◌∷◌, ltb, leb,
  ◌==◌, if◌then◌else◌, Result, ok, err,
}
use webmetro.Error.{WebmetroError, application_error}

-- `std::num::ParseIntError`, of a `u64`.
pub data ParseIntError : Type 0 where
  empty invalid_digit pos_overflow : ParseIntError

abbrev pub is_digit : ℕ → Bool
is_digit b = leb b'0' b && leb b b'9'

-- The digits of `str::parse`: at each character, that it is no digit is found before an overflow.
unfoldable pub parse_digits : ℕ → List ℕ → Result ParseIntError ℕ
parse_digits value [] = ok value
parse_digits value (b ∷ bytes) =
    let next = value * 10 + (b - b'0') in
    let rest = parse_digits next bytes in
    if is_digit b then (if ltb next (2 ^ 64) then rest else err pos_overflow) else err invalid_digit

-- `str::parse::<u64>`: one sign `+` may stand in front.
unfoldable pub parse_u64 : List ℕ → Result ParseIntError ℕ
parse_u64 [] = err empty
parse_u64 (b ∷ []) = if b == b'+' then err invalid_digit else parse_digits 0 (b ∷ [])
parse_u64 (b ∷ c ∷ bytes) =
    if b == b'+' then parse_digits 0 (c ∷ bytes) else parse_digits 0 (b ∷ c ∷ bytes)

-- A `Duration` of whole seconds, and its `as_millis`, which is a `u128`.
abbrev pub Duration : Type 0
Duration = ℕ

unfoldable pub as_millis : Duration → ℕ
as_millis secs = secs * 1000

-- The message of an error is left open: `describe` is its `to_string`.
unfoldable pub time_of :
    (ParseIntError → List ℕ) → Result ParseIntError ℕ → Result WebmetroError Duration
time_of describe (ok secs) = ok secs
time_of describe (err e) = err (application_error (describe e))

unfoldable pub parse_time : (ParseIntError → List ℕ) → List ℕ → Result WebmetroError Duration
parse_time describe arg = time_of describe (parse_u64 arg)
