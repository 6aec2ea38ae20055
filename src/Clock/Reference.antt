-- ===== src/Clock/Reference.antt =====
-- A clock that counts milliseconds: an instance of the parameter Clock.
use webmetro.Base.{ℕ, ◌+◌, ◌-◌, ◌≤◌, leb, le→leb, arith}
use webmetro.Clock.{Clock}

abbrev pub counter : Clock
counter = record {
  Instant = ℕ;
  plus = λ t n. t + n;
  minus = λ t n. t - n;
  is_reached = λ deadline now. leb deadline now;
  HasBefore = λ t n. n ≤ t;
  plus_minus = λ t n h. omega arith;
  reached_itself = λ t. le→leb t t (omega arith);
}
