-- ===== src/Clock.antt =====
-- What src/fixers.rs uses of the clock and the timer of the crate `tokio`: `Instant`, its sums and
-- differences with a `Duration` in milliseconds, and `Sleep`, which is ready at a reading of the
-- clock that has reached its deadline. A sum or a difference panics if the clock has no such time,
-- and then nothing is said of it.
pub mod Reference
use webmetro.Base.{ℕ, ◌≡◌, Bool, true}

pub record Clock : Type 1 where
  pub Instant : Type 0
  pub plus : Instant → ℕ → Instant
  pub minus : Instant → ℕ → Instant
  pub is_reached : Instant → Instant → Bool
  -- Whether the clock has a time so long before another.
  pub HasBefore : Instant → ℕ → Type 0
  pub plus_minus : (t : Instant) (n : ℕ) → HasBefore t n → plus (minus t n) n ≡ t
  pub reached_itself : (t : Instant) → is_reached t t ≡ true
