-- ===== src/Fixers/Pace.antt =====
-- The throttle over whole streams: what it gives.
pub mod Timing
use webmetro.Base.{
  arith, All, append-nil, ◌≤◌, length-drop, append_assoc, ℕ, ◌≡◌, ◌∙◌, refl, sym, ap, true, false,
  Option, none, some, List, [], ◌∷◌, ◌++◌, drop, length, Result, ok, err, Poll, ready, pending,
  Bool-cases, inl, inr,
}
use webmetro.Error.{WebmetroError}
use webmetro.Chunk.{ClusterHead, Chunk, headers, cluster_chunk, remaining_body, empty}
use webmetro.Clock.{Clock}
use webmetro.Fixers.{ChunkStream}
use webmetro.Fixers.Throttle.{Throttle, started, snooze, pass, poll_throttled}

abbrev pub Item : Type 0
Item = Result WebmetroError Chunk

-- The items of a stream, waits left out.
abbrev pub items_of : ChunkStream → List Item
items_of [] = []
items_of (pending ∷ s) = items_of s
items_of (ready item ∷ s) = item ∷ items_of s

module _ (clock : Clock) where
  open clock use {HasBefore, Instant, plus, minus, is_reached, plus_minus, reached_itself}

  -- Polls at given readings of the clock, two for each poll.
  abbrev pub Readings : Type 0
  Readings = List (Instant × Instant)

  unfoldable pub poll_at : Readings → Throttle clock → Throttle clock
  poll_at [] th = th
  poll_at ((polled, now) ∷ readings) th = poll_at readings (poll_throttled clock polled now th).1

  -- The items that these polls give.
  abbrev pub item_of : Poll (Option Item) → List Item
  item_of (ready (some item)) = item ∷ []
  item_of _ = []

  unfoldable pub given : Readings → Throttle clock → List Item
  given [] th = []
  given ((polled, now) ∷ readings) th =
      let (answer, th') = poll_throttled clock polled now th in item_of answer ++ given readings th'

  pass-items :
      (now : Instant) (s : ChunkStream) (th : Throttle clock)
      → th.stream ≡ s
      → items_of s ≡ item_of (pass clock now s th).0 ++ items_of (pass clock now s th).1.stream
  unfolding pass snooze
  pass-items now [] th e = rw e refl
  pass-items now (pending ∷ s) th e = refl
  pass-items now (ready (err x) ∷ s) th e = refl
  pass-items now (ready (ok (headers b)) ∷ s) th e = refl
  pass-items now (ready (ok (cluster_chunk h b)) ∷ s) th e = refl
  pass-items now (ready (ok (remaining_body b)) ∷ s) th e = refl
  pass-items now (ready (ok empty) ∷ s) th e = refl

  poll-items :
      (polled now : Instant) (th : Throttle clock)
      → let (answer, th') = poll_throttled clock polled now th in
        items_of th.stream ≡ item_of answer ++ items_of th'.stream
  unfolding poll_throttled
  poll-items polled now th = elim (Bool-cases (is_reached th.sleep polled)) [
    | inl e ↦ rw e (pass-items now th.stream th refl)
    | inr e ↦ rw e refl
  ]

  -- The throttle only delays: whatever the clock reads at the polls, the items that they give, and
  -- then those still in the stream, are the items of the stream, in order: none is lost,
  -- doubled or changed.
  pub given-items_of :
      (readings : Readings) (th : Throttle clock)
      → items_of th.stream ≡ given readings th ++ items_of (poll_at readings th).stream
  unfolding given poll_at
  given-items_of [] th = refl
  given-items_of ((polled, now) ∷ readings) th =
      let (answer, th') = poll_throttled clock polled now th in
      poll-items polled now th
      ∙ rw (
        given-items_of readings th',
        append_assoc (item_of answer) (given readings th') (items_of (poll_at readings th').stream),
      )
