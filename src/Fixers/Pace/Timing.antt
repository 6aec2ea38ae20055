-- ===== src/Fixers/Pace/Timing.antt =====
-- When the throttle gives its items.
use webmetro.Base.{
  arith, All, append-nil, ◌≤◌, length-drop, append_assoc, ℕ, ◌≡◌, ◌∙◌, refl, sym, ap, true, false,
  none, some, List, [], ◌∷◌, ◌++◌, drop, length, ok, err, ready, pending, Bool-cases, inl, inr,
}
use webmetro.Chunk.{ClusterHead, headers, cluster_chunk, remaining_body, empty}
use webmetro.Clock.{Clock}
use webmetro.Fixers.{ChunkStream}
use webmetro.Fixers.Throttle.{Throttle, started, snooze, pass, poll_throttled}
use webmetro.Fixers.Pace.{items_of, Readings, poll_at, item_of, given, given-items_of}

pub length_zero : (s : ChunkStream) → length s ≤ 0 → s ≡ []
length_zero [] h = refl
length_zero (x ∷ s) h = absurd (omega arith)

module _ (clock : Clock) where
  open clock use {HasBefore, Instant, plus, minus, is_reached, plus_minus, reached_itself}

  -- Polls one after the other.
  given-append :
      (first more : Readings clock) (th : Throttle clock)
      → given clock (first ++ more) th
        ≡ given clock first th ++ given clock more (poll_at clock first th)
  unfolding given poll_at
  given-append [] more th = refl
  given-append ((polled, now) ∷ first) more th =
      let (answer, th') = poll_throttled clock polled now th in
      rw (
        given-append first more th',
        append_assoc (item_of clock answer) (given clock first th')
            (given clock more (poll_at clock first th')),
      )

  -- The clock of the stream, once it runs, is never set again.
  pass-start :
      (now : Instant) (s : ChunkStream) (th : Throttle clock) {start : Instant}
      → th.start_time ≡ some start
      → (pass clock now s th).1.start_time ≡ some start
  unfolding pass snooze started
  pass-start now [] th e = e
  pass-start now (pending ∷ s) th e = e
  pass-start now (ready (err x) ∷ s) th e = e
  pass-start now (ready (ok (headers b)) ∷ s) th e = e
  pass-start now (ready (ok (cluster_chunk h b)) ∷ s) th e = rw e refl
  pass-start now (ready (ok (remaining_body b)) ∷ s) th e = e
  pass-start now (ready (ok empty) ∷ s) th e = e

  poll_at-start :
      (readings : Readings clock) (th : Throttle clock) {start : Instant}
      → th.start_time ≡ some start
      → (poll_at clock readings th).start_time ≡ some start
  unfolding poll_at poll_throttled
  poll_at-start [] th e = e
  poll_at-start ((polled, now) ∷ readings) th e =
      let th' = (poll_throttled clock polled now th).1 in
      poll_at-start readings th' (elim (Bool-cases (is_reached th.sleep polled)) [
        | inl reached ↦ rw reached (pass-start now th.stream th e)
        | inr early ↦ rw early e
      ])

  -- Polls before the timer is ready.
  given-early :
      (readings : Readings clock) (th : Throttle clock)
      → All (λ (r : Instant × Instant). is_reached th.sleep r.0 ≡ false) readings
      → given clock readings th ≡ []
  unfolding given poll_throttled
  given-early [] th h = refl
  given-early ((polled, now) ∷ readings) th (early, h) = rw early (given-early readings th h)

  given-cluster :
      (th : Throttle clock) (start polled now : Instant) (head : ClusterHead) (body : List ℕ)
      (rest : ChunkStream) (early : Readings clock)
      → th.start_time ≡ some start
      → th.stream ≡ ready (ok (cluster_chunk head body)) ∷ rest
      → is_reached th.sleep polled ≡ true
      → All (λ (r : Instant × Instant). is_reached (plus start head.end) r.0 ≡ false) early
      → given clock ((polled, now) ∷ early) th ≡ ok (cluster_chunk head body) ∷ []
  unfolding given
  given-cluster th start polled now head body rest early runs front reached h =
      let th' : Throttle clock = record {
        stream = rest;
        start_time = some start;
        sleep = plus start head.end;
      } in
      let here : poll_throttled clock polled now th
          ≡ (ready (some (ok (cluster_chunk head body))), th') =
        unfold poll_throttled pass snooze started in rw (reached, front, runs) refl in
      rw (here, given-early early th' h) refl

  -- Nothing comes too early: when the clock of the stream runs from `start`, then after any polls,
  -- a poll that gives a cluster is followed by no item at all as long as the clock has not
  -- reached `start` plus the end of the cluster.
  pub given-waits :
      (first : Readings clock) (th : Throttle clock) (start : Instant) (polled now : Instant)
      (head : ClusterHead) (body : List ℕ) (rest : ChunkStream) (early : Readings clock)
      → th.start_time ≡ some start
      → (poll_at clock first th).stream ≡ ready (ok (cluster_chunk head body)) ∷ rest
      → is_reached (poll_at clock first th).sleep polled ≡ true
      → All (λ (r : Instant × Instant). is_reached (plus start head.end) r.0 ≡ false) early
      → given clock (first ++ ((polled, now) ∷ early)) th
        ≡ given clock first th ++ (ok (cluster_chunk head body) ∷ [])
  given-waits first th start polled now head body rest early runs front reached h =
      given-append first ((polled, now) ∷ early) th
      ∙ ap (◌++◌ (given clock first th)) (
          given-cluster (poll_at clock first th) start polled now head body rest early
            (poll_at-start first th runs) front reached h)

  -- When each poll comes as the timer is ready.
  abbrev pub AreInTime : Readings clock → Throttle clock → Type 0
  AreInTime [] th = Unit
  AreInTime ((polled, now) ∷ readings) th =
      (is_reached th.sleep polled ≡ true)
      × AreInTime readings (poll_throttled clock polled now th).1

  pub pass-stream :
      (now : Instant) (s : ChunkStream) (th : Throttle clock)
      → th.stream ≡ s
      → (pass clock now s th).1.stream ≡ drop 1 s
  unfolding pass snooze
  pass-stream now [] th e = e
  pass-stream now (pending ∷ s) th e = refl
  pass-stream now (ready (err x) ∷ s) th e = refl
  pass-stream now (ready (ok (headers b)) ∷ s) th e = refl
  pass-stream now (ready (ok (cluster_chunk h b)) ∷ s) th e = refl
  pass-stream now (ready (ok (remaining_body b)) ∷ s) th e = refl
  pass-stream now (ready (ok empty) ∷ s) th e = refl

  poll_at-finished :
      (readings : Readings clock) (th : Throttle clock)
      → AreInTime readings th
      → length th.stream ≤ length readings
      → (poll_at clock readings th).stream ≡ []
  unfolding poll_at poll_throttled
  poll_at-finished [] th h long = length_zero th.stream long
  poll_at-finished ((polled, now) ∷ readings) th (reached, h) long =
      let th' = (poll_throttled clock polled now th).1 in
      let moved : th'.stream ≡ drop 1 th.stream = rw reached (pass-stream now th.stream th refl) in
      poll_at-finished readings th' h (rw moved (omega (arith, length-drop 1 th.stream, long)))

  -- The throttle gets to the end: polled at least as often as the stream has answers, each time
  -- when its timer is ready, it has given all the items of the stream, in order.
  pub given-AreInTime :
      (readings : Readings clock) (th : Throttle clock)
      → AreInTime readings th
      → length th.stream ≤ length readings
      → given clock readings th ≡ items_of th.stream
  given-AreInTime readings th h long =
      sym (given-items_of clock readings th ∙ rw (poll_at-finished readings th h long, append-nil))

  -- The first cluster makes no delay: the poll that gives it sets the timer to a time that the
  -- clock has already reached, if the clock has a time so long before as the cluster ends.
  pub pass-first :
      (now : Instant) (head : ClusterHead) (body : List ℕ) (rest : ChunkStream)
      (th : Throttle clock)
      → th.start_time ≡ none
      → HasBefore now head.end
      → let th' = (pass clock now (ready (ok (cluster_chunk head body)) ∷ rest) th).1 in
        (th'.sleep ≡ now) × (is_reached th'.sleep now ≡ true)
  unfolding pass snooze started
  pass-first now head body rest th e has =
      rw (e, plus_minus now head.end has) (refl, reached_itself now)
