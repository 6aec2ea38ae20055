-- ===== src/Fixers/StartingPoint.antt =====
-- The starting-point finder on whole streams: which chunks come through.
use webmetro.Base.{
  ℕ, zero, ◌≡◌, refl, ap, arith, Bool, true, false, ◌||◌, none, some, List, [], ◌∷◌, Result, ok,
  err, Poll, ready, pending, Bool-cases, inl, inr, if◌then◌else◌, length, ◌≤◌, suc,
}
use webmetro.Error.{WebmetroError}
use webmetro.Chunk.{Chunk, headers, cluster_chunk, remaining_body, empty}
use webmetro.Fixers.{
  ChunkStream, StartingPointFinder, find_starting_point, admit, Found, found, find, poll_found,
}

abbrev pub Answer : Type 0
Answer = Poll (Result WebmetroError Chunk)

-- Polls until the stream ends; each poll takes at least one answer off the stream.
unfoldable pub after_found : Found → (StartingPointFinder → List Answer) → List Answer
after_found (ready none, f) again = []
after_found (ready (some item), f) again = ready item ∷ again f
after_found (pending, f) again = pending ∷ again f

unfoldable pub found_all : ℕ → StartingPointFinder → List Answer
found_all zero f = []
found_all (suc fuel) f = after_found (poll_found f) (λ f'. found_all fuel f')

-- Of the chunks so far, the latest first: whether a header is among them, and whether a keyframe has
-- come since the latest header but the very first one.
abbrev pub any_header : List Chunk → Bool
any_header [] = false
any_header (headers bytes ∷ past) = true
any_header (_ ∷ past) = any_header past

abbrev pub any_keyframe : List Chunk → Bool
any_keyframe [] = false
any_keyframe (headers bytes ∷ past) = if any_header past then false else any_keyframe past
any_keyframe (cluster_chunk head body ∷ past) = head.keyframe || any_keyframe past
any_keyframe (_ ∷ past) = any_keyframe past

-- Whether a chunk comes through after `past`.
abbrev pub is_shown : List Chunk → Chunk → Bool
is_shown past (headers bytes) = if any_header past then false else true
is_shown past (cluster_chunk head body) = head.keyframe || any_keyframe past
is_shown past _ = true

abbrev pub shown : List Chunk → ChunkStream → List Answer
shown past [] = []
shown past (ready (ok chunk) ∷ s) =
    let rest = shown (chunk ∷ past) s in
    if is_shown past chunk then ready (ok chunk) ∷ rest else rest
shown past (answer ∷ s) = answer ∷ shown past s

found_from :
    (s : ChunkStream) (fuel : ℕ) (past : List Chunk)
    → length s ≤ fuel
    → after_found (find s (any_header past) (any_keyframe past)) (λ f. found_all fuel f)
      ≡ shown past s
unfolding after_found found_all find found admit poll_found
found_from [] fuel past h = refl
found_from (x ∷ s) zero past h = absurd (omega arith)
found_from (pending ∷ s) (suc fuel) past h = ap (◌∷◌ pending) (found_from s fuel past (omega arith))
found_from (ready (err e) ∷ s) (suc fuel) past h =
    ap (◌∷◌ (ready (err e))) (found_from s fuel past (omega arith))
found_from (ready (ok (remaining_body b)) ∷ s) (suc fuel) past h =
    ap (◌∷◌ (ready (ok (remaining_body b))))
      (found_from s fuel (remaining_body b ∷ past) (omega arith))
found_from (ready (ok empty) ∷ s) (suc fuel) past h =
    ap (◌∷◌ (ready (ok empty))) (found_from s fuel (empty ∷ past) (omega arith))
found_from (ready (ok (headers b)) ∷ s) (suc fuel) past h =
    let skip = found_from s (suc fuel) (headers b ∷ past) (omega arith) in
    let pass = found_from s fuel (headers b ∷ past) (omega arith) in
    elim (Bool-cases (any_header past)) [
      | inl e ↦ rw e (rw e at skip)
      | inr e ↦ rw e (ap (◌∷◌ (ready (ok (headers b)))) (rw e at pass))
    ]
found_from (ready (ok (cluster_chunk hd b)) ∷ s) (suc fuel) past h =
    let skip = found_from s (suc fuel) (cluster_chunk hd b ∷ past) (omega arith) in
    let pass = found_from s fuel (cluster_chunk hd b ∷ past) (omega arith) in
    elim (Bool-cases (hd.keyframe || any_keyframe past)) [
      | inl e ↦ rw e (ap (◌∷◌ (ready (ok (cluster_chunk hd b)))) (rw e at pass))
      | inr e ↦ rw e (rw e at skip)
    ]

-- For every stream of chunks, waits and errors, polling the finder to its end, with more fuel than the
-- stream has answers, gives the stream's answers in order without the headers but the first, and
-- without each cluster that has no keyframe of its own and none before it since the latest header
-- (a first header does not count as one).
pub found_all-shown :
    (s : ChunkStream) (fuel : ℕ)
    → length s ≤ fuel
    → found_all (suc fuel) (find_starting_point s) ≡ shown [] s
unfolding found_all find_starting_point poll_found
found_all-shown s fuel h = found_from s fuel [] h
