-- ===== src/Io/Append.antt =====
-- Writers whose position is the end of what they hold: a write appends.
use webmetro.Base.{
  refl, Option, none, some, ap, ℕ, zero, suc, ◌+◌, ◌-◌, ◌≤◌, ◌≡◌, ◌∙◌, arith, true, false, List, [],
  ◌++◌, length, drop, replicate, leb, le→leb, take-length_append, drop-length_append,
  drop-ge_length, drop-drop, length-append, length-replicate, append-nil, append_assoc, ok,
}
use webmetro.Io.{Cursor, IoResult, overwrite, write_all, ◌>>◌, >>-ok}

-- A growable vector that holds `bs`, with the position at its end.
abbrev pub at_end : List ℕ → Cursor
at_end bs = record { bytes = bs; position = length bs; fixed = false }

-- An array that holds `bs` and `room` more bytes, with the position behind `bs`.
abbrev pub array_at : List ℕ → ℕ → Cursor
array_at bs room = record { bytes = bs ++ replicate room 0; position = length bs; fixed = true }

drop-replicate {ℓ} : {A : Type ℓ} (n m : ℕ) (a : A) → drop n (replicate m a) ≡ replicate (m - n) a
drop-replicate zero m a = let e : m - 0 ≡ m = omega arith in rw e
drop-replicate (suc n) zero a = let e : 0 - suc n ≡ 0 = omega arith in rw e
drop-replicate (suc n) (suc m) a =
    let e : suc m - suc n ≡ m - n = omega arith in rw e (drop-replicate n m a)

-- Overwriting from the end of `xs` on, where `ys` follows it.
overwrite-append :
    (xs ys bs : List ℕ) → overwrite (xs ++ ys) (length xs) bs ≡ xs ++ bs ++ drop (length bs) ys
unfolding overwrite
overwrite-append xs ys bs =
    let pad : List ℕ = replicate (length xs - length (xs ++ ys)) 0 in
    rw (
      append_assoc xs ys pad,
      take-length_append xs (ys ++ pad),
      ← drop-drop (length xs) (length bs) (xs ++ ys),
      drop-length_append xs ys,
    )

overwrite_end : (bs out : List ℕ) → overwrite bs (length bs) out ≡ bs ++ out
overwrite_end bs out =
    let e : drop (length out) [] ≡ [] = drop-ge_length {A = ℕ} (length out) [] (omega arith) in
    let over : overwrite bs (length bs) out ≡ bs ++ out ++ drop (length out) [] =
      rw (append-nil bs) at (overwrite-append bs [] out) in
    over ∙ rw (e, append-nil)

pub write_all-at_end : (bs out : List ℕ) → write_all out (at_end bs) ≡ (ok tt, at_end (bs ++ out))
unfolding write_all
write_all-at_end bs out =
    let over : overwrite bs (length bs) out ≡ bs ++ out = overwrite_end bs out in
    rw (over, length-append bs out)

-- What an array has room for is appended.
pub write_all-array_at :
    (bs out : List ℕ) (room : ℕ)
    → length out ≤ room
    → write_all out (array_at bs room) ≡ (ok tt, array_at (bs ++ out) (room - length out))
unfolding write_all
write_all-array_at bs out room h =
    let fits : leb (length out) (length (bs ++ replicate room 0) - length bs) ≡ true =
      le→leb _ _
        (omega (arith, length-append bs (replicate room 0), length-replicate {A = ℕ} room 0)) in
    rw (
      fits,
      overwrite-append bs (replicate room 0) out,
      drop-replicate {A = ℕ} (length out) room 0,
      length-append bs out,
    )

-- A writer with the position at the end of `bs`: a vector, or an array with so much room.
abbrev pub holds : Option ℕ → List ℕ → Cursor
holds none bs = at_end bs
holds (some room) bs = array_at bs room

abbrev pub Fits : Option ℕ → ℕ → Type 0
Fits none n = Unit
Fits (some room) n = n ≤ room

abbrev pub less : Option ℕ → ℕ → Option ℕ
less none n = none
less (some room) n = some (room - n)

-- `m` succeeds and appends `out`, wherever there is room for it.
abbrev pub Appends : IoResult (Unit {0}) → List ℕ → Type 0
Appends m out =
    (room : Option ℕ) (bs : List ℕ)
    → Fits room (length out)
    → m (holds room bs) ≡ (ok tt, holds (less room (length out)) (bs ++ out))

pub write_all-Appends : (out : List ℕ) → Appends (write_all out) out
write_all-Appends out none bs h = write_all-at_end bs out
write_all-Appends out (some room) bs h = write_all-array_at bs out room h

Fits-append :
    (room : Option ℕ) (a b : List ℕ)
    → Fits room (length (a ++ b))
    → Fits room (length a) × Fits (less room (length a)) (length b)
Fits-append none a b h = (tt, tt)
Fits-append (some room) a b h = (omega (arith, length-append a b), omega (arith, length-append a b))

less-append :
    (room : Option ℕ) (a b : List ℕ)
    → less (less room (length a)) (length b) ≡ less room (length (a ++ b))
less-append none a b = refl
less-append (some room) a b =
    let e : room - length a - length b ≡ room - length (a ++ b) =
      omega (arith, length-append a b) in
    ap some e

pub Appends-append :
    (m k : IoResult (Unit {0})) (a b : List ℕ)
    → Appends m a
    → Appends k b
    → Appends (m >> k) (a ++ b)
Appends-append m k a b hm hk room bs h =
    let (fit_a, fit_b) = Fits-append room a b h in
    >>-ok m k (hm room bs fit_a)
    ∙ hk (less room (length a)) (bs ++ a) fit_b
    ∙ rw (less-append room a b, append_assoc bs a b)

-- Overwriting as many bytes as are written, in the middle.
pub write_all-middle :
    (xs old ys out : List ℕ)
    → length out ≡ length old
    → write_all out (record { bytes = xs ++ (old ++ ys); position = length xs; fixed = false }) ≡ (
      ok tt,
      record { bytes = xs ++ (out ++ ys); position = length xs + length out; fixed = false },
    )
unfolding write_all
write_all-middle xs old ys out e =
    rw (overwrite-append xs (old ++ ys) out, e, drop-length_append old ys, append_assoc xs out ys)
