-- ===== src/WeakTable.antt =====
-- What src/commands/relay.rs uses of `WeakValueHashMap` of the crate `weak_table`: a map whose values
-- are weak pointers. The crate is a parameter. A pointer is the number of what it points to, and
-- `alive` tells which of these still have a strong pointer; `stored` is the pointer under a name,
-- alive or not.
pub mod Reference
use webmetro.Base.{ℕ, Bool, true, ◌≡◌, ◌≢◌, ◌⊎◌, Option, none, some, List, if◌then◌else◌}

-- `Weak::upgrade`
abbrev pub upgraded : (ℕ → Bool) → Option ℕ → Option ℕ
upgraded alive none = none
upgraded alive (some h) = if alive h then some h else none

-- `or_insert_with alive name fresh` is `entry(name).or_insert_with(..)`, where the closure would make
-- the pointer `fresh`. An entry whose pointer is not alive counts as vacant, and the map may drop it.
pub record WeakTable : Type 1 where
  pub Table : Type 0
  pub new_table : Table
  pub stored : List ℕ → Table → Option ℕ
  pub or_insert_with : (ℕ → Bool) → List ℕ → ℕ → Table → ℕ × Table
  pub stored_new : (name : List ℕ) → stored name new_table ≡ none
  pub occupied :
      (alive : ℕ → Bool) (name : List ℕ) (fresh h : ℕ) (t : Table)
      → upgraded alive (stored name t) ≡ some h
      → (or_insert_with alive name fresh t).0 ≡ h
  pub vacant :
      (alive : ℕ → Bool) (name : List ℕ) (fresh : ℕ) (t : Table)
      → upgraded alive (stored name t) ≡ none
      → (or_insert_with alive name fresh t).0 ≡ fresh
  pub stored_here :
      (alive : ℕ → Bool) (name : List ℕ) (fresh : ℕ) (t : Table)
      → let (h, t') = or_insert_with alive name fresh t in stored name t' ≡ some h
  pub stored_other :
      (alive : ℕ → Bool) (name other : List ℕ) (fresh : ℕ) (t : Table)
      → other ≢ name
      → let t' = (or_insert_with alive name fresh t).1 in
        (stored other t' ≡ stored other t)
        ⊎ ((stored other t' ≡ none) × (upgraded alive (stored other t) ≡ none))
