-- ===== src/WeakTable/Reference.antt =====
-- A map that never drops an entry: an instance of the parameter WeakTable.
use webmetro.Base.{
  ℕ, ◌≡◌, ◌≢◌, refl, inl, inr, Option, none, some, List, if◌then◌else◌, same_bytes, same_bytes_iff,
  Bool-cases,
}
use webmetro.WeakTable.{WeakTable, upgraded}

abbrev pub pointer : Option ℕ → ℕ → ℕ
pointer none fresh = fresh
pointer (some h) fresh = h

abbrev pub stores : List ℕ → ℕ → (List ℕ → Option ℕ) → List ℕ → Option ℕ
stores name h t other = if same_bytes other name then some h else t other

pub stores_same : (name : List ℕ) (h : ℕ) (t : List ℕ → Option ℕ) → stores name h t name ≡ some h
stores_same name h t = rw ((same_bytes_iff name name).1 refl)

pub stores_other :
    (name other : List ℕ) (h : ℕ) (t : List ℕ → Option ℕ)
    → other ≢ name
    → stores name h t other ≡ t other
stores_other name other h t differ = elim (Bool-cases (same_bytes other name)) [
  | inl e ↦ absurd (differ ((same_bytes_iff other name).0 e))
  | inr e ↦ rw e
]

abbrev pub lasting_table : WeakTable
lasting_table = record {
  Table = List ℕ → Option ℕ;
  new_table = λ name. none;
  stored = λ name t. t name;
  or_insert_with =
      λ alive name fresh t. let h = pointer (upgraded alive (t name)) fresh in (h, stores name h t);
  stored_new = λ name. refl;
  occupied = λ alive name fresh h t e. rw e;
  vacant = λ alive name fresh t e. rw e;
  stored_here = λ alive name fresh t. stores_same name (pointer (upgraded alive (t name)) fresh) t;
  stored_other = λ alive name other fresh t differ.
      inl (stores_other name other (pointer (upgraded alive (t name)) fresh) t differ);
}
