-- ===== src/Streams.antt =====
-- What src/commands uses of the stream combinators of the crate `futures`. The crate is a parameter. A
-- stream is the list of the items that it gives, waits left out; `map_ok` and `try_filter` take
-- closures, and that of `map_ok` has a state; `state_after` is what it is when
-- all the items have been taken.
pub mod Reference
use webmetro.Base.{◌≡◌, Bool, true, false, List, [], ◌∷◌, ◌++◌, map, if◌then◌else◌, Result, ok, err}
use webmetro.Error.{WebmetroError}

abbrev pub Stream : Type 0 → Type 0
Stream A = List (Result WebmetroError A)

pub record Streams : Type 1 where
  pub map_ok : {A B S : Type 0} → (S → A → B × S) → S → Stream A → Stream B
  pub state_after : {A B S : Type 0} → (S → A → B × S) → S → Stream A → S
  pub try_filter : {A : Type 0} → (A → Bool) → Stream A → Stream A
  pub try_flatten : {A : Type 0} → Stream (Stream A) → Stream A
  pub map_ok_nil : {A B S : Type 0} (f : S → A → B × S) (s : S) → map_ok f s [] ≡ []
  pub map_ok_ok :
      {A B S : Type 0} (f : S → A → B × S) (s : S) (a : A) (r : Stream A)
      → map_ok f s (ok a ∷ r) ≡ ok (f s a).0 ∷ map_ok f (f s a).1 r
  pub map_ok_err :
      {A B S : Type 0} (f : S → A → B × S) (s : S) (e : WebmetroError) (r : Stream A)
      → map_ok f s (err e ∷ r) ≡ err e ∷ map_ok f s r
  pub state_after_nil : {A B S : Type 0} (f : S → A → B × S) (s : S) → state_after f s [] ≡ s
  pub state_after_ok :
      {A B S : Type 0} (f : S → A → B × S) (s : S) (a : A) (r : Stream A)
      → state_after f s (ok a ∷ r) ≡ state_after f (f s a).1 r
  pub state_after_err :
      {A B S : Type 0} (f : S → A → B × S) (s : S) (e : WebmetroError) (r : Stream A)
      → state_after f s (err e ∷ r) ≡ state_after f s r
  pub try_filter_nil : {A : Type 0} (test : A → Bool) → try_filter test [] ≡ []
  pub try_filter_ok :
      {A : Type 0} (test : A → Bool) (a : A) (r : Stream A)
      → try_filter test (ok a ∷ r)
        ≡ (if test a then ok a ∷ try_filter test r else try_filter test r)
  pub try_filter_err :
      {A : Type 0} (test : A → Bool) (e : WebmetroError) (r : Stream A)
      → try_filter test (err e ∷ r) ≡ err e ∷ try_filter test r
  pub try_flatten_nil : {A : Type 0} → try_flatten {A = A} [] ≡ []
  pub try_flatten_ok :
      {A : Type 0} (s : Stream A) (r : Stream (Stream A))
      → try_flatten (ok s ∷ r) ≡ s ++ try_flatten r
  pub try_flatten_err :
      {A : Type 0} (e : WebmetroError) (r : Stream (Stream A))
      → try_flatten (err e ∷ r) ≡ err e ∷ try_flatten r
