-- ===== src/Streams/Reference.antt =====
-- Combinators on lists: an instance of the parameter Streams.
use webmetro.Base.{refl, Bool, [], ◌∷◌, ◌++◌, if◌then◌else◌, ok, err}
use webmetro.Streams.{Stream, Streams}

abbrev pub mapped : {A B S : Type 0} → (S → A → B × S) → S → Stream A → Stream B
mapped f s [] = []
mapped f s (ok a ∷ r) = ok (f s a).0 ∷ mapped f (f s a).1 r
mapped f s (err e ∷ r) = err e ∷ mapped f s r

abbrev pub last_state : {A B S : Type 0} → (S → A → B × S) → S → Stream A → S
last_state f s [] = s
last_state f s (ok a ∷ r) = last_state f (f s a).1 r
last_state f s (err e ∷ r) = last_state f s r

abbrev pub filtered : {A : Type 0} → (A → Bool) → Stream A → Stream A
filtered test [] = []
filtered test (ok a ∷ r) = let rest = filtered test r in if test a then ok a ∷ rest else rest
filtered test (err e ∷ r) = err e ∷ filtered test r

abbrev pub flattened : {A : Type 0} → Stream (Stream A) → Stream A
flattened [] = []
flattened (ok s ∷ r) = s ++ flattened r
flattened (err e ∷ r) = err e ∷ flattened r

abbrev pub list_streams : Streams
list_streams = record {
  map_ok = mapped;
  state_after = last_state;
  try_filter = filtered;
  try_flatten = flattened;
  map_ok_nil = λ f s. refl;
  map_ok_ok = λ f s a r. refl;
  map_ok_err = λ f s e r. refl;
  state_after_nil = λ f s. refl;
  state_after_ok = λ f s a r. refl;
  state_after_err = λ f s e r. refl;
  try_filter_nil = λ test. refl;
  try_filter_ok = λ test a r. refl;
  try_filter_err = λ test e r. refl;
  try_flatten_nil = refl;
  try_flatten_ok = λ s r. refl;
  try_flatten_err = λ e r. refl;
}
