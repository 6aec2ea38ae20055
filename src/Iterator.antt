-- ===== src/Iterator.antt =====
-- src/iterator.rs: the elements of a byte slice, one after the other.
use webmetro.Base.{ℕ, zero, suc, Option, none, some, List, [], ◌∷◌, drop, Result, ok, err}
use webmetro.Ebml.Varint.{EbmlError}
use webmetro.Ebml.Element.{FromEbml, decode_element}

module _ {ℓ} {T : Type ℓ} (t : FromEbml T) where
  -- `unwrap_or(None)` makes an error the end of the iteration.
  unfoldable pub advance_iter : List ℕ → Result EbmlError (Option (T × ℕ)) → Option T × List ℕ
  advance_iter source (ok (some (element, element_size))) = (some element, drop element_size source)
  advance_iter source (ok none) = (none, source)
  advance_iter source (err e) = (none, source)

  -- `Iterator::next`, on the slice that the iterator holds.
  unfoldable pub iter_next : List ℕ → Option T × List ℕ
  iter_next source = advance_iter source (decode_element t source)

  unfoldable pub push_next : Option T → List T → List T
  push_next none rest = []
  push_next (some x) rest = x ∷ rest

  -- Calls `next` until it gives `None`. A call that gives an element takes two bytes at least.
  unfoldable pub collect : ℕ → List ℕ → List T
  collect zero source = []
  collect (suc fuel) source =
      let (x, source') = iter_next source in let rest = collect fuel source' in push_next x rest
