-- ===== src/Sort.antt =====
-- Go's sort.Slice, as the allocator calls it. Up to twelve elements the library runs the insertion
-- sort below, step by step; a longer slice goes through pdqsort. `Sort/Laws` shows that the result
-- is the only arrangement which a sort may give where the keys differ.
pub mod Laws
use capa_eni_controller.Prelude.{Bool, List, [], ◌∷◌, reverse, if◌then◌else◌}

module _ {A : Type 0} (less : A → A → Bool) where
  -- The sorted prefix, its last element first: `x` moves to the left past each greater element.
  insert : A → List A → List A
  insert x [] = x ∷ []
  insert x (y ∷ ys) = let rest = insert x ys in if less x y then y ∷ rest else x ∷ y ∷ ys

  prefix : List A → List A → List A
  prefix done [] = done
  prefix done (x ∷ xs) = prefix (insert x done) xs

  unfoldable pub sort_slice : List A → List A
  unfolding insert prefix
  sort_slice xs = reverse (prefix [] xs)
