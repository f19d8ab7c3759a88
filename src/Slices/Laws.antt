-- ===== src/Slices/Laws.antt =====
-- What a write does to the parts of an array, and to the other arrays.
use capa_eni_controller.Prelude.{
  ℕ, zero, suc, ◌<◌, ◌≤◌, ◌≡◌, ◌≢◌, refl, ap, some, List, [], ◌∷◌, ◌++◌, arith,
}
use capa_eni_controller.Prelude.Lists.{length, take, drop}
use capa_eni_controller.Slices.{Heap, at, set, write}

module _ {A : Type 0} where
  -- Within the bounds there is an element, with which the rest from there starts.
  pub at-drop :
      (xs : List A) (i : ℕ)
      → i < length xs
      → (v : A) × (at xs i ≡ some v) × (drop i xs ≡ v ∷ drop (suc i) xs)
  at-drop [] i h = absurd (omega arith)
  at-drop (x ∷ xs) zero h = (x, refl, refl)
  at-drop (x ∷ xs) (suc i) h = at-drop xs i (omega arith)

  pub length-set : (k : ℕ) (v : A) (xs : List A) → length (set k v xs) ≡ length xs
  length-set k v [] = refl
  length-set zero v (x ∷ xs) = refl
  length-set (suc k) v (x ∷ xs) = ap suc (length-set k v xs)

  -- What stands behind is not written.
  pub drop-set : (k i : ℕ) (v : A) (xs : List A) → k < i → drop i (set k v xs) ≡ drop i xs
  drop-set k i v [] h = refl
  drop-set zero zero v (x ∷ xs) h = absurd (omega arith)
  drop-set zero (suc i) v (x ∷ xs) h = refl
  drop-set (suc k) zero v (x ∷ xs) h = absurd (omega arith)
  drop-set (suc k) (suc i) v (x ∷ xs) h = drop-set k i v xs (omega arith)

  pub take-set :
      (k : ℕ) (v : A) (xs ys : List A)
      → k < length xs
      → take (suc k) (set k v xs) ++ ys ≡ take k xs ++ (v ∷ ys)
  take-set k v [] ys h = absurd (omega arith)
  take-set zero v (x ∷ xs) ys h = refl
  take-set (suc k) v (x ∷ xs) ys h = ap (◌∷◌ x) (take-set k v xs ys (omega arith))

  pub write-same : (h : Heap A) (a : ℕ) (xs : List A) → (write h a xs).cells a ≡ xs
  write-same h a xs = ground arith

  pub write-other :
      (h : Heap A) (a b : ℕ) (xs : List A) → b ≢ a → (write h a xs).cells b ≡ h.cells b
  write-other h a b xs apart = ground arith

  pub take-take : (n : ℕ) (xs : List A) → take n (take n xs) ≡ take n xs
  take-take zero xs = refl
  take-take (suc n) [] = refl
  take-take (suc n) (x ∷ xs) = ap (◌∷◌ x) (take-take n xs)

  pub length-take : (n : ℕ) (xs : List A) → n ≤ length xs → length (take n xs) ≡ n
  length-take zero xs h = refl
  length-take (suc n) [] h = omega arith
  length-take (suc n) (x ∷ xs) h = ap suc (length-take n xs (omega arith))
