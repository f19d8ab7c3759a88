-- ===== src/Slices.antt =====
-- Go slices: a slice is a length and a reference to an array, which other slices may share. Those of
-- the code start at the first element of their array.
pub mod Laws
pub mod Filter
use capa_eni_controller.Prelude.{ℕ, zero, suc, ◌+◌, Option, none, some, List, [], ◌∷◌, ◌++◌}
use capa_eni_controller.Prelude.{Bool, ltb, nat_eq, if◌then◌else◌}
use capa_eni_controller.Prelude.Lists.{length, take}

-- The capacity is the length of the array.
pub record Slice : Type 0 where
  pub array : ℕ
  pub len : ℕ

module _ {A : Type 0} where
  -- The element at an index; none is a panic.
  abbrev pub at : List A → ℕ → Option A
  at [] i = none
  at (x ∷ xs) zero = some x
  at (x ∷ xs) (suc i) = at xs i

  abbrev pub set : ℕ → A → List A → List A
  set i v [] = []
  set zero v (x ∷ xs) = v ∷ xs
  set (suc i) v (x ∷ xs) = x ∷ set i v xs

module _ (A : Type 0) where
  -- The arrays, and the first reference that is not in use.
  pub record Heap : Type 0 where
    pub cells : ℕ → List A
    pub next : ℕ

module _ {A : Type 0} where
  abbrev pub contents : Heap A → Slice → List A
  contents h s = take s.len (h.cells s.array)

  abbrev pub write : Heap A → ℕ → List A → Heap A
  write h a xs = record h { cells = λ b. if nat_eq a b then xs else h.cells b }

  -- append(s, v): in place as long as the array has room, and in a new array otherwise.
  abbrev pub append : Heap A → Slice → A → Slice × Heap A
  append h s v =
      if ltb s.len (length (h.cells s.array))
      then (record s { len = suc s.len }, write h s.array (set s.len v (h.cells s.array)))
      else (
        record { array = h.next; len = suc s.len },
        record (write h h.next (contents h s ++ (v ∷ []))) { next = suc h.next },
      )

  -- `for _, x := range src { if p(x) { result = append(result, x) } }`, from the index `i` on; the
  -- elements are read as the loop comes to them. The result is none where an index is out of range.
  abbrev pub filter_loop : (A → Bool) → ℕ → ℕ → Slice → Slice → Heap A → Option (Slice × Heap A)
  filter_loop p zero i src result h = some (result, h)
  filter_loop p (suc todo) i src result h = elim (at (h.cells src.array) i) [
    | none ↦ none
    | some x ↦
        let left = filter_loop p todo (suc i) src in
        if p x then (let (r, h') = append h result x in left r h') else left result h
  ]
