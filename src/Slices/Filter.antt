-- ===== src/Slices/Filter.antt =====
-- The loop that filters one slice into another, which may share its array.
use capa_eni_controller.Prelude.{
  ℕ, zero, suc, ◌+◌, ◌<◌, ◌≤◌, ◌≡◌, ◌≢◌, refl, sym, ◌∙◌, ap, inl, inr, ◌⊎◌, Bool, true, false,
  Option, none, some, List, ◌∷◌, ◌++◌, arith, subst,
}
use capa_eni_controller.Prelude.{nat_eq, lt→ltb, Bool-cases}
use mathlib.Core.List.{append-nil}
use capa_eni_controller.Prelude.Lists.{length, take, drop, filter}
use capa_eni_controller.Slices.{Slice, Heap, at, set, write, contents, filter_loop}
use capa_eni_controller.Slices.Laws.{
  at-drop, length-set, drop-set, take-set, write-same, write-other,
}

module _ {A : Type 0} (p : A → Bool) where
  -- From the index `i` of the array `a`, `todo` elements, into `k` elements of the array `b`.
  pub record Filtered (todo i a k b : ℕ) (h : Heap A) (r : Slice) (h' : Heap A) : Type 0 where
    pub in_place : r.array ≡ b
    pub holds : contents h' r ≡ take k (h.cells b) ++ filter p (take todo (drop i (h.cells a)))
    pub others : (c : ℕ) → c ≢ b → h'.cells c ≡ h.cells c

  abbrev pub Outcome : ℕ → ℕ → ℕ → ℕ → ℕ → Heap A → Option (Slice × Heap A) → Type 0
  Outcome todo i a k b h none = ⊥
  Outcome todo i a k b h (some (r, h')) = Filtered todo i a k b h r h'

  -- The result is in another array, or not ahead of what is read.
  abbrev pub Behind : ℕ → ℕ → ℕ → ℕ → Type 0
  Behind i a k b = (b ≢ a) ⊎ ((b ≡ a) × (k ≤ i))

  Behind-suc : (i a k b : ℕ) → Behind i a k b → Behind (suc i) a (suc k) b
  Behind-suc i a k b (inl apart) = inl apart
  Behind-suc i a k b (inr (e, h)) = inr (e, omega arith)

  Behind-skip : (i a k b : ℕ) → Behind i a k b → Behind (suc i) a k b
  Behind-skip i a k b (inl apart) = inl apart
  Behind-skip i a k b (inr (e, h)) = inr (e, omega arith)

  -- A write behind leaves what is still to be read, and the length.
  write-unread :
      (i a k b : ℕ) (h : Heap A) (v : A)
      → Behind i a k b
      → drop (suc i) ((write h b (set k v (h.cells b))).cells a) ≡ drop (suc i) (h.cells a)
  write-unread i a k b h v (inl apart) =
      ap (drop (suc i)) (write-other h b a (set k v (h.cells b)) (λ e. apart (sym e)))
  write-unread i a k b h v (inr (e, le)) =
      subst
        (λ c. drop (suc i) ((write h b (set k v (h.cells b))).cells c) ≡ drop (suc i) (h.cells c)) e
        (ap (drop (suc i)) (write-same h b (set k v (h.cells b)))
          ∙ drop-set k (suc i) v (h.cells b) (omega arith))

  write-length :
      (a k b : ℕ) (h : Heap A) (v : A)
      → length ((write h b (set k v (h.cells b))).cells a) ≡ length (h.cells a)
  write-length a k b h v = elim (Bool-cases (nat_eq b a)) [
    | inl e ↦ rw e (length-set k v (h.cells b) ∙ ap (λ c. length (h.cells c)) (same e))
    | inr e ↦ rw e refl
  ]
    where
      same : nat_eq b a ≡ true → b ≡ a
      same e = ground arith

  taken-kept :
      (todo : ℕ) (v : A) (from rest : List A)
      → from ≡ v ∷ rest
      → p v ≡ true
      → filter p (take (suc todo) from) ≡ v ∷ filter p (take todo rest)
  taken-kept todo v from rest e h = rw e (rw h refl)

  taken-left_out :
      (todo : ℕ) (v : A) (from rest : List A)
      → from ≡ v ∷ rest
      → p v ≡ false
      → filter p (take (suc todo) from) ≡ filter p (take todo rest)
  taken-left_out todo v from rest e h = rw e (rw h refl)

  kept-Outcome :
      (todo i a k b : ℕ) (h : Heap A) (v : A) (found : Option (Slice × Heap A))
      → Behind i a k b
      → k < length (h.cells b)
      → drop i (h.cells a) ≡ v ∷ drop (suc i) (h.cells a)
      → p v ≡ true
      → Outcome todo (suc i) a (suc k) b (write h b (set k v (h.cells b))) found
      → Outcome (suc todo) i a k b h found
  kept-Outcome todo i a k b h v none behind room e passes o = o
  kept-Outcome todo i a k b h v (some (r, h')) behind room e passes o = record {
    in_place = o.in_place;
    holds =
        o.holds
        ∙ ap (λ xs. take (suc k) xs ++ filter p (take todo (drop (suc i) (later.cells a))))
            (write-same h b (set k v (h.cells b)))
        ∙ ap (λ xs. take (suc k) (set k v (h.cells b)) ++ filter p (take todo xs))
            (write-unread i a k b h v behind)
        ∙ take-set k v (h.cells b) (filter p (take todo (drop (suc i) (h.cells a)))) room
        ∙ ap (◌++◌ (take k (h.cells b)))
            (sym (taken-kept todo v (drop i (h.cells a)) (drop (suc i) (h.cells a)) e passes));
    others = λ c apart. o.others c apart ∙ write-other h b c (set k v (h.cells b)) apart;
  }
    where
      later : Heap A
      later = write h b (set k v (h.cells b))

  left_out-Outcome :
      (todo i a k b : ℕ) (h : Heap A) (v : A) (found : Option (Slice × Heap A))
      → drop i (h.cells a) ≡ v ∷ drop (suc i) (h.cells a)
      → p v ≡ false
      → Outcome todo (suc i) a k b h found
      → Outcome (suc todo) i a k b h found
  left_out-Outcome todo i a k b h v none e fails o = o
  left_out-Outcome todo i a k b h v (some (r, h')) e fails o = record {
    in_place = o.in_place;
    holds =
        o.holds
        ∙ ap (◌++◌ (take k (h.cells b)))
            (sym (taken-left_out todo v (drop i (h.cells a)) (drop (suc i) (h.cells a)) e fails));
    others = o.others;
  }

  loop-kept :
      (todo i : ℕ) (src result : Slice) (h : Heap A) (v : A)
      → at (h.cells src.array) i ≡ some v
      → p v ≡ true
      → result.len < length (h.cells result.array)
      → filter_loop p (suc todo) i src result h
        ≡ filter_loop p todo
            (suc i)
            src
            (record result { len = suc result.len })
            (write h result.array (set result.len v (h.cells result.array)))
  loop-kept todo i src result h v here passes room =
      rw (filter_loop, here, passes, lt→ltb result.len (length (h.cells result.array)) room) refl

  loop-left_out :
      (todo i : ℕ) (src result : Slice) (h : Heap A) (v : A)
      → at (h.cells src.array) i ≡ some v
      → p v ≡ false
      → filter_loop p (suc todo) i src result h ≡ filter_loop p todo (suc i) src result h
  loop-left_out todo i src result h v here fails = rw (filter_loop, here, fails) refl

  -- With room for all that is left, the loop does not panic, needs no new array, and leaves all other
  -- arrays alone.
  pub filter_loop-Outcome :
      (todo i : ℕ) (src result : Slice) (h : Heap A)
      → i + todo ≤ length (h.cells src.array)
      → result.len + todo ≤ length (h.cells result.array)
      → Behind i src.array result.len result.array
      → Outcome todo i src.array result.len result.array h (filter_loop p todo i src result h)
  filter_loop-Outcome zero i src result h fits room behind = record {
    in_place = refl;
    holds = sym (append-nil _);
    others = λ c apart. refl;
  }
  filter_loop-Outcome (suc todo) i src result h fits room behind =
      let (v, here, e) = at-drop (h.cells src.array) i (omega arith) in
      elim (Bool-cases (p v)) [
        | inl passes ↦ rw (loop-kept todo i src result h v here passes (omega arith)) (
            kept-Outcome todo i src.array result.len result.array h v _ behind (omega arith) e
              passes
              (filter_loop-Outcome todo (suc i) src (record result { len = suc result.len })
                (write h result.array (set result.len v (h.cells result.array)))
                (omega (arith, write-length src.array result.len result.array h v))
                (omega (arith, write-length result.array result.len result.array h v))
                (Behind-suc i src.array result.len result.array behind)))
        | inr fails ↦ rw (loop-left_out todo i src result h v here fails) (
            left_out-Outcome todo i src.array result.len result.array h v _ e fails (
              filter_loop-Outcome todo (suc i) src result h (omega arith) (omega arith)
                (Behind-skip i src.array result.len result.array behind)))
      ]
