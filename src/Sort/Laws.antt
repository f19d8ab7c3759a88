-- ===== src/Sort/Laws.antt =====
-- `sort_slice` rearranges, and orders by a numeric key where the comparison is that of the keys.
use mathlib.Core.List.{Perm, perm_middle, reverse_perm, append-nil}
use mathlib.Core.List.Perm
use capa_eni_controller.Prelude.{
  ℕ, ◌≤◌, ◌≡◌, inl, inr, Bool, List, [], ◌∷◌, ◌++◌, arith, ltb, Bool-cases, tests, sym, ◌∙◌,
}
use capa_eni_controller.Prelude.Lists.{
  All, Pairs, All-imp, reverse-All, reverse-All_inv, reverse-Pairs,
}
use capa_eni_controller.Sort.{insert, prefix, sort_slice}

module _ {A : Type 0} (less : A → A → Bool) where
  insert-perm : (x : A) (ys : List A) → Perm (insert less x ys) (x ∷ ys)
  unfolding insert
  insert-perm x [] = Perm.refl (x ∷ [])
  insert-perm x (y ∷ ys) = elim (Bool-cases (less x y)) [
    | inl e ↦ rw e (Perm.trans (Perm.cons y (insert-perm x ys)) (Perm.swap x y ys))
    | inr e ↦ rw e (Perm.refl _)
  ]

  prefix-perm : (done xs : List A) → Perm (prefix less done xs) (xs ++ done)
  unfolding prefix
  prefix-perm done [] = Perm.refl done
  prefix-perm done (x ∷ xs) =
      Perm.trans (prefix-perm (insert less x done) xs)
        (Perm.trans (Perm.append_left xs (insert-perm x done)) (perm_middle xs done))

  pub sort_slice-perm : (xs : List A) → Perm (sort_slice less xs) xs
  unfolding sort_slice
  sort_slice-perm xs =
      Perm.trans (reverse_perm (prefix less [] xs))
        (Perm.trans (prefix-perm [] xs) (rw append-nil (Perm.refl xs)))

-- A predicate of all members survives the sort.
module _ {A : Type 0} (less : A → A → Bool) (Q : A → Type 0) where
  insert-All : (x : A) (ys : List A) → Q x → All Q ys → All Q (insert less x ys)
  unfolding insert
  insert-All x [] q h = (q, tt)
  insert-All x (y ∷ ys) q h = ground (arith, insert-All x ys q h.1)

  prefix-All : (done xs : List A) → All Q done → All Q xs → All Q (prefix less done xs)
  unfolding prefix
  prefix-All done [] hd hx = hd
  prefix-All done (x ∷ xs) hd hx =
      prefix-All (insert less x done) xs (insert-All x done hx.0 hd) hx.1

  pub sort_slice-All : (xs : List A) → All Q xs → All Q (sort_slice less xs)
  unfolding sort_slice
  sort_slice-All xs h = reverse-All Q _ (prefix-All [] xs tt h)

  insert-All_inv : (x : A) (ys : List A) → All Q (insert less x ys) → Q x × All Q ys
  unfolding insert
  insert-All_inv x [] h = h
  insert-All_inv x (y ∷ ys) h = elim (Bool-cases (less x y)) [
    | inl e ↦
        let h' : Q y × All Q (insert less x ys) = rw (e, insert) at h in
        let (q, rest) = insert-All_inv x ys h'.1 in (q, (h'.0, rest))
    | inr e ↦ rw e at h
  ]

  prefix-All_inv : (done xs : List A) → All Q (prefix less done xs) → All Q done × All Q xs
  unfolding prefix
  prefix-All_inv done [] h = (h, tt)
  prefix-All_inv done (x ∷ xs) h =
      let (inserted, rest) = prefix-All_inv (insert less x done) xs h in
      let (q, old) = insert-All_inv x done inserted in (old, (q, rest))

  -- And what holds of all members of the sorted slice held of all members before.
  pub sort_slice-All_inv : (xs : List A) → All Q (sort_slice less xs) → All Q xs
  unfolding sort_slice
  sort_slice-All_inv xs h = (prefix-All_inv [] xs (reverse-All_inv Q _ h)).1

module _ {A : Type 0} (less : A → A → Bool) (key : A → ℕ) (P : A → Type 0)
    (agree : (a b : A) → P a → P b → less a b ≡ ltb (key a) (key b)) where
  insert-falling :
      (x : A) (ys : List A)
      → P x
      → All P ys
      → Pairs (λ a b. key b ≤ key a) ys
      → Pairs (λ a b. key b ≤ key a) (insert less x ys)
  unfolding insert
  insert-falling x [] p h f = (tt, tt)
  insert-falling x (y ∷ ys) p h f = elim (Bool-cases (less x y)) [
    | inl e ↦ rw e (
      insert-All less (λ b. key b ≤ key y) x ys (omega (tests, sym (agree x y p h.0) ∙ e)) f.0,
      insert-falling x ys p h.1 f.1,
    )
    | inr e ↦
        let top : key y ≤ key x = omega (tests, sym (agree x y p h.0) ∙ e) in
        rw e
          ((top, All-imp (λ b. key b ≤ key y) (λ b. key b ≤ key x) (λ b h. omega arith) ys f.0), f)
  ]

  prefix-falling :
      (done xs : List A)
      → All P done
      → All P xs
      → Pairs (λ a b. key b ≤ key a) done
      → Pairs (λ a b. key b ≤ key a) (prefix less done xs)
  unfolding prefix
  prefix-falling done [] hd hx f = f
  prefix-falling done (x ∷ xs) hd hx f =
      prefix-falling (insert less x done) xs (insert-All less P x done hx.0 hd) hx.1
        (insert-falling x done hx.0 hd f)

  -- Where the comparison is that of numeric keys, the sorted slice rises by the key.
  pub sort_slice-rising :
      (xs : List A) → All P xs → Pairs (λ a b. key a ≤ key b) (sort_slice less xs)
  unfolding sort_slice
  sort_slice-rising xs h = reverse-Pairs _ _ (prefix-falling [] xs tt h tt)
