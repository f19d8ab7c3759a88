-- ===== src/Prelude/Lists.antt =====
-- Lists measured by native numbers, membership by recursion, and predicates over all members.
use Prim.Native.Nat.{ℕ, zero, suc}
use mathlib.Core.Path.{◌≡◌, refl, subst}
use mathlib.Core.Logic.{◌⊎◌, inl, inr}
use mathlib.Core.Bool.{Bool, true, false}
use mathlib.Core.List.{List, [], ◌∷◌, ◌++◌, reverse, reverse_aux}
use native.Mathlib.Omega.{arith}
use capa_eni_controller.Prelude.Tests.{if◌then◌else◌, Bool-cases}

-- `a` is one of the members.
abbrev pub In : {A : Type 0} → A → List A → Type 0
In a [] = ⊥
In a (x ∷ xs) = (x ≡ a) ⊎ In a xs

module _ {ℓ} {A : Type ℓ} where
  abbrev pub length : List A → ℕ
  length [] = 0
  length (x ∷ xs) = suc (length xs)

  -- len(xs) == 0
  abbrev pub is_empty : List A → Bool
  is_empty [] = true
  is_empty (x ∷ xs) = false

  abbrev pub take : ℕ → List A → List A
  take zero xs = []
  take (suc n) [] = []
  take (suc n) (x ∷ xs) = x ∷ take n xs

  abbrev pub drop : ℕ → List A → List A
  drop zero xs = xs
  drop (suc n) [] = []
  drop (suc n) (x ∷ xs) = drop n xs

  abbrev pub replicate : ℕ → A → List A
  replicate zero a = []
  replicate (suc n) a = a ∷ replicate n a

  abbrev pub All {κ} : (A → Type κ) → List A → Type κ
  All P [] = Unit
  All P (x ∷ xs) = P x × All P xs

  -- Each pair, in order.
  abbrev pub Pairs {κ} : (A → A → Type κ) → List A → Type κ
  Pairs R [] = Unit
  Pairs R (x ∷ xs) = All (R x) xs × Pairs R xs

  abbrev pub filter : (A → Bool) → List A → List A
  filter p [] = []
  filter p (x ∷ xs) = let rest = filter p xs in if p x then x ∷ rest else rest

module _ {A : Type 0} (P Q : A → Type 0) (imp : (a : A) → P a → Q a) where
  pub All-imp : (xs : List A) → All P xs → All Q xs
  All-imp [] h = tt
  All-imp (x ∷ xs) h = (imp x h.0, All-imp xs h.1)

module _ {A : Type 0} (P : A → Type 0) where
  pub All-In : (xs : List A) (a : A) → All P xs → In a xs → P a
  All-In [] a h i = absurd i
  All-In (x ∷ xs) a h (inl e) = subst P e h.0
  All-In (x ∷ xs) a h (inr i) = All-In xs a h.1 i

  pub All-append : (xs ys : List A) → All P xs → All P ys → All P (xs ++ ys)
  All-append [] ys hx hy = hy
  All-append (x ∷ xs) ys hx hy = (hx.0, All-append xs ys hx.1 hy)

  reverse_aux-All : (xs ys : List A) → All P xs → All P ys → All P (reverse_aux xs ys)
  reverse_aux-All [] ys hx hy = hy
  reverse_aux-All (x ∷ xs) ys hx hy = reverse_aux-All xs (x ∷ ys) hx.1 (hx.0, hy)

  pub reverse-All : (xs : List A) → All P xs → All P (reverse xs)
  reverse-All xs h = reverse_aux-All xs [] h tt

  reverse_aux-All_inv : (xs ys : List A) → All P (reverse_aux xs ys) → All P xs × All P ys
  reverse_aux-All_inv [] ys h = (tt, h)
  reverse_aux-All_inv (x ∷ xs) ys h =
      let (hx, hy) = reverse_aux-All_inv xs (x ∷ ys) h in ((hy.0, hx), hy.1)

  pub reverse-All_inv : (xs : List A) → All P (reverse xs) → All P xs
  reverse-All_inv xs h = (reverse_aux-All_inv xs [] h).0

  pub All-append_inv : (xs ys : List A) → All P (xs ++ ys) → All P xs × All P ys
  All-append_inv [] ys h = (tt, h)
  All-append_inv (x ∷ xs) ys h = let (hx, hy) = All-append_inv xs ys h.1 in ((h.0, hx), hy)

  pub filter-All : (p : A → Bool) (xs : List A) → All P xs → All P (filter p xs)
  filter-All p [] h = tt
  filter-All p (x ∷ xs) h = ground (arith, filter-All p xs h.1)

module _ {A : Type 0} (R : A → A → Type 0) where
  -- A list that falls, turned round, rises.
  reverse_aux-Pairs :
      (xs ys : List A)
      → Pairs (λ a b. R b a) xs
      → Pairs R ys
      → All (λ x. All (R x) ys) xs
      → Pairs R (reverse_aux xs ys)
  reverse_aux-Pairs [] ys hx hy h = hy
  reverse_aux-Pairs (x ∷ xs) ys hx hy h =
      reverse_aux-Pairs xs (x ∷ ys) hx.1 (h.0, hy) (joined xs hx.0 h.1)
    where
      joined :
          (zs : List A)
          → All (λ z. R z x) zs
          → All (λ z. All (R z) ys) zs
          → All (λ z. All (R z) (x ∷ ys)) zs
      joined [] a b = tt
      joined (z ∷ zs) a b = ((a.0, b.0), joined zs a.1 b.1)

  All-unit : (xs : List A) → All (λ x. All (R x) []) xs
  All-unit [] = tt
  All-unit (x ∷ xs) = (tt, All-unit xs)

  pub reverse-Pairs : (xs : List A) → Pairs (λ a b. R b a) xs → Pairs R (reverse xs)
  reverse-Pairs xs h = reverse_aux-Pairs xs [] h tt (All-unit xs)

  pub filter-Pairs : (p : A → Bool) (xs : List A) → Pairs R xs → Pairs R (filter p xs)
  filter-Pairs p [] h = tt
  filter-Pairs p (x ∷ xs) h = elim (Bool-cases (p x)) [
    | inl e ↦ rw e ((filter-All (R x) p xs h.0), filter-Pairs p xs h.1)
    | inr e ↦ rw e (filter-Pairs p xs h.1)
  ]

  pub Pairs-imp :
      (S : A → A → Type 0) → ((a b : A) → R a b → S a b) → (xs : List A) → Pairs R xs → Pairs S xs
  Pairs-imp S imp [] h = tt
  Pairs-imp S imp (x ∷ xs) h = (All-imp _ _ (imp x) xs h.0, Pairs-imp S imp xs h.1)

  pub Pairs-middle : (xs : List A) (y : A) (ys : List A) → Pairs R (xs ++ (y ∷ ys)) → All (R y) ys
  Pairs-middle [] y ys h = h.0
  Pairs-middle (x ∷ xs) y ys h = Pairs-middle xs y ys h.1

-- Every list consists of its members.
pub All-self : {A : Type 0} (xs : List A) → All (λ x. In x xs) xs
All-self [] = tt
All-self (x ∷ xs) = (inl refl, All-imp _ _ (λ y i. inr i) xs (All-self xs))
