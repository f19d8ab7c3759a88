-- ===== src/DeepCopy/Loop.antt =====
-- The loop that copies items one by one.
use capa_eni_controller.Prelude.{ℕ, zero, suc, ◌≤◌, ◌≡◌, refl, ap, List, [], ◌∷◌, map, arith}
use capa_eni_controller.Prelude.Lists.{length, take, All, All-imp}
use capa_eni_controller.DeepCopy.{Memory}
use capa_eni_controller.DeepCopy.Code.{copy_each}
use capa_eni_controller.DeepCopy.Growth.{Part, Grows, Grows-refl, Grows-trans, Grows-next}
use capa_eni_controller.DeepCopy.Kinds.{Used, New, Kind, IsDeep}

pub take_all : {A : Type 0} (n : ℕ) (xs : List A) → length xs ≤ n → take n xs ≡ xs
take_all zero [] h = refl
take_all zero (x ∷ xs) h = absurd (omega arith)
take_all (suc n) [] h = refl
take_all (suc n) (x ∷ xs) h = ap (◌∷◌ x) (take_all n xs (omega arith))

pub take_bound : {A : Type 0} (n : ℕ) (xs : List A) → length (take n xs) ≤ n
take_bound zero xs = omega arith
take_bound (suc n) [] = omega arith
take_bound (suc n) (x ∷ xs) = omega (arith, take_bound n xs)

module _ {C V : Type 0} (k : Kind C V) (deep : IsDeep k) where
  open k use {read, copy, Each}

  pub stay_each :
      (m m' : Memory) (cs : List C)
      → Grows m m'
      → All (Each (Used m) m) cs
      → map (read m') cs ≡ map (read m) cs
  stay_each m m' [] g used = refl
  stay_each m m' (c ∷ cs) g used = cc (deep.stays m m' c g used.0, stay_each m m' cs g used.1)

  pub move_each :
      (P Q : Part → ℕ → Type 0) (m m' : Memory) (cs : List C)
      → Grows m m'
      → ((p : Part) (a : ℕ) → P p a → Q p a)
      → All (Each (Used m) m) cs
      → All (Each P m) cs
      → All (Each Q m') cs
  move_each P Q m m' [] g imp used h = tt
  move_each P Q m m' (c ∷ cs) g imp used h = (
    deep.imp P Q imp m' c (deep.moves P m m' c g used.0 h.0),
    move_each P Q m m' cs g imp used.1 h.1,
  )

  pub still_below : (m m' : Memory) → Grows m m' → (p : Part) (a : ℕ) → Used m p a → Used m' p a
  still_below m m' g p a h = omega (arith, h, Grows-next m m' p g)

  pub record CopiedAll (m : Memory) (cs cs' : List C) (m' : Memory) : Type 0 where
    pub reads : map (read m') cs' ≡ map (read m) cs
    pub grows : Grows m m'
    pub fresh : All (Each (New m) m') cs'
    pub used : All (Each (Used m') m') cs'
    pub len : length cs' ≡ length cs

  pub copy_each-CopiedAll :
      (m : Memory) (cs : List C)
      → All (Each (Used m) m) cs
      → CopiedAll m cs (copy_each copy m cs).0 (copy_each copy m cs).1
  unfolding copy_each
  copy_each-CopiedAll m [] used = record {
    reads = refl;
    grows = Grows-refl m;
    fresh = tt;
    used = tt;
    len = refl;
  }
  copy_each-CopiedAll m (c ∷ cs) used =
      let c' = (copy m c).0 in
      let m₁ = (copy m c).1 in
      let first = deep.copies m c used.0 in
      let g = first.grows in
      let rest =
        copy_each-CopiedAll m₁ cs
          (move_each (Used m) (Used m₁) m m₁ cs g (still_below m m₁ g) used.1 used.1) in
      let m₂ = (copy_each copy m₁ cs).1 in
      let g' = rest.grows in
      record {
        reads = cc (
          deep.stays m₁ m₂ c' g' first.used,
          first.reads,
          rest.reads,
          stay_each m m₁ cs g used.1,
        );
        grows = Grows-trans m m₁ m₂ g g';
        fresh = (
          deep.moves (New m) m₁ m₂ c' g' first.used first.fresh,
          All-imp _ _
              (λ x. deep.imp (New m₁) (New m) (λ p a h. omega (arith, h, Grows-next m m₁ p g)) m₂ x)
              (copy_each copy m₁ cs).0 rest.fresh,
        );
        used = (
          deep.imp (Used m₁) (Used m₂) (still_below m₁ m₂ g') m₂ c'
              (deep.moves (Used m₁) m₁ m₂ c' g' first.used first.used),
          rest.used,
        );
        len = ap suc rest.len;
      }
