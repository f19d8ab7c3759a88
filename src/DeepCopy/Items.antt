-- ===== src/DeepCopy/Items.antt =====
-- A deep copy of items that are deeply copied one by one.
use capa_eni_controller.Prelude.{
  ℕ, suc, ◌≤◌, ◌≡◌, refl, sym, ap, ◌∙◌, Option, none, some, List, map, arith, subst,
}
use capa_eni_controller.Prelude.Lists.{length, take, All, All-imp}
use capa_eni_controller.Slices.{Slice, Heap, contents, write}
use capa_eni_controller.Slices.Laws.{write-same, write-other}
use capa_eni_controller.DeepCopy.{Memory, Store, read_items}
use capa_eni_controller.DeepCopy.Code.{copy_each, copy_items}
use capa_eni_controller.DeepCopy.Growth.{
  Keeps, Part, next, Grows, Grows-refl, Grows-trans, Grows-next,
}
use capa_eni_controller.DeepCopy.Kinds.{Used, New, Kind, Copied, IsDeep}
use capa_eni_controller.DeepCopy.Loop.{
  take_all, take_bound, stay_each, move_each, still_below, copy_each-CopiedAll,
}

-- The store is a part of the memory.
pub record IsStore {A : Type 0} (store : Store A) (part : Part) : Type 0 where
  pub next_get : (m : Memory) → next m part ≡ (store.get m).next
  pub get_put : (m : Memory) (h : Heap A) → store.get (store.put m h) ≡ h
  pub put_grows : (m : Memory) (h : Heap A) → Keeps (store.get m) h → Grows m (store.put m h)
  pub grows_get : (m m' : Memory) → Grows m m' → Keeps (store.get m) (store.get m')

module _ {C V : Type 0} (store : Store C) (part : Part) (k : Kind C V) where
  abbrev pub EachItem : (Part → ℕ → Type 0) → Memory → Option Slice → Type 0
  EachItem P m none = Unit
  EachItem P m (some s) = P part s.array × All (k.Each P m) (contents (store.get m) s)

  abbrev pub items : Kind (Option Slice) (List V)
  items = record { read = read_items store k.read; copy = copy_items store k.copy; Each = EachItem }

module _ {C V : Type 0} (store : Store C) (part : Part) (law : IsStore store part) (k : Kind C V)
    (deep : IsDeep k) where
  open k use {read, copy, Each}

  -- The array of a slice in use stays.
  contents_stay :
      (m m' : Memory) (s : Slice)
      → Grows m m'
      → Used m part s.array
      → contents (store.get m') s ≡ contents (store.get m) s
  contents_stay m m' s g used =
      ap (take s.len) ((law.grows_get m m' g).cells s.array (omega (arith, used, law.next_get m)))

  -- The new array, once it is written.
  module _ (m : Memory) (n : ℕ) (xs : List C) (bound : length xs ≤ n) where
    abbrev h : Heap C
    h = store.get m

    abbrev written : Heap C
    written = record (write h h.next xs) { next = suc h.next }

    written-Keeps : Keeps h written
    written-Keeps = record {
      grows = omega arith;
      cells = λ a below. write-other h h.next a xs (λ e. omega (arith, e));
    }

    written-contents :
        contents (store.get (store.put m written)) (record { array = h.next; len = n }) ≡ xs
    written-contents =
        ap (λ x. take n (x.cells h.next)) (law.get_put m written)
        ∙ ap (take n) (write-same h h.next xs)
        ∙ take_all n xs bound

    written-next : next (store.put m written) part ≡ suc h.next
    written-next = law.next_get (store.put m written) ∙ ap (λ x. x.next) (law.get_put m written)

  items-copies :
      (m : Memory) (s : Option Slice)
      → EachItem store part k (Used m) m s
      → Copied (items store part k) m s (copy_items store copy m s).0 (copy_items store copy m s).1
  unfolding copy_items
  items-copies m none used = record {
    reads = refl;
    original = refl;
    grows = Grows-refl m;
    fresh = tt;
    used = tt;
  }
  items-copies m (some s) used =
      let cs = contents (store.get m) s in
      let all = copy_each-CopiedAll k deep m cs used.1 in
      let xs = (copy_each copy m cs).0 in
      let m₁ = (copy_each copy m cs).1 in
      let bound : length xs ≤ s.len =
        omega (arith, all.len, take_bound s.len ((store.get m).cells s.array)) in
      let h' = written m₁ s.len xs bound in
      let m₂ = store.put m₁ h' in
      let g' = law.put_grows m₁ h' (written-Keeps m₁ s.len xs bound) in
      let g = Grows-trans m m₁ m₂ all.grows g' in
      let now = written-contents m₁ s.len xs bound in
      let n = written-next m₁ s.len xs bound in
      record {
        reads = ap (map (read m₂)) now ∙ stay_each k deep m₁ m₂ xs g' all.used ∙ all.reads;
        original =
            ap (map (read m₂)) (contents_stay m m₂ s g used.0) ∙ stay_each k deep m m₂ cs g used.1;
        grows = g;
        fresh = (
          omega (arith, Grows-next m m₁ part all.grows, law.next_get m₁),
          subst (All (Each (New m) m₂)) (sym now)
              (move_each k deep (New m) (New m) m₁ m₂ xs g' (λ p a e. e) all.used all.fresh),
        );
        used = (
          omega (arith, n),
          subst (All (Each (Used m₂) m₂)) (sym now) (
              move_each k deep (Used m₁) (Used m₂) m₁ m₂ xs g' (still_below k deep m₁ m₂ g')
                all.used all.used),
        );
      }

  items-imp :
      (P Q : Part → ℕ → Type 0)
      → ((p : Part) (a : ℕ) → P p a → Q p a)
      → (m : Memory) (s : Option Slice) → EachItem store part k P m s
      → EachItem store part k Q m s
  items-imp P Q imp m none h = tt
  items-imp P Q imp m (some s) h =
      (imp part s.array h.0, All-imp _ _ (deep.imp P Q imp m) (contents (store.get m) s) h.1)

  items-stays :
      (m m' : Memory) (s : Option Slice)
      → Grows m m'
      → EachItem store part k (Used m) m s
      → read_items store read m' s ≡ read_items store read m s
  items-stays m m' none g used = refl
  items-stays m m' (some s) g used =
      ap (map (read m')) (contents_stay m m' s g used.0)
      ∙ stay_each k deep m m' (contents (store.get m) s) g used.1

  items-moves :
      (P : Part → ℕ → Type 0) (m m' : Memory) (s : Option Slice)
      → Grows m m'
      → EachItem store part k (Used m) m s
      → EachItem store part k P m s
      → EachItem store part k P m' s
  items-moves P m m' none g used h = tt
  items-moves P m m' (some s) g used h = (
    h.0,
    subst (All (Each P m')) (sym (contents_stay m m' s g used.0))
        (move_each k deep P P m m' (contents (store.get m) s) g (λ p a e. e) used.1 h.1),
  )

  -- What holds of the items holds of their list.
  pub items-IsDeep : IsDeep (items store part k)
  items-IsDeep = record {
    imp = items-imp;
    stays = items-stays;
    moves = items-moves;
    copies = items-copies;
  }
