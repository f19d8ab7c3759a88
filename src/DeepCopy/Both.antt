-- ===== src/DeepCopy/Both.antt =====
-- Two parts of an object, copied one after the other; and slices in a store.
use capa_eni_controller.Prelude.{◌≡◌, ap, ◌∙◌, Option, List, arith}
use capa_eni_controller.Slices.{Slice}
use capa_eni_controller.DeepCopy.{Memory, Store, read_slice}
use capa_eni_controller.DeepCopy.Code.{copy_slice}
use capa_eni_controller.DeepCopy.Growth.{Part, Grows, Grows-trans, Grows-next}
use capa_eni_controller.DeepCopy.Kinds.{Used, New, Kind, Copied, IsDeep}
use capa_eni_controller.DeepCopy.Items.{IsStore}
use capa_eni_controller.DeepCopy.Loop.{still_below}
use capa_eni_controller.DeepCopy.Plain.{
  OfSlice, OfSlice-imp, read_slice-stays, copy_slice-CopiedSlice,
}

module _ {C D V W : Type 0} (k : Kind C V) (l : Kind D W) where
  abbrev copy_both : Memory → C × D → (C × D) × Memory
  copy_both m (c, d) = let (c', m') = k.copy m c in let (d', m'') = l.copy m' d in ((c', d'), m'')

  abbrev pub both : Kind (C × D) (V × W)
  both = record {
    read = λ m x. (k.read m x.0, l.read m x.1);
    copy = copy_both;
    Each = λ P m x. k.Each P m x.0 × l.Each P m x.1;
  }

  module _ (deep : IsDeep k) (deep' : IsDeep l) where
    both_stay :
        (m m' : Memory) (x : C × D)
        → Grows m m'
        → both.Each (Used m) m x
        → both.read m' x ≡ both.read m x
    both_stay m m' x g used = cc (deep.stays m m' x.0 g used.0, deep'.stays m m' x.1 g used.1)

    both_copies :
        (m : Memory) (x : C × D)
        → both.Each (Used m) m x
        → Copied both m x (copy_both m x).0 (copy_both m x).1
    both_copies m (c, d) used =
        let c' = (k.copy m c).0 in
        let m₁ = (k.copy m c).1 in
        let first = deep.copies m c used.0 in
        let g = first.grows in
        let second = deep'.copies m₁ d (
          deep'.imp (Used m) (Used m₁) (still_below k deep m m₁ g) m₁ d
            (deep'.moves (Used m) m m₁ d g used.1 used.1)) in
        let d' = (l.copy m₁ d).0 in
        let m₂ = (l.copy m₁ d).1 in
        let g' = second.grows in
        record {
          reads = cc (
            deep.stays m₁ m₂ c' g' first.used,
            first.reads,
            second.reads,
            deep'.stays m m₁ d g used.1,
          );
          original = both_stay m m₂ (c, d) (Grows-trans m m₁ m₂ g g') used;
          grows = Grows-trans m m₁ m₂ g g';
          fresh = (
            deep.moves (New m) m₁ m₂ c' g' first.used first.fresh,
            deep'.imp (New m₁) (New m) (λ p a h. omega (arith, h, Grows-next m m₁ p g)) m₂ d'
                second.fresh,
          );
          used = (
            deep.imp (Used m₁) (Used m₂) (still_below k deep m₁ m₂ g') m₂ c'
                (deep.moves (Used m₁) m₁ m₂ c' g' first.used first.used),
            second.used,
          );
        }

    -- What holds of the parts holds of both.
    pub both-IsDeep : IsDeep both
    both-IsDeep = record {
      imp = λ P Q imp m x h. (deep.imp P Q imp m x.0 h.0, deep'.imp P Q imp m x.1 h.1);
      stays = both_stay;
      moves = λ P m m' x g used h.
          (deep.moves P m m' x.0 g used.0 h.0, deep'.moves P m m' x.1 g used.1 h.1);
      copies = both_copies;
    }

module _ {A : Type 0} (store : Store A) (part : Part) where
  abbrev copy_stored : Memory → Option Slice → Option Slice × Memory
  copy_stored m s = let (s', h) = copy_slice (store.get m) s in (s', store.put m h)

  abbrev pub plain_slice : Kind (Option Slice) (List A)
  plain_slice = record {
    read = λ m s. read_slice (store.get m) s;
    copy = copy_stored;
    Each = λ P m s. OfSlice (P part) s;
  }

  module _ (law : IsStore store part) where
    plain_stays :
        (m m' : Memory) (s : Option Slice)
        → Grows m m'
        → OfSlice (Used m part) s
        → read_slice (store.get m') s ≡ read_slice (store.get m) s
    plain_stays m m' s g used =
        read_slice-stays (store.get m) (store.get m') s (law.grows_get m m' g)
          (OfSlice-imp _ _ (λ a h. omega (arith, h, law.next_get m)) s used)

    plain_copies :
        (m : Memory) (s : Option Slice)
        → OfSlice (Used m part) s
        → Copied plain_slice m s (copy_stored m s).0 (copy_stored m s).1
    plain_copies m s used =
        let c = copy_slice-CopiedSlice (store.get m) s in
        let s' = (copy_slice (store.get m) s).0 in
        let h = (copy_slice (store.get m) s).1 in
        let m' = store.put m h in
        let got = law.get_put m h in
        let g = law.put_grows m h c.keeps in
        record {
          reads = ap (λ x. read_slice x s') got ∙ c.reads;
          original = plain_stays m m' s g used;
          grows = g;
          fresh = OfSlice-imp _ _ (λ a e. omega (arith, e, law.next_get m)) s' c.fresh;
          used =
              OfSlice-imp _ _ (λ a e. omega (arith, e, law.next_get m', ap (λ x. x.next) got)) s'
                c.used;
        }

    pub plain_slice-IsDeep : IsDeep plain_slice
    plain_slice-IsDeep = record {
      imp = λ P Q imp m s. OfSlice-imp (P part) (Q part) (imp part) s;
      stays = plain_stays;
      moves = λ P m m' s g used h. h;
      copies = plain_copies;
    }
