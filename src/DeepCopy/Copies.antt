-- ===== src/DeepCopy/Copies.antt =====
-- A deep copy reads as the original, which stays, and shares no array with it.
use capa_eni_controller.Prelude.{
  String, ℕ, ◌<◌, ◌≤◌, ◌≡◌, ◌≢◌, refl, ap, ◌∙◌, Option, none, some, List, arith,
}
use capa_eni_controller.Prelude.Lists.{take}
use capa_eni_controller.Api.Meta.{Condition}
use capa_eni_controller.Api.Claim.{EniClaim}
use capa_eni_controller.Slices.{Slice, Heap, contents}
use capa_eni_controller.Slices.Laws.{write-same, write-other, take-take}
use capa_eni_controller.DeepCopy.{
  Memory, ClaimCells, PoolSpecCells, read_slice, read_claim, read_pool_spec,
}
use capa_eni_controller.DeepCopy.Code.{
  copy_slice, CopyMeta, deep_copy_claim_status, deep_copy_claim, deep_copy_pool_spec,
}

abbrev pub OfSlice : (ℕ → Type 0) → Option Slice → Type 0
OfSlice P none = Unit
OfSlice P (some s) = P s.array

-- A nil slice is copied to nil, another one to an array.
abbrev pub SameNil : Option Slice → Option Slice → Type 0
SameNil none none = Unit
SameNil (some s) (some t) = Unit
SameNil _ _ = ⊥

-- apimachinery copies the finalizers into an array that was not in use, and nil to nil.
pub record IsMetaCopy (copy_meta : CopyMeta) : Type 0 where
  pub reads :
      (h : Heap String) (s : Option Slice)
      → read_slice (copy_meta h s).1 (copy_meta h s).0 ≡ read_slice h s
  pub nil : (h : Heap String) (s : Option Slice) → SameNil s (copy_meta h s).0
  pub grows : (h : Heap String) (s : Option Slice) → h.next ≤ (copy_meta h s).1.next
  pub fresh : (h : Heap String) (s : Option Slice) → OfSlice (λ a. h.next ≤ a) (copy_meta h s).0
  pub within :
      (h : Heap String) (s : Option Slice)
      → OfSlice (λ a. a < (copy_meta h s).1.next) (copy_meta h s).0
  pub keeps :
      (h : Heap String) (s : Option Slice) (a : ℕ)
      → a < h.next
      → (copy_meta h s).1.cells a ≡ h.cells a

-- The array of a slice is in use.
abbrev pub IsUsed : {A : Type 0} → Heap A → Option Slice → Type 0
IsUsed h none = Unit
IsUsed h (some s) = s.array < h.next

-- Two slices are both nil, or have different arrays.
abbrev pub Apart : Option Slice → Option Slice → Type 0
Apart none none = Unit
Apart none (some t) = ⊥
Apart (some s) none = ⊥
Apart (some s) (some t) = s.array ≢ t.array

module _ {A : Type 0} (h : Heap A) where
  copy_slice-keeps :
      (s : Option Slice) (a : ℕ) → a < h.next → (copy_slice h s).1.cells a ≡ h.cells a
  unfolding copy_slice
  copy_slice-keeps none a below = refl
  copy_slice-keeps (some s) a below = write-other h h.next a (contents h s) (λ e. omega (arith, e))

  pub copy_slice-reads :
      (s : Option Slice) → read_slice (copy_slice h s).1 (copy_slice h s).0 ≡ read_slice h s
  unfolding copy_slice
  copy_slice-reads none = refl
  copy_slice-reads (some s) =
      ap (take s.len) (write-same h h.next (contents h s)) ∙ take-take s.len (h.cells s.array)

  pub copy_slice-original :
      (s : Option Slice) → IsUsed h s → read_slice (copy_slice h s).1 s ≡ read_slice h s
  copy_slice-original none used = refl
  copy_slice-original (some s) used = ap (take s.len) (copy_slice-keeps (some s) s.array used)

  pub copy_slice-Apart : (s : Option Slice) → IsUsed h s → Apart s (copy_slice h s).0
  unfolding copy_slice
  copy_slice-Apart none used = tt
  copy_slice-Apart (some s) used = λ e. omega (arith, e)

-- A slice in memory that is kept.
kept_reads :
    {A : Type 0} (h h' : Heap A) (s : Option Slice)
    → ((a : ℕ) → a < h.next → h'.cells a ≡ h.cells a)
    → IsUsed h s
    → read_slice h' s ≡ read_slice h s
kept_reads h h' none keeps used = refl
kept_reads h h' (some s) keeps used = ap (take s.len) (keeps s.array used)

fresh-Apart :
    {A : Type 0} (h : Heap A) (s t : Option Slice)
    → SameNil s t
    → IsUsed h s
    → OfSlice (λ a. h.next ≤ a) t
    → Apart s t
fresh-Apart h none none same used fresh = tt
fresh-Apart h none (some t) same used fresh = same
fresh-Apart h (some s) none same used fresh = same
fresh-Apart h (some s) (some t) same used fresh = λ e. omega (arith, e, used, fresh)

-- A copy of a claim beside the claim.
pub record CopiesClaim (m : Memory) (c c' : ClaimCells) (m' : Memory) : Type 0 where
  pub copy : read_claim m' c' ≡ read_claim m c
  pub original : read_claim m' c ≡ read_claim m c
  pub finalizers_apart : Apart c.finalizers c'.finalizers
  pub conditions_apart : Apart c.status.conditions c'.status.conditions

-- A claim that is read from its parts.
pub read_eq :
    (m m' : Memory) (c : ClaimCells) (finalizers : List String) (conditions : List Condition)
    → finalizers ≡ (read_claim m c).finalizers
    → conditions ≡ (read_claim m c).status.conditions
    → ◌≡◌ {A = EniClaim}
        (record (read_claim m c) {
          finalizers = finalizers;
          status = record ((read_claim m c).status) { conditions = conditions };
        })
        (read_claim m c)
read_eq m m' c finalizers conditions e k = rw (e, k) refl

-- The deep copy of a claim reads as the claim, which still reads as before, and shares neither the
-- array of the finalizers nor that of the conditions with it; for slices whose arrays are in use, and a
-- copy of the metadata as apimachinery documents it.
pub deep_copy_claim-Copies :
    (copy_meta : CopyMeta) (m : Memory) (c : ClaimCells)
    → IsMetaCopy copy_meta
    → IsUsed m.texts c.finalizers
    → IsUsed m.conditions c.status.conditions
    → CopiesClaim m c (deep_copy_claim copy_meta m c).0 (deep_copy_claim copy_meta m c).1
unfolding deep_copy_claim deep_copy_claim_status
deep_copy_claim-Copies copy_meta m c meta used used_conditions = record {
  copy =
      read_eq m m c _ _ (meta.reads m.texts c.finalizers)
        (copy_slice-reads m.conditions c.status.conditions);
  original =
      read_eq m m c _ _
        (kept_reads m.texts (copy_meta m.texts c.finalizers).1 c.finalizers
          (meta.keeps m.texts c.finalizers) used)
        (copy_slice-original m.conditions c.status.conditions used_conditions);
  finalizers_apart =
      fresh-Apart m.texts c.finalizers (copy_meta m.texts c.finalizers).0
        (meta.nil m.texts c.finalizers) used (meta.fresh m.texts c.finalizers);
  conditions_apart = copy_slice-Apart m.conditions c.status.conditions used_conditions;
}

-- The deep copy of the specification of a pool reads as the specification, which still reads as before,
-- and does not share the array of the interfaces with it; for interfaces whose array is in use.
pub deep_copy_pool_spec-Copies :
    (m : Memory) (s : PoolSpecCells)
    → IsUsed m.references s.interfaces
    → (let (s', m') = deep_copy_pool_spec m s in
        (read_pool_spec m' s' ≡ read_pool_spec m s)
        × (read_pool_spec m' s ≡ read_pool_spec m s)
        × Apart s.interfaces s'.interfaces)
unfolding deep_copy_pool_spec
deep_copy_pool_spec-Copies m s used = (
  ap (λ i. record (read_pool_spec m s) { interfaces = i })
      (copy_slice-reads m.references s.interfaces),
  ap (λ i. record (read_pool_spec m s) { interfaces = i })
      (copy_slice-original m.references s.interfaces used),
  copy_slice-Apart m.references s.interfaces used,
)
