-- ===== src/Controller/EniClaim/Patch.antt =====
-- What removeFinalizer gives to the patch, on memory: the base is a deep copy, and the finalizers of the
-- claim are filtered in their array.
use capa_eni_controller.Prelude.{
  ℕ, String, ◌<◌, ◌≤◌, ◌≡◌, refl, sym, ap, ◌∙◌, Option, none, some, List, arith,
}
use capa_eni_controller.Prelude.Lists.{length}
use capa_eni_controller.Api.Constants.{claim_finalizer}
use capa_eni_controller.Api.Claim.{EniClaim}
use capa_eni_controller.Slices.{Slice, Heap}
use capa_eni_controller.DeepCopy.{Memory, ClaimCells, read_slice, read_claim}
use capa_eni_controller.DeepCopy.Code.{CopyMeta, deep_copy_claim}
use capa_eni_controller.DeepCopy.Copies.{
  IsMetaCopy, IsUsed, Apart, CopiesClaim, deep_copy_claim-Copies,
}
use capa_eni_controller.Controller.EniClaim.{remove_string}
use capa_eni_controller.Controller.EniClaim.InPlace.{
  Removes, remove_string_in_place, remove_string_in_place-Removes,
}

-- removeString on finalizers that may be nil: of nil, `values[:0]` is nil and the loop has no round.
unfoldable pub remove_in_place :
    Heap String → Option Slice → String → Option (Option Slice × Heap String)
unfolding remove_string_in_place
remove_in_place h none unwanted = some (none, h)
remove_in_place h (some values) unwanted = elim (remove_string_in_place h values unwanted) [
  | none ↦ none
  | some (r, h') ↦ some (some r, h')
]

-- The base and the claim that are given to the patch; none is a panic.
unfoldable pub patch_arguments :
    CopyMeta → Memory → ClaimCells → Option ((ClaimCells × ClaimCells) × Memory)
patch_arguments copy_meta m c =
    let (base, m₁) = deep_copy_claim copy_meta m c in
    elim (remove_in_place m₁.texts c.finalizers claim_finalizer) [
      | none ↦ none
      | some (r, texts) ↦ some ((base, record c { finalizers = r }), record m₁ { texts = texts })
    ]

-- As values: the claim as it was, and the claim without the finalizer.
abbrev pub Patches : Memory → ClaimCells → Option ((ClaimCells × ClaimCells) × Memory) → Type 0
Patches m c none = ⊥
Patches m c (some ((base, c'), m')) =
    (read_claim m' base ≡ read_claim m c)
    × (read_claim m' c' ≡ record (read_claim m c) {
      finalizers = remove_string (read_claim m c).finalizers claim_finalizer;
    })

abbrev with_finalizers : EniClaim → List String → EniClaim
with_finalizers c finalizers = record c { finalizers = finalizers }

-- The finalizers are within their array.
abbrev pub IsWithin : Heap String → Option Slice → Type 0
IsWithin h none = Unit
IsWithin h (some s) = s.len ≤ length (h.cells s.array)

-- The list without the text, and the base as it was.
abbrev RemovesFrom :
    Heap String
    → Option Slice
    → Option Slice
    → String
    → Option (Option Slice × Heap String)
    → Type 0
RemovesFrom h values base unwanted none = ⊥
RemovesFrom h values base unwanted (some (r, h')) =
    (read_slice h' r ≡ remove_string (read_slice h values) unwanted)
    × (read_slice h' base ≡ read_slice h base)

Removes-RemovesFrom :
    (h : Heap String) (values base : Slice) (unwanted : String)
    (found : Option (Slice × Heap String))
    → Removes h values base unwanted found
    → RemovesFrom h
        (some values)
        (some base)
        unwanted
        (elim found [ none ↦ none | some (r, h') ↦ some (some r, h') ])
Removes-RemovesFrom h values base unwanted none o = o
Removes-RemovesFrom h values base unwanted (some (r, h')) o = o

remove_in_place-RemovesFrom :
    (h : Heap String) (values base : Option Slice) (unwanted : String)
    → IsWithin h values
    → Apart values base
    → RemovesFrom h values base unwanted (remove_in_place h values unwanted)
unfolding remove_in_place remove_string
remove_in_place-RemovesFrom h none none unwanted fits apart = (refl, refl)
remove_in_place-RemovesFrom h none (some b) unwanted fits apart = absurd apart
remove_in_place-RemovesFrom h (some s) none unwanted fits apart = absurd apart
remove_in_place-RemovesFrom h (some s) (some b) unwanted fits apart =
    Removes-RemovesFrom h s b unwanted _
      (remove_string_in_place-Removes h s b unwanted fits (λ e. apart (sym e)))

kept-IsWithin :
    (h h' : Heap String) (s : Option Slice)
    → ((a : ℕ) → a < h.next → h'.cells a ≡ h.cells a)
    → IsUsed h s
    → IsWithin h s
    → IsWithin h' s
kept-IsWithin h h' none keeps used fits = tt
kept-IsWithin h h' (some s) keeps used fits = omega (arith, fits, ap length (keeps s.array used))

Removes-Patches :
    (m m₁ : Memory) (c base : ClaimCells) (found : Option (Option Slice × Heap String))
    → CopiesClaim m c base m₁
    → RemovesFrom m₁.texts c.finalizers base.finalizers claim_finalizer found
    → Patches m c (elim found [
      | none ↦ none
      | some (r, texts) ↦ some ((base, record c { finalizers = r }), record m₁ { texts = texts })
    ])
Removes-Patches m m₁ c base none copies o = o
Removes-Patches m m₁ c base (some (r, texts)) copies (removed, kept) = (
  ap (with_finalizers (read_claim m₁ base)) kept ∙ copies.copy,
  ap (with_finalizers (read_claim m₁ c)) removed
      ∙ ap (λ d. with_finalizers d (remove_string d.finalizers claim_finalizer)) copies.original,
)

-- removeFinalizer patches from the claim as it was to the claim without the finalizer, although the
-- removal writes into the array of the claim's finalizers: the base is a copy that it does not reach.
-- For slices whose arrays are in use, finalizers within their array, and a copy of the metadata as
-- apimachinery documents it.
pub patch_arguments-Patches :
    (copy_meta : CopyMeta) (m : Memory) (c : ClaimCells)
    → IsMetaCopy copy_meta
    → IsUsed m.texts c.finalizers
    → IsWithin m.texts c.finalizers
    → IsUsed m.conditions c.status.conditions
    → Patches m c (patch_arguments copy_meta m c)
unfolding patch_arguments deep_copy_claim
patch_arguments-Patches copy_meta m c meta used fits used_conditions =
    let copies = deep_copy_claim-Copies copy_meta m c meta used used_conditions in
    let base = (deep_copy_claim copy_meta m c).0 in
    let m₁ = (deep_copy_claim copy_meta m c).1 in
    Removes-Patches m m₁ c base _ copies (
      remove_in_place-RemovesFrom m₁.texts c.finalizers base.finalizers claim_finalizer
        (kept-IsWithin m.texts m₁.texts c.finalizers (meta.keeps m.texts c.finalizers) used fits)
        copies.finalizers_apart)
