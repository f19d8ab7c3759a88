-- ===== src/Webhook/EniPool/Others.antt =====
-- The test of a pool against the other pools.
use capa_eni_controller.Prelude.{
  String, ◌≡◌, refl, ◌⊎◌, inl, inr, ◌↔◌, true, ◌&&◌, none, List, [], ◌∷◌, ◌==◌, arith, eq_iff,
  Bool-cases,
}
use capa_eni_controller.Prelude.Lists.{All}
use capa_eni_controller.Api.Pool.{EniReference, EniPool}
use capa_eni_controller.Kube.Prog.{ok}
use capa_eni_controller.Allocation.Pools.{SameNetwork}
use capa_eni_controller.Webhook.EniPool.{shared_interface, check_others}
use capa_eni_controller.Webhook.EniPool.Interfaces.{Lacks, has_text-Lacks, Lacks-has_text}

-- The other pool is an earlier version of this one, or has another network and no interface in
-- common.
abbrev pub Compatible : EniPool → List String → EniPool → Type 0
Compatible obj ids other =
    (other.name ≡ obj.name)
    ⊎ ((¬ SameNetwork other obj) × All (λ (r : EniReference). Lacks r.id ids) other.spec.interfaces)

shared_interface-none :
    (ids : List String) (rs : List EniReference)
    → (shared_interface ids rs ≡ none) ↔ All (λ (r : EniReference). Lacks r.id ids) rs
unfolding shared_interface
shared_interface-none ids [] = (λ h. tt, λ h. refl)
shared_interface-none ids (r ∷ rs) =
    let rest = shared_interface-none ids rs in
    (
      (λ h. (has_text-Lacks r.id ids (ground arith), rest.0 (ground arith))),
      (λ h. ground (arith, Lacks-has_text r.id ids h.0, rest.1 h.1)),
    )

same_network :
    (p q : EniPool)
    → ((p.spec.region == q.spec.region && p.spec.vpc_id == q.spec.vpc_id) ≡ true) ↔ SameNetwork p q
same_network p q = (
  (λ h. ground (arith, eq_iff p.spec.region q.spec.region, eq_iff p.spec.vpc_id q.spec.vpc_id)),
  (λ h. ground (arith, eq_iff p.spec.region q.spec.region, eq_iff p.spec.vpc_id q.spec.vpc_id)),
)

module _ (obj : EniPool) (ids : List String) (other : EniPool) (items : List EniPool) where
  -- What passing the test says of the first pool, and of the others.
  first_pool : check_others obj ids (other ∷ items) ≡ ok tt → Compatible obj ids other
  unfolding check_others
  first_pool h = elim (Bool-cases (other.name == obj.name)) [
    | inl n ↦ inl ((eq_iff other.name obj.name).0 n)
    | inr n ↦ inr (
      (λ same. ground (arith, (same_network other obj).1 same)),
      (shared_interface-none ids other.spec.interfaces).0 (ground arith),
    )
  ]

  other_pools : check_others obj ids (other ∷ items) ≡ ok tt → check_others obj ids items ≡ ok tt
  unfolding check_others
  other_pools h = ground arith

  passes :
      Compatible obj ids other
      → check_others obj ids items ≡ ok tt
      → check_others obj ids (other ∷ items) ≡ ok tt
  unfolding check_others
  passes (inl e) h = ground (arith, eq_iff other.name obj.name)
  passes (inr (apart, lacks)) h = ground (
    arith,
    λ (e : (other.spec.region == obj.spec.region && other.spec.vpc_id == obj.spec.vpc_id) ≡ true).
        apart ((same_network other obj).0 e),
    (shared_interface-none ids other.spec.interfaces).1 lacks,
  )

module _ (obj : EniPool) (ids : List String) where
  pub check_others-Compatible :
      (items : List EniPool) → (check_others obj ids items ≡ ok tt) ↔ All (Compatible obj ids) items
  unfolding check_others
  check_others-Compatible [] = (λ h. tt, λ h. refl)
  check_others-Compatible (other ∷ items) =
      let rest = check_others-Compatible items in
      (
        (λ h. (first_pool obj ids other items h, rest.0 (other_pools obj ids other items h))),
        (λ h. passes obj ids other items h.0 (rest.1 h.1)),
      )
