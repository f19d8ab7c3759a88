-- ===== src/Controller/EniPool/Counts.antt =====
-- The numbers of available and of claimed interfaces.
use capa_eni_controller.Prelude.{
  ℕ, ◌+◌, ◌≤◌, ◌≡◌, refl, inl, inr, List, [], ◌∷◌, ◌==◌, if◌then◌else◌, arith,
}
use capa_eni_controller.Prelude.Lists.{length}
use capa_eni_controller.Api.Claim.{EniClaim}
use capa_eni_controller.Api.Pool.{EniReference, EniObservation, eni_state_claimed}
use capa_eni_controller.Controller.EniPool.{index_claims, observe}
use capa_eni_controller.Controller.EniPool.Inventory.{Inventory, available_in, observe-Inventory}

-- How many entries are claimed.
unfoldable pub claimed_in : List EniObservation → ℕ
claimed_in [] = 0
claimed_in (o ∷ os) = (if o.state == eni_state_claimed then 1 else 0) + claimed_in os

Inventory-counts :
    (claims : List EniClaim) (rs : List EniReference) (os : List EniObservation)
    → Inventory claims rs os
    → available_in os + claimed_in os ≡ length rs
unfolding available_in claimed_in
Inventory-counts claims [] [] h = refl
Inventory-counts claims [] (o ∷ os) h = absurd h
Inventory-counts claims (r ∷ rs) [] h = absurd h
Inventory-counts claims (r ∷ rs) (o ∷ os) h = elim h.0.state [
  | inl (c, here, same, state, ref) ↦ rw state (omega (arith, Inventory-counts claims rs os h.1))
  | inr (missing, state, ref) ↦ rw state (omega (arith, Inventory-counts claims rs os h.1))
]

-- Of the declared interfaces as many are available, by the metric, as are not reported as claimed;
-- so the metric is never more than the number of the interfaces.
pub observe-counts :
    (claims : List EniClaim) (rs : List EniReference)
    → let (observed, available) = observe (index_claims [] claims) rs [] 0 in
      (available + claimed_in observed ≡ length rs) × (available ≤ length rs)
observe-counts claims rs =
    let (inventory, counted) = observe-Inventory claims rs in
    let all = Inventory-counts claims rs _ inventory in
    (omega (arith, all, counted), omega (arith, all, counted))
