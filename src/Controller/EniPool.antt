-- ===== src/Controller/EniPool.antt =====
-- internal/controller/enipool_controller.go: the reconciler that writes a pool's inventory.
pub mod Inventory
pub mod Requests
pub mod Counts
use capa_eni_controller.Prelude.{ℕ, ◌*◌, ◌+◌, String, Option, none, some, List, [], ◌∷◌, ◌++◌}
use capa_eni_controller.Api.Meta.{Dict, lookup, insert, NamespacedName, Condition}
use capa_eni_controller.Api.Claim.{EniClaim}
use capa_eni_controller.Api.Pool.{
  EniReference, EniObservation, EniPool, eni_state_available, eni_state_claimed,
}
use capa_eni_controller.Kube.Prog.{
  ret, call, ok, err, conflict, api, get_pool, list_claims, update_pool_status,
  set_status_condition, set_pool_available,
}
use capa_eni_controller.Kube.Go.{Go, pure, fail, ◌>>=◌, plain, ReconcileResult, ignore_not_found}
use capa_eni_controller.Controller.AwsMachine.{second}
use capa_eni_controller.Controller.EniClaim.{condition_true}

-- The loop that fills `claimByENI`: a later claim replaces an earlier one of the same interface.
unfoldable pub index_claims : Dict EniClaim → List EniClaim → Dict EniClaim
index_claims by_eni [] = by_eni
index_claims by_eni (c ∷ items) = index_claims (insert c.spec.eni_id c by_eni) items

-- One entry of the inventory.
unfoldable pub observe_one : Dict EniClaim → EniReference → EniObservation
observe_one by_eni configured = elim (lookup configured.id by_eni) [
  | some claim ↦ record {
    key = configured.key;
    id = configured.id;
    availability_zone = "";
    subnet_id = "";
    private_ip = configured.private_ip;
    state = eni_state_claimed;
    claim_ref = some claim.spec.machine_ref;
    message = "";
  }
  | none ↦ record {
    key = configured.key;
    id = configured.id;
    availability_zone = "";
    subnet_id = "";
    private_ip = configured.private_ip;
    state = eni_state_available;
    claim_ref = none;
    message = "";
  }
]

-- The loop over the declared interfaces, with `observed` and `available`.
unfoldable pub observe :
    Dict EniClaim → List EniReference → List EniObservation → ℕ → List EniObservation × ℕ
unfolding observe_one
observe by_eni [] observed available = (observed, available)
observe by_eni (configured ∷ rest) observed available =
    observe by_eni rest (observed ++ (observe_one by_eni configured ∷ []))
      (elim (lookup configured.id by_eni) [ some _ ↦ available | none ↦ available + 1 ])

unfoldable pub ready_condition : EniPool → Condition
ready_condition pool = record {
  kind = "Ready";
  status = condition_true;
  reason = "DeclaredInventoryReady";
  message = "ENI inventory reflects the declared pool and active claims";
  observed_generation = pool.generation;
}

-- Reconcile of a pool that was read.
unfoldable pub reconcile_pool : EniPool → Go ReconcileResult
unfolding index_claims observe ready_condition
reconcile_pool pool = do
  claims ← call list_claims (λ a. ret (plain a))
  let (observed, available) = observe (index_claims [] claims) pool.spec.interfaces [] 0
  call (set_pool_available pool.name pool.spec.region pool.spec.vpc_id available) λ _.
      call (set_status_condition pool.status.conditions (ready_condition pool)) λ cs.
        call
          (update_pool_status (record pool {
            status = record {
              observed_generation = pool.generation;
              interfaces = observed;
              conditions = cs;
            };
          }))
          λ a. elim a [
            | ok _ ↦ pure (record { requeue_after = 300 * second })
            | err conflict ↦ pure (record { requeue_after = 300 * second })
            | err e ↦ fail (api e)
          ]

unfoldable pub reconcile : NamespacedName → Go ReconcileResult
unfolding reconcile_pool
reconcile req =
    call (get_pool req.name)
      λ a. elim a [ err e ↦ ignore_not_found e | ok pool ↦ reconcile_pool pool ]
