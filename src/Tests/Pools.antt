-- ===== src/Tests/Pools.antt =====
-- The pool webhook and the pools it admits.
use capa_eni_controller.Prelude.{◌≡◌, ◌↔◌, refl, true, some, none, [], ◌∷◌}
use capa_eni_controller.Prelude.Lists.{All}
use capa_eni_controller.Kube.Prog.{ok, err, run, duplicate_private_ip, multiple_pools}
use capa_eni_controller.Netip.{parse_addr, addr_eq}
use capa_eni_controller.Allocation.{match_pool}
use capa_eni_controller.Allocation.Pools.{match_pool-filter}
use capa_eni_controller.Webhook.EniPool.{EniPoolCustomValidator, check_interface, validate}
use capa_eni_controller.Webhook.EniPool.Validity.{IsValid, Compatible, validate-IsValid}
use capa_eni_controller.Webhook.EniPool.Admission.{
  Admitted, empty, put, Coherent, Admitted-Coherent, match_pool-Admitted,
}
use capa_eni_controller.Controller.EniPool.{index_claims, observe}
use capa_eni_controller.Controller.EniPool.Inventory.{Inventory, available_in, observe-Inventory}
use capa_eni_controller.Prelude.{◌+◌, ◌≤◌}
use capa_eni_controller.Prelude.Lists.{length}
use capa_eni_controller.Kube.History.{Yields}
use capa_eni_controller.Controller.EniPool.Requests.{MayAsk, Finished, reconcile-Finished}
use capa_eni_controller.Controller.EniPool
use capa_eni_controller.Controller.EniPool.Counts.{claimed_in, observe-counts}
use capa_eni_controller.Tests.Memory.{World, server}
use capa_eni_controller.Tests.Data.{pool_a, pool_b, low, claim_of_machine, world}

abbrev validator : EniPoolCustomValidator
validator = record { client = true }

abbrev before : World
before = record world { pools = [] }

pool_a-passes : (run server (validate validator pool_a) before).0 ≡ ok tt
unfolding validate check_interface parse_addr addr_eq
pool_a-passes = refl

pool_b-passes : (run server (validate validator pool_b) world).0 ≡ ok tt
unfolding validate check_interface parse_addr addr_eq
pool_b-passes = refl

-- A pool that has the address of another of its interfaces is refused.
duplicate-refused :
    (run server
      (validate validator (record pool_b {
        spec = record (pool_b.spec) {
          interfaces = low ∷ record low { id = "eni-0001"; key = "" } ∷ [];
        };
      }))
      before).0
    ≡ err (duplicate_private_ip "10.0.0.9")
unfolding validate check_interface parse_addr addr_eq
duplicate-refused = refl

validate-IsValid_example :
    ((run server (validate validator pool_b) world).0 ≡ ok tt)
    ↔ (IsValid pool_b × All (Compatible pool_b) (pool_a ∷ []))
validate-IsValid_example =
    validate-IsValid validator server pool_b (pool_a ∷ []) world world refl refl

pub pool_a-IsValid : IsValid pool_a
pool_a-IsValid =
    ((validate-IsValid validator server pool_a [] before before refl refl).0 pool_a-passes).0

both-Admitted : Admitted validator server (pool_b ∷ pool_a ∷ [])
both-Admitted =
    put pool_b world world (put pool_a before before empty refl pool_a-passes) refl pool_b-passes

Admitted-Coherent_example : Coherent (pool_b ∷ pool_a ∷ [])
Admitted-Coherent_example = Admitted-Coherent validator server refl both-Admitted

match_pool-Admitted_example :
    match_pool "ap-northeast-2" "vpc-0123" (pool_b ∷ pool_a ∷ []) none ≡ ok (some pool_a)
match_pool-Admitted_example =
    match_pool-Admitted validator server "ap-northeast-2" "vpc-0123" refl both-Admitted

match_pool-filter_example :
    match_pool "ap-northeast-2" "vpc-0123" (pool_a ∷ pool_b ∷ pool_a ∷ []) none
    ≡ err (multiple_pools "ap-northeast-2" "vpc-0123")
match_pool-filter_example =
    match_pool-filter "ap-northeast-2" "vpc-0123" (pool_a ∷ pool_b ∷ pool_a ∷ [])

observe-Inventory_example :
    let (observed, available) =
      observe (index_claims [] (claim_of_machine low ∷ [])) pool_a.spec.interfaces [] 0 in
    Inventory (claim_of_machine low ∷ []) pool_a.spec.interfaces observed
    × (available ≡ available_in observed)
observe-Inventory_example = observe-Inventory (claim_of_machine low ∷ []) pool_a.spec.interfaces

observe-counts_example :
    let (observed, available) =
      observe (index_claims [] (claim_of_machine low ∷ [])) pool_a.spec.interfaces [] 0 in
    (available + claimed_in observed ≡ length pool_a.spec.interfaces)
    × (available ≤ length pool_a.spec.interfaces)
observe-counts_example = observe-counts (claim_of_machine low ∷ []) pool_a.spec.interfaces

reconcile-Finished_example :
    Yields
      (MayAsk (record { namespace = ""; name = "pool-a" }))
      (Finished (record { namespace = ""; name = "pool-a" }))
      []
      (EniPool.reconcile (record { namespace = ""; name = "pool-a" }))
reconcile-Finished_example = reconcile-Finished (record { namespace = ""; name = "pool-a" })
