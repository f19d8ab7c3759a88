-- ===== src/Tests/Admission.antt =====
-- The machine webhook and the reservation.
use capa_eni_controller.Prelude.{String, ◌≡◌, ◌≢◌, refl, true, none, some, [], ◌∷◌}
use capa_eni_controller.Api.Meta.{get, lookup}
use capa_eni_controller.Api.Pool.{exhaustion_policy_fail}
use capa_eni_controller.Kube.Prog.{ok, err, run, no_interface_with_key}
use capa_eni_controller.Kube.Go.{pure}
use capa_eni_controller.Allocation.{
  reserve, private_ip_lt, new_claim, find_pool, resolve_interface_key,
}
use capa_eni_controller.Sort.{sort_slice}
use capa_eni_controller.Netip.{parse_addr, compare_addr}
use capa_eni_controller.Allocation.Selection.{Outcome, reserve-Outcome}
use capa_eni_controller.Webhook.AwsMachine.{
  AwsMachineCustomDefaulter, Context, default, is_dry_run, resolve_cluster_network, allocate,
  allocated, allocate_from,
}
use capa_eni_controller.Webhook.AwsMachine.Gate.{dry_run, default-LeftAlone}
use capa_eni_controller.System.Admitted.{Requests, default-Requests}
use capa_eni_controller.Allocation.Refusals.{Any}
use capa_eni_controller.Webhook.AwsMachine.Denials.{Explained, default-Denied}
use capa_eni_controller.Kube.History.{Justified, Yields}
use capa_eni_controller.Webhook.AwsMachine.Outcome
use capa_eni_controller.Webhook.AwsMachine.Outcome.{allocate-Outcome}
use capa_eni_controller.Webhook.AwsMachine.Policy.{with_policy, allocate_from-with_policy}
use capa_eni_controller.Webhook.AwsMachine.Again.{Holds, allocate-twice}
use capa_eni_controller.Tests.Memory.{server, stored, platform}
use capa_eni_controller.Tests.Memory.Laws.{store}
use capa_eni_controller.Tests.Data.{
  pool_a, low, middle, machine, claim_of_machine, world, world_with, pool_a-HasIpv4,
}

-- The interface with the lowest address is taken, not the one that was declared first.
reserve_lowest :
    run server (reserve machine pool_a "") world
    ≡ (ok (some (claim_of_machine low)), world_with (claim_of_machine low ∷ []))
unfolding reserve sort_slice private_ip_lt parse_addr compare_addr new_claim
reserve_lowest = refl

reserve_next :
    (run server (reserve machine pool_a "") (world_with (claim_of_machine low ∷ []))).0
    ≡ ok (some (claim_of_machine middle))
unfolding reserve sort_slice private_ip_lt parse_addr compare_addr new_claim
reserve_next = refl

reserve_unknown_key :
    run server (reserve machine pool_a "no-such-key") world
    ≡ (err (no_interface_with_key "pool-a" "no-such-key"), world)
unfolding reserve sort_slice private_ip_lt parse_addr compare_addr new_claim
reserve_unknown_key = refl

reserve_exhausted :
    (run server
      (reserve machine pool_a "edge-worker-1")
      (world_with (claim_of_machine middle ∷ []))).0
    ≡ ok none
unfolding reserve sort_slice private_ip_lt parse_addr compare_addr new_claim
reserve_exhausted = refl

reserve-Outcome_example :
    Outcome server stored store machine pool_a "" world
      (run server (reserve machine pool_a "") world).0
      (run server (reserve machine pool_a "") world).1
reserve-Outcome_example = reserve-Outcome server stored store machine pool_a "" pool_a-HasIpv4 world

allocate-Outcome_example :
    Outcome.Outcome platform server stored store machine world
      (run server (allocate platform machine) world).0
      (run server (allocate platform machine) world).1
allocate-Outcome_example = allocate-Outcome platform server stored store machine world

abbrev with_client : AwsMachineCustomDefaulter
with_client = record { client = true }

abbrev dry_context : Context
dry_context = record { request = some (record { dry_run = some true }) }

default-LeftAlone_example : default platform with_client dry_context machine ≡ pure machine
unfolding is_dry_run
default-LeftAlone_example =
    default-LeftAlone platform with_client dry_context machine (dry_run refl refl)

default-Requests_example :
    Justified
      (Requests platform machine)
      []
      (default platform with_client (record { request = none }) machine)
default-Requests_example = default-Requests platform machine with_client (record { request = none })

allocate_from-with_policy_example :
    allocate_from platform machine (some (with_policy exhaustion_policy_fail pool_a))
    ≡ allocate_from platform machine (some pool_a)
allocate_from-with_policy_example =
    allocate_from-with_policy machine pool_a exhaustion_policy_fail platform

pub allocate_first :
    run server (allocate platform machine) world
    ≡ (ok (allocated machine (claim_of_machine low)), world_with (claim_of_machine low ∷ []))
unfolding allocate resolve_cluster_network get lookup find_pool resolve_interface_key reserve
    sort_slice private_ip_lt parse_addr compare_addr new_claim
allocate_first = refl

allocate_second :
    run server (allocate platform machine) (world_with (claim_of_machine low ∷ [])) ≡ (
      ok (allocated machine (claim_of_machine middle)),
      world_with (claim_of_machine middle ∷ claim_of_machine low ∷ []),
    )
unfolding allocate resolve_cluster_network get lookup find_pool resolve_interface_key reserve
    sort_slice private_ip_lt parse_addr compare_addr new_claim
allocate_second = refl

allocate-twice_example :
    ◌≢◌ {A = String} "eni-0123" "eni-0999"
    × Holds platform server stored store machine
        (world_with (claim_of_machine middle ∷ claim_of_machine low ∷ []))
        "eni-0123"
    × Holds platform server stored store machine
        (world_with (claim_of_machine middle ∷ claim_of_machine low ∷ []))
        "eni-0999"
unfolding allocated
allocate-twice_example =
    allocate-twice platform server stored store machine world
      (world_with (claim_of_machine low ∷ [])) (world_with (claim_of_machine low ∷ []))
      (world_with (claim_of_machine middle ∷ claim_of_machine low ∷ []))
      (allocated machine (claim_of_machine low)) (allocated machine (claim_of_machine middle))
      "eni-0123" "eni-0999" refl allocate_first refl (λ n. refl) allocate_second refl

default-Denied_example :
    Yields Any
      (Explained platform machine)
      []
      (default platform with_client (record { request = none }) machine)
default-Denied_example = default-Denied platform machine with_client (record { request = none })
