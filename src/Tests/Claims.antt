-- ===== src/Tests/Claims.antt =====
-- Claims: their webhook, their reconciler and the reconciler of the machines they are for.
use capa_eni_controller.Prelude.{
  some, none, ap, sym, ◌≡◌, ◌≢◌, ◌↔◌, refl, inl, inr, true, ne_of_eq_false, [], ◌∷◌,
}
use capa_eni_controller.Prelude.Lists.{Pairs}
use capa_eni_controller.Api.Constants.{
  allocation_result_allocated, allocation_result_dynamic_fallback,
}
use capa_eni_controller.Api.Meta.{NamespacedName, get, lookup, find}
use capa_eni_controller.Api.Claim.{EniClaim, eni_claim_phase_bound}
use capa_eni_controller.Kube.Prog.{ok, run}
use capa_eni_controller.Kube.Go.{pure, done}
use capa_eni_controller.Kube.History.{Justified}
use capa_eni_controller.Webhook.EniClaim.{validate_create, validate_update}
use capa_eni_controller.Webhook.EniClaim.Uniqueness.{
  Stored, empty, create, Stored-unique, validate_update-spec,
}
use capa_eni_controller.Controller.AwsMachine.{
  AwsMachineReconciler, is_pending, allocated, fallen_back, failed, claim_interface,
  reconcile_machine,
}
use capa_eni_controller.Controller.AwsMachine.Settled.{Released, written-Released}
use capa_eni_controller.Controller.AwsMachine.Writes
use capa_eni_controller.Controller.AwsMachine.Retry.{Reuses, claim_interface-Reuses}
use capa_eni_controller.Controller.EniClaim
use capa_eni_controller.Controller.EniClaim.{
  configured_private_ip, phase_of, contains_string, remove_string,
}
use capa_eni_controller.Controller.EniClaim.Deletion.{MayAsk, reconcile-Justified}
use capa_eni_controller.Controller.EniClaim.Reclaim.{orphan-removed}
use capa_eni_controller.Controller.EniClaim.Status.{phase_of-IsValid}
use capa_eni_controller.Controller.AwsMachine.{remove_allocator_pause}
use capa_eni_controller.Controller.AwsMachine.Pause.{remove_allocator_pause-paused}
use capa_eni_controller.Webhook.AwsMachine
use capa_eni_controller.Tests.Memory.{World, server, stored, platform}
use capa_eni_controller.Tests.Memory.Laws.{lifecycle, store, complete}
use capa_eni_controller.Tests.Data.{
  machine, pool_a, low, middle, paused_machine, claim_of_machine, world_with,
}
use capa_eni_controller.Tests.Pools.{pool_a-IsValid}

abbrev low_claim : EniClaim
low_claim = claim_of_machine low

two-Stored : Stored (claim_of_machine middle ∷ low_claim ∷ [])
unfolding validate_create
two-Stored =
    create (claim_of_machine middle) (create low_claim empty tt refl)
      (ne_of_eq_false "eni-0123" "eni-0999" refl, tt) refl

Stored-unique_example :
    Pairs
      (λ (c d : EniClaim). d.spec.eni_id ≢ c.spec.eni_id)
      (claim_of_machine middle ∷ low_claim ∷ [])
Stored-unique_example = Stored-unique two-Stored

validate_update-spec_example :
    (validate_update low_claim (claim_of_machine middle) ≡ ok tt)
    ↔ (low_claim.spec ≡ (claim_of_machine middle).spec)
validate_update-spec_example = validate_update-spec low_claim (claim_of_machine middle)

abbrev low_name : NamespacedName
low_name = record { namespace = ""; name = "eni-0123" }

reconcile-Justified_example : Justified MayAsk [] (EniClaim.reconcile low_name)
reconcile-Justified_example = reconcile-Justified low_name

abbrev orphan_world : World
orphan_world = record (world_with (low_claim ∷ [])) { aws_machines = [] }

abbrev marked_claim : EniClaim
marked_claim = record low_claim { deletion_timestamp = some 60_000_000_000; generation = 1 }

abbrev marked_world : World
marked_world = record orphan_world { claims = marked_claim ∷ [] }

-- The machine is gone and the claim older than the grace: the claim is marked, then removed.
reconcile_orphan : run server (EniClaim.reconcile low_name) orphan_world ≡ (ok done, marked_world)
unfolding EniClaim.reconcile
reconcile_orphan = refl

reconcile_marked :
    run server (EniClaim.reconcile low_name) marked_world
    ≡ (ok done, record orphan_world { claims = [] })
unfolding EniClaim.reconcile remove_string
reconcile_marked = refl

orphan-removed_example :
    stored (run server (EniClaim.reconcile low_name) marked_world).1 "eni-0123" ≡ none
orphan-removed_example =
    orphan-removed server stored lifecycle low_name orphan_world marked_world low_claim pool_a
      (record {
        is_stored = refl;
        alive = refl;
        finalizers = refl;
        pool = pool_a;
        has_pool = refl;
        no_machine = refl;
        time = 60_000_000_000;
        clock = refl;
        old = refl;
      })
      refl (ap (λ r. stored r.1 "eni-0123") (sym reconcile_orphan)) refl

phase_of-IsValid_example :
    (configured_private_ip pool_a "eni-0123" ≡ "10.0.0.9")
    × (phase_of (configured_private_ip pool_a "eni-0123") ≡ eni_claim_phase_bound)
phase_of-IsValid_example =
    phase_of-IsValid pool_a low low_claim pool_a-IsValid (inr (inr (inl refl))) refl

abbrev pub reconciler : AwsMachineReconciler
reconciler = record { recorder = true }

written-Released_example :
    Released (allocated paused_machine low_claim) allocation_result_allocated
    × (reconcile_machine platform reconciler (allocated paused_machine low_claim) ≡ pure done)
    × Released (fallen_back paused_machine "PoolExhausted") allocation_result_dynamic_fallback
    × (reconcile_machine platform reconciler (fallen_back paused_machine "PoolExhausted")
        ≡ pure done)
    × (is_pending (failed paused_machine "PoolExhausted") ≡ true)
unfolding is_pending get lookup
written-Released_example =
    written-Released platform reconciler paused_machine low_claim "PoolExhausted" refl
      (ne_of_eq_false "PoolExhausted" "" refl)

claim_interface-Reuses_example :
    Reuses server stored store paused_machine
      (world_with (low_claim ∷ []))
      (run server (claim_interface paused_machine pool_a "") (world_with (low_claim ∷ []))).0
      (run server (claim_interface paused_machine pool_a "") (world_with (low_claim ∷ []))).1
claim_interface-Reuses_example =
    claim_interface-Reuses server stored store paused_machine pool_a ""
      (world_with (low_claim ∷ [])) "eni-0123" low_claim complete refl (refl, refl)

remove_allocator_pause-paused_example :
    find "eni.dcn.ssu.ac.kr/allocate-from-pool"
      (remove_allocator_pause (AwsMachine.paused machine)).annotations
    ≡ find "eni.dcn.ssu.ac.kr/allocate-from-pool" machine.annotations
unfolding find lookup
remove_allocator_pause-paused_example =
    remove_allocator_pause-paused machine "eni.dcn.ssu.ac.kr/allocate-from-pool" refl refl
