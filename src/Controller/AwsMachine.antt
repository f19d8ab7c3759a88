-- ===== src/Controller/AwsMachine.antt =====
-- internal/controller/awsmachine_controller.go: the reconciler that gives an interface to a machine
-- which the allocator has paused, and releases the pause.
pub mod Settled
pub mod Pause
pub mod Retry
pub mod Requests
pub mod Sources
pub mod Writes
pub mod Same
pub mod Exhausted
pub mod Network
pub mod Ended
pub mod Endings
use capa_eni_controller.Prelude.{
  ℕ, ◌*◌, String, Bool, true, false, not, ◌&&◌, ◌||◌, Option, none, some, List, [], ◌∷◌, ◌==◌,
  if◌then◌else◌,
}
use capa_eni_controller.Prelude.Lists.{is_empty}
use capa_eni_controller.Api.Constants.{
  allocate_from_pool_annotation, capi_paused_annotation, allocator_paused_annotation,
  allocation_result_annotation, allocation_reason_annotation, allocation_result_allocated,
  allocation_result_dynamic_fallback, allocation_result_failed,
}
use capa_eni_controller.Api.Meta.{
  NamespacedName, AwsMachine, OwnerReference, get, insert, remove, made,
}
use capa_eni_controller.Api.Claim.{EniClaim}
use capa_eni_controller.Api.Pool.{EniPool, exhaustion_policy_wait, exhaustion_policy_fail}
use capa_eni_controller.Kube.Prog.{
  Prog, ret, call, Result, ok, err, no_machine_owner, no_aws_cluster, network_not_ready,
  get_aws_machine, get_machine, get_cluster, get_aws_cluster, list_claims, patch_aws_machine,
  record_event, inc_dynamic_fallbacks,
}
use capa_eni_controller.Kube.Prog
use capa_eni_controller.Kube.Go.{
  Go, pure, fail, ◌>>=◌, ◌>>◌, plain, wrap, ReconcileResult, done, ignore_not_found,
}
use capa_eni_controller.Kube.Platform.{Platform}
use capa_eni_controller.Allocation
use capa_eni_controller.Allocation.{is_machine_owner, reserve}

-- Whether the reconciler has an event recorder.
pub record AwsMachineReconciler : Type 0 where
  pub recorder : Bool

abbrev pub second : ℕ
second = 1_000_000_000

unfoldable pub remove_allocator_pause : AwsMachine → AwsMachine
remove_allocator_pause machine = elim machine.annotations [
  | none ↦ machine
  | some m ↦
      if not (get allocator_paused_annotation machine.annotations == "true")
      then machine
      else record machine {
        annotations = some (remove capi_paused_annotation (remove allocator_paused_annotation m));
      }
]

unfoldable pub set_annotation : AwsMachine → String → String → AwsMachine
set_annotation machine key value =
    let m = made machine.annotations in
    if value == ""
    then record machine { annotations = some (remove key m) }
    else record machine { annotations = some (insert key value m) }

-- What dynamicFallback, markFailed and the end of Reconcile write into the machine.
unfoldable pub fallen_back : AwsMachine → String → AwsMachine
unfolding remove_allocator_pause set_annotation
fallen_back machine reason =
    set_annotation
      (set_annotation (remove_allocator_pause machine) allocation_result_annotation
        allocation_result_dynamic_fallback)
      allocation_reason_annotation reason

unfoldable pub failed : AwsMachine → String → AwsMachine
unfolding set_annotation
failed machine reason =
    set_annotation (set_annotation machine allocation_result_annotation allocation_result_failed)
      allocation_reason_annotation reason

unfoldable pub allocated : AwsMachine → EniClaim → AwsMachine
unfolding remove_allocator_pause set_annotation
allocated machine claim =
    set_annotation
      (set_annotation
        (remove_allocator_pause (record machine { network_interfaces = claim.spec.eni_id ∷ [] }))
        allocation_result_annotation allocation_result_allocated)
      allocation_reason_annotation ""

unfoldable pub dynamic_fallback : AwsMachineReconciler → AwsMachine → String → Go ReconcileResult
unfolding fallen_back
dynamic_fallback r machine reason =
    let patch : Go ReconcileResult = (do
      call (patch_aws_machine machine (fallen_back machine reason)) (λ a. ret (plain a))
      pure done) in
    call (inc_dynamic_fallbacks reason) λ _.
      if r.recorder
      then call (record_event "Warning" "DynamicFallback" "ReleaseToCAPA") (λ _. patch)
      else patch

unfoldable pub mark_failed : AwsMachine → String → Go ReconcileResult
unfolding failed
mark_failed machine reason = do
  call (patch_aws_machine machine (failed machine reason)) (λ a. ret (plain a))
  pure done

-- The claim that names the machine, the first one in the list.
unfoldable pub claim_of : AwsMachine → List EniClaim → Option EniClaim
claim_of machine [] = none
claim_of machine (claim ∷ items) =
    let later = claim_of machine items in
    if claim.spec.machine_ref.namespace == machine.namespace
      && claim.spec.machine_ref.name == machine.name
    then some claim
    else later

unfoldable pub find_pool : String → String → Go (Option EniPool)
unfolding Allocation.find_pool
find_pool region vpc_id = Allocation.find_pool region vpc_id

unfoldable pub claim_interface : AwsMachine → EniPool → String → Go (Option EniClaim)
unfolding claim_of
claim_interface machine pool interface_key = do
  claims ← call list_claims (λ a. ret (plain a))
  elim (claim_of machine claims) [
    | some claim ↦ pure (some claim)
    | none ↦ reserve machine pool interface_key
  ]

-- The tests by which Reconcile leaves a machine alone.
unfoldable pub is_pending : AwsMachine → Bool
is_pending machine =
    get allocate_from_pool_annotation machine.annotations == "true"
    && get allocator_paused_annotation machine.annotations == "true"
    && is_empty machine.network_interfaces

module _ (platform : Platform) where
  -- The name of the first owner that is a Machine, "" without one.
  unfoldable pub owner_name : List OwnerReference → String
  owner_name [] = ""
  owner_name (owner ∷ owners) =
      let rest = owner_name owners in if is_machine_owner platform owner then owner.name else rest

  unfoldable pub resolve_cluster_network : AwsMachine → Go (String × String)
  unfolding owner_name
  resolve_cluster_network aws_machine =
      let ns = aws_machine.namespace in
      let owner = owner_name aws_machine.owner_references in
      if owner == "" then fail no_machine_owner else do
        machine ←
            call (get_machine (record { namespace = ns; name = owner }))
              (λ a. ret (wrap "get owner Machine" a))
        cluster ←
            call (get_cluster (record { namespace = ns; name = machine.cluster_name }))
              (λ a. ret (wrap "get Cluster" a))
        let ref = cluster.infrastructure_ref
        if not (platform.is_defined ref) || not (ref.kind == "AWSCluster")
            then fail no_aws_cluster
            else do
              aws_cluster ←
                  call (get_aws_cluster (record { namespace = ns; name = ref.name }))
                    (λ a. ret (wrap "get AWSCluster" a))
              if aws_cluster.region == "" || aws_cluster.vpc_id == ""
                  then fail network_not_ready
                  else pure (aws_cluster.region, aws_cluster.vpc_id)

  unfoldable pub resolve_interface_key : AwsMachine → Go String
  unfolding Allocation.resolve_interface_key
  resolve_interface_key aws_machine = Allocation.resolve_interface_key platform aws_machine

  -- What Reconcile does after the claim of a machine is known.
  unfoldable pub conclude :
      AwsMachineReconciler → AwsMachine → EniPool → Option EniClaim → Go ReconcileResult
  unfolding mark_failed dynamic_fallback allocated
  conclude r machine pool none =
      if pool.spec.exhaustion_policy == exhaustion_policy_wait
      then pure (record { requeue_after = 30 * second })
      else if pool.spec.exhaustion_policy == exhaustion_policy_fail
      then mark_failed machine "PoolExhausted"
      else dynamic_fallback r machine "PoolExhausted"
  conclude r machine pool (some claim) = do
    call (patch_aws_machine machine (allocated machine claim)) (λ a. ret (plain a))
    if r.recorder
        then call (record_event "Normal" "ENIAllocated" "AllocateENI") (λ _. pure done)
        else pure done

  -- The body of Reconcile once the network of the machine's cluster is known.
  unfoldable pub reconcile_in :
      AwsMachineReconciler → AwsMachine → String → String → Go ReconcileResult
  unfolding find_pool resolve_interface_key claim_interface conclude
  reconcile_in r machine region vpc_id = do
    found ← find_pool region vpc_id
    elim found [
      | none ↦ dynamic_fallback r machine "NoMatchingPool"
      | some pool ↦ do
        interface_key ← resolve_interface_key machine
        claim ← claim_interface machine pool interface_key
        conclude r machine pool claim
    ]

  unfoldable pub reconcile_machine : AwsMachineReconciler → AwsMachine → Go ReconcileResult
  unfolding is_pending reconcile_in resolve_cluster_network
  reconcile_machine r machine = elim machine.deletion_timestamp [
    | some _ ↦ pure done
    | none ↦
        if not (is_pending machine)
        then pure done
        else Prog.bind (resolve_cluster_network machine) λ network. elim network [
          | err _ ↦ pure (record { requeue_after = 10 * second })
          | ok (region, vpc_id) ↦ reconcile_in r machine region vpc_id
        ]
  ]

  unfoldable pub reconcile : AwsMachineReconciler → NamespacedName → Go ReconcileResult
  unfolding reconcile_machine
  reconcile r req =
      call (get_aws_machine req)
        λ a. elim a [ err e ↦ ignore_not_found e | ok machine ↦ reconcile_machine r machine ]
