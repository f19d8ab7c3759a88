-- ===== src/Controller/EniClaim.antt =====
-- internal/controller/eniclaim_controller.go: the reconciler that keeps a claim's status, removes
-- the claim of a machine that is gone, and lets a deleted claim go.
pub mod Deletion
pub mod Status
pub mod Finalizers
pub mod InPlace
pub mod Patch
pub mod Ended
pub mod Endings
pub mod Reclaim
use capa_eni_controller.Prelude.{
  ℕ, ◌-◌, ◌*◌, ◌+◌, String, Bool, true, false, not, ◌&&◌, ◌||◌, Option, none, some, List, [], ◌∷◌,
  ◌++◌, ◌==◌, if◌then◌else◌, ltb,
}
use capa_eni_controller.Prelude.Lists.{filter}
use capa_eni_controller.Api.Constants.{claim_finalizer}
use capa_eni_controller.Api.Meta.{AwsMachine, NamespacedName, Condition}
use capa_eni_controller.Api.Claim.{
  EniClaim, EniClaimPhase, EniClaimStatus, eni_claim_phase_bound, eni_claim_phase_failed,
}
use capa_eni_controller.Api.Pool.{EniReference, EniPool}
use capa_eni_controller.Kube.Prog.{
  ret, call, ok, err, not_found, api, get_claim, get_pool, get_aws_machine, patch_claim,
  delete_claim, update_claim_status, now, set_status_condition,
}
use capa_eni_controller.Kube.Go.{
  Go, pure, fail, ◌>>=◌, ◌>>◌, plain, ReconcileResult, done, ignore_not_found,
}
use capa_eni_controller.Controller.AwsMachine.{second}

unfoldable pub contains_string : List String → String → Bool
contains_string [] wanted = false
contains_string (value ∷ values) wanted =
    let rest = contains_string values wanted in if value == wanted then true else rest

-- The array of `values`, which `values[:0]` keeps, is the subject of the child InPlace.
unfoldable pub remove_string : List String → String → List String
remove_string values unwanted = filter (λ value. not (value == unwanted)) values

-- metav1.ConditionTrue and metav1.ConditionFalse
abbrev pub condition_true : String
condition_true = "True"

abbrev pub condition_false : String
condition_false = "False"

unfoldable pub bool_condition : Bool → String
bool_condition value = if value then condition_true else condition_false

unfoldable pub configured_ip : List EniReference → String → String
configured_ip [] eni_id = ""
configured_ip (c ∷ rest) eni_id =
    let later = configured_ip rest eni_id in if c.id == eni_id then c.private_ip else later

unfoldable pub configured_private_ip : EniPool → String → String
unfolding configured_ip
configured_private_ip pool eni_id = configured_ip pool.spec.interfaces eni_id

unfoldable pub remove_finalizer : EniClaim → Go Unit
unfolding contains_string remove_string
remove_finalizer claim =
    if not (contains_string claim.finalizers claim_finalizer) then pure tt else do
      call
          (patch_claim claim
            (record claim { finalizers = remove_string claim.finalizers claim_finalizer }))
          (λ a. ret (plain a))
      pure tt

-- The finalizer is added where it is missing; the claim goes on as the server answers it.
unfoldable pub ensure_finalizer : EniClaim → Go EniClaim
unfolding contains_string
ensure_finalizer claim =
    if contains_string claim.finalizers claim_finalizer
    then pure claim
    else call
        (patch_claim claim
          (record claim { finalizers = claim.finalizers ++ (claim_finalizer ∷ []) }))
        (λ a. ret (plain a))

abbrev pub grace : ℕ
grace = 30 * second

-- The machine of the claim is not there; `time` is the clock's.
unfoldable pub reclaim_at : EniClaim → ℕ → Go ReconcileResult
reclaim_at claim time =
    if ltb (time - claim.creation_timestamp) grace
    then pure (record { requeue_after = 5 * second })
    else call (delete_claim claim)
        λ a. elim a [ ok _ ↦ pure done | err not_found ↦ pure done | err e ↦ fail (api e) ]

unfoldable pub reclaim : EniClaim → Go ReconcileResult
unfolding reclaim_at
reclaim claim = call now (reclaim_at claim)

unfoldable pub phase_of : String → EniClaimPhase
phase_of private_ip = if private_ip == "" then eni_claim_phase_failed else eni_claim_phase_bound

unfoldable pub ready_condition : EniClaim → EniClaimPhase → Condition
unfolding bool_condition
ready_condition claim phase = record {
  kind = "Ready";
  status = bool_condition (phase == eni_claim_phase_bound);
  reason = phase;
  message = "";
  observed_generation = claim.generation;
}

-- Whether the status is not the wanted one.
unfoldable pub is_stale : EniClaim → EniClaimPhase → String → Bool
is_stale claim phase private_ip =
    not (claim.status.phase == phase) || not (claim.status.private_ip == private_ip)

-- The machine of the claim is there.
unfoldable pub update_status : EniClaim → EniPool → Go ReconcileResult
unfolding configured_private_ip phase_of ready_condition is_stale
update_status claim pool =
    let private_ip = configured_private_ip pool claim.spec.eni_id in
    let phase = phase_of private_ip in
    let requeue : ReconcileResult = record { requeue_after = 300 * second } in
    if is_stale claim phase private_ip
    then (call (set_status_condition claim.status.conditions (ready_condition claim phase)) λ cs.
        let status : EniClaimStatus = record {
          phase = phase;
          private_ip = private_ip;
          conditions = cs;
        } in
        call (update_claim_status (record claim { status = status })) (λ a. ret (plain a))
        >> pure requeue)
    else pure requeue

-- Reconcile from the search for the claim's machine on.
unfoldable pub check_machine : EniClaim → EniPool → Go ReconcileResult
unfolding reclaim update_status
check_machine claim pool =
    let ref = claim.spec.machine_ref in
    call (get_aws_machine (record { namespace = ref.namespace; name = ref.name })) λ a. elim a [
      | err not_found ↦ reclaim claim
      | err e ↦ fail (api e)
      | ok _ ↦ update_status claim pool
    ]

-- Reconcile of a claim that is not being deleted and whose pool is there.
unfoldable pub reconcile_live : EniClaim → EniPool → Go ReconcileResult
unfolding ensure_finalizer check_machine
reconcile_live claim pool = do claim' ← ensure_finalizer claim; check_machine claim' pool

unfoldable pub release : EniClaim → Go ReconcileResult
unfolding remove_finalizer
release claim = do remove_finalizer claim; pure done

-- A claim that is being deleted is released; another one goes on.
unfoldable pub unless_deleted : EniClaim → Go ReconcileResult → Go ReconcileResult
unfolding release
unless_deleted claim live = elim claim.deletion_timestamp [ some _ ↦ release claim | none ↦ live ]

unfoldable pub reconcile_claim : EniClaim → Go ReconcileResult
unfolding unless_deleted reconcile_live
reconcile_claim claim = call (get_pool claim.spec.pool_ref.name) λ a. elim a [
  | err not_found ↦ unless_deleted claim (fail (api not_found))
  | err e ↦ fail (api e)
  | ok pool ↦ unless_deleted claim (reconcile_live claim pool)
]

unfoldable pub reconcile : NamespacedName → Go ReconcileResult
unfolding reconcile_claim
reconcile req =
    call (get_claim req.name)
      λ a. elim a [ err e ↦ ignore_not_found e | ok claim ↦ reconcile_claim claim ]
