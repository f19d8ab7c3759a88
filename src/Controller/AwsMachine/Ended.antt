-- ===== src/Controller/AwsMachine/Ended.antt =====
-- The ends of a reconcile of a machine, and those of its last steps.
use capa_eni_controller.Prelude.{
  ◌*◌, String, ◌≡◌, ◌≢◌, refl, ◌⊎◌, inl, inr, false, Option, none, some, List, ◌==◌, eq_iff,
}
use capa_eni_controller.Prelude.Lists.{In}
use capa_eni_controller.Api.Meta.{NamespacedName, AwsMachine}
use capa_eni_controller.Api.Claim.{EniClaim}
use capa_eni_controller.Api.Pool.{EniPool, exhaustion_policy_wait, exhaustion_policy_fail}
use capa_eni_controller.Kube.Prog.{
  Result, ApiError, Error, ok, err, api, not_found, get_aws_machine, patch_aws_machine,
}
use capa_eni_controller.Kube.Go.{ReconcileResult, done}
use capa_eni_controller.Kube.Platform.{Platform}
use capa_eni_controller.Kube.History.{Event, did, Yields, gives, asked, Yields-if}
use capa_eni_controller.Allocation.Refusals.{Failed, refused, Any}
use capa_eni_controller.Controller.AwsMachine.{
  AwsMachineReconciler, second, is_pending, conclude, dynamic_fallback, mark_failed,
}
use capa_eni_controller.Controller.AwsMachine.Exhausted.{Exhausted, Claimed}
use capa_eni_controller.Controller.AwsMachine.Network.{Unresolved}
use capa_eni_controller.Controller.AwsMachine.Writes.{IsListed}

module _ (platform : Platform) (r : AwsMachineReconciler) (req : NamespacedName) where
  -- The ends: the machine is gone or left alone; its network is not known yet; the pool is exhausted
  -- and waits; a patch of the machine was answered; or the error of a request that was refused, or of
  -- pools and keys that do not fit.
  pub data MachineEnded (h : List Event) : Result Error ReconcileResult → Type 0 where
    gone : In (did (get_aws_machine req) (err not_found)) h → MachineEnded h (ok done)
    left_alone :
        (m : AwsMachine)
        → In (did (get_aws_machine req) (ok m)) h
        → (m.deletion_timestamp ≢ none) ⊎ (is_pending m ≡ false)
        → MachineEnded h (ok done)
    unresolved :
        (m : AwsMachine) (e : Error)
        → In (did (get_aws_machine req) (ok m)) h
        → Unresolved platform m h e
        → MachineEnded h (ok (record { requeue_after = 10 * second }))
    waits :
        (m : AwsMachine) (pool : EniPool)
        → In (did (get_aws_machine req) (ok m)) h
        → IsListed h pool
        → pool.spec.exhaustion_policy ≡ exhaustion_policy_wait
        → Exhausted platform m pool h
        → MachineEnded h (ok (record { requeue_after = 30 * second }))
    patched :
        (m m' m'' : AwsMachine)
        → In (did (get_aws_machine req) (ok m)) h
        → In (did (patch_aws_machine m m') (ok m'')) h
        → MachineEnded h (ok done)
    refused_machine :
        (a : ApiError)
        → a ≢ not_found
        → In (did (get_aws_machine req) (err a)) h
        → MachineEnded h (err (api a))
    allocation_failed :
        (m : AwsMachine) (e : Error)
        → In (did (get_aws_machine req) (ok m)) h
        → Failed platform m h e
        → MachineEnded h (err e)

  module _ (m : AwsMachine) where
    abbrev pub Read : List Event → Type 0
    Read h = In (did (get_aws_machine req) (ok m)) h

    pub dynamic_fallback-MachineEnded :
        {h : List Event} (reason : String)
        → Read h
        → Yields Any MachineEnded h (dynamic_fallback r m reason)
    unfolding dynamic_fallback
    dynamic_fallback-MachineEnded reason i = asked tt (λ u.
        Yields-if Any MachineEnded r.recorder _ _
          (λ e. asked tt (λ v. asked tt (elim [
            | ok x ↦ gives (patched m _ x (inr (inr (inr i))) (inl refl))
            | err a ↦
                gives (allocation_failed m _ (inr (inr (inr i))) (refused a _ (inl refl) refl))
          ])))
          (λ e. asked tt (elim [
            | ok x ↦ gives (patched m _ x (inr (inr i)) (inl refl))
            | err a ↦ gives (allocation_failed m _ (inr (inr i)) (refused a _ (inl refl) refl))
          ])))

    mark_failed-MachineEnded :
        {h : List Event} (reason : String)
        → Read h
        → Yields Any MachineEnded h (mark_failed m reason)
    unfolding mark_failed
    mark_failed-MachineEnded reason i = asked tt (elim [
      | ok x ↦ gives (patched m _ x (inr i) (inl refl))
      | err a ↦ gives (allocation_failed m _ (inr i) (refused a _ (inl refl) refl))
    ])

    pub conclude-MachineEnded :
        {h : List Event} (pool : EniPool) (found : Option EniClaim)
        → Read h
        → IsListed h pool
        → Claimed m pool platform h (ok found)
        → Yields Any MachineEnded h (conclude platform r m pool found)
    unfolding conclude
    conclude-MachineEnded pool (some c) i l q = asked tt (elim [
      | ok x ↦
          Yields-if Any MachineEnded r.recorder _ _
            (λ e. asked tt (λ u. gives (patched m _ x (inr (inr i)) (inr (inl refl)))))
            (λ e. gives (patched m _ x (inr i) (inl refl)))
      | err a ↦ gives (allocation_failed m _ (inr i) (refused a _ (inl refl) refl))
    ])
    conclude-MachineEnded pool none i l q =
        Yields-if Any MachineEnded (pool.spec.exhaustion_policy == exhaustion_policy_wait) _ _
          (λ e. gives (waits m pool i l ((eq_iff _ _).0 e) q))
          (λ e.
            Yields-if Any MachineEnded (pool.spec.exhaustion_policy == exhaustion_policy_fail) _ _
              (λ e'. mark_failed-MachineEnded "PoolExhausted" i)
              (λ e'. dynamic_fallback-MachineEnded "PoolExhausted" i))
