-- ===== src/Controller/AwsMachine/Settled.antt =====
-- What the reconciler writes, and when it has nothing left to do.
use capa_eni_controller.Prelude.{
  String, ◌≡◌, ◌≢◌, refl, ◌⊎◌, inl, inr, Bool, true, false, ◌&&◌, Option, none, some, ◌==◌, arith,
  eq_false_of_ne,
}
use capa_eni_controller.Prelude.Lists.{is_empty}
use capa_eni_controller.Api.Constants.{
  allocate_from_pool_annotation, capi_paused_annotation, allocator_paused_annotation,
  allocation_result_annotation, allocation_reason_annotation, allocation_result_allocated,
  allocation_result_dynamic_fallback, allocation_result_failed,
}
use capa_eni_controller.Api.Meta.{
  AwsMachine, GoMap, Dict, find, get, lookup, insert, remove, or_empty, dict_laws,
}
use capa_eni_controller.Api.Claim.{EniClaim}
use capa_eni_controller.Kube.Go.{pure, done}
use capa_eni_controller.Kube.Platform.{Platform}
use capa_eni_controller.Controller.AwsMachine.{
  AwsMachineReconciler, fallen_back, failed, allocated, is_pending, reconcile_machine,
}

-- A machine that is being deleted, has not opted in, is not paused by the allocator or has a network
-- is left alone, without any request.
pub reconcile_machine-settled :
    (platform : Platform) (r : AwsMachineReconciler) (m : AwsMachine)
    → (m.deletion_timestamp ≢ none) ⊎ (is_pending m ≡ false)
    → reconcile_machine platform r m ≡ pure done
unfolding reconcile_machine
reconcile_machine-settled platform r m (inl h) = ground arith
reconcile_machine-settled platform r m (inr h) = ground arith

-- A pending machine has annotations, of which the allocator's pause is one.
annotated :
    (a : GoMap) (alone : Bool)
    → (get allocate_from_pool_annotation a == "true"
        && get allocator_paused_annotation a == "true"
        && alone)
      ≡ true
    → (d : Dict String) × (a ≡ some d)
      × ((or_empty (lookup allocator_paused_annotation d) == "true") ≡ true)
unfolding get
annotated none alone h = absurd (ground arith)
annotated (some d) alone h = (d, refl, ground arith)

-- Neither pause is left, and the result is written.
pub record Released (m : AwsMachine) (result : String) : Type 0 where
  pub capi_runs : find capi_paused_annotation m.annotations ≡ none
  pub allocator_done : find allocator_paused_annotation m.annotations ≡ none
  pub result_set : find allocation_result_annotation m.annotations ≡ some result

module _ (m : AwsMachine) (d : Dict String) (some_d : m.annotations ≡ some d)
    (paused : or_empty (lookup allocator_paused_annotation d) == "true" ≡ true) where
  unfoldable released : Dict String
  released = remove capi_paused_annotation (remove allocator_paused_annotation d)

  allocated-annotations :
      (claim : EniClaim)
      → (allocated m claim).annotations
        ≡ some (
            remove allocation_reason_annotation
              (insert allocation_result_annotation allocation_result_allocated released))
  unfolding allocated get released
  allocated-annotations claim = rw (some_d, paused) refl

  fallen_back-annotations :
      (reason : String)
      → reason ≢ ""
      → (fallen_back m reason).annotations
        ≡ some (
            insert allocation_reason_annotation reason
              (insert allocation_result_annotation allocation_result_dynamic_fallback released))
  unfolding fallen_back get released
  fallen_back-annotations reason named = rw (some_d, paused, eq_false_of_ne reason "" named) refl

  failed-annotations :
      (reason : String)
      → reason ≢ ""
      → (failed m reason).annotations
        ≡ some (
            insert allocation_reason_annotation reason
              (insert allocation_result_annotation allocation_result_failed d))
  unfolding failed
  failed-annotations reason named = rw (some_d, eq_false_of_ne reason "" named) refl

  allocated-Released : (claim : EniClaim) → Released (allocated m claim) allocation_result_allocated
  unfolding released find
  allocated-Released claim = record {
    capi_runs = rw (allocated-annotations claim) (simp dict_laws);
    allocator_done = rw (allocated-annotations claim) (simp dict_laws);
    result_set = rw (allocated-annotations claim) (simp dict_laws);
  }

  fallen_back-Released :
      (reason : String)
      → reason ≢ ""
      → Released (fallen_back m reason) allocation_result_dynamic_fallback
  unfolding released find
  fallen_back-Released reason named = record {
    capi_runs = rw (fallen_back-annotations reason named) (simp dict_laws);
    allocator_done = rw (fallen_back-annotations reason named) (simp dict_laws);
    result_set = rw (fallen_back-annotations reason named) (simp dict_laws);
  }

  failed-find :
      (reason k : String)
      → reason ≢ ""
      → (allocation_reason_annotation == k) ≡ false
      → (allocation_result_annotation == k) ≡ false
      → find k (failed m reason).annotations ≡ find k m.annotations
  unfolding find
  failed-find reason k named h h' =
      rw (failed-annotations reason named, some_d) (simp (dict_laws, h, h'))

unpaused-settled :
    (platform : Platform) (r : AwsMachineReconciler) (m : AwsMachine) (result : String)
    → Released m result
    → reconcile_machine platform r m ≡ pure done
unfolding is_pending get
unpaused-settled platform r m result released =
    reconcile_machine-settled platform r m (inr (not_paused _ _ released.allocator_done))
  where
    not_paused :
        (v : Option String) (b : Bool)
        → v ≡ none
        → (b && (or_empty v == "true") && is_empty m.network_interfaces) ≡ false
    not_paused none b h = ground arith
    not_paused (some s) b h = absurd (ground arith)

failed-network :
    (m : AwsMachine) (reason : String)
    → reason ≢ ""
    → (failed m reason).network_interfaces ≡ m.network_interfaces
unfolding failed
failed-network m reason named = rw (eq_false_of_ne reason "" named) refl

-- What the reconciler writes settles a pending machine, or leaves it pending. After an allocation and
-- after a dynamic fallback with a reason, both pauses are gone, the result is in its annotation and
-- the next reconcile of the machine that was written makes no request. After a failure with a reason
-- the machine is still pending.
pub written-Released :
    (platform : Platform) (r : AwsMachineReconciler) (m : AwsMachine) (claim : EniClaim)
    (reason : String)
    → is_pending m ≡ true
    → reason ≢ ""
    → Released (allocated m claim) allocation_result_allocated
      × (reconcile_machine platform r (allocated m claim) ≡ pure done)
      × Released (fallen_back m reason) allocation_result_dynamic_fallback
      × (reconcile_machine platform r (fallen_back m reason) ≡ pure done)
      × (is_pending (failed m reason) ≡ true)
unfolding is_pending get
written-Released platform r m claim reason pending named = (
  allocated-Released m d some_d paused claim,
  unpaused-settled platform r _ _ (allocated-Released m d some_d paused claim),
  fallen_back-Released m d some_d paused reason named,
  unpaused-settled platform r _ _ (fallen_back-Released m d some_d paused reason named),
  rw (still.0, still.1, failed-network m reason named) pending,
)
  where
    d : Dict String
    d = (annotated m.annotations (is_empty m.network_interfaces) pending).0

    some_d : m.annotations ≡ some d
    some_d = (annotated m.annotations (is_empty m.network_interfaces) pending).1

    paused : (or_empty (lookup allocator_paused_annotation d) == "true") ≡ true
    paused = (annotated m.annotations (is_empty m.network_interfaces) pending).2

    still :
        (find allocate_from_pool_annotation (failed m reason).annotations
          ≡ find allocate_from_pool_annotation m.annotations)
        × (find allocator_paused_annotation (failed m reason).annotations
            ≡ find allocator_paused_annotation m.annotations)
    still = (
      failed-find m d some_d paused reason allocate_from_pool_annotation named refl refl,
      failed-find m d some_d paused reason allocator_paused_annotation named refl refl,
    )
