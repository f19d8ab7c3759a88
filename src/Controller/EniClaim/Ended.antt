-- ===== src/Controller/EniClaim/Ended.antt =====
-- The ends of a reconcile of a claim.
use capa_eni_controller.Prelude.{
  ℕ, String, ◌*◌, ◌-◌, ◌<◌, ◌≡◌, ◌≢◌, ◌⊎◌, inr, none, List, [], ◌∷◌, false, not, ◌==◌, ◌++◌,
  if◌then◌else◌,
}
use capa_eni_controller.Prelude.Lists.{In, filter}
use capa_eni_controller.Api.Constants.{claim_finalizer}
use capa_eni_controller.Api.Meta.{NamespacedName, Condition, AwsMachine}
use capa_eni_controller.Api.Claim.{
  EniClaim, EniClaimPhase, eni_claim_phase_bound, eni_claim_phase_failed,
}
use capa_eni_controller.Api.Pool.{EniPool}
use capa_eni_controller.Kube.Prog.{
  Result, ApiError, Error, ok, err, api, not_found, get_claim, get_pool, get_aws_machine, now,
  delete_claim, patch_claim, update_claim_status, set_status_condition,
}
use capa_eni_controller.Kube.Go.{ReconcileResult, done}
use capa_eni_controller.Kube.History.{Event, did}
use capa_eni_controller.Controller.AwsMachine.{second}
use capa_eni_controller.Controller.EniClaim.{contains_string, grace, configured_private_ip}
use capa_eni_controller.Controller.EniClaim.Deletion.{machine_key}

-- The server has refused the request with that error.
abbrev pub IsRefusal : Event → ApiError → Type 0
IsRefusal (did (get_claim n) r) a = (r ≡ err a) × (a ≢ not_found)
IsRefusal (did (get_pool n) r) a = r ≡ err a
IsRefusal (did (get_aws_machine k) r) a = (r ≡ err a) × (a ≢ not_found)
IsRefusal (did (delete_claim c) r) a = (r ≡ err a) × (a ≢ not_found)
IsRefusal (did (patch_claim b c) r) a = r ≡ err a
IsRefusal (did (update_claim_status c) r) a = r ≡ err a
IsRefusal _ a = ⊥

-- The phase that belongs to an address.
abbrev pub expected_phase : String → EniClaimPhase
expected_phase ip = if ip == "" then eni_claim_phase_failed else eni_claim_phase_bound

-- The status has that address, and its phase.
abbrev pub IsRight : EniClaim → String → Type 0
IsRight c ip = (c.status.phase ≡ expected_phase ip) × (c.status.private_ip ≡ ip)

-- The server has taken the claim with that address and its phase, and the condition Ready set.
pub record Updated (h : List Event) (c : EniClaim) (ip : String) : Type 0 where
  pub written : EniClaim
  pub answer : EniClaim
  pub conditions : List Condition
  pub ready : Condition
  pub is_ready :
      (ready.kind ≡ "Ready")
      × (ready.status ≡ (if expected_phase ip == eni_claim_phase_bound then "True" else "False"))
  pub set : In (did (set_status_condition c.status.conditions ready) conditions) h
  pub update : In (did (update_claim_status written) (ok answer)) h
  pub status : written ≡ record c {
    status = record { phase = expected_phase ip; private_ip = ip; conditions = conditions };
  }

module _ (req : NamespacedName) where
  -- The claim as the server has answered it, to the read or to the patch that adds the finalizer.
  pub data Current (h : List Event) (c : EniClaim) : Type 0 where
    as_read : In (did (get_claim req.name) (ok c)) h → Current h c
    as_patched :
        (b d : EniClaim)
        → In (did (get_claim req.name) (ok b)) h
        → In (did (patch_claim b d) (ok c)) h
        → d ≡ record b { finalizers = b.finalizers ++ (claim_finalizer ∷ []) }
        → Current h c

  -- The ends: the claim is gone; it is being deleted and carries no finalizer of the controller, or
  -- carried it until a patch took it; its machine is not there and it is younger than the grace, or
  -- the server has deleted it or did not have it any more; its machine is there, and its status as it
  -- should be or updated; or a request was
  -- refused.
  pub data ClaimEnded (h : List Event) : Result Error ReconcileResult → Type 0 where
    gone : In (did (get_claim req.name) (err not_found)) h → ClaimEnded h (ok done)
    released :
        (c : EniClaim)
        → In (did (get_claim req.name) (ok c)) h
        → c.deletion_timestamp ≢ none
        → (contains_string c.finalizers claim_finalizer ≡ false)
          ⊎ ((d : EniClaim) × (e : EniClaim) × In (did (patch_claim c d) (ok e)) h
              × (d ≡ record c {
                finalizers = filter (λ f. not (f == claim_finalizer)) c.finalizers;
              }))
        → ClaimEnded h (ok done)
    young :
        (c : EniClaim) (time : ℕ)
        → Current h c
        → In (did (get_aws_machine (machine_key c)) (err not_found)) h
        → In (did now time) h
        → time - c.creation_timestamp < grace
        → ClaimEnded h (ok (record { requeue_after = 5 * second }))
    reclaimed :
        (c : EniClaim)
        → Current h c
        → In (did (get_aws_machine (machine_key c)) (err not_found)) h
        → In (did (delete_claim c) (ok tt)) h ⊎ In (did (delete_claim c) (err not_found)) h
        → ClaimEnded h (ok done)
    bound :
        (b c : EniClaim) (pool : EniPool) (m : AwsMachine)
        → In (did (get_claim req.name) (ok b)) h
        → Current h c
        → In (did (get_pool b.spec.pool_ref.name) (ok pool)) h
        → In (did (get_aws_machine (machine_key c)) (ok m)) h
        → IsRight c (configured_private_ip pool c.spec.eni_id)
          ⊎ Updated h c (configured_private_ip pool c.spec.eni_id)
        → ClaimEnded h (ok (record { requeue_after = 300 * second }))
    refused : (a : ApiError) (e : Event) → In e h → IsRefusal e a → ClaimEnded h (err (api a))

  pub more_Current : {h : List Event} (e : Event) (c : EniClaim) → Current h c → Current (e ∷ h) c
  more_Current e c (as_read i) = as_read (inr i)
  more_Current e c (as_patched b d i j f) = as_patched b d (inr i) (inr j) f
