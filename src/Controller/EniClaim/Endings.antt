-- ===== src/Controller/EniClaim/Endings.antt =====
-- How a reconcile of a claim ends.
use capa_eni_controller.Prelude.{
  ℕ, ◌-◌, ◌≡◌, ◌≢◌, refl, inl, inr, none, List, [], arith, false, ltb, ltb→lt, Bool-cases,
  Option-cases,
}
use capa_eni_controller.Prelude.Lists.{In}
use capa_eni_controller.Api.Constants.{claim_finalizer}
use capa_eni_controller.Api.Meta.{NamespacedName, AwsMachine}
use capa_eni_controller.Api.Claim.{EniClaim}
use capa_eni_controller.Api.Pool.{EniPool}
use capa_eni_controller.Kube.Prog.{
  ok, err, not_found, already_exists, conflict, other, get_claim, get_pool, get_aws_machine, now,
}
use capa_eni_controller.Kube.Go.{Go, ReconcileResult}
use capa_eni_controller.Kube.History.{Event, did, Yields, gives, asked}
use capa_eni_controller.Allocation.Refusals.{Any}
use capa_eni_controller.Controller.EniClaim.{
  contains_string, remove_finalizer, ensure_finalizer, grace, reclaim_at, reclaim, update_status,
  check_machine, unless_deleted, is_stale, phase_of, configured_private_ip, reconcile_live, release,
  reconcile_claim, reconcile, ready_condition, bool_condition, remove_string,
}
use capa_eni_controller.Controller.EniClaim.Status.{not_stale}
use capa_eni_controller.Controller.EniClaim.Deletion.{machine_key}
use capa_eni_controller.Controller.EniClaim.Ended.{
  Current, as_read, as_patched, expected_phase, IsRight, ClaimEnded, gone, released, young,
  reclaimed, bound, refused, more_Current,
}

module _ (req : NamespacedName) where
  reclaim_at-ClaimEnded :
      {h : List Event} (c : EniClaim) (t : ℕ)
      → Current req h c
      → In (did (get_aws_machine (machine_key c)) (err not_found)) h
      → In (did now t) h
      → Yields Any (ClaimEnded req) h (reclaim_at c t)
  unfolding reclaim_at
  reclaim_at-ClaimEnded c t current missing clock =
      elim (Bool-cases (ltb (t - c.creation_timestamp) grace)) [
        | inl e ↦
            rw e
              (gives (young c t current missing clock (ltb→lt (t - c.creation_timestamp) grace e)))
        | inr e ↦ rw e (
            asked tt (elim [
              | ok u ↦
                  gives (reclaimed c (more_Current req _ c current) (inr missing) (inl (inl refl)))
              | err not_found ↦
                  gives (reclaimed c (more_Current req _ c current) (inr missing) (inr (inl refl)))
              | err already_exists ↦ gives (refused already_exists _ (inl refl) (refl, λ f. cc))
              | err conflict ↦ gives (refused conflict _ (inl refl) (refl, λ f. cc))
              | err (other s) ↦ gives (refused (other s) _ (inl refl) (refl, λ f. cc))
            ]))
      ]

  is_stale-IsRight :
      (c : EniClaim) (pool : EniPool)
      → (let ip = configured_private_ip pool c.spec.eni_id in
          is_stale c (phase_of ip) ip ≡ false → IsRight c ip)
  unfolding is_stale phase_of
  is_stale-IsRight c pool e =
      let ip = configured_private_ip pool c.spec.eni_id in
      not_stale c.status.phase (expected_phase ip) c.status.private_ip ip e

  update_status-ClaimEnded :
      {h : List Event} (b c : EniClaim) (pool : EniPool) (m : AwsMachine)
      → In (did (get_claim req.name) (ok b)) h
      → Current req h c
      → In (did (get_pool b.spec.pool_ref.name) (ok pool)) h
      → In (did (get_aws_machine (machine_key c)) (ok m)) h
      → Yields Any (ClaimEnded req) h (update_status c pool)
  unfolding update_status phase_of ready_condition bool_condition
  update_status-ClaimEnded b c pool m i current read there =
      let ip = configured_private_ip pool c.spec.eni_id in
      elim (Bool-cases (is_stale c (phase_of ip) ip)) [
        | inr e ↦
            rw e (gives (bound b c pool m i current read there (inl (is_stale-IsRight c pool e))))
        | inl e ↦ rw e (
            asked tt λ cs. asked tt (elim [
              | ok x ↦ gives (
                  bound b c pool m (inr (inr i))
                    (more_Current req _ c (more_Current req _ c current)) (inr (inr read))
                    (inr (inr there))
                    (inr (record {
                      written = _;
                      answer = x;
                      conditions = cs;
                      ready = ready_condition c (phase_of ip);
                      is_ready = (refl, refl);
                      set = inr (inl refl);
                      update = inl refl;
                      status = refl;
                    })))
              | err a ↦ gives (refused a _ (inl refl) refl)
            ]))
      ]

  check_machine-ClaimEnded :
      {h : List Event} (b c : EniClaim) (pool : EniPool)
      → In (did (get_claim req.name) (ok b)) h
      → Current req h c
      → In (did (get_pool b.spec.pool_ref.name) (ok pool)) h
      → Yields Any (ClaimEnded req) h (check_machine c pool)
  unfolding check_machine reclaim
  check_machine-ClaimEnded b c pool i current read = asked tt (elim [
    | ok m ↦
        update_status-ClaimEnded b c pool m (inr i) (more_Current req _ c current) (inr read)
          (inl refl)
    | err not_found ↦ asked tt λ t.
        reclaim_at-ClaimEnded c t (more_Current req _ c (more_Current req _ c current))
          (inr (inl refl)) (inl refl)
    | err already_exists ↦ gives (refused already_exists _ (inl refl) (refl, λ f. cc))
    | err conflict ↦ gives (refused conflict _ (inl refl) (refl, λ f. cc))
    | err (other s) ↦ gives (refused (other s) _ (inl refl) (refl, λ f. cc))
  ])

  reconcile_live-ClaimEnded :
      {h : List Event} (c : EniClaim) (pool : EniPool)
      → In (did (get_claim req.name) (ok c)) h
      → In (did (get_pool c.spec.pool_ref.name) (ok pool)) h
      → Yields Any (ClaimEnded req) h (reconcile_live c pool)
  unfolding reconcile_live ensure_finalizer
  reconcile_live-ClaimEnded c pool i read =
      elim (Bool-cases (contains_string c.finalizers claim_finalizer)) [
        | inl e ↦ rw e (check_machine-ClaimEnded c c pool i (as_read i) read)
        | inr e ↦ rw e (
            asked tt (elim [
              | ok c' ↦
                  check_machine-ClaimEnded c c' pool (inr i)
                    (as_patched c _ (inr i) (inl refl) refl) (inr read)
              | err a ↦ gives (refused a _ (inl refl) refl)
            ]))
      ]

  release-ClaimEnded :
      {h : List Event} (c : EniClaim)
      → In (did (get_claim req.name) (ok c)) h
      → c.deletion_timestamp ≢ none
      → Yields Any (ClaimEnded req) h (release c)
  unfolding release remove_finalizer remove_string
  release-ClaimEnded c i deleting =
      elim (Bool-cases (contains_string c.finalizers claim_finalizer)) [
        | inr e ↦ rw e (gives (released c i deleting (inl e)))
        | inl e ↦ rw e (
            asked tt (elim [
              | ok x ↦ gives (released c (inr i) deleting (inr (_, x, inl refl, refl)))
              | err a ↦ gives (refused a _ (inl refl) refl)
            ]))
      ]

  unless_deleted-ClaimEnded :
      {h : List Event} (c : EniClaim) (live : Go ReconcileResult)
      → In (did (get_claim req.name) (ok c)) h
      → Yields Any (ClaimEnded req) h live
      → Yields Any (ClaimEnded req) h (unless_deleted c live)
  unfolding unless_deleted
  unless_deleted-ClaimEnded c live i y = elim (Option-cases c.deletion_timestamp) [
    | inl e ↦ rw (e, unless_deleted) y
    | inr (t, e) ↦ rw (e, unless_deleted) (release-ClaimEnded c i (λ n. absurd (ground arith)))
  ]

  reconcile_claim-ClaimEnded :
      {h : List Event} (c : EniClaim)
      → In (did (get_claim req.name) (ok c)) h
      → Yields Any (ClaimEnded req) h (reconcile_claim c)
  unfolding reconcile_claim
  reconcile_claim-ClaimEnded c i = asked tt (elim [
    | ok pool ↦
        unless_deleted-ClaimEnded c _ (inr i) (reconcile_live-ClaimEnded c pool (inr i) (inl refl))
    | err not_found ↦
        unless_deleted-ClaimEnded c _ (inr i) (gives (refused not_found _ (inl refl) refl))
    | err already_exists ↦ gives (refused already_exists _ (inl refl) refl)
    | err conflict ↦ gives (refused conflict _ (inl refl) refl)
    | err (other s) ↦ gives (refused (other s) _ (inl refl) refl)
  ])

  -- Whatever is answered, a reconcile of a claim ends with nothing more to do only where the claim is
  -- not there, is released (it is being deleted, and the finalizer was not there or a patch that
  -- leaves the rest as it was has taken it), or was reclaimed (its machine is not there, and the server has deleted it or did not have it);
  -- it looks again in five seconds only where the machine is not there and the claim is younger than
  -- the grace, and in five minutes only where the machine is there and the status has the address
  -- configured in the pool and its phase, or was updated to have them, with the condition Ready; and an error is that of a request that was refused.
  pub reconcile-ClaimEnded : Yields Any (ClaimEnded req) [] (reconcile req)
  unfolding reconcile
  reconcile-ClaimEnded = asked tt (elim [
    | ok c ↦ reconcile_claim-ClaimEnded c (inl refl)
    | err not_found ↦ gives (gone (inl refl))
    | err already_exists ↦ gives (refused already_exists _ (inl refl) (refl, λ f. cc))
    | err conflict ↦ gives (refused conflict _ (inl refl) (refl, λ f. cc))
    | err (other s) ↦ gives (refused (other s) _ (inl refl) (refl, λ f. cc))
  ])
