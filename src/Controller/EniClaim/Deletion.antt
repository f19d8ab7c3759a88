-- ===== src/Controller/EniClaim/Deletion.antt =====
-- When a claim is deleted, and when its finalizer goes.
use capa_eni_controller.Prelude.{
  ℕ, ◌-◌, ◌≤◌, ◌≡◌, ◌≢◌, refl, ◌⊎◌, inl, inr, none, List, [], ◌∷◌, ◌++◌, arith, ltb, ltb→le,
  Bool-cases, Option-cases,
}
use capa_eni_controller.Prelude.Lists.{In}
use capa_eni_controller.Api.Constants.{claim_finalizer}
use capa_eni_controller.Api.Meta.{NamespacedName}
use capa_eni_controller.Api.Claim.{EniClaim}
use capa_eni_controller.Api.Pool.{EniPool}
use capa_eni_controller.Kube.Prog.{
  Op, delete_claim, patch_claim, update_claim_status, get_aws_machine, now, IsRead, ok, err,
  not_found, already_exists, conflict, other,
}
use capa_eni_controller.Kube.History.{Event, did, Justified, quiet, asks}
use capa_eni_controller.Kube.Go.{Go, ReconcileResult}
use capa_eni_controller.Controller.EniClaim.{
  contains_string, remove_string, remove_finalizer, ensure_finalizer, grace, reclaim_at, reclaim,
  update_status, check_machine, unless_deleted, is_stale, phase_of, configured_private_ip,
  reconcile_live, release, reconcile_claim, reconcile,
}

abbrev pub machine_key : EniClaim → NamespacedName
machine_key c = record { namespace = c.spec.machine_ref.namespace; name = c.spec.machine_ref.name }

-- The server has answered that the claim's machine is not there, and a clock that the claim is as old
-- as the grace period.
pub record IsOldOrphan (h : List Event) (c : EniClaim) : Type 0 where
  pub no_machine : In (did (get_aws_machine (machine_key c)) (err not_found)) h
  pub time : ℕ
  pub clock : In (did now time) h
  pub old : grace ≤ time - c.creation_timestamp

-- The requests of the reconciler: reads, the status, the deletion of an old orphan, and patches that
-- add the finalizer to a claim that stays or take it from a claim that is being deleted.
abbrev pub MayAsk : List Event → Op → Type 0
MayAsk h (delete_claim c) = IsOldOrphan h c
MayAsk h (patch_claim b c) =
    ((b.deletion_timestamp ≡ none)
      × (c ≡ record b { finalizers = b.finalizers ++ (claim_finalizer ∷ []) }))
    ⊎ ((b.deletion_timestamp ≢ none)
        × (c ≡ record b { finalizers = remove_string b.finalizers claim_finalizer }))
MayAsk h (update_claim_status c) = Unit
MayAsk h o = IsRead o

reclaim_at-Justified :
    {h : List Event} (c : EniClaim) (t : ℕ)
    → In (did (get_aws_machine (machine_key c)) (err not_found)) h
    → In (did now t) h
    → Justified MayAsk h (reclaim_at c t)
unfolding reclaim_at
reclaim_at-Justified c t gone clock = elim (Bool-cases (ltb (t - c.creation_timestamp) grace)) [
  | inl young ↦ rw young (quiet _)
  | inr aged ↦ rw aged (
      asks
        (record {
          no_machine = gone;
          time = t;
          clock = clock;
          old = ltb→le (t - c.creation_timestamp) grace aged;
        })
        (elim [
          | ok _ ↦ quiet _
          | err not_found ↦ quiet _
          | err already_exists ↦ quiet _
          | err conflict ↦ quiet _
          | err (other s) ↦ quiet _
        ]))
]

reclaim-Justified :
    {h : List Event} (c : EniClaim)
    → In (did (get_aws_machine (machine_key c)) (err not_found)) h
    → Justified MayAsk h (reclaim c)
unfolding reclaim
reclaim-Justified c gone = asks tt λ t. reclaim_at-Justified c t (inr gone) (inl refl)

update_status-Justified :
    {h : List Event} (c : EniClaim) (pool : EniPool) → Justified MayAsk h (update_status c pool)
unfolding update_status
update_status-Justified c pool =
    let ip = configured_private_ip pool c.spec.eni_id in
    elim (Bool-cases (is_stale c (phase_of ip) ip)) [
      | inr same ↦ rw same (quiet _)
      | inl changed ↦ rw changed (asks tt λ cs. asks tt (elim [ ok x ↦ quiet _ | err e ↦ quiet _ ]))
    ]

check_machine-Justified :
    {h : List Event} (c : EniClaim) (pool : EniPool) → Justified MayAsk h (check_machine c pool)
unfolding check_machine
check_machine-Justified c pool = asks tt (elim [
  | ok m ↦ update_status-Justified c pool
  | err not_found ↦ reclaim-Justified c (inl refl)
  | err already_exists ↦ quiet _
  | err conflict ↦ quiet _
  | err (other s) ↦ quiet _
])

reconcile_live-Justified :
    {h : List Event} (c : EniClaim) (pool : EniPool)
    → c.deletion_timestamp ≡ none
    → Justified MayAsk h (reconcile_live c pool)
unfolding reconcile_live ensure_finalizer
reconcile_live-Justified c pool live =
    elim (Bool-cases (contains_string c.finalizers claim_finalizer)) [
      | inl e ↦ rw e (check_machine-Justified c pool)
      | inr e ↦ rw e (
          asks (inl (live, refl))
            (elim [ ok c' ↦ check_machine-Justified c' pool | err x ↦ quiet _ ]))
    ]

release-Justified :
    {h : List Event} (c : EniClaim) → c.deletion_timestamp ≢ none → Justified MayAsk h (release c)
unfolding release remove_finalizer
release-Justified c deleting = elim (Bool-cases (contains_string c.finalizers claim_finalizer)) [
  | inr e ↦ rw e (quiet _)
  | inl e ↦ rw e (asks (inr (deleting, refl)) (elim [ ok x ↦ quiet _ | err x ↦ quiet _ ]))
]

unless_deleted-Justified :
    {h : List Event} (c : EniClaim) (live : Go ReconcileResult)
    → (c.deletion_timestamp ≡ none → Justified MayAsk h live)
    → Justified MayAsk h (unless_deleted c live)
unfolding unless_deleted
unless_deleted-Justified c live j = elim (Option-cases c.deletion_timestamp) [
  | inl e ↦ rw (e, unless_deleted) (j e)
  | inr (t, e) ↦ rw (e, unless_deleted) (release-Justified c (λ n. absurd (ground arith)))
]

reconcile_claim-Justified : {h : List Event} (c : EniClaim) → Justified MayAsk h (reconcile_claim c)
unfolding reconcile_claim
reconcile_claim-Justified c = asks tt (elim [
  | ok pool ↦ unless_deleted-Justified c _ (reconcile_live-Justified c pool)
  | err not_found ↦ unless_deleted-Justified c _ (λ live. quiet _)
  | err already_exists ↦ quiet _
  | err conflict ↦ quiet _
  | err (other s) ↦ quiet _
])

-- Whatever is answered, the reconciler deletes a claim only after the server has said that its
-- machine is not there and the clock that the claim is thirty seconds old; it takes the finalizer only
-- from a claim that is being deleted, and adds it only to one that is not; and all else that it asks
-- for is reads and the update of the status.
pub reconcile-Justified : (req : NamespacedName) → Justified MayAsk [] (reconcile req)
unfolding reconcile
reconcile-Justified req = asks tt (elim [
  | ok c ↦ reconcile_claim-Justified c
  | err not_found ↦ quiet _
  | err already_exists ↦ quiet _
  | err conflict ↦ quiet _
  | err (other s) ↦ quiet _
])
