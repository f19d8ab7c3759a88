-- ===== src/Api/Claim.antt =====
-- api/v1alpha1/eniclaim_types.go: a claim reserves one interface for one machine.
use capa_eni_controller.Prelude.{ℕ, String, Option, List}
use capa_eni_controller.Api.Meta.{Condition}

pub record NamespacedObjectReference : Type 0 where
  pub namespace : String
  pub name : String

pub record ClusterObjectReference : Type 0 where
  pub name : String

pub record EniClaimSpec : Type 0 where
  pub machine_ref : NamespacedObjectReference
  pub pool_ref : ClusterObjectReference
  pub eni_id : String

abbrev pub EniClaimPhase : Type 0
EniClaimPhase = String

abbrev pub eni_claim_phase_pending : EniClaimPhase
eni_claim_phase_pending = "Pending"

abbrev pub eni_claim_phase_bound : EniClaimPhase
eni_claim_phase_bound = "Bound"

abbrev pub eni_claim_phase_releasing : EniClaimPhase
eni_claim_phase_releasing = "Releasing"

abbrev pub eni_claim_phase_failed : EniClaimPhase
eni_claim_phase_failed = "Failed"

pub record EniClaimStatus : Type 0 where
  pub phase : EniClaimPhase
  pub private_ip : String
  pub conditions : List Condition

-- The metadata are those that the controller reads or sets.
pub record EniClaim : Type 0 where
  pub name : String
  pub generation : ℕ
  pub finalizers : List String
  pub creation_timestamp : ℕ
  pub deletion_timestamp : Option ℕ
  pub spec : EniClaimSpec
  pub status : EniClaimStatus
