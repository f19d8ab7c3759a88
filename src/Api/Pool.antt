-- ===== src/Api/Pool.antt =====
-- api/v1alpha1/enipool_types.go: a pool declares the interfaces of one region and VPC.
use capa_eni_controller.Prelude.{ℕ, String, Option, List}
use capa_eni_controller.Api.Meta.{Condition}
use capa_eni_controller.Api.Claim.{NamespacedObjectReference}

pub record EniReference : Type 0 where
  pub key : String
  pub id : String
  pub private_ip : String

abbrev pub ExhaustionPolicy : Type 0
ExhaustionPolicy = String

abbrev pub exhaustion_policy_dynamic : ExhaustionPolicy
exhaustion_policy_dynamic = "Dynamic"

abbrev pub exhaustion_policy_wait : ExhaustionPolicy
exhaustion_policy_wait = "Wait"

abbrev pub exhaustion_policy_fail : ExhaustionPolicy
exhaustion_policy_fail = "Fail"

pub record EniPoolSpec : Type 0 where
  pub region : String
  pub vpc_id : String
  pub interfaces : List EniReference
  pub exhaustion_policy : ExhaustionPolicy

abbrev pub EniState : Type 0
EniState = String

abbrev pub eni_state_available : EniState
eni_state_available = "Available"

abbrev pub eni_state_claimed : EniState
eni_state_claimed = "Claimed"

abbrev pub eni_state_invalid : EniState
eni_state_invalid = "Invalid"

pub record EniObservation : Type 0 where
  pub key : String
  pub id : String
  pub availability_zone : String
  pub subnet_id : String
  pub private_ip : String
  pub state : EniState
  pub claim_ref : Option NamespacedObjectReference
  pub message : String

pub record EniPoolStatus : Type 0 where
  pub observed_generation : ℕ
  pub interfaces : List EniObservation
  pub conditions : List Condition

-- The metadata are those that the controller reads.
pub record EniPool : Type 0 where
  pub name : String
  pub generation : ℕ
  pub spec : EniPoolSpec
  pub status : EniPoolStatus
