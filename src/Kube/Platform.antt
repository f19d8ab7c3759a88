-- ===== src/Kube/Platform.antt =====
-- What the code takes from apimachinery and Cluster API: a parser and a test that it calls, and two
-- constants.
use capa_eni_controller.Prelude.{String, Option, Bool}
use capa_eni_controller.Api.Meta.{InfrastructureRef}

pub record Platform : Type 0 where
  -- schema.ParseGroupVersion: the group, `none` for an error
  pub parse_group_version : String → Option String
  -- clusterv1.GroupVersion.Group
  pub cluster_api_group : String
  -- clusterv1.ClusterNameLabel
  pub cluster_name_label : String
  -- ContractVersionedObjectReference.IsDefined
  pub is_defined : InfrastructureRef → Bool
