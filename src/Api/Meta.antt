-- ===== src/Api/Meta.antt =====
-- The parts of the Kubernetes, Cluster API and CAPA objects that the controller reads or writes.
-- A Go map is `Option Dict`, `none` for the nil map; a pointer to a time is an `Option`, and a time
-- is a count of nanoseconds.
use capa_eni_controller.Prelude.{
  ℕ, String, ◌≡◌, Option, none, some, List, [], ◌∷◌, arith, ◌==◌, eq_iff, if◌then◌else◌,
}

abbrev pub Dict : Type 0 → Type 0
Dict V = List (String × V)

abbrev pub GoMap : Type 0
GoMap = Option (Dict String)

module _ {V : Type 0} where
  -- v, ok := m[k]
  unfoldable pub lookup : String → Dict V → Option V
  lookup k [] = none
  lookup k ((j, v) ∷ m) = if j == k then some v else lookup k m

  -- m[k] = v
  unfoldable pub insert : String → V → Dict V → Dict V
  insert k v [] = (k, v) ∷ []
  insert k v ((j, w) ∷ m) = if j == k then (k, v) ∷ m else (j, w) ∷ insert k v m

  -- delete(m, k)
  unfoldable pub remove : String → Dict V → Dict V
  remove k [] = []
  remove k ((j, v) ∷ m) = let rest = remove k m in if j == k then rest else (j, v) ∷ rest

-- `m[k]` reads the nil map too.
unfoldable pub find : String → GoMap → Option String
find k none = none
find k (some m) = lookup k m

-- The single-valued `m[k]` is the empty string where the key is missing.
abbrev pub or_empty : Option String → String
or_empty none = ""
or_empty (some v) = v

unfoldable pub get : String → GoMap → String
unfolding find
get k m = or_empty (find k m)

-- `if m == nil { m = map[string]string{} }`
abbrev pub made : GoMap → Dict String
made none = []
made (some m) = m

module _ {V : Type 0} where
  pub lookup-insert :
      (k j : String) (v : V) (m : Dict V)
      → lookup j (insert k v m) ≡ (if k == j then some v else lookup j m)
  unfolding lookup insert
  lookup-insert k j v [] = ground arith
  lookup-insert k j v ((i, w) ∷ m) =
      ground (arith, eq_iff k j, eq_iff i k, eq_iff i j, lookup-insert k j v m)

  pub lookup-remove :
      (k j : String) (m : Dict V) → lookup j (remove k m) ≡ (if k == j then none else lookup j m)
  unfolding lookup remove
  lookup-remove k j [] = ground arith
  lookup-remove k j ((i, w) ∷ m) =
      ground (arith, eq_iff k j, eq_iff i k, eq_iff i j, lookup-remove k j m)

pub ruleset dict_laws = (lookup-insert, lookup-remove)

pub record OwnerReference : Type 0 where
  pub api_version : String
  pub kind : String
  pub name : String

pub record NamespacedName : Type 0 where
  pub namespace : String
  pub name : String

-- infrastructurev1beta2.AWSMachine
pub record AwsMachine : Type 0 where
  pub namespace : String
  pub name : String
  pub labels : GoMap
  pub annotations : GoMap
  pub owner_references : List OwnerReference
  pub deletion_timestamp : Option ℕ
  pub network_interfaces : List String

-- clusterv1.Machine
pub record Machine : Type 0 where
  pub annotations : GoMap
  pub cluster_name : String

-- clusterv1.ContractVersionedObjectReference
pub record InfrastructureRef : Type 0 where
  pub api_group : String
  pub kind : String
  pub name : String

-- clusterv1.Cluster
pub record Cluster : Type 0 where
  pub infrastructure_ref : InfrastructureRef

-- infrastructurev1beta2.AWSCluster
pub record AwsCluster : Type 0 where
  pub region : String
  pub vpc_id : String

-- metav1.Condition, with the fields that the controller sets.
pub record Condition : Type 0 where
  pub kind : String
  pub status : String
  pub reason : String
  pub message : String
  pub observed_generation : ℕ
