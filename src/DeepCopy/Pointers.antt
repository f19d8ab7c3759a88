-- ===== src/DeepCopy/Pointers.antt =====
-- The functions DeepCopy and DeepCopyObject: a pointer to a structure is the structure, or none for nil.
use capa_eni_controller.Prelude.{Option, none, some}
use capa_eni_controller.Api.Claim.{EniClaimSpec, NamespacedObjectReference, ClusterObjectReference}
use capa_eni_controller.Api.Pool.{EniReference}
use capa_eni_controller.DeepCopy.{
  Memory, StatusCells, ClaimCells, PoolSpecCells, PoolStatusCells, PoolCells, ObservationCells,
  ListCells,
}
use capa_eni_controller.DeepCopy.Code.{
  CopyMeta, deep_copy_cluster_reference, deep_copy_object_reference, deep_copy_reference,
  deep_copy_claim_spec, deep_copy_claim_status, deep_copy_claim, deep_copy_claim_list,
  deep_copy_observation, deep_copy_pool_spec, deep_copy_pool_status, deep_copy_pool,
  deep_copy_pool_list,
}

-- `if in == nil { return nil }; out := new(T); in.DeepCopyInto(out); return out`
abbrev pub new_copy :
    {C : Type 0} → (Memory → C → C × Memory) → Memory → Option C → Option C × Memory
new_copy copy m none = (none, m)
new_copy copy m (some c) = let (c', m') = copy m c in (some c', m')

-- The same for a type without references.
abbrev pub new_value : {C : Type 0} → (C → C) → Option C → Option C
new_value copy none = none
new_value copy (some c) = some (copy c)

-- `if c := in.DeepCopy(); c != nil { return c }; return nil`
abbrev pub as_object : {C : Type 0} → Option C × Memory → Option C × Memory
as_object (none, m) = (none, m)
as_object (some c, m) = (some c, m)

unfoldable pub copy_of_cluster_reference :
    Option ClusterObjectReference → Option ClusterObjectReference
unfolding deep_copy_cluster_reference
copy_of_cluster_reference r = new_value deep_copy_cluster_reference r

unfoldable pub copy_of_object_reference :
    Option NamespacedObjectReference → Option NamespacedObjectReference
unfolding deep_copy_object_reference
copy_of_object_reference r = new_value deep_copy_object_reference r

unfoldable pub copy_of_reference : Option EniReference → Option EniReference
unfolding deep_copy_reference
copy_of_reference r = new_value deep_copy_reference r

unfoldable pub copy_of_claim_spec : Option EniClaimSpec → Option EniClaimSpec
unfolding deep_copy_claim_spec
copy_of_claim_spec r = new_value deep_copy_claim_spec r

unfoldable pub copy_of_claim_status : Memory → Option StatusCells → Option StatusCells × Memory
unfolding deep_copy_claim_status
copy_of_claim_status m s = new_copy deep_copy_claim_status m s

unfoldable pub copy_of_observation :
    Memory → Option ObservationCells → Option ObservationCells × Memory
unfolding deep_copy_observation
copy_of_observation m s = new_copy deep_copy_observation m s

unfoldable pub copy_of_pool_spec : Memory → Option PoolSpecCells → Option PoolSpecCells × Memory
unfolding deep_copy_pool_spec
copy_of_pool_spec m s = new_copy deep_copy_pool_spec m s

unfoldable pub copy_of_pool_status :
    Memory → Option PoolStatusCells → Option PoolStatusCells × Memory
unfolding deep_copy_pool_status
copy_of_pool_status m s = new_copy deep_copy_pool_status m s

module _ (copy_meta : CopyMeta) where
  unfoldable pub copy_of_claim : Memory → Option ClaimCells → Option ClaimCells × Memory
  unfolding deep_copy_claim
  copy_of_claim m c = new_copy (deep_copy_claim copy_meta) m c

  unfoldable pub object_of_claim : Memory → Option ClaimCells → Option ClaimCells × Memory
  unfolding copy_of_claim
  object_of_claim m c = as_object (copy_of_claim m c)

  unfoldable pub copy_of_claim_list : Memory → Option ListCells → Option ListCells × Memory
  unfolding deep_copy_claim_list
  copy_of_claim_list m c = new_copy (deep_copy_claim_list copy_meta) m c

  unfoldable pub object_of_claim_list : Memory → Option ListCells → Option ListCells × Memory
  unfolding copy_of_claim_list
  object_of_claim_list m c = as_object (copy_of_claim_list m c)

  unfoldable pub copy_of_pool : Memory → Option PoolCells → Option PoolCells × Memory
  unfolding deep_copy_pool
  copy_of_pool m c = new_copy (deep_copy_pool copy_meta) m c

  unfoldable pub object_of_pool : Memory → Option PoolCells → Option PoolCells × Memory
  unfolding copy_of_pool
  object_of_pool m c = as_object (copy_of_pool m c)

  unfoldable pub copy_of_pool_list : Memory → Option ListCells → Option ListCells × Memory
  unfolding deep_copy_pool_list
  copy_of_pool_list m c = new_copy (deep_copy_pool_list copy_meta) m c

  unfoldable pub object_of_pool_list : Memory → Option ListCells → Option ListCells × Memory
  unfolding copy_of_pool_list
  object_of_pool_list m c = as_object (copy_of_pool_list m c)
