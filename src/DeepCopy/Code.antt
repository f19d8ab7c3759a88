-- ===== src/DeepCopy/Code.antt =====
-- The functions DeepCopyInto of the file, one for each type; those of values without references assign
-- the whole.
use capa_eni_controller.Prelude.{ℕ, suc, String, Option, none, some, List, [], ◌∷◌}
use capa_eni_controller.Api.Claim.{EniClaimSpec, NamespacedObjectReference, ClusterObjectReference}
use capa_eni_controller.Api.Pool.{EniReference}
use capa_eni_controller.Slices.{Slice, Heap, contents, write}
use capa_eni_controller.DeepCopy.{
  Memory, StatusCells, ClaimCells, PoolSpecCells, PoolStatusCells, PoolCells, ObservationCells,
  Pointers, Store, observation_store, claim_store, pool_store, ListCells,
}

-- `if in != nil { *out = make([]T, len(*in)) ... }` with each element copied; the elements here have no
-- references of their own.
unfoldable pub copy_slice : {A : Type 0} → Heap A → Option Slice → Option Slice × Heap A
copy_slice h none = (none, h)
copy_slice h (some s) = (
  some (record { array = h.next; len = s.len }),
  record (write h h.next (contents h s)) { next = suc h.next },
)

-- The same where `copy` is the deep copy of the elements: the loop over them, and the new array.
unfoldable pub copy_each :
    {A : Type 0} → (Memory → A → A × Memory) → Memory → List A → List A × Memory
copy_each copy m [] = ([], m)
copy_each copy m (x ∷ xs) =
    let (x', m') = copy m x in let (xs', m'') = copy_each copy m' xs in (x' ∷ xs', m'')

unfoldable pub copy_items :
    {A : Type 0}
    → Store A
    → (Memory → A → A × Memory)
    → Memory
    → Option Slice
    → Option Slice × Memory
unfolding copy_each
copy_items store copy m none = (none, m)
copy_items store copy m (some s) =
    let (items, m') = copy_each copy m (contents (store.get m) s) in
    let h = store.get m' in
    (
      some (record { array = h.next; len = s.len }),
      store.put m' (record (write h h.next items) { next = suc h.next }),
    )

unfoldable pub deep_copy_cluster_reference : ClusterObjectReference → ClusterObjectReference
deep_copy_cluster_reference r = r

unfoldable pub deep_copy_object_reference : NamespacedObjectReference → NamespacedObjectReference
deep_copy_object_reference r = r

unfoldable pub deep_copy_reference : EniReference → EniReference
deep_copy_reference r = r

unfoldable pub deep_copy_claim_spec : EniClaimSpec → EniClaimSpec
deep_copy_claim_spec s = record s { machine_ref = s.machine_ref; pool_ref = s.pool_ref }

unfoldable pub deep_copy_claim_status : Memory → StatusCells → StatusCells × Memory
unfolding copy_slice
deep_copy_claim_status m s =
    let (conditions, h) = copy_slice m.conditions s.conditions in
    (record s { conditions = conditions }, record m { conditions = h })

-- ObjectMeta.DeepCopyInto of apimachinery, as far as the finalizers go.
abbrev pub CopyMeta : Type 0
CopyMeta = Heap String → Option Slice → Option Slice × Heap String

unfoldable pub deep_copy_claim : CopyMeta → Memory → ClaimCells → ClaimCells × Memory
unfolding deep_copy_claim_status
deep_copy_claim copy_meta m c =
    let (finalizers, texts) = copy_meta m.texts c.finalizers in
    let (status, m') = deep_copy_claim_status (record m { texts = texts }) c.status in
    (record c { finalizers = finalizers; status = status }, m')

unfoldable pub deep_copy_claim_list : CopyMeta → Memory → ListCells → ListCells × Memory
unfolding copy_items deep_copy_claim
deep_copy_claim_list copy_meta m l = copy_items claim_store (deep_copy_claim copy_meta) m l

-- ENIObservation.DeepCopyInto: a new address with what stands at the old one.
unfoldable pub copy_pointer : Pointers → Option ℕ → Option ℕ × Pointers
copy_pointer p none = (none, p)
copy_pointer p (some a) = (some p.next, record (write p p.next (p.cells a)) { next = suc p.next })

unfoldable pub deep_copy_observation : Memory → ObservationCells → ObservationCells × Memory
unfolding copy_pointer
deep_copy_observation m o =
    let (claim_ref, p) = copy_pointer m.pointers o.claim_ref in
    (record o { claim_ref = claim_ref }, record m { pointers = p })

unfoldable pub deep_copy_pool_spec : Memory → PoolSpecCells → PoolSpecCells × Memory
unfolding copy_slice
deep_copy_pool_spec m s =
    let (interfaces, h) = copy_slice m.references s.interfaces in
    (record s { interfaces = interfaces }, record m { references = h })

unfoldable pub deep_copy_pool_status : Memory → PoolStatusCells → PoolStatusCells × Memory
unfolding copy_items deep_copy_observation copy_slice
deep_copy_pool_status m s =
    let (interfaces, m') = copy_items observation_store deep_copy_observation m s.interfaces in
    let (conditions, h) = copy_slice m'.conditions s.conditions in
    (record s { interfaces = interfaces; conditions = conditions }, record m' { conditions = h })

unfoldable pub deep_copy_pool : CopyMeta → Memory → PoolCells → PoolCells × Memory
unfolding deep_copy_pool_spec deep_copy_pool_status
deep_copy_pool copy_meta m p =
    let (finalizers, texts) = copy_meta m.texts p.finalizers in
    let (spec, m') = deep_copy_pool_spec (record m { texts = texts }) p.spec in
    let (status, m'') = deep_copy_pool_status m' p.status in
    (record p { finalizers = finalizers; spec = spec; status = status }, m'')

unfoldable pub deep_copy_pool_list : CopyMeta → Memory → ListCells → ListCells × Memory
unfolding copy_items deep_copy_pool
deep_copy_pool_list copy_meta m l = copy_items pool_store (deep_copy_pool copy_meta) m l
