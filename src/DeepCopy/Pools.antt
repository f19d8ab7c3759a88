-- ===== src/DeepCopy/Pools.antt =====
-- ENIPool.DeepCopyInto and ENIPoolStatus.DeepCopyInto, each a copy of one part after the other.
use capa_eni_controller.Prelude.{String, ◌<◌, ◌≡◌, refl, ap, Option, none, some, List}
use capa_eni_controller.Api.Meta.{Condition}
use capa_eni_controller.Api.Pool.{EniReference, EniObservation, EniPoolStatus, EniPool}
use capa_eni_controller.Slices.{Slice}
use capa_eni_controller.DeepCopy.{
  read_slice, Memory, PoolStatusCells, PoolCells, read_pool_status, read_pool, Store,
  condition_store, reference_store, observation_store, pool_store,
}
use capa_eni_controller.DeepCopy.Code.{
  CopyMeta, copy_items, deep_copy_observation, deep_copy_pool_spec, deep_copy_pool_status,
  deep_copy_pool,
}
use capa_eni_controller.DeepCopy.Copies.{IsMetaCopy}
use capa_eni_controller.DeepCopy.Growth.{
  texts, conditions, references, observations, pools, Grows, texts-Grows, conditions-Grows,
  references-Grows, pools-Grows,
}
use capa_eni_controller.DeepCopy.Kinds.{Used, Kind, Copied, IsDeep}
use capa_eni_controller.DeepCopy.Items.{IsStore, items, items-IsDeep}
use capa_eni_controller.DeepCopy.Plain.{
  OfSlice, OfSlice-imp, read_slice-stays, SameNil, copy_slice-SameNil,
}
use capa_eni_controller.DeepCopy.Both.{both, both-IsDeep, plain_slice, plain_slice-IsDeep}
use capa_eni_controller.DeepCopy.Claims.{meta-Keeps}
use capa_eni_controller.DeepCopy.Observations.{
  observation_kind, observation-IsDeep, observation_store-IsStore,
}

condition_store-IsStore : IsStore condition_store conditions
condition_store-IsStore = record {
  next_get = λ m. refl;
  get_put = λ m h. refl;
  put_grows = conditions-Grows;
  grows_get = λ m m' g. g.conditions;
}

reference_store-IsStore : IsStore reference_store references
reference_store-IsStore = record {
  next_get = λ m. refl;
  get_put = λ m h. refl;
  put_grows = references-Grows;
  grows_get = λ m m' g. g.references;
}

pub pool_store-IsStore : IsStore pool_store pools
pool_store-IsStore = record {
  next_get = λ m. refl;
  get_put = λ m h. refl;
  put_grows = pools-Grows;
  grows_get = λ m m' g. g.pools;
}

-- The two slices of a status.
abbrev status_parts : Kind (Option Slice × Option Slice) (List EniObservation × List Condition)
status_parts =
    both (items observation_store observations observation_kind)
      (plain_slice condition_store conditions)

status_parts-IsDeep : IsDeep status_parts
status_parts-IsDeep =
    both-IsDeep _ _
      (items-IsDeep observation_store observations observation_store-IsStore observation_kind
        observation-IsDeep)
      (plain_slice-IsDeep condition_store conditions condition_store-IsStore)

abbrev pub status_kind : Kind PoolStatusCells EniPoolStatus
status_kind = record {
  read = read_pool_status;
  copy = deep_copy_pool_status;
  Each = λ P m s. status_parts.Each P m (s.interfaces, s.conditions);
}

abbrev status_of : PoolStatusCells → List EniObservation × List Condition → EniPoolStatus
status_of s x = record {
  observed_generation = s.observed_generation;
  interfaces = x.0;
  conditions = x.1;
}

-- A copy of the status of a pool beside the status.
pub record CopiesPoolStatus (m : Memory) (s s' : PoolStatusCells) (m' : Memory) : Type 0 where
  pub deep : Copied status_kind m s s' m'
  pub interfaces_nil : SameNil s.interfaces s'.interfaces
  pub conditions_nil : SameNil s.conditions s'.conditions

copy_items-SameNil :
    {A : Type 0} (store : Store A) (copy : Memory → A → A × Memory) (m : Memory) (s : Option Slice)
    → SameNil s (copy_items store copy m s).0
unfolding copy_items
copy_items-SameNil store copy m none = tt
copy_items-SameNil store copy m (some s) = tt

-- The deep copy of the status of a pool reads as the status, which still reads as before, with nil
-- where that has nil; the memory only grows; and each array of the copy, and each claim reference that
-- its observations point to, was not in use before; for slices and pointers that are in use.
pub deep_copy_pool_status-Copies :
    (m : Memory) (s : PoolStatusCells)
    → status_kind.Each (Used m) m s
    → CopiesPoolStatus m s (deep_copy_pool_status m s).0 (deep_copy_pool_status m s).1
unfolding deep_copy_pool_status
deep_copy_pool_status-Copies m s used =
    let parts = status_parts-IsDeep.copies m (s.interfaces, s.conditions) used in
    record {
      deep = record {
        reads = ap (status_of s) parts.reads;
        original = ap (status_of s) parts.original;
        grows = parts.grows;
        fresh = parts.fresh;
        used = parts.used;
      };
      interfaces_nil = copy_items-SameNil observation_store deep_copy_observation m s.interfaces;
      conditions_nil =
          copy_slice-SameNil
            (copy_items observation_store deep_copy_observation m s.interfaces).1.conditions
            s.conditions;
    }

module _ (copy_meta : CopyMeta) where
  -- The finalizers in their array.
  abbrev meta_kind : Kind (Option Slice) (List String)
  meta_kind = record {
    read = λ m s. read_slice m.texts s;
    copy = λ m s. let (s', h) = copy_meta m.texts s in (s', record m { texts = h });
    Each = λ P m s. OfSlice (P texts) s;
  }

  meta_stays :
      (m m' : Memory) (s : Option Slice)
      → Grows m m'
      → OfSlice (λ a. a < m.texts.next) s
      → read_slice m'.texts s ≡ read_slice m.texts s
  meta_stays m m' s g used = read_slice-stays m.texts m'.texts s g.texts used

  meta-IsDeep : IsMetaCopy copy_meta → IsDeep meta_kind
  meta-IsDeep meta = record {
    imp = λ P Q imp m s h. OfSlice-imp (P texts) (Q texts) (imp texts) s h;
    stays = meta_stays;
    moves = λ P m m' s g used h. h;
    copies = λ m s used.
        let g = texts-Grows m (copy_meta m.texts s).1 (meta-Keeps copy_meta meta m.texts s) in
        record {
          reads = meta.reads m.texts s;
          original = meta_stays m (record m { texts = (copy_meta m.texts s).1 }) s g used;
          grows = g;
          fresh = meta.fresh m.texts s;
          used = meta.within m.texts s;
        };
  }

  abbrev pool_parts :
      Kind
        (Option Slice × (Option Slice × (Option Slice × Option Slice)))
        (List String × (List EniReference × (List EniObservation × List Condition)))
  pool_parts = both meta_kind (both (plain_slice reference_store references) status_parts)

  pool_parts-IsDeep : IsMetaCopy copy_meta → IsDeep pool_parts
  pool_parts-IsDeep meta = both-IsDeep _ _ (meta-IsDeep meta) (
      both-IsDeep _ _ (plain_slice-IsDeep reference_store references reference_store-IsStore)
        status_parts-IsDeep)

  abbrev parts_of : PoolCells → Option Slice × (Option Slice × (Option Slice × Option Slice))
  parts_of p = (p.finalizers, (p.spec.interfaces, (p.status.interfaces, p.status.conditions)))

  abbrev pool_of :
      PoolCells
      → List String × (List EniReference × (List EniObservation × List Condition))
      → EniPool × List String
  pool_of p x = (
    record {
      name = p.name;
      generation = p.generation;
      spec = record {
        region = p.spec.region;
        vpc_id = p.spec.vpc_id;
        interfaces = x.1.0;
        exhaustion_policy = p.spec.exhaustion_policy;
      };
      status = status_of p.status x.1.1;
    },
    x.0,
  )

  abbrev pub pool_kind : Kind PoolCells (EniPool × List String)
  pool_kind = record {
    read = read_pool;
    copy = deep_copy_pool copy_meta;
    Each = λ P m p. pool_parts.Each P m (parts_of p);
  }

  pool_copies :
      (meta : IsMetaCopy copy_meta) (m : Memory) (p : PoolCells)
      → pool_kind.Each (Used m) m p
      → Copied pool_kind m p (deep_copy_pool copy_meta m p).0 (deep_copy_pool copy_meta m p).1
  unfolding deep_copy_pool deep_copy_pool_spec deep_copy_pool_status
  pool_copies meta m p used =
      let parts = (pool_parts-IsDeep meta).copies m (parts_of p) used in
      record {
        reads = ap (pool_of p) parts.reads;
        original = ap (pool_of p) parts.original;
        grows = parts.grows;
        fresh = parts.fresh;
        used = parts.used;
      }

  pub pool-IsDeep : IsMetaCopy copy_meta → IsDeep pool_kind
  pool-IsDeep meta =
      let parts = pool_parts-IsDeep meta in
      record {
        imp = λ P Q imp m p. parts.imp P Q imp m (parts_of p);
        stays = λ m m' p g used. ap (pool_of p) (parts.stays m m' (parts_of p) g used);
        moves = λ P m m' p. parts.moves P m m' (parts_of p);
        copies = pool_copies meta;
      }
