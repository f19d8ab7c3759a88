-- ===== src/DeepCopy/Objects.antt =====
-- DeepCopyObject of claims, pools and their lists, through all functions that it calls.
use capa_eni_controller.Prelude.{ℕ, String, refl, ap, Option, none, some, List}
use capa_eni_controller.Api.Claim.{EniClaim}
use capa_eni_controller.Api.Pool.{EniPool}
use capa_eni_controller.DeepCopy.{Memory, PoolCells, ListCells, claim_store, pool_store}
use capa_eni_controller.DeepCopy.Code.{CopyMeta, deep_copy_claim_list, deep_copy_pool_list}
use capa_eni_controller.DeepCopy.Pointers.{
  new_copy, as_object, object_of_claim_list, object_of_pool, object_of_pool_list,
}
use capa_eni_controller.DeepCopy.Copies.{IsMetaCopy}
use capa_eni_controller.DeepCopy.Growth.{Part, claims, pools, Grows-refl}
use capa_eni_controller.DeepCopy.Kinds.{Used, Kind, Copied, IsDeep}
use capa_eni_controller.DeepCopy.Items.{items, items-IsDeep}
use capa_eni_controller.DeepCopy.Claims.{claim_kind, claim-IsDeep, claim_store-IsStore}
use capa_eni_controller.DeepCopy.Pools.{pool_kind, pool-IsDeep, pool_store-IsStore}

module _ {C V : Type 0} (k : Kind C V) where
  abbrev read_nullable : Memory → Option C → Option V
  read_nullable m none = none
  read_nullable m (some c) = some (k.read m c)

  abbrev EachNullable : (Part → ℕ → Type 0) → Memory → Option C → Type 0
  EachNullable P m none = Unit
  EachNullable P m (some c) = k.Each P m c

  -- A pointer, which may be nil, and its copy as an object.
  abbrev pub nullable : Kind (Option C) (Option V)
  nullable = record {
    read = read_nullable;
    copy = λ m c. as_object (new_copy k.copy m c);
    Each = EachNullable;
  }

  nullable-Copied :
      IsDeep k
      → (m : Memory) (c : Option C) → nullable.Each (Used m) m c
      → Copied nullable m c (nullable.copy m c).0 (nullable.copy m c).1
  nullable-Copied deep m none used = record {
    reads = refl;
    original = refl;
    grows = Grows-refl m;
    fresh = tt;
    used = tt;
  }
  nullable-Copied deep m (some c) used =
      let copied = deep.copies m c used in
      record {
        reads = ap some copied.reads;
        original = ap some copied.original;
        grows = copied.grows;
        fresh = copied.fresh;
        used = copied.used;
      }

module _ (copy_meta : CopyMeta) where
  abbrev pub claim_list_kind : Kind ListCells (List EniClaim)
  claim_list_kind = items claim_store claims (claim_kind copy_meta)

  abbrev pub pool_list_kind : Kind ListCells (List (EniPool × List String))
  pool_list_kind = items pool_store pools (pool_kind copy_meta)

  -- The deep copy of a list of claims is nil for nil, and otherwise reads as the list, which still
  -- reads as before; the memory only grows; and each array that the copy or one of its claims refers
  -- to was not in use before; for lists whose arrays are in use, and a copy of the metadata as
  -- apimachinery documents it.
  pub object_of_claim_list-Copied :
      (m : Memory) (l : Option ListCells)
      → IsMetaCopy copy_meta
      → (nullable claim_list_kind).Each (Used m) m l
      → Copied
          (nullable claim_list_kind)
          m
          l
          (object_of_claim_list copy_meta m l).0
          (object_of_claim_list copy_meta m l).1
  unfolding object_of_claim_list deep_copy_claim_list
  object_of_claim_list-Copied m l meta used =
      nullable-Copied claim_list_kind
        (items-IsDeep claim_store claims claim_store-IsStore (claim_kind copy_meta)
          (claim-IsDeep copy_meta meta))
        m l used

  -- The deep copy of a pool is nil for nil, and otherwise reads as the pool, which still reads as
  -- before; the memory only grows; and each array and each claim reference that the copy refers to,
  -- also through its observations, was not in use before; for a pool whose references are in use, and
  -- a copy of the metadata as apimachinery documents it.
  pub object_of_pool-Copied :
      (m : Memory) (p : Option PoolCells)
      → IsMetaCopy copy_meta
      → (nullable (pool_kind copy_meta)).Each (Used m) m p
      → Copied
          (nullable (pool_kind copy_meta))
          m
          p
          (object_of_pool copy_meta m p).0
          (object_of_pool copy_meta m p).1
  unfolding object_of_pool
  object_of_pool-Copied m p meta used =
      nullable-Copied (pool_kind copy_meta) (pool-IsDeep copy_meta meta) m p used

  -- The deep copy of a list of pools is nil for nil, and otherwise reads as the list, which still
  -- reads as before; the memory only grows; and each array and each claim reference that the copy, its
  -- pools or their observations refer to was not in use before; for lists whose references are in use,
  -- and a copy of the metadata as apimachinery documents it.
  pub object_of_pool_list-Copied :
      (m : Memory) (l : Option ListCells)
      → IsMetaCopy copy_meta
      → (nullable pool_list_kind).Each (Used m) m l
      → Copied
          (nullable pool_list_kind)
          m
          l
          (object_of_pool_list copy_meta m l).0
          (object_of_pool_list copy_meta m l).1
  unfolding object_of_pool_list deep_copy_pool_list
  object_of_pool_list-Copied m l meta used =
      nullable-Copied pool_list_kind
        (items-IsDeep pool_store pools pool_store-IsStore (pool_kind copy_meta)
          (pool-IsDeep copy_meta meta))
        m l used
