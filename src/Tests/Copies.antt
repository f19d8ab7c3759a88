-- ===== src/Tests/Copies.antt =====
-- Claims and pools on memory.
use capa_eni_controller.Prelude.{Option, none, some, [], ◌∷◌, arith}
use capa_eni_controller.Api.Constants.{claim_finalizer}
use capa_eni_controller.DeepCopy.{
  Memory, PoolStatusCells, ClaimCells, PoolSpecCells, PoolCells, ListCells,
}
use capa_eni_controller.DeepCopy.Code.{copy_slice, CopyMeta, deep_copy_claim}
use capa_eni_controller.DeepCopy.Pointers.{object_of_claim_list, object_of_pool_list}
use capa_eni_controller.DeepCopy.Copies.{IsMetaCopy, CopiesClaim, deep_copy_claim-Copies}
use capa_eni_controller.DeepCopy.Plain.{copy_slice-CopiedSlice, copy_slice-SameNil}
use capa_eni_controller.DeepCopy.Kinds.{Used, Copied}
use capa_eni_controller.DeepCopy.Pools.{pool_kind}
use capa_eni_controller.DeepCopy.Objects.{
  nullable, claim_list_kind, pool_list_kind, object_of_claim_list-Copied,
  object_of_pool_list-Copied,
}
use capa_eni_controller.Controller.EniClaim.Patch.{
  Patches, patch_arguments, patch_arguments-Patches,
}
use capa_eni_controller.Tests.Data.{low, middle, high, claim_of_machine}

abbrev copy_meta : CopyMeta
copy_meta h s = copy_slice h s

copy_meta-IsMetaCopy : IsMetaCopy copy_meta
copy_meta-IsMetaCopy = record {
  reads = λ h s. (copy_slice-CopiedSlice h s).reads;
  nil = λ h s. copy_slice-SameNil h s;
  grows = λ h s. (copy_slice-CopiedSlice h s).keeps.grows;
  fresh = λ h s. (copy_slice-CopiedSlice h s).fresh;
  within = λ h s. (copy_slice-CopiedSlice h s).used;
  keeps = λ h s. (copy_slice-CopiedSlice h s).keeps.cells;
}

abbrev claim : ClaimCells
claim = record {
  name = "eni-0123";
  generation = 1;
  finalizers = some (record { array = 0; len = 2 });
  creation_timestamp = 0;
  deletion_timestamp = some 10;
  spec = (claim_of_machine low).spec;
  status = record {
    phase = "Bound";
    private_ip = "10.0.0.9";
    conditions = some (record { array = 0; len = 1 });
  };
}

abbrev pool_spec : PoolSpecCells
pool_spec = record {
  region = "ap-northeast-2";
  vpc_id = "vpc-0123";
  interfaces = some (record { array = 0; len = 3 });
  exhaustion_policy = "Dynamic";
}

abbrev pool_status : PoolStatusCells
pool_status = record {
  observed_generation = 1;
  interfaces = some (record { array = 0; len = 2 });
  conditions = none;
}

abbrev pool : PoolCells
pool = record {
  name = "pool-a";
  generation = 1;
  finalizers = some (record { array = 0; len = 1 });
  spec = pool_spec;
  status = pool_status;
}

-- The array 0 of each kind is in use; of two observations the first points to the machine at the
-- address 0.
abbrev memory : Memory
memory = record {
  texts = record { cells = λ a. "foregroundDeletion" ∷ claim_finalizer ∷ []; next = 1 };
  conditions = record {
    cells = λ a.
        record {
          kind = "Ready";
          status = "True";
          reason = "Bound";
          message = "";
          observed_generation = 1;
        }
        ∷ [];
    next = 1;
  };
  references = record { cells = λ a. high ∷ middle ∷ low ∷ []; next = 1 };
  observations = record {
    cells = λ a.
        record {
          key = "";
          id = "eni-0123";
          availability_zone = "";
          subnet_id = "";
          private_ip = "10.0.0.9";
          state = "Claimed";
          claim_ref = some 0;
          message = "";
        }
        ∷ record {
          key = "";
          id = "eni-0999";
          availability_zone = "";
          subnet_id = "";
          private_ip = "10.0.0.10";
          state = "Available";
          claim_ref = none;
          message = "";
        }
        ∷ [];
    next = 1;
  };
  pointers = record { cells = λ a. (claim_of_machine low).spec.machine_ref ∷ []; next = 1 };
  claims = record { cells = λ a. claim ∷ []; next = 1 };
  pools = record { cells = λ a. pool ∷ pool ∷ []; next = 1 };
}

deep_copy_claim-Copies_example :
    CopiesClaim memory claim
      (deep_copy_claim copy_meta memory claim).0
      (deep_copy_claim copy_meta memory claim).1
deep_copy_claim-Copies_example =
    deep_copy_claim-Copies copy_meta memory claim copy_meta-IsMetaCopy (omega arith) (omega arith)

patch_arguments-Patches_example : Patches memory claim (patch_arguments copy_meta memory claim)
patch_arguments-Patches_example =
    patch_arguments-Patches copy_meta memory claim copy_meta-IsMetaCopy (omega arith) (omega arith)
      (omega arith)

abbrev all_items : Option ListCells
all_items = some (some (record { array = 0; len = 2 }))

object_of_claim_list-Copied_example :
    Copied
      (nullable (claim_list_kind copy_meta))
      memory
      all_items
      (object_of_claim_list copy_meta memory all_items).0
      (object_of_claim_list copy_meta memory all_items).1
object_of_claim_list-Copied_example =
    object_of_claim_list-Copied copy_meta memory all_items copy_meta-IsMetaCopy
      (omega arith, ((omega arith, omega arith), tt))

pool_in_use : (pool_kind copy_meta).Each (Used memory) memory pool
pool_in_use = (omega arith, (omega arith, ((omega arith, (omega arith, (tt, tt))), tt)))

object_of_pool_list-Copied_example :
    Copied
      (nullable (pool_list_kind copy_meta))
      memory
      all_items
      (object_of_pool_list copy_meta memory all_items).0
      (object_of_pool_list copy_meta memory all_items).1
object_of_pool_list-Copied_example =
    object_of_pool_list-Copied copy_meta memory all_items copy_meta-IsMetaCopy
      (omega arith, (pool_in_use, (pool_in_use, tt)))
