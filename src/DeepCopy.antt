-- ===== src/DeepCopy.antt =====
-- api/v1alpha1/zz_generated.deepcopy.go: the objects of the deep copies, on memory. A structure is a value whose slices refer to arrays; a slice that is nil is none.
pub mod Code
pub mod Pointers
pub mod Growth
pub mod Kinds
pub mod Loop
pub mod Items
pub mod Copies
pub mod Plain
pub mod Claims
pub mod Observations
pub mod Both
pub mod Pools
pub mod Objects
use capa_eni_controller.Prelude.{ℕ, String, suc, Option, none, some, List, [], ◌∷◌, map}
use capa_eni_controller.Api.Meta.{Condition}
use capa_eni_controller.Api.Claim.{
  EniClaimSpec, EniClaimPhase, EniClaimStatus, EniClaim, NamespacedObjectReference,
  ClusterObjectReference,
}
use capa_eni_controller.Api.Pool.{
  EniReference, EniPoolSpec, ExhaustionPolicy, EniObservation, EniState, EniPoolStatus, EniPool,
}
use capa_eni_controller.Slices.{Slice, Heap, at, contents, write}

-- ClaimRef is an address, or nil.
pub record ObservationCells : Type 0 where
  pub key : String
  pub id : String
  pub availability_zone : String
  pub subnet_id : String
  pub private_ip : String
  pub state : EniState
  pub claim_ref : Option ℕ
  pub message : String

-- A pointer is the address of an array with one element.
abbrev pub Pointers : Type 0
Pointers = Heap NamespacedObjectReference

abbrev pub read_pointer : Pointers → Option ℕ → Option NamespacedObjectReference
read_pointer p none = none
read_pointer p (some a) = at (p.cells a) 0

abbrev pub read_observation : Pointers → ObservationCells → EniObservation
read_observation p o = record {
  key = o.key;
  id = o.id;
  availability_zone = o.availability_zone;
  subnet_id = o.subnet_id;
  private_ip = o.private_ip;
  state = o.state;
  claim_ref = read_pointer p o.claim_ref;
  message = o.message;
}

pub record StatusCells : Type 0 where
  pub phase : EniClaimPhase
  pub private_ip : String
  pub conditions : Option Slice

-- The metadata with the finalizers in an array, or nil.
pub record ClaimCells : Type 0 where
  pub name : String
  pub generation : ℕ
  pub finalizers : Option Slice
  pub creation_timestamp : ℕ
  pub deletion_timestamp : Option ℕ
  pub spec : EniClaimSpec
  pub status : StatusCells

pub record PoolSpecCells : Type 0 where
  pub region : String
  pub vpc_id : String
  pub interfaces : Option Slice
  pub exhaustion_policy : ExhaustionPolicy

pub record PoolStatusCells : Type 0 where
  pub observed_generation : ℕ
  pub interfaces : Option Slice
  pub conditions : Option Slice

-- The metadata with the finalizers in an array, or nil.
pub record PoolCells : Type 0 where
  pub name : String
  pub generation : ℕ
  pub finalizers : Option Slice
  pub spec : PoolSpecCells
  pub status : PoolStatusCells

-- The arrays by what they hold.
pub record Memory : Type 0 where
  pub texts : Heap String
  pub conditions : Heap Condition
  pub references : Heap EniReference
  pub observations : Heap ObservationCells
  pub pointers : Pointers
  pub claims : Heap ClaimCells
  pub pools : Heap PoolCells

-- What is read: a nil slice is an empty list.
abbrev pub read_slice : {A : Type 0} → Heap A → Option Slice → List A
read_slice h none = []
read_slice h (some s) = contents h s

abbrev pub read_claim : Memory → ClaimCells → EniClaim
read_claim m c = record {
  name = c.name;
  generation = c.generation;
  finalizers = read_slice m.texts c.finalizers;
  creation_timestamp = c.creation_timestamp;
  deletion_timestamp = c.deletion_timestamp;
  spec = c.spec;
  status = record {
    phase = c.status.phase;
    private_ip = c.status.private_ip;
    conditions = read_slice m.conditions c.status.conditions;
  };
}

abbrev pub read_pool_spec : Memory → PoolSpecCells → EniPoolSpec
read_pool_spec m s = record {
  region = s.region;
  vpc_id = s.vpc_id;
  interfaces = read_slice m.references s.interfaces;
  exhaustion_policy = s.exhaustion_policy;
}

-- Where the arrays of a kind of item are.
pub record Store (A : Type 0) : Type 0 where
  pub get : Memory → Heap A
  pub put : Memory → Heap A → Memory

abbrev pub observation_store : Store ObservationCells
observation_store = record { get = λ m. m.observations; put = λ m h. record m { observations = h } }

abbrev pub condition_store : Store Condition
condition_store = record { get = λ m. m.conditions; put = λ m h. record m { conditions = h } }

abbrev pub reference_store : Store EniReference
reference_store = record { get = λ m. m.references; put = λ m h. record m { references = h } }

abbrev pub claim_store : Store ClaimCells
claim_store = record { get = λ m. m.claims; put = λ m h. record m { claims = h } }

abbrev pub pool_store : Store PoolCells
pool_store = record { get = λ m. m.pools; put = λ m h. record m { pools = h } }

-- What is read of items that have references of their own.
abbrev pub read_items : {A V : Type 0} → Store A → (Memory → A → V) → Memory → Option Slice → List V
read_items store read m none = []
read_items store read m (some s) = map (read m) (contents (store.get m) s)

abbrev pub read_interfaces : Memory → Option Slice → List EniObservation
read_interfaces m s = read_items observation_store (λ m. read_observation m.pointers) m s

abbrev pub read_pool_status : Memory → PoolStatusCells → EniPoolStatus
read_pool_status m s = record {
  observed_generation = s.observed_generation;
  interfaces = read_interfaces m s.interfaces;
  conditions = read_slice m.conditions s.conditions;
}

-- The model of a pool leaves out its finalizers, which are read beside it.
abbrev pub read_pool : Memory → PoolCells → EniPool × List String
read_pool m p = (
  record {
    name = p.name;
    generation = p.generation;
    spec = read_pool_spec m p.spec;
    status = read_pool_status m p.status;
  },
  read_slice m.texts p.finalizers,
)

-- The items of a list object; its metadata, which no code reads, is left out.
abbrev pub ListCells : Type 0
ListCells = Option Slice
