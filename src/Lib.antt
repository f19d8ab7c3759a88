-- ===== src/Lib.antt =====
-- capa-eni-controller gives pre-created network interfaces (ENIs) to AWSMachines of Cluster API.
-- A pool (ENIPool) declares the interfaces of one region and VPC. A claim (ENIClaim) reserves one of
-- them for one machine: it is named by the interface, so that the API server's atomic creation by
-- name is the lock. The parts meet in the objects of the API server only.
--
-- The parts, and the files that model them:
--
-- - api/v1alpha1: Api/Constants, Api/Claim and Api/Pool are constants.go, eniclaim_types.go and
--   enipool_types.go; Api/Meta has the objects of other projects with the fields that the code reads,
--   and Go's maps as association lists.
-- - internal/webhook/v1beta2/awsmachine_webhook.go: Webhook/AwsMachine. `default` is Default; a
--   machine that opts in has its interface reserved at its creation. Children: Gate (which machines
--   are left alone, and what may be requested), Outcome, Denials (why a creation is denied), Policy,
--   Again.
-- - internal/webhook/v1alpha1/enipool_webhook.go: Webhook/EniPool. `validate` is validate. Children:
--   Interfaces and Others (the two loops), Validity (the test as a whole), Admission (all pools that
--   are admitted one at a time).
-- - internal/webhook/v1alpha1/eniclaim_webhook.go: Webhook/EniClaim; child: Uniqueness.
-- - internal/controller/awsmachine_controller.go: Controller/AwsMachine. Children: Settled, Pause,
--   Retry, Writes, Sources and Requests (what is written and requested, after which answers), Same, and
--   Exhausted, Network, Ended and Endings (how a reconcile ends).
-- - internal/controller/eniclaim_controller.go: Controller/EniClaim. Children: Deletion, Reclaim,
--   Status, Finalizers, InPlace, Patch, Ended, Endings.
-- - internal/controller/enipool_controller.go: Controller/EniPool; children: Inventory,
--   Counts, Requests.
-- - cmd/main.go: Setup. Options has the flags and what is made of them, Main is main, Managed the
--   SetupWithManager functions and the set-up functions of the webhooks, Scheme the init functions and
--   groupversion_info.go. Boot has what they ask of the libraries and the operating system, as a tree
--   of requests that may also exit. Expected is what the command line comes to. Children with
--   theorems: Plan, Servers, Known.
-- - Allocation: findPool, resolveInterfaceKey and the reservation of claimInterface, which the
--   machine webhook and the machine controller share line by line. Children: Order, Pools, Reserve,
--   Selection, Requests, Refusals, InPlace.
-- - System: the two allocations together, as acquisitions of interfaces by machines (Owners, without
--   claims or requests; Acquired and Refines, read off the stored claims), histories of whole
--   admissions and reconciles one after the other (Exclusive), what the webhook has been answered when
--   it admits a machine (Admitted), and all four handlers at the same time (Threads): any number of
--   threads, each of which runs up to its next request and its answer, in any order, and between them
--   what others do to the server. Children of Threads: Specs (what a request does to the claims),
--   Knowledge (what an answer says, and for how long), Owned, Invariant, Exclusive.
-- - Sort and Netip: what the code uses of Go's sort.Slice and net/netip. Up to twelve elements
--   sort.Slice is the insertion sort that is modelled; for more elements Go uses another algorithm,
--   which agrees where the addresses are different IPv4 addresses, as the pool webhook demands, since
--   then only one arrangement is sorted. The parser of IPv6 text reads at most eight groups, and its
--   loop has fuel for eight rounds.
-- - Slices: Go slices as references to arrays on a heap, for the two places where the code filters a
--   slice in the array of a slice (the InPlace modules); children: Laws, Filter. Elsewhere a slice is a
--   list. An array that append makes has just the room that is needed, where Go may leave more.
-- - api/v1alpha1/zz_generated.deepcopy.go: DeepCopy has the objects on the same arrays, and its child
--   Code the functions DeepCopyInto, Pointers DeepCopy and DeepCopyObject. A kind of object (Kinds) is
--   how it is read and copied and which references it has; Plain, Both, Loop, Items and Observations
--   build kinds from kinds, Claims and Pools are kinds, and Objects has the pointers to them and the lists.
--   Growth is about the memory, and Copies about a claim and the specification of a pool.
-- - Kube: what stands between the parts. A handler is a tree of requests (`Prog`): a leaf is a result,
--   a node is a call of the API server, the clock, the event recorder or a metric, with what follows
--   each answer. A `Server` is any state with an answer to each request, and `run` runs a handler
--   against it. Theorems that hold whatever is answered are about the tree (`Only`, `Justified`,
--   `Yields`).
--   Theorems about reservations take a server that stores claims by name and creates them atomically
--   (Kube/ClaimStore), and fails in any way it likes beside that; the removal of an orphan takes one
--   that deletes objects with finalizers in two steps (Kube/Lifecycle); handlers at the same time take
--   one that keeps the specifications of the claims, as the claim webhook demands
--   (System/Threads/Specs).
--
-- An `error` is a constructor of `Error`, a pointer that may be nil is an `Option`, `time.Duration` is
-- a count of nanoseconds, and a time is a count since an epoch; time.Since of a time that is ahead of
-- the clock is 0 in the model and negative in Go, and both are less than the grace.
--
-- Parameters: the server, and what the code calls of apimachinery and Cluster API
-- (Kube/Platform: schema.ParseGroupVersion, the group and the name label of Cluster API, IsDefined).
-- Tests/Memory has an instance of both, and its child Laws what the theorems rely on; Tests/Admission,
-- Tests/Pools and Tests/Claims run over it. Those of Setup are its surroundings and the registry of
-- types, with instances in Tests/Setup. Tests/System, Tests/Threads, Tests/Endings, Tests/Slices
-- and Tests/Copies run the others; Tests/Memory/Kept is the server that keeps specifications, and
-- Tests/Copies has a copy of the metadata.
--
-- Not modelled: logging, but for that of cmd/main.go, whose entry in the function that disables HTTP/2
-- is left out; the logger's own flags; the registration of the metrics (internal/metrics/metrics.go);
-- the metadata of list objects in the deep copies; the manifests under config.
pub mod Prelude
pub mod Api
pub mod Kube
pub mod Setup
pub mod Netip
pub mod Sort
pub mod Slices
pub mod DeepCopy
pub mod Allocation
pub mod Webhook
pub mod Controller
pub mod System
pub mod Tests
