-- ===== src/Tests/Memory.antt =====
-- A server that keeps the objects in lists, and fails only where an object is missing or there
-- already.
pub mod Live
pub mod Laws
pub mod Kept
use capa_eni_controller.Prelude.{
  eq_refl, ℕ, suc, String, ◌≡◌, ◌≢◌, refl, sym, ◌∙◌, ap, inl, inr, not, ◌&&◌, Option, none, some,
  List, [], ◌∷◌, ◌==◌, if◌then◌else◌, Bool-cases,
}
use capa_eni_controller.Prelude.Lists.{filter, In}
use capa_eni_controller.Api.Meta.{
  Dict, lookup, NamespacedName, AwsMachine, Machine, Cluster, AwsCluster,
}
use capa_eni_controller.Api.Claim.{EniClaim}
use capa_eni_controller.Api.Pool.{EniPool}
use capa_eni_controller.Kube.Prog.{
  Op, Response, IsRead, ok, err, Result, ApiError, not_found, already_exists, get_aws_machine,
  get_machine, get_cluster, get_aws_cluster, get_pool, get_claim, list_pools, list_claims,
  create_claim, delete_claim, patch_claim, patch_aws_machine, update_claim_status,
  update_pool_status, now, set_status_condition, record_event, inc_dynamic_fallbacks,
  set_pool_available, Server,
}
use capa_eni_controller.Kube.ClaimStore.{IsClaimStore}
use capa_eni_controller.Kube.Lifecycle.{IsLifecycle}
use capa_eni_controller.Kube.Platform.{Platform}
use capa_eni_controller.Controller.AwsMachine.Retry.{IsComplete}

-- The objects of one namespace, by name where nothing else is said.
pub record World : Type 0 where
  pub aws_machines : List AwsMachine
  pub machines : Dict Machine
  pub clusters : Dict Cluster
  pub aws_clusters : Dict AwsCluster
  pub pools : List EniPool
  pub claims : List EniClaim
  pub clock : ℕ

abbrev pub answer : {A : Type 0} → Option A → Result ApiError A
answer none = err not_found
answer (some a) = ok a

abbrev pub machine_named : NamespacedName → List AwsMachine → Option AwsMachine
machine_named k [] = none
machine_named k (m ∷ ms) =
    let rest = machine_named k ms in
    if m.namespace == k.namespace && m.name == k.name then some m else rest

abbrev pub pool_named : String → List EniPool → Option EniPool
pool_named n [] = none
pool_named n (p ∷ ps) = let rest = pool_named n ps in if p.name == n then some p else rest

abbrev pub claim_named : String → List EniClaim → Option EniClaim
claim_named n [] = none
claim_named n (c ∷ cs) = let rest = claim_named n cs in if c.name == n then some c else rest

-- The claims that are found under their names.
abbrev pub live : List EniClaim → List EniClaim
live [] = []
live (c ∷ cs) = c ∷ filter (λ d. not (d.name == c.name)) (live cs)

abbrev pub stored : World → String → Option EniClaim
stored w n = claim_named n w.claims

abbrev pub created : World → EniClaim → World
created w c = record w { claims = c ∷ w.claims }

abbrev pub create : Option EniClaim → EniClaim → World → Result ApiError EniClaim × World
create none c w = (ok c, created w c)
create (some _) c w = (err already_exists, w)

abbrev without : String → World → World
without n w = record w { claims = filter (λ d. not (d.name == n)) w.claims }

abbrev put : EniClaim → World → World
put c w = record (without c.name w) { claims = c ∷ (without c.name w).claims }

-- A claim with finalizers is marked, another one goes at once.
abbrev delete_by : List String → EniClaim → World → World
delete_by [] c w = without c.name w
delete_by (f ∷ fs) c w =
    put (record c { deletion_timestamp = some w.clock; generation = suc c.generation }) w

abbrev delete : Option EniClaim → World → Result ApiError Unit × World
delete none w = (err not_found, w)
delete (some c) w = (ok tt, delete_by c.finalizers c w)

-- The patch that takes the last finalizer of a claim that is being deleted removes it.
abbrev patch_by : Option ℕ → List String → EniClaim → World → World
patch_by (some t) [] c w = without c.name w
patch_by _ _ c w = put c w

abbrev patch : Option EniClaim → EniClaim → World → Result ApiError EniClaim × World
patch none c w = (err not_found, w)
patch (some d) c w = (ok c, patch_by d.deletion_timestamp c.finalizers c w)

abbrev pub serve : (o : Op) → World → Response o × World
serve (get_aws_machine k) w = (answer (machine_named k w.aws_machines), w)
serve (get_machine k) w = (answer (lookup k.name w.machines), w)
serve (get_cluster k) w = (answer (lookup k.name w.clusters), w)
serve (get_aws_cluster k) w = (answer (lookup k.name w.aws_clusters), w)
serve (get_pool n) w = (answer (pool_named n w.pools), w)
serve (get_claim n) w = (answer (claim_named n w.claims), w)
serve list_pools w = (ok w.pools, w)
serve list_claims w = (ok (live w.claims), w)
serve (create_claim c) w = create (stored w c.name) c w
serve (delete_claim c) w = delete (stored w c.name) w
serve (patch_claim b c) w = patch (stored w b.name) c w
serve (patch_aws_machine b m) w = (ok m, w)
serve (update_claim_status c) w = (ok c, put c w)
serve (update_pool_status p) w = (ok p, w)
serve now w = (w.clock, w)
serve (set_status_condition cs c) w = (c ∷ cs, w)
serve (record_event t r n) w = (tt, w)
serve (inc_dynamic_fallbacks r) w = (tt, w)
serve (set_pool_available p r v n) w = (tt, w)

abbrev pub server : Server
server = record { World = World; serve = serve }

-- A group is what stands before the slash.
abbrev pub group_of : String → Option String
group_of version =
    if version == "cluster.x-k8s.io/v1beta1"
    then some "cluster.x-k8s.io"
    else if version == "v1"
    then some ""
    else none

abbrev pub platform : Platform
platform = record {
  parse_group_version = group_of;
  cluster_api_group = "cluster.x-k8s.io";
  cluster_name_label = "cluster.x-k8s.io/cluster-name";
  is_defined = λ ref. not (ref.name == "");
}
