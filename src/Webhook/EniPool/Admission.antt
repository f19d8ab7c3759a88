-- ===== src/Webhook/EniPool/Admission.antt =====
-- The pools that come into being by admission, one at a time.
use capa_eni_controller.Prelude.{
  String, ◌≡◌, sym, inl, inr, true, false, not, none, List, [], ◌∷◌, ◌==◌, Bool-cases,
  ne_of_eq_false,
}
use capa_eni_controller.Prelude.Lists.{All, Pairs, filter, filter-All, filter-Pairs, Pairs-imp}
use capa_eni_controller.Api.Pool.{EniPool}
use capa_eni_controller.Kube.Prog.{ok, Server, run, list_pools}
use capa_eni_controller.Allocation.{match_pool}
use capa_eni_controller.Allocation.Pools.{SameNetwork, in_network, first, match_pool-disjoint}
use capa_eni_controller.Webhook.EniPool.{EniPoolCustomValidator, validate}
use capa_eni_controller.Webhook.EniPool.Validity.{IsValid, Compatible, NoneShared, validate-IsValid}

-- The pools without the one of that name.
abbrev pub without : String → List EniPool → List EniPool
without name items = filter (λ p. not (p.name == name)) items

-- Pools that are created, updated or deleted one at a time, each version admitted by the webhook
-- while the server lists the pools of that moment.
pub data Admitted (v : EniPoolCustomValidator) (server : Server) : List EniPool → Type 1 where
  empty : Admitted v server []
  put :
      {items : List EniPool} (pool : EniPool) (w w₁ : server.World)
      → Admitted v server items
      → server.serve list_pools w ≡ (ok items, w₁)
      → (run server (validate v pool) w).0 ≡ ok tt
      → Admitted v server (pool ∷ without pool.name items)
  deleted :
      {items : List EniPool} (name : String)
      → Admitted v server items
      → Admitted v server (without name items)

-- Two pools have another name, another network, and no interface in common.
pub record Apart (p q : EniPool) : Type 0 where
  pub network : ¬ SameNetwork p q
  pub interfaces : NoneShared p q

pub record Coherent (items : List EniPool) : Type 0 where
  pub valid : All IsValid items
  pub apart : Pairs Apart items

Apart-without :
    (pool : EniPool) (items : List EniPool)
    → All (Compatible pool) items
    → All (Apart pool) (without pool.name items)
Apart-without pool [] h = tt
Apart-without pool (other ∷ items) h = elim (Bool-cases (other.name == pool.name)) [
  | inl e ↦ rw e (Apart-without pool items h.1)
  | inr e ↦ rw e (kept e h.0, Apart-without pool items h.1)
]
  where
    kept : (other.name == pool.name) ≡ false → Compatible pool other → Apart pool other
    kept e (inl same) = absurd (ne_of_eq_false other.name pool.name e same)
    kept e (inr (network, shared)) = record {
      network = λ s. network (sym s.0, sym s.1);
      interfaces = shared;
    }

-- What the webhook admits one at a time is coherent as a whole.
pub Admitted-Coherent :
    (v : EniPoolCustomValidator) (server : Server) {items : List EniPool}
    → v.client ≡ true
    → Admitted v server items
    → Coherent items
Admitted-Coherent v server client empty = record { valid = tt; apart = tt }
Admitted-Coherent v server client (put {items = old} pool w w₁ before listed passed) =
    let c = Admitted-Coherent v server client before in
    let (valid, compatible) = (validate-IsValid v server pool old w w₁ client listed).0 passed in
    record {
      valid = (valid, filter-All IsValid _ old c.valid);
      apart = (Apart-without pool old compatible, filter-Pairs Apart _ old c.apart);
    }
Admitted-Coherent v server client (deleted {items = old} name before) =
    let c = Admitted-Coherent v server client before in
    record { valid = filter-All IsValid _ old c.valid; apart = filter-Pairs Apart _ old c.apart }

-- Over pools that the webhook has admitted, the allocator's search never finds two pools for a
-- network: it gives the one pool of the region and VPC, or none.
pub match_pool-Admitted :
    (v : EniPoolCustomValidator) (server : Server) {items : List EniPool} (region vpc_id : String)
    → v.client ≡ true
    → Admitted v server items
    → match_pool region vpc_id items none ≡ ok (first (filter (in_network region vpc_id) items))
match_pool-Admitted v server {items} region vpc_id client h =
    match_pool-disjoint region vpc_id items
      (Pairs-imp Apart _ (λ p q a. a.network) items (Admitted-Coherent v server client h).apart)
