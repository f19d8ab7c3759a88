-- ===== src/Webhook/AwsMachine/Outcome.antt =====
-- What an admitted machine looks like, beside the claims that the server stores.
use capa_eni_controller.Prelude.{
  String, ◌≡◌, refl, sym, ◌∙◌, ap, ◌⊎◌, inl, inr, Option, none, some, List, [], ◌∷◌, ◌==◌, eq_refl,
  eq_iff, Bool-cases, not, ◌&&◌,
}
use capa_eni_controller.Prelude.Lists.{is_empty}
use capa_eni_controller.Api.Constants.{allocation_result_annotation}
use capa_eni_controller.Api.Meta.{AwsMachine, insert, made}
use capa_eni_controller.Api.Claim.{EniClaim}
use capa_eni_controller.Api.Pool.{EniReference, EniPool}
use capa_eni_controller.Kube.Prog.{Result, ok, err, Error, Server, run, IsRead, Only}
use capa_eni_controller.Kube.Platform.{Platform}
use capa_eni_controller.Kube.ClaimStore.{IsClaimStore}
use capa_eni_controller.Kube.Rules.{run->>=, reads_keep, after}
use capa_eni_controller.Kube.Go.{Go, ◌>>=◌}
use capa_eni_controller.Sort.{sort_slice}
use capa_eni_controller.Allocation.{
  new_claim, find_pool, resolve_interface_key, reserve, create_first, configured, private_ip_lt,
}
use capa_eni_controller.Allocation.Reserve.{create_first-Outcome}
use capa_eni_controller.Allocation.Reserve
use capa_eni_controller.Allocation.Requests.{find_pool-reads, resolve_interface_key-reads}
use capa_eni_controller.Webhook.AwsMachine.{
  resolve_cluster_network, conclude, allocate_from, allocate, allocated,
}
use capa_eni_controller.Webhook.AwsMachine.Gate.{resolve_cluster_network-reads}

module _ (platform : Platform) (server : Server) (stored : server.World → String → Option EniClaim)
    (store : IsClaimStore server stored) (obj : AwsMachine) where
  open server use {World}

  -- The machine is admitted with the interface of a claim that is new, names the machine and is
  -- named by the interface; all other claims are as they were.
  pub record GetsInterface (w : World) (obj' : AwsMachine) (w' : World) : Type 0 where
    pub claim : EniClaim
    pub written : obj' ≡ record obj {
      network_interfaces = claim.spec.eni_id ∷ [];
      annotations = some (insert allocation_result_annotation "Allocated" (made obj.annotations));
    }
    pub was_free : stored w claim.spec.eni_id ≡ none
    pub is_stored : stored w' claim.spec.eni_id ≡ some claim
    pub named : claim.name ≡ claim.spec.eni_id
    pub namespace : claim.spec.machine_ref.namespace ≡ obj.namespace
    pub machine : claim.spec.machine_ref.name ≡ obj.name
    pub others : (n : String) → (n ≡ claim.spec.eni_id) ⊎ (stored w' n ≡ stored w n)

  -- The machine is admitted as it came, and the claims are as they were.
  pub record Unchanged (w : World) (obj' : AwsMachine) (w' : World) : Type 0 where
    pub same : obj' ≡ obj
    pub keeps : (n : String) → stored w' n ≡ stored w n

  abbrev pub Outcome : World → Result Error AwsMachine → World → Type 0
  Outcome w (ok obj') w' = Unchanged w obj' w' ⊎ GetsInterface w obj' w'
  Outcome w (err e) w' = Unit

  -- Reads before do not matter.
  Outcome-shift :
      (w w₁ w' : World) (result : Result Error AwsMachine)
      → ((n : String) → stored w₁ n ≡ stored w n)
      → Outcome w₁ result w'
      → Outcome w result w'
  Outcome-shift w w₁ w' (err e) k o = tt
  Outcome-shift w w₁ w' (ok obj') k (inl u) =
      inl (record { same = u.same; keeps = λ n. u.keeps n ∙ k n })
  Outcome-shift w w₁ w' (ok obj') k (inr g) = inr (record {
    claim = g.claim;
    written = g.written;
    was_free = sym (k g.claim.spec.eni_id) ∙ g.was_free;
    is_stored = g.is_stored;
    named = g.named;
    namespace = g.namespace;
    machine = g.machine;
    others = λ n. elim (g.others n) [ inl e ↦ inl e | inr e ↦ inr (e ∙ k n) ];
  })

  after-Outcome :
      {A : Type 0} (f : A → Go AwsMachine) (w w₁ : World) (result : Result Error A)
      → ((n : String) → stored w₁ n ≡ stored w n)
      → ((a : A) (v : World) → Outcome v (run server (f a) v).0 (run server (f a) v).1)
      → Outcome w (after server f result w₁).0 (after server f result w₁).1
  after-Outcome f w w₁ (err e) k h = tt
  after-Outcome f w w₁ (ok a) k h = Outcome-shift w w₁ _ _ k (h a w₁)

  -- A reading part in front does not matter.
  bind-Outcome :
      {A : Type 0} (m : Go A) (f : A → Go AwsMachine) (w : World)
      → Only IsRead m
      → ((a : A) (v : World) → Outcome v (run server (f a) v).0 (run server (f a) v).1)
      → Outcome w (run server (m >>= f) w).0 (run server (m >>= f) w).1
  bind-Outcome m f w reads h = rw (run->>= server m f w) (
      after-Outcome f w (run server m w).1 (run server m w).0
        (reads_keep server stored store m w reads) h)

  module _ (pool : EniPool) where
    chosen_gets :
        (refs : List EniReference) (w w' : World) (claim : EniClaim)
        → Reserve.Reserved server stored store obj pool refs w claim w'
        → GetsInterface w (allocated obj claim) w'
    unfolding new_claim allocated
    chosen_gets refs w w' claim r = record {
      claim = claim;
      written = refl;
      was_free = ap (stored w) id_eq ∙ r.free;
      is_stored = ap (stored w') id_eq ∙ r.stores r.chosen.id ∙ (rw (eq_refl r.chosen.id));
      named = r.name ∙ sym id_eq;
      namespace = ap (λ s. s.machine_ref.namespace) r.spec;
      machine = ap (λ s. s.machine_ref.name) r.spec;
      others = λ n. elim (Bool-cases (r.chosen.id == n)) [
        | inl e ↦ inl (sym ((eq_iff r.chosen.id n).0 e) ∙ sym id_eq)
        | inr e ↦ inr (r.stores n ∙ (rw e))
      ];
    }
      where
        id_eq : claim.spec.eni_id ≡ r.chosen.id
        id_eq = ap (λ s. s.eni_id) r.spec

    concluded :
        (refs : List EniReference) (w w₁ : World) (result : Result Error (Option EniClaim))
        → Reserve.Outcome server stored store obj pool refs w result w₁
        → Outcome w
            (after server (conclude platform obj) result w₁).0
            (after server (conclude platform obj) result w₁).1
    unfolding conclude
    concluded refs w w₁ (err e) o = tt
    concluded refs w w₁ (ok none) o = inl (record { same = refl; keeps = o.keeps })
    concluded refs w w₁ (ok (some claim)) o = inr (chosen_gets refs w w₁ claim o)

    reserve-conclude :
        (key : String) (w : World)
        → Outcome w
            (run server (reserve obj pool key >>= conclude platform obj) w).0
            (run server (reserve obj pool key >>= conclude platform obj) w).1
    unfolding reserve
    reserve-conclude key w = elim (Bool-cases (not (key == "") && is_empty (configured pool key))) [
      | inl e ↦ rw e tt
      | inr e ↦
          let refs = sort_slice private_ip_lt (configured pool key) in
          rw (e, run->>= server (create_first obj pool refs) (conclude platform obj) w)
            (concluded refs w _ _ (create_first-Outcome server stored store obj pool refs w))
    ]

  allocate_from-Outcome :
      (found : Option EniPool) (w : World)
      → Outcome w
          (run server (allocate_from platform obj found) w).0
          (run server (allocate_from platform obj found) w).1
  unfolding allocate_from
  allocate_from-Outcome none w = inl (record { same = refl; keeps = λ n. refl })
  allocate_from-Outcome (some pool) w =
      bind-Outcome (resolve_interface_key platform obj) _ w
        (resolve_interface_key-reads platform obj) (reserve-conclude pool)

  -- A machine that goes through the allocation is admitted as it came, with the claims as they were,
  -- or with the one interface of a claim that is new, names the machine and is named by the interface,
  -- with the annotation of its allocation and nothing else changed, and no other claim changes. Over a server that stores claims by name.
  pub allocate-Outcome :
      (w : World)
      → Outcome w (run server (allocate platform obj) w).0 (run server (allocate platform obj) w).1
  unfolding allocate
  allocate-Outcome w =
      bind-Outcome (resolve_cluster_network platform obj) _ w
        (resolve_cluster_network-reads platform obj)
        λ network v.
          bind-Outcome (find_pool network.0 network.1) _ v (find_pool-reads network.0 network.1)
            allocate_from-Outcome
