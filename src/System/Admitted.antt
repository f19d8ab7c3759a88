-- ===== src/System/Admitted.antt =====
-- What the webhook has been answered when it admits a machine with an interface.
use capa_eni_controller.Prelude.Lists.{In}
use capa_eni_controller.Prelude.{
  String, ap, ◌∙◌, subst, ◌≡◌, refl, ◌⊎◌, inl, inr, Option, none, some, List, [], ◌∷◌,
}
use capa_eni_controller.Api.Meta.{AwsMachine}
use capa_eni_controller.Api.Claim.{EniClaim}
use capa_eni_controller.Api.Constants.{claim_finalizer}
use capa_eni_controller.Api.Pool.{EniReference, EniPool}
use capa_eni_controller.Kube.Prog.{
  Op, Prog, ret, call, create_claim, Result, Error, ok, err, Only, asks, IsRead,
}
use capa_eni_controller.Kube.Go.{Go, ◌>>=◌}
use capa_eni_controller.Kube.History.{
  Event, did, Justified, Yields, gives, asked, Extends, Yields-bind,
}
use capa_eni_controller.Kube.History
use capa_eni_controller.Kube.Platform.{Platform}
use capa_eni_controller.Allocation.{new_claim, find_pool, resolve_interface_key, reserve}
use capa_eni_controller.Allocation.Refusals.{IsListed-more}
use capa_eni_controller.Allocation.Requests.{resolve_interface_key-reads}
use capa_eni_controller.Webhook.AwsMachine.{
  AwsMachineCustomDefaulter, Context, resolve_cluster_network, allocate_from, claim_interface,
  conclude, allocate, allocated, default, paused,
}
use capa_eni_controller.Webhook.AwsMachine.Gate.{
  default_cases, resolve_cluster_network-reads, default-MayAsk,
}
use capa_eni_controller.Webhook.AwsMachine.Gate
use capa_eni_controller.Controller.AwsMachine.Writes.{IsListed, IsBacked, MayAsk, Obtained}
use capa_eni_controller.Controller.AwsMachine.Sources.{FoundBy, find_pool-Yields, reserve-Yields}
use capa_eni_controller.Controller.AwsMachine
use capa_eni_controller.Controller.AwsMachine.Requests.{reads_allowed}
use capa_eni_controller.System.Acquired.{who}

module _ (platform : Platform) (obj : AwsMachine) where
  -- The machine is the same, with the interfaces it came with, or that of a claim that was created
  -- for it.
  abbrev pub Gains : List Event → Result Error AwsMachine → Type 0
  Gains h (ok obj') =
      (who obj' ≡ who obj)
      × ((obj'.network_interfaces ≡ obj.network_interfaces)
          ⊎ ((c : EniClaim) × IsBacked obj h c × (obj'.network_interfaces ≡ c.spec.eni_id ∷ [])))
  Gains h (err e) = Unit

  -- A part in front that only reads.
  read_first :
      {A : Type 0} (p : Go A) (f : A → Go AwsMachine) {h : List Event}
      → Only IsRead p
      → ((h' : List Event) (a : A) → Extends h h' → Yields (MayAsk obj) Gains h' (f a))
      → Yields (MayAsk obj) Gains h (p >>= f)
  read_first (ret (ok a)) f {h = h} reads next = next h a (λ e i. i)
  read_first (ret (err e)) f reads next = gives tt
  read_first (call o k) f {h = h} (asks u reads) next = asked (reads_allowed obj h o u) λ r.
      read_first (k r) f {h = did o r ∷ h} (reads r)
        (λ h' a more. next h' a (λ e i. more e (inr i)))

  conclude-Gains :
      {h : List Event} (claim : Option EniClaim)
      → Obtained obj h (ok claim)
      → Yields (MayAsk obj) Gains h (conclude platform obj claim)
  unfolding conclude allocated
  conclude-Gains none q = gives (refl, inl refl)
  conclude-Gains (some c) q = gives (refl, inr (c, q, refl))

  allocate_from-Gains :
      {h : List Event} (region vpc_id : String) (found : Option EniPool)
      → FoundBy region vpc_id h (ok found)
      → Yields (MayAsk obj) Gains h (allocate_from platform obj found)
  unfolding allocate_from claim_interface
  allocate_from-Gains region vpc_id none q = gives (refl, inl refl)
  allocate_from-Gains region vpc_id (some pool) q =
      read_first (resolve_interface_key platform obj) _ (resolve_interface_key-reads platform obj)
        (λ h' key more.
          Yields-bind (MayAsk obj) (Obtained obj) Gains (λ h'' e u. tt) (conclude platform obj) h'
            (reserve obj pool key) (reserve-Yields obj pool key (IsListed-more _ _ pool more q))
            (λ h'' claim got. conclude-Gains claim got))

  allocate-Gains : {h : List Event} → Yields (MayAsk obj) Gains h (allocate platform obj)
  unfolding allocate AwsMachine.find_pool
  allocate-Gains =
      read_first (resolve_cluster_network platform obj) _
        (resolve_cluster_network-reads platform obj)
        (λ h' network more.
          Yields-bind (MayAsk obj) (FoundBy network.0 network.1) Gains (λ h'' e u. tt)
            (allocate_from platform obj) h' (find_pool network.0 network.1)
            (find_pool-Yields obj network.0 network.1)
            (λ h'' found q. allocate_from-Gains network.0 network.1 found q))

  -- Whatever is answered, the webhook asks for what the machine's reconciler may ask for, and an
  -- admitted machine is the same one, with the interfaces it came with, or that of a claim that was
  -- created for it.
  pub default-Gains :
      (d : AwsMachineCustomDefaulter) (ctx : Context)
      → Yields (MayAsk obj) Gains [] (default platform d ctx obj)
  unfolding paused
  default-Gains d ctx = elim (default_cases platform d ctx obj) [
    | inl e ↦ rw e (gives (refl, inl refl))
    | inr (inl (e, c)) ↦ rw e (gives (refl, inl refl))
    | inr (inr (e, c)) ↦ rw e allocate-Gains
  ]

  -- A claim for that interface of the pool and for the machine, with the finalizer.
  pub record IsFor (pool : EniPool) (r : EniReference) (c : EniClaim) : Type 0 where
    pub named : c.name ≡ r.id
    pub eni_id : c.spec.eni_id ≡ r.id
    pub namespace : c.spec.machine_ref.namespace ≡ obj.namespace
    pub name : c.spec.machine_ref.name ≡ obj.name
    pub pool_name : c.spec.pool_ref.name ≡ pool.name
    pub finalizers : c.finalizers ≡ claim_finalizer ∷ []

  -- A read, or the creation of a claim for an interface of a pool that the server has listed.
  abbrev pub Requests : List Event → Op → Type 0
  Requests h o =
      IsRead o
      ⊎ ((pool : EniPool) × (r : EniReference) × (c : EniClaim) × IsListed h pool
          × In r pool.spec.interfaces
          × (o ≡ create_claim c)
          × IsFor pool r c)

  new_claim-IsFor : (pool : EniPool) (r : EniReference) → IsFor pool r (new_claim obj pool r)
  unfolding new_claim
  new_claim-IsFor pool r = record {
    named = refl;
    eni_id = refl;
    namespace = refl;
    name = refl;
    pool_name = refl;
    finalizers = refl;
  }

  request : (h : List Event) (o : Op) → Gate.MayAsk obj o → MayAsk obj h o → Requests h o
  request h o (inl read) may = inl read
  request h o (inr (pool, r, i, e)) may =
      let (pool', r', l, i', e') = subst (MayAsk obj h) e may in
      inr
        (pool', r', new_claim obj pool' r', l, i', e ∙ ap create_claim e', new_claim-IsFor pool' r')

  both :
      {A : Type 0} {Q : List Event → A → Type 0} {h : List Event} (p : Prog A)
      → Only (Gate.MayAsk obj) p
      → Yields (MayAsk obj) Q h p
      → Justified Requests h p
  both (ret a) only yields = History.quiet a
  both {h = h} (call o k) (asks g only) (asked m y) =
      History.asks (request h o g m) (λ r. both (k r) (only r) (y r))

  -- Whatever is answered, the webhook only reads, and creates claims for interfaces of a pool that the
  -- server has listed: each has the name of its interface, names the interface, the machine with its
  -- namespace and the pool, and carries the finalizer.
  pub default-Requests :
      (d : AwsMachineCustomDefaulter) (ctx : Context)
      → Justified Requests [] (default platform d ctx obj)
  default-Requests d ctx =
      both (default platform d ctx obj) (default-MayAsk platform d ctx obj) (default-Gains d ctx)
