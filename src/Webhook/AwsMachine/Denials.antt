-- ===== src/Webhook/AwsMachine/Denials.antt =====
-- Why the creation of a machine is denied.
use capa_eni_controller.Prelude.{
  ◌≡◌, refl, inl, inr, true, not, ◌||◌, Option, none, some, List, [], ◌==◌, eq_iff,
}
use capa_eni_controller.Prelude.Lists.{In}
use capa_eni_controller.Api.Meta.{AwsMachine, Cluster, NamespacedName, get}
use capa_eni_controller.Api.Claim.{EniClaim}
use capa_eni_controller.Api.Pool.{EniPool}
use capa_eni_controller.Kube.Prog.{
  Result, Error, ok, err, no_cluster_name_label, no_aws_cluster, get_cluster,
}
use capa_eni_controller.Kube.Go.{Go, ◌>>=◌}
use capa_eni_controller.Kube.Platform.{Platform}
use capa_eni_controller.Kube.History.{
  Event, did, Extends, Yields, gives, asked, Yields-if, Yields-bind, Yields-more,
}
use capa_eni_controller.Allocation.{find_pool, resolve_interface_key, reserve}
use capa_eni_controller.Allocation.Refusals.{
  IsListed-more, Failed, refused_while, Any, Ends, Searched, Resolved, find_pool-Searched,
  resolve_interface_key-Resolved, reserve-Ends,
}
use capa_eni_controller.Webhook.AwsMachine.{
  AwsMachineCustomDefaulter, Context, resolve_cluster_network, claim_interface, conclude,
  allocate_from, allocate, default,
}
use capa_eni_controller.Webhook.AwsMachine.Gate.{default_cases}

module _ (platform : Platform) (obj : AwsMachine) where
  -- The reasons: no cluster's name on the machine, a cluster of another kind, a request that was
  -- refused while the cluster was read, or a reason for which the allocation fails.
  pub data Denied (h : List Event) : Error → Type 0 where
    unnamed : get platform.cluster_name_label obj.labels ≡ "" → Denied h no_cluster_name_label
    other_kind :
        (k : NamespacedName) (c : Cluster)
        → In (did (get_cluster k) (ok c)) h
        → (not (platform.is_defined c.infrastructure_ref)
            || not (c.infrastructure_ref.kind == "AWSCluster"))
          ≡ true
        → Denied h no_aws_cluster
    failed : (e : Error) → Failed platform obj h e → Denied h e

  abbrev pub Explained : {A : Type 0} → List Event → Result Error A → Type 0
  Explained h (ok a) = Unit
  Explained h (err e) = Denied h e

  bind_Explained :
      {A B : Type 0} (Q : List Event → Result Error A → Type 0)
      → ((h : List Event) (e : Error) → Q h (err e) → Denied h e)
      → (m : Go A) (f : A → Go B) {h : List Event} → Yields Any Q h m
      → ((h' : List Event) (a : A) → Extends h h' → Q h' (ok a) → Yields Any Explained h' (f a))
      → Yields Any Explained h (m >>= f)
  bind_Explained Q fails m f {h = h} y next =
      Yields-bind Any (λ h' a. Extends h h' × Q h' a) Explained (λ h' e x. fails h' e x.1) f h m
        (Yields-more Any Q h m y) (λ h' a x. next h' a x.0 x.1)

  resolve_cluster_network-Explained :
      {h : List Event} → Yields Any Explained h (resolve_cluster_network platform obj)
  unfolding resolve_cluster_network
  resolve_cluster_network-Explained =
      Yields-if Any Explained (get platform.cluster_name_label obj.labels == "") _ _
        (λ e. gives (unnamed ((eq_iff _ _).0 e)))
        (λ e. asked tt (elim [
          | err a ↦ gives (failed _ (refused_while _ a _ (inl refl) refl))
          | ok c ↦
              Yields-if Any Explained _ _ _ (λ t. gives (other_kind _ c (inl refl) t))
                (λ t. asked tt (elim [
                  | err a ↦ gives (failed _ (refused_while _ a _ (inl refl) refl))
                  | ok aws ↦ gives tt
                ]))
        ]))

  conclude-Explained :
      {h : List Event} (claim : Option EniClaim)
      → Yields Any Explained h (conclude platform obj claim)
  unfolding conclude
  conclude-Explained none = gives tt
  conclude-Explained (some c) = gives tt

  allocate_from-Explained :
      {h : List Event} (found : Option EniPool)
      → Searched platform obj h (ok found)
      → Yields Any Explained h (allocate_from platform obj found)
  unfolding allocate_from claim_interface
  allocate_from-Explained none q = gives tt
  allocate_from-Explained (some pool) listed =
      bind_Explained (Resolved platform obj) failed_by (resolve_interface_key platform obj) _
        (resolve_interface_key-Resolved platform obj)
        (λ h key more kept.
          bind_Explained (Ends platform obj) failed_by (reserve obj pool key)
            (conclude platform obj)
            (reserve-Ends platform obj pool key (IsListed-more _ h pool more listed) kept)
            (λ h' claim more' u. conclude-Explained claim))
    where
      failed_by : (h : List Event) (e : Error) → Failed platform obj h e → Denied h e
      failed_by h e f = failed e f

  allocate-Explained : {h : List Event} → Yields Any Explained h (allocate platform obj)
  unfolding allocate
  allocate-Explained =
      bind_Explained Explained (λ h e d. d) (resolve_cluster_network platform obj) _
        resolve_cluster_network-Explained
        (λ h network more u.
          bind_Explained (Searched platform obj) (λ h' e f. failed e f)
            (find_pool network.0 network.1) (allocate_from platform obj)
            (find_pool-Searched platform obj network.0 network.1)
            (λ h' found more' listed. allocate_from-Explained found listed))

  -- Whatever is answered, the creation of a machine is denied only for a reason: the machine has no
  -- cluster's name, the cluster that was read is of another kind, a request was refused, other than
  -- for a claim's name that was taken, the list of the pools has two for the network, or the key of
  -- the machine, its own or that of its owner, is that of no interface of a listed pool.
  pub default-Denied :
      (d : AwsMachineCustomDefaulter) (ctx : Context)
      → Yields Any Explained [] (default platform d ctx obj)
  default-Denied d ctx = elim (default_cases platform d ctx obj) [
    | inl e ↦ rw e (gives tt)
    | inr (inl (e, c)) ↦ rw e (gives tt)
    | inr (inr (e, c)) ↦ rw e allocate-Explained
  ]
