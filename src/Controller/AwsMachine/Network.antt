-- ===== src/Controller/AwsMachine/Network.antt =====
-- Why the network of a machine's cluster is not known.
use capa_eni_controller.Prelude.{String, ◌≡◌, refl, inl, true, not, ◌||◌, List, ◌==◌, eq_iff}
use capa_eni_controller.Prelude.Lists.{In}
use capa_eni_controller.Api.Meta.{NamespacedName, AwsMachine, Cluster, AwsCluster}
use capa_eni_controller.Kube.Prog.{
  Result, ApiError, Error, ok, err, wrapped, no_machine_owner, no_aws_cluster, network_not_ready,
  get_cluster, get_aws_cluster,
}
use capa_eni_controller.Kube.Platform.{Platform}
use capa_eni_controller.Kube.History.{Event, did, Yields, gives, asked, Yields-if}
use capa_eni_controller.Allocation.Refusals.{IsRefusal, Any}
use capa_eni_controller.Controller.AwsMachine.Writes.{IsNetwork}
use capa_eni_controller.Controller.AwsMachine.{owner_name, resolve_cluster_network}

module _ (platform : Platform) (m : AwsMachine) where
  -- Why the network of the machine's cluster is not known.
  pub data Unresolved (h : List Event) : Error → Type 0 where
    no_owner : owner_name platform m.owner_references ≡ "" → Unresolved h no_machine_owner
    refused_read :
        (what : String) (a : ApiError) (e : Event)
        → In e h
        → IsRefusal e a
        → Unresolved h (wrapped what a)
    other_kind :
        (k : NamespacedName) (c : Cluster)
        → In (did (get_cluster k) (ok c)) h
        → (not (platform.is_defined c.infrastructure_ref)
            || not (c.infrastructure_ref.kind == "AWSCluster"))
          ≡ true
        → Unresolved h no_aws_cluster
    not_ready :
        (k : NamespacedName) (c : AwsCluster)
        → In (did (get_aws_cluster k) (ok c)) h
        → (c.region == "" || c.vpc_id == "") ≡ true
        → Unresolved h network_not_ready

  -- The network of an AWSCluster that was read, or why it is not known.
  abbrev pub Network : List Event → Result Error (String × String) → Type 0
  Network h (ok n) = IsNetwork h n.0 n.1
  Network h (err e) = Unresolved h e

  pub resolve_cluster_network-Network :
      {h : List Event} → Yields Any Network h (resolve_cluster_network platform m)
  unfolding resolve_cluster_network
  resolve_cluster_network-Network =
      Yields-if Any Network (owner_name platform m.owner_references == "") _ _
        (λ e. gives (no_owner ((eq_iff _ _).0 e)))
        (λ e. asked tt (elim [
          | err a ↦ gives (refused_read _ a _ (inl refl) refl)
          | ok owner ↦ asked tt (elim [
            | err a ↦ gives (refused_read _ a _ (inl refl) refl)
            | ok c ↦
                Yields-if Any Network _ _ _ (λ t. gives (other_kind _ c (inl refl) t))
                  (λ t. asked tt (elim [
                    | err a ↦ gives (refused_read _ a _ (inl refl) refl)
                    | ok aws ↦
                        Yields-if Any Network _ _ _ (λ t'. gives (not_ready _ aws (inl refl) t'))
                          (λ t'. gives (_, aws, inl refl, refl, refl))
                  ]))
          ])
        ]))
