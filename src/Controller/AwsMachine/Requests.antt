-- ===== src/Controller/AwsMachine/Requests.antt =====
-- What the reconciler requests, from its guards to the end.
use capa_eni_controller.Prelude.{String, ℕ, ◌*◌, inr, not, Option, none, some, List, [], ◌∷◌}
use capa_eni_controller.Api.Meta.{AwsMachine}
use capa_eni_controller.Api.Pool.{EniPool}
use capa_eni_controller.Kube.Prog.{
  Op, Response, Prog, ret, call, Result, Error, ApiError, ok, err, not_found, already_exists,
  conflict, other, create_claim, patch_aws_machine, list_claims, list_pools, record_event,
  inc_dynamic_fallbacks, get_aws_machine, get_machine, get_cluster, get_aws_cluster, get_pool,
  get_claim, now, set_status_condition, delete_claim, patch_claim, update_claim_status,
  update_pool_status, set_pool_available, IsRead, Only, quiet, asks,
}
use capa_eni_controller.Kube.Prog
use capa_eni_controller.Kube.Go.{Go, ReconcileResult, ◌>>=◌, pure, done}
use capa_eni_controller.Kube.History
use capa_eni_controller.Kube.History.{
  Event, did, Justified, Yields, gives, asked, Extends, Justified-bind, Justified-if,
}
use capa_eni_controller.Kube.Platform.{Platform}
use capa_eni_controller.Kube.Rules.{Only-if}
use capa_eni_controller.Allocation.Refusals.{IsListed-more, Any}
use capa_eni_controller.Allocation.Requests.{resolve_interface_key-reads}
use capa_eni_controller.Controller.AwsMachine.{
  AwsMachineReconciler, find_pool, resolve_interface_key, claim_interface, conclude, second,
  dynamic_fallback, reconcile_in, is_pending, resolve_cluster_network, reconcile_machine,
}
use capa_eni_controller.Controller.AwsMachine.Writes.{
  IsListed, IsNetwork, MayAsk, Obtained, conclude-Justified, dynamic_fallback-Justified,
  without_pool,
}
use capa_eni_controller.Controller.AwsMachine.Same.{fallen_back-SameMachine}
use capa_eni_controller.Controller.AwsMachine.Network.{Network, resolve_cluster_network-Network}
use capa_eni_controller.Controller.AwsMachine.Sources.{
  FoundBy, find_pool-Yields, claim_interface-Yields,
}

module _ (m : AwsMachine) where
  pub reads_allowed : (h : List Event) (o : Op) → IsRead o → MayAsk m h o
  reads_allowed h (get_aws_machine k) u = tt
  reads_allowed h (get_machine k) u = tt
  reads_allowed h (get_cluster k) u = tt
  reads_allowed h (get_aws_cluster k) u = tt
  reads_allowed h (get_pool k) u = tt
  reads_allowed h (get_claim k) u = tt
  reads_allowed h list_pools u = tt
  reads_allowed h list_claims u = tt
  reads_allowed h now u = tt
  reads_allowed h (set_status_condition cs c) u = tt
  reads_allowed h (create_claim c) u = absurd u
  reads_allowed h (delete_claim c) u = absurd u
  reads_allowed h (patch_claim b c) u = absurd u
  reads_allowed h (patch_aws_machine b c) u = absurd u
  reads_allowed h (update_claim_status c) u = absurd u
  reads_allowed h (update_pool_status p) u = absurd u
  reads_allowed h (record_event t r n) u = absurd u
  reads_allowed h (inc_dynamic_fallbacks r) u = absurd u
  reads_allowed h (set_pool_available p r v n) u = absurd u

  module _ {A B : Type 0} where
    -- A part in front that only reads, with and without the test of its error.
    read_first :
        (p : Go A) (f : A → Go B) {h : List Event}
        → Only IsRead p
        → ((h' : List Event) (a : A) → Extends h h' → Justified (MayAsk m) h' (f a))
        → Justified (MayAsk m) h (p >>= f)
    read_first (ret (ok a)) f {h = h} reads next = next h a (λ e i. i)
    read_first (ret (err e)) f reads next = History.quiet _
    read_first (call o k) f {h = h} (asks u reads) next = History.asks (reads_allowed h o u) λ r.
        read_first (k r) f {h = did o r ∷ h} (reads r)
          (λ h' a more. next h' a (λ e i. more e (inr i)))

    read_before :
        (Q : List Event → A → Type 0) (p : Prog A) (f : A → Prog B) {h : List Event}
        → Only IsRead p
        → Yields Any Q h p
        → ((h' : List Event) (a : A) → Q h' a → Justified (MayAsk m) h' (f a))
        → Justified (MayAsk m) h (Prog.bind p f)
    read_before Q (ret a) f {h = h} reads (gives q) next = next h a q
    read_before Q (call o k) f {h = h} (asks u reads) (asked u' y) next =
        History.asks (reads_allowed h o u)
          λ r. read_before Q (k r) f {h = did o r ∷ h} (reads r) (y r) next

  module _ (platform : Platform) (r : AwsMachineReconciler) where
    allocate-Justified :
        {h : List Event} (pool : EniPool)
        → IsListed h pool
        → Justified (MayAsk m) h (
            resolve_interface_key platform m >>= λ key.
            claim_interface m pool key >>= conclude platform r m pool)
    unfolding resolve_interface_key
    allocate-Justified pool listed =
        read_first (resolve_interface_key platform m) _ (resolve_interface_key-reads platform m)
          (λ h' key more.
            Justified-bind (MayAsk m) (Obtained m) (conclude platform r m pool) h'
              (claim_interface m pool key)
              (claim_interface-Yields m pool key (IsListed-more _ _ pool more listed))
              (λ h'' claim more'.
                conclude-Justified m platform r pool claim
                  (IsListed-more _ _ pool more' (IsListed-more _ _ pool more listed))))

    reconcile_in-Justified :
        {h : List Event} (region vpc_id : String)
        → IsNetwork h region vpc_id
        → Justified (MayAsk m) h (reconcile_in platform r m region vpc_id)
    unfolding reconcile_in
    reconcile_in-Justified {h = h} region vpc_id network =
        Justified-bind (MayAsk m) (FoundBy region vpc_id) _ h (find_pool region vpc_id)
          (find_pool-Yields m region vpc_id)
          (λ h' found more.
            found_next h' found (network.0, network.1, more _ network.2, network.3, network.4))
      where
        found_next :
            (h' : List Event) (found : Option EniPool)
            → IsNetwork h' region vpc_id
            → FoundBy region vpc_id h' (ok found)
            → Justified (MayAsk m) h' (elim found [
              | none ↦ dynamic_fallback r m "NoMatchingPool"
              | some pool ↦ resolve_interface_key platform m >>= λ key.
                  claim_interface m pool key >>= λ claim. conclude platform r m pool claim
            ])
        found_next h' none n q =
            dynamic_fallback-Justified m r "NoMatchingPool"
              (without_pool region vpc_id n q (fallen_back-SameMachine m "NoMatchingPool"))
        found_next h' (some pool) n q = allocate-Justified pool q

    resolve_cluster_network-reads : Only IsRead (resolve_cluster_network platform m)
    unfolding resolve_cluster_network
    resolve_cluster_network-reads = Only-if IsRead _ _ _ (quiet _) (
        asks tt (elim [
          | err e ↦ quiet _
          | ok owner ↦ asks tt (elim [
            | err e ↦ quiet _
            | ok cluster ↦ Only-if IsRead _ _ _ (quiet _) (
                asks tt
                  (elim [ err e ↦ quiet _ | ok a ↦ Only-if IsRead _ _ _ (quiet _) (quiet _) ]))
          ])
        ]))

    pending-Justified :
        {h : List Event}
        → Justified (MayAsk m) h (
            Prog.bind (resolve_cluster_network platform m) λ network. elim network [
              | err _ ↦ pure (record { requeue_after = 10 * second })
              | ok (region, vpc_id) ↦ reconcile_in platform r m region vpc_id
            ])
    pending-Justified =
        read_before (Network platform m) (resolve_cluster_network platform m) _
          resolve_cluster_network-reads (resolve_cluster_network-Network platform m)
          (λ h'. elim [
            | err e ↦ λ q. History.quiet _
            | ok (region, vpc_id) ↦ λ q. reconcile_in-Justified region vpc_id q
          ])

    unless_deleted :
        {h : List Event} (deleted : Option ℕ) (live : Go ReconcileResult)
        → Justified (MayAsk m) h live
        → Justified (MayAsk m) h (elim deleted [ some _ ↦ pure done | none ↦ live ])
    unless_deleted none live j = j
    unless_deleted (some t) live j = History.quiet _

    pub reconcile_machine-Justified : Justified (MayAsk m) [] (reconcile_machine platform r m)
    unfolding reconcile_machine
    reconcile_machine-Justified = unless_deleted m.deletion_timestamp _ (
        Justified-if (MayAsk m) (not (is_pending m)) _ _ (λ t. History.quiet _)
          (λ t. pending-Justified))
