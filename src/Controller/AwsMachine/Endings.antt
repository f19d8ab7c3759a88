-- ===== src/Controller/AwsMachine/Endings.antt =====
-- How a reconcile of a machine ends.
use capa_eni_controller.Prelude.{
  ℕ, ◌*◌, String, ◌≡◌, refl, sym, ◌∙◌, inl, inr, Bool, true, false, not, Option, none, some, List,
  [], ◌∷◌, arith,
}
use capa_eni_controller.Api.Meta.{NamespacedName, AwsMachine}
use capa_eni_controller.Api.Pool.{EniPool}
use capa_eni_controller.Kube.Prog.{
  Op, Prog, Result, ApiError, Error, ok, err, api, wrapped, already_exists, not_found, conflict,
  other, no_machine_owner, no_aws_cluster, network_not_ready, get_aws_machine, get_machine,
  get_cluster, get_aws_cluster, list_pools, list_claims, create_claim, patch_aws_machine,
}
use capa_eni_controller.Kube.Prog
use capa_eni_controller.Kube.Go.{Go, ReconcileResult, done, pure, ◌>>=◌}
use capa_eni_controller.Kube.Platform.{Platform}
use capa_eni_controller.Kube.History.{
  Event, did, Extends, Yields, gives, asked, Yields-if, Yields-bind, Yields-more,
}
use capa_eni_controller.Allocation.Refusals.{
  IsListed, IsListed-more, Failed, Any, Searched, Resolved, find_pool-Searched,
  resolve_interface_key-Resolved,
}
use capa_eni_controller.Controller.AwsMachine.{
  AwsMachineReconciler, second, claim_interface, resolve_cluster_network, is_pending, find_pool,
  resolve_interface_key, conclude, dynamic_fallback, reconcile_in, reconcile_machine, reconcile,
}
use capa_eni_controller.Controller.AwsMachine.Exhausted.{Claimed, claim_interface-Claimed}
use capa_eni_controller.Controller.AwsMachine.Network.{Network, resolve_cluster_network-Network}
use capa_eni_controller.Controller.AwsMachine.Ended.{
  MachineEnded, gone, left_alone, unresolved, refused_machine, allocation_failed, Read,
  dynamic_fallback-MachineEnded, conclude-MachineEnded,
}

module _ (platform : Platform) (r : AwsMachineReconciler) (req : NamespacedName) where
  module _ (m : AwsMachine) where
    -- A sequence, whose first part may fail for a reason, and one that goes on in any case.
    bind_Ended :
        {A : Type 0} (Q : List Event → Result Error A → Type 0)
        → ((h : List Event) (e : Error) → Q h (err e) → Failed platform m h e)
        → (p : Go A) (f : A → Go ReconcileResult) (h : List Event) → Read platform r req m h
        → Yields Any Q h p
        → ((h' : List Event) (a : A)
            → Extends h h'
            → Q h' (ok a)
            → Yields Any (MachineEnded platform r req) h' (f a))
        → Yields Any (MachineEnded platform r req) h (p >>= f)
    bind_Ended Q fails p f h i y next =
        Yields-bind Any (λ h' a. Extends h h' × Q h' a) (MachineEnded platform r req)
          (λ h' e x. allocation_failed m e (x.0 _ i) (fails h' e x.1)) f h p
          (Yields-more Any Q h p y) (λ h' a x. next h' a x.0 x.1)

    after_Ended :
        {A : Type 0} (Q : List Event → A → Type 0) (p : Prog A) (f : A → Go ReconcileResult)
        (h : List Event)
        → Read platform r req m h
        → Yields Any Q h p
        → ((h' : List Event) (a : A)
            → Read platform r req m h'
            → Q h' a
            → Yields Any (MachineEnded platform r req) h' (f a))
        → Yields Any (MachineEnded platform r req) h (Prog.bind p f)
    after_Ended Q _ f h i (gives {a = a} q) next = next h a i q
    after_Ended Q _ f h i (asked {o = o} {k = k} u y) next =
        asked u (λ x. after_Ended Q (k x) f (did o x ∷ h) (inr i) (y x) next)

    allocate-MachineEnded :
        (pool : EniPool) (h : List Event)
        → Read platform r req m h
        → IsListed h pool
        → Yields Any (MachineEnded platform r req) h (
            resolve_interface_key platform m >>= λ key.
            claim_interface m pool key >>= conclude platform r m pool)
    unfolding resolve_interface_key
    allocate-MachineEnded pool h i l =
        bind_Ended (Resolved platform m) (λ h' e f. f) (resolve_interface_key platform m)
          (λ key. claim_interface m pool key >>= conclude platform r m pool) h i
          (resolve_interface_key-Resolved platform m)
          (λ h' key more kept.
            let l' : IsListed h' pool = IsListed-more h h' pool more l in
            bind_Ended (Claimed m pool platform) (λ h'' e f. f) (claim_interface m pool key)
              (conclude platform r m pool) h' (more _ i)
              (claim_interface-Claimed m pool platform key h' l' kept)
              (λ h'' found more' q.
                conclude-MachineEnded platform r req m pool found (more' _ (more _ i))
                  (IsListed-more h' h'' pool more' l') q))

    reconcile_in-MachineEnded :
        (region vpc_id : String) (h : List Event)
        → Read platform r req m h
        → Yields Any (MachineEnded platform r req) h (reconcile_in platform r m region vpc_id)
    unfolding reconcile_in find_pool
    reconcile_in-MachineEnded region vpc_id h i =
        bind_Ended (Searched platform m) (λ h' e f. f) (find_pool region vpc_id) _ h i
          (find_pool-Searched platform m region vpc_id)
          (λ h' found more l. found_next h' found (more _ i) l)
      where
        found_next :
            (h' : List Event) (found : Option EniPool)
            → Read platform r req m h'
            → Searched platform m h' (ok found)
            → Yields Any (MachineEnded platform r req) h' (elim found [
              | none ↦ dynamic_fallback r m "NoMatchingPool"
              | some pool ↦ resolve_interface_key platform m >>= λ key.
                  claim_interface m pool key >>= λ claim. conclude platform r m pool claim
            ])
        found_next h' none i' l = dynamic_fallback-MachineEnded platform r req m "NoMatchingPool" i'
        found_next h' (some pool) i' l = allocate-MachineEnded pool h' i' l

    unless_deleted-MachineEnded :
        (deleted : Option ℕ) (live : Go ReconcileResult) (h : List Event)
        → m.deletion_timestamp ≡ deleted
        → Read platform r req m h
        → Yields Any (MachineEnded platform r req) h live
        → Yields Any
            (MachineEnded platform r req)
            h
            (elim deleted [ some _ ↦ pure done | none ↦ live ])
    unless_deleted-MachineEnded none live h e i y = y
    unless_deleted-MachineEnded (some t) live h e i y =
        gives (left_alone m i (inl (λ f. cc (sym e ∙ f))))

    reconcile_machine-MachineEnded :
        (h : List Event)
        → Read platform r req m h
        → Yields Any (MachineEnded platform r req) h (reconcile_machine platform r m)
    unfolding reconcile_machine
    reconcile_machine-MachineEnded h i =
        unless_deleted-MachineEnded m.deletion_timestamp _ h refl i (
          Yields-if Any (MachineEnded platform r req) (not (is_pending m)) _ _
            (λ e. gives (left_alone m i (inr (negated (is_pending m) e))))
            (λ e.
              after_Ended (Network platform m) (resolve_cluster_network platform m) _ h i
                (resolve_cluster_network-Network platform m) network_next))
      where
        network_next :
            (h' : List Event) (network : Result Error (String × String))
            → Read platform r req m h'
            → Network platform m h' network
            → Yields Any (MachineEnded platform r req) h' (elim network [
              | err _ ↦ pure (record { requeue_after = 10 * second })
              | ok (region, vpc_id) ↦ reconcile_in platform r m region vpc_id
            ])
        network_next h' (ok (region, vpc_id)) i' q = reconcile_in-MachineEnded region vpc_id h' i'
        network_next h' (err e) i' q = gives (unresolved m e i' q)

        negated : (b : Bool) → not b ≡ true → b ≡ false
        negated true e = ground arith
        negated false e = refl

  -- Whatever is answered, a reconcile of a machine ends with nothing more to do only where the machine is
  -- not there, is being deleted or is not pending, or where the server has taken a patch of it; it
  -- looks again in ten seconds only where the network of the machine's cluster is not known, and in
  -- thirty only where a listed pool has the policy Wait and the names of all claims that could be made with
  -- the key of the machine, its own or that of its owner, were taken; and an error is that of a request
  -- that was refused, of two pools for the network, or of the key of the machine, which no interface of
  -- a listed pool has.
  pub reconcile-MachineEnded :
      Yields Any (MachineEnded platform r req) [] (reconcile platform r req)
  unfolding reconcile
  reconcile-MachineEnded = asked tt (elim [
    | ok m ↦ reconcile_machine-MachineEnded m _ (inl refl)
    | err not_found ↦ gives (gone (inl refl))
    | err already_exists ↦ gives (refused_machine already_exists (λ e. cc) (inl refl))
    | err conflict ↦ gives (refused_machine conflict (λ e. cc) (inl refl))
    | err (other s) ↦ gives (refused_machine (other s) (λ e. cc) (inl refl))
  ])
