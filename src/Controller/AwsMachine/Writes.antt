-- ===== src/Controller/AwsMachine/Writes.antt =====
-- What the reconciler writes into a machine, and what has been answered before.
use capa_eni_controller.Prelude.{
  String, ◌≡◌, ◌≢◌, refl, ◌⊎◌, inl, inr, Option, none, some, List, [], ◌∷◌, ◌==◌, eq_iff,
  ne_of_eq_false,
}
use capa_eni_controller.Prelude.Lists.{In, filter}
use capa_eni_controller.Api.Meta.{NamespacedName, AwsMachine, AwsCluster}
use capa_eni_controller.Api.Claim.{EniClaim}
use capa_eni_controller.Api.Pool.{
  EniReference, EniPool, exhaustion_policy_wait, exhaustion_policy_fail,
}
use capa_eni_controller.Kube.Prog.{
  Op, Result, Error, ok, err, create_claim, patch_aws_machine, list_claims, list_pools,
  record_event, inc_dynamic_fallbacks, get_aws_cluster, IsRead,
}
use capa_eni_controller.Kube.History.{Event, did, Justified, quiet, asks, Justified-if}
use capa_eni_controller.Kube.Platform.{Platform}
use capa_eni_controller.Allocation.{new_claim}
use capa_eni_controller.Allocation.Pools.{in_network}
pub use capa_eni_controller.Allocation.Refusals.{IsListed}
use capa_eni_controller.Controller.AwsMachine.Same.{
  SameMachine, allocated-SameMachine, failed-SameMachine, fallen_back-SameMachine,
}
use capa_eni_controller.Controller.AwsMachine.{
  AwsMachineReconciler, fallen_back, failed, allocated, dynamic_fallback, mark_failed, claim_of,
  conclude,
}

-- An AWSCluster that was read has that network.
abbrev pub IsNetwork : List Event → String → String → Type 0
IsNetwork h region vpc_id =
    (k : NamespacedName) × (c : AwsCluster) × In (did (get_aws_cluster k) (ok c)) h
    × (region ≡ c.region)
    × (vpc_id ≡ c.vpc_id)

-- No pool of a list of the server is for that network.
abbrev pub IsUnserved : List Event → String → String → Type 0
IsUnserved h region vpc_id =
    (items : List EniPool) × In (did list_pools (ok items)) h
    × (filter (in_network region vpc_id) items ≡ [])

module _ (m : AwsMachine) where
  -- The claim is the machine's claim in a list of the server, or the server's answer to the creation
  -- of a claim for the machine.
  abbrev pub IsBacked : List Event → EniClaim → Type 0
  IsBacked h c =
      ((cs : List EniClaim) × In (did list_claims (ok cs)) h × (claim_of m cs ≡ some c))
      ⊎ ((pool : EniPool) × (r : EniReference) × In (did (create_claim (new_claim m pool r)) (ok c))
            h)

  -- The machine as it is written, the same one: with the one interface of a claim that is backed; as
  -- failed, where a pool was listed that has the policy Fail; or released, where no listed pool was for
  -- the network of an AWSCluster that was read, or a pool was listed that has neither the policy Wait
  -- nor Fail. Only a claim changes the interfaces.
  pub data IsWritten (h : List Event) : AwsMachine → Type 0 where
    with_claim :
        (c : EniClaim)
        → IsBacked h c
        → SameMachine (record m { network_interfaces = c.spec.eni_id ∷ [] }) (allocated m c)
        → IsWritten h (allocated m c)
    as_failed :
        (pool : EniPool)
        → IsListed h pool
        → pool.spec.exhaustion_policy ≡ exhaustion_policy_fail
        → SameMachine m (failed m "PoolExhausted")
        → IsWritten h (failed m "PoolExhausted")
    without_pool :
        (region vpc_id : String)
        → IsNetwork h region vpc_id
        → IsUnserved h region vpc_id
        → SameMachine m (fallen_back m "NoMatchingPool")
        → IsWritten h (fallen_back m "NoMatchingPool")
    as_dynamic :
        (pool : EniPool)
        → IsListed h pool
        → pool.spec.exhaustion_policy ≢ exhaustion_policy_wait
        → pool.spec.exhaustion_policy ≢ exhaustion_policy_fail
        → SameMachine m (fallen_back m "PoolExhausted")
        → IsWritten h (fallen_back m "PoolExhausted")

  -- The requests: reads, events, the count of fallbacks, creations of claims for the machine and an
  -- interface of a listed pool, and patches of the machine.
  abbrev pub MayAsk : List Event → Op → Type 0
  MayAsk h (patch_aws_machine base m') = (base ≡ m) × IsWritten h m'
  MayAsk h (create_claim c) =
      (pool : EniPool) × (r : EniReference) × IsListed h pool
      × In r pool.spec.interfaces
      × (c ≡ new_claim m pool r)
  MayAsk h (record_event t r n) = Unit
  MayAsk h (inc_dynamic_fallbacks r) = Unit
  MayAsk h o = IsRead o

  IsWritten-more :
      {h : List Event} (e : Event) (m' : AwsMachine) → IsWritten h m' → IsWritten (e ∷ h) m'
  IsWritten-more e _ (with_claim c (inl (cs, i, q)) s) = with_claim c (inl (cs, inr i, q)) s
  IsWritten-more e _ (with_claim c (inr (pool, r, i)) s) = with_claim c (inr (pool, r, inr i)) s
  IsWritten-more e _ (as_failed pool (items, i, j) q s) = as_failed pool (items, inr i, j) q s
  IsWritten-more e _ (without_pool region vpc_id (k, c, i, q, q') (items, j, u) s) =
      without_pool region vpc_id (k, c, inr i, q, q') (items, inr j, u) s
  IsWritten-more e _ (as_dynamic pool (items, i, j) q q' s) =
      as_dynamic pool (items, inr i, j) q q' s

  pub dynamic_fallback-Justified :
      {h : List Event} (r : AwsMachineReconciler) (reason : String)
      → IsWritten h (fallen_back m reason)
      → Justified MayAsk h (dynamic_fallback r m reason)
  unfolding dynamic_fallback
  dynamic_fallback-Justified r reason w = asks tt (λ u.
      Justified-if MayAsk r.recorder _ _
        (λ e. asks tt (λ v.
          asks (refl, IsWritten-more _ _ (IsWritten-more _ _ w))
            (elim [ ok x ↦ quiet _ | err x ↦ quiet _ ])))
        (λ e. asks (refl, IsWritten-more _ _ w) (elim [ ok x ↦ quiet _ | err x ↦ quiet _ ])))

  mark_failed-Justified :
      {h : List Event} (reason : String)
      → IsWritten h (failed m reason)
      → Justified MayAsk h (mark_failed m reason)
  unfolding mark_failed
  mark_failed-Justified reason w = asks (refl, w) (elim [ ok x ↦ quiet _ | err x ↦ quiet _ ])

  -- What a claim, or none, was obtained from.
  abbrev pub Obtained : List Event → Result Error (Option EniClaim) → Type 0
  Obtained h (ok (some c)) = IsBacked h c
  Obtained h _ = Unit

  pub conclude-Justified :
      {h : List Event} (platform : Platform) (r : AwsMachineReconciler) (pool : EniPool)
      (found : Option EniClaim)
      → IsListed h pool
      → Obtained h (ok found)
      → Justified MayAsk h (conclude platform r m pool found)
  unfolding conclude
  conclude-Justified platform r pool (some c) listed backed =
      asks (refl, with_claim c backed (allocated-SameMachine m c))
        (elim [
          | ok x ↦ Justified-if MayAsk r.recorder _ _ (λ e. asks tt (λ u. quiet _)) (λ e. quiet _)
          | err x ↦ quiet _
        ])
  conclude-Justified platform r pool none listed u =
      Justified-if MayAsk (pool.spec.exhaustion_policy == exhaustion_policy_wait) _ _ (λ e. quiet _)
        (λ not_wait.
          Justified-if MayAsk (pool.spec.exhaustion_policy == exhaustion_policy_fail) _ _
            (λ fail. mark_failed-Justified "PoolExhausted" (
              as_failed pool listed
                ((eq_iff pool.spec.exhaustion_policy exhaustion_policy_fail).0 fail)
                (failed-SameMachine m "PoolExhausted")))
            (λ not_fail. dynamic_fallback-Justified r "PoolExhausted" (
              as_dynamic pool listed
                (ne_of_eq_false pool.spec.exhaustion_policy exhaustion_policy_wait not_wait)
                (ne_of_eq_false pool.spec.exhaustion_policy exhaustion_policy_fail not_fail)
                (fallen_back-SameMachine m "PoolExhausted"))))
