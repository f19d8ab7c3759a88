-- ===== src/Webhook/AwsMachine/Gate.antt =====
-- The machines that the webhook leaves alone, and what it asks of the server for the others.
use capa_eni_controller.Prelude.{
  String, ◌≡◌, ◌≢◌, refl, ◌⊎◌, inl, inr, true, false, Option, none, some, [], arith, eq_iff,
}
use capa_eni_controller.Prelude.Lists.{In, All-imp, All-self}
use capa_eni_controller.Api.Constants.{allocate_from_pool_annotation, capi_paused_annotation}
use capa_eni_controller.Api.Meta.{AwsMachine, get, find}
use capa_eni_controller.Api.Pool.{EniReference, EniPool}
use capa_eni_controller.Kube.Prog.{Op, create_claim, IsRead, Only, quiet, asks, ok, err}
use capa_eni_controller.Kube.Go.{pure}
use capa_eni_controller.Kube.Platform.{Platform}
use capa_eni_controller.Kube.Rules.{Only-bind, Only-if, Only-imp}
use capa_eni_controller.Allocation.{new_claim, resolve_interface_key, find_pool}
use capa_eni_controller.Allocation.Requests.{
  find_pool-reads, resolve_interface_key-reads, reserve-Only,
}
use capa_eni_controller.Webhook.AwsMachine.{
  AwsMachineCustomDefaulter, Context, is_dry_run, resolve_cluster_network, claim_interface,
  allocate_from, allocate, default, paused,
}

-- Why a machine is not the webhook's business: it has not opted in, its network is set, its owner
-- has paused it, or the request is a dry run.
pub data LeftAlone (d : AwsMachineCustomDefaulter) (ctx : Context) (obj : AwsMachine) : Type 0 where
  not_opted_in : get allocate_from_pool_annotation obj.annotations ≢ "true" → LeftAlone d ctx obj
  has_network : obj.network_interfaces ≢ [] → LeftAlone d ctx obj
  user_paused : find capi_paused_annotation obj.annotations ≢ none → LeftAlone d ctx obj
  dry_run : d.client ≡ true → is_dry_run ctx ≡ true → LeftAlone d ctx obj

-- The requests that the webhook may make: reads, and the creation of a claim that names the
-- machine, for an interface of a pool, with the finalizer.
abbrev pub MayAsk : AwsMachine → Op → Type 0
MayAsk obj o =
    IsRead o
    ⊎ ((pool : EniPool) × (r : EniReference) × In r pool.spec.interfaces
        × (o ≡ create_claim (new_claim obj pool r)))

module _ (platform : Platform) (obj : AwsMachine) where
  pub resolve_cluster_network-reads : Only IsRead (resolve_cluster_network platform obj)
  unfolding resolve_cluster_network
  resolve_cluster_network-reads = Only-if IsRead _ _ _ (quiet _) (
      asks tt (elim [
        | err e ↦ quiet _
        | ok cluster ↦
            Only-if IsRead _ _ _ (quiet _) (asks tt (elim [ ok a ↦ quiet _ | err e ↦ quiet _ ]))
      ]))

  claim_interface-MayAsk :
      (pool : EniPool) (key : String) → Only (MayAsk obj) (claim_interface platform obj pool key)
  unfolding claim_interface
  claim_interface-MayAsk pool key =
      reserve-Only (MayAsk obj) obj pool key
        (All-imp _ _ (λ r i. inr (pool, r, i, refl)) _ (All-self pool.spec.interfaces))

  allocate_from-MayAsk :
      (found : Option EniPool) → Only (MayAsk obj) (allocate_from platform obj found)
  unfolding allocate_from
  allocate_from-MayAsk none = quiet _
  allocate_from-MayAsk (some pool) =
      Only-bind (MayAsk obj) (resolve_interface_key platform obj) _
        (Only-imp IsRead (MayAsk obj) (λ o h. inl h) _ (resolve_interface_key-reads platform obj))
        λ key.
          Only-bind (MayAsk obj) (claim_interface platform obj pool key) _
            (claim_interface-MayAsk pool key) (elim [ none ↦ quiet _ | some claim ↦ quiet _ ])

  allocate-MayAsk : Only (MayAsk obj) (allocate platform obj)
  unfolding allocate
  allocate-MayAsk =
      Only-bind (MayAsk obj) (resolve_cluster_network platform obj) _
        (Only-imp IsRead (MayAsk obj) (λ o h. inl h) _ resolve_cluster_network-reads)
        λ network.
          Only-bind (MayAsk obj) (find_pool network.0 network.1) _
            (Only-imp IsRead (MayAsk obj) (λ o h. inl h) _ (find_pool-reads network.0 network.1))
            allocate_from-MayAsk

module _ (platform : Platform) (d : AwsMachineCustomDefaulter) (ctx : Context)
    (obj : AwsMachine) where
  -- The three ways that a request can take.
  pub default_cases :
      (default platform d ctx obj ≡ pure obj)
      ⊎ (((default platform d ctx obj ≡ pure (paused obj)) × (d.client ≡ false))
          ⊎ ((default platform d ctx obj ≡ allocate platform obj) × (d.client ≡ true)))
  unfolding default
  default_cases = ground arith

  -- Such a machine is admitted as it is, without any request to the server.
  pub default-LeftAlone : LeftAlone d ctx obj → default platform d ctx obj ≡ pure obj
  unfolding default
  default-LeftAlone (not_opted_in h) =
      ground (arith, eq_iff (get allocate_from_pool_annotation obj.annotations) "true")
  default-LeftAlone (has_network h) = ground arith
  default-LeftAlone (user_paused h) = ground arith
  default-LeftAlone (dry_run c h) = ground arith

  -- Whatever the server answers, the webhook only reads and creates claims that name the machine, by
  -- `new_claim`, for interfaces of a pool.
  pub default-MayAsk : Only (MayAsk obj) (default platform d ctx obj)
  unfolding default
  default-MayAsk = elim default_cases [
    | inl e ↦ rw e (quiet _)
    | inr (inl (e, c)) ↦ rw e (quiet _)
    | inr (inr (e, c)) ↦ rw e (allocate-MayAsk platform obj)
  ]
