-- ===== src/Controller/EniPool/Requests.antt =====
-- What the reconciler writes of a pool, and how it ends.
use capa_eni_controller.Prelude.{◌*◌, ◌≡◌, ◌≢◌, refl, inl, inr, List, []}
use capa_eni_controller.Prelude.Lists.{In}
use capa_eni_controller.Api.Meta.{NamespacedName}
use capa_eni_controller.Api.Claim.{EniClaim}
use capa_eni_controller.Api.Pool.{EniObservation, EniPool}
use capa_eni_controller.Kube.Prog.{
  Op, Result, ApiError, Error, ok, err, api, not_found, already_exists, conflict, other, get_pool,
  list_claims, update_pool_status, set_pool_available, IsRead,
}
use capa_eni_controller.Kube.Go.{ReconcileResult, done}
use capa_eni_controller.Kube.History.{Event, did, Yields, gives, asked}
use capa_eni_controller.Controller.AwsMachine.{second}
use capa_eni_controller.Controller.EniPool.{index_claims, observe, reconcile_pool, reconcile}
use capa_eni_controller.Controller.EniPool.Inventory.{Inventory, available_in, observe-Inventory}

module _ (req : NamespacedName) where
  -- `os` is the inventory of a pool that was read under the requested name, by claims that were listed.
  pub record IsCurrent (h : List Event) (pool : EniPool) (os : List EniObservation) : Type 0 where
    pub claims : List EniClaim
    pub read : In (did (get_pool req.name) (ok pool)) h
    pub listed : In (did list_claims (ok claims)) h
    pub inventory : Inventory claims pool.spec.interfaces os

  -- The requests: reads, the status of the pool that was read with its current inventory, and the
  -- metric with the number of the available interfaces.
  abbrev pub MayAsk : List Event → Op → Type 0
  MayAsk h (update_pool_status p) =
      (pool : EniPool) × IsCurrent h pool p.status.interfaces
      × (p.name ≡ pool.name)
      × (p.spec ≡ pool.spec)
      × (p.status.observed_generation ≡ pool.generation)
  MayAsk h (set_pool_available name region vpc_id n) =
      (pool : EniPool) × (os : List EniObservation) × IsCurrent h pool os
      × (name ≡ pool.name)
      × (region ≡ pool.spec.region)
      × (vpc_id ≡ pool.spec.vpc_id)
      × (n ≡ available_in os)
  MayAsk h o = IsRead o

  -- The end: nothing more for a pool that is gone; the next look in five minutes after an update that
  -- was answered or met a conflict; or the error of a request that was refused.
  pub data Finished (h : List Event) : Result Error ReconcileResult → Type 0 where
    gone : In (did (get_pool req.name) (err not_found)) h → Finished h (ok done)
    updated :
        (p q : EniPool)
        → In (did (update_pool_status p) (ok q)) h
        → Finished h (ok (record { requeue_after = 300 * second }))
    conflicted :
        (p : EniPool)
        → In (did (update_pool_status p) (err conflict)) h
        → Finished h (ok (record { requeue_after = 300 * second }))
    refused_read :
        (a : ApiError)
        → a ≢ not_found
        → In (did (get_pool req.name) (err a)) h
        → Finished h (err (api a))
    refused_list : (a : ApiError) → In (did list_claims (err a)) h → Finished h (err (api a))
    refused_update :
        (p : EniPool) (a : ApiError)
        → a ≢ conflict
        → In (did (update_pool_status p) (err a)) h
        → Finished h (err (api a))

  reconcile_pool-Yields :
      {h : List Event} (pool : EniPool)
      → In (did (get_pool req.name) (ok pool)) h
      → Yields MayAsk Finished h (reconcile_pool pool)
  unfolding reconcile_pool
  reconcile_pool-Yields {h = h} pool read = asked tt (elim [
    | err a ↦ gives (refused_list a (inl refl))
    | ok claims ↦
        let (inventory, counted) = observe-Inventory claims pool.spec.interfaces in
        asked
          (
            pool,
            (observe (index_claims [] claims) pool.spec.interfaces [] 0).0,
            (record { claims = claims; read = inr read; listed = inl refl; inventory = inventory }),
            refl,
            refl,
            refl,
            counted,
          )
          λ u. asked tt λ cs.
            asked
              (
                pool,
                (record {
                  claims = claims;
                  read = inr (inr (inr read));
                  listed = inr (inr (inl refl));
                  inventory = inventory;
                }),
                refl,
                refl,
                refl,
              )
              (elim [
                | ok q ↦ gives (updated _ q (inl refl))
                | err conflict ↦ gives (conflicted _ (inl refl))
                | err not_found ↦ gives (refused_update _ not_found (λ e. cc) (inl refl))
                | err already_exists ↦ gives (refused_update _ already_exists (λ e. cc) (inl refl))
                | err (other s) ↦ gives (refused_update _ (other s) (λ e. cc) (inl refl))
              ])
  ])

  -- Whatever is answered, the pool reconciler writes only the status of the pool that it read under
  -- the requested name, with the inventory of that pool by the claims that were listed and the pool's
  -- generation, and the metric with the number of the available entries of that inventory. It ends
  -- with nothing for a pool that is gone, with the next look in five minutes after the update, also
  -- after a conflict, and otherwise with the error of the request that was refused.
  pub reconcile-Finished : Yields MayAsk Finished [] (reconcile req)
  unfolding reconcile
  reconcile-Finished = asked tt (elim [
    | ok pool ↦ reconcile_pool-Yields pool (inl refl)
    | err not_found ↦ gives (gone (inl refl))
    | err already_exists ↦ gives (refused_read already_exists (λ e. cc) (inl refl))
    | err conflict ↦ gives (refused_read conflict (λ e. cc) (inl refl))
    | err (other s) ↦ gives (refused_read (other s) (λ e. cc) (inl refl))
  ])
