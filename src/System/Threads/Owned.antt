-- ===== src/System/Threads/Owned.antt =====
-- What a machine was given is that of its own claim.
use capa_eni_controller.Prelude.{
  String, ◌≡◌, refl, sym, ◌∙◌, ap, ◌⊎◌, inl, inr, Option, some, List, [], ◌∷◌, map, subst,
  Option-cases,
}
use capa_eni_controller.Prelude.Lists.{In, All}
use capa_eni_controller.Api.Meta.{AwsMachine}
use capa_eni_controller.Api.Claim.{EniClaimSpec, EniClaim}
use capa_eni_controller.Kube.Prog.{ok, Server}
use capa_eni_controller.Kube.History.{Event}
use capa_eni_controller.Kube.Platform.{Platform}
use capa_eni_controller.Controller.AwsMachine.{allocated, failed, fallen_back}
use capa_eni_controller.Controller.AwsMachine.Same.{}
use capa_eni_controller.Controller.AwsMachine.Retry.{claim_of-Names, claim_of-In}
use capa_eni_controller.Controller.AwsMachine.Writes.{
  IsBacked, IsWritten, with_claim, as_failed, without_pool, as_dynamic,
}
use capa_eni_controller.Allocation.{new_claim}
use capa_eni_controller.System.Acquired.{who, ref_eq, owner_of}
use capa_eni_controller.System.Admitted.{Gains}
use capa_eni_controller.System.Threads.{Grant, grants_of}
use capa_eni_controller.System.Threads.Specs.{Stays, Keeps}
use capa_eni_controller.System.Threads.Knowledge.{Known}

module _ (platform : Platform) (server : Server)
    (specs : server.World → String → Option EniClaimSpec) where
  open server use {World, serve}

  -- The interface has a claim that names the machine, or one of its claims has gone.
  abbrev pub Owned : List String → World → Grant → Type 0
  Owned gone w g = (owner_of (specs w g.1) ≡ some g.0) ⊎ In g.1 gone

  pub owner_kept :
      (gone gone' : List String) (w w' : World) (g : Grant)
      → Keeps platform server specs gone w gone' w'
      → Owned gone w g
      → Owned gone' w' g
  owner_kept gone gone' w w' g keeps (inr i) = inr (keeps.lasts g.1 i)
  owner_kept gone gone' w w' g keeps (inl e) = elim (Option-cases (specs w g.1)) [
    | inl n ↦ absurd (cc (sym e ∙ ap owner_of n))
    | inr (s, f) ↦ elim (keeps.stays g.1 s (inl f)) [
      | inl k ↦ inl (ap owner_of k ∙ sym (ap owner_of f) ∙ e)
      | inr i ↦ inr i
    ]
  ]

  module _ (m : AwsMachine) (gone : List String) (w : World) (h : List Event)
      (known : Known platform server specs gone w h) where
    Stays-Owned :
        (n : String) (s : EniClaimSpec)
        → Stays server specs gone w n s
        → s.machine_ref ≡ who m
        → Owned gone w (who m, n)
    Stays-Owned n s (inl e) named = inl (ap owner_of e ∙ ap some named)
    Stays-Owned n s (inr i) named = inr i

    -- A claim that is backed gives its interface to the machine.
    IsBacked-Owned : (c : EniClaim) → IsBacked m h c → Owned gone w (who m, c.spec.eni_id)
    unfolding new_claim
    IsBacked-Owned c (inl (cs, i, first)) =
        let (same, stays) = known.listed cs c i (claim_of-In m cs c first) in
        let (ns, nm) = claim_of-Names m cs c first in
        subst (λ n. Owned gone w (who m, n)) (sym same)
          (Stays-Owned c.name c.spec stays (ref_eq c.spec.machine_ref m ns nm))
    IsBacked-Owned c (inr (pool, r, i)) =
        let (same, stays) = known.made (new_claim m pool r) c i in
        subst (λ n. Owned gone w (who m, n)) (sym (ap (λ s. s.eni_id) same))
          (Stays-Owned r.id (new_claim m pool r).spec stays refl)

    grants_of-Owned :
        (m' : AwsMachine) (ids : List String)
        → who m' ≡ who m
        → m'.network_interfaces ≡ ids
        → All (λ id. Owned gone w (who m, id)) ids
        → All (Owned gone w) (grants_of m')
    grants_of-Owned m' ids same e owned = rw (same, e) (map_owned ids owned)
      where
        map_owned :
            (ids : List String)
            → All (λ id. Owned gone w (who m, id)) ids
            → All (Owned gone w) (map (λ id. (who m, id)) ids)
        map_owned [] o = tt
        map_owned (id ∷ ids) o = (o.0, map_owned ids o.1)

    -- Where the machine has none before, all that is written is owned.
    pub IsWritten-Owned :
        (m' : AwsMachine)
        → m.network_interfaces ≡ []
        → IsWritten m h m'
        → All (Owned gone w) (grants_of m')
    IsWritten-Owned _ bare (with_claim c backed same) =
        grants_of-Owned (allocated m c) (c.spec.eni_id ∷ []) same.same same.interfaces
          (IsBacked-Owned c backed, tt)
    IsWritten-Owned _ bare (as_failed pool l e same) =
        grants_of-Owned (failed m "PoolExhausted") [] same.same (same.interfaces ∙ bare) tt
    IsWritten-Owned _ bare (without_pool region vpc_id n u same) =
        grants_of-Owned (fallen_back m "NoMatchingPool") [] same.same (same.interfaces ∙ bare) tt
    IsWritten-Owned _ bare (as_dynamic pool l e f same) =
        grants_of-Owned (fallen_back m "PoolExhausted") [] same.same (same.interfaces ∙ bare) tt

    pub Gains-Owned :
        (m' : AwsMachine)
        → m.network_interfaces ≡ []
        → Gains platform m h (ok m')
        → All (Owned gone w) (grants_of m')
    Gains-Owned m' bare (same, inl e) = grants_of-Owned m' [] same (e ∙ bare) tt
    Gains-Owned m' bare (same, inr (c, backed, e)) =
        grants_of-Owned m' (c.spec.eni_id ∷ []) same e (IsBacked-Owned c backed, tt)
