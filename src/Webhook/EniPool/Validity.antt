-- ===== src/Webhook/EniPool/Validity.antt =====
-- The webhook's test of a pool as a whole, against what a valid pool is.
use capa_eni_controller.Prelude.{
  String, ◌≡◌, ◌≢◌, refl, sym, ◌∙◌, ap, ◌⊎◌, inl, inr, ◌↔◌, true, List, [], ◌∷◌,
}
use capa_eni_controller.Prelude.Lists.{All, All-imp, Pairs}
use capa_eni_controller.Api.Pool.{EniReference, EniPool}
use capa_eni_controller.Kube.Prog.{Result, ok, err, Error, Server, run, list_pools, ret}
use capa_eni_controller.Kube.Go.{◌>>=◌}
use capa_eni_controller.Allocation.Order.{HasIpv4}
use capa_eni_controller.Allocation.Pools.{SameNetwork}
use capa_eni_controller.Webhook.EniPool.{
  Wanted, no_wanted, EniPoolCustomValidator, check_interfaces, check_others, validate_others,
  validate,
}
use capa_eni_controller.Webhook.EniPool.Interfaces.{
  Lacks, Fresh, Differ, add, added, check_interfaces-ok, check_interfaces-inv,
}
use capa_eni_controller.Webhook.EniPool.Others
use capa_eni_controller.Webhook.EniPool.Others.{check_others-Compatible}

-- The interfaces have IPv4 addresses, and no two share the id, the address or a key.
pub record IsValid (pool : EniPool) : Type 0 where
  pub ipv4 : All HasIpv4 pool.spec.interfaces
  pub distinct : Pairs Differ pool.spec.interfaces

-- Two pools have no interface in common.
abbrev pub NoneShared : EniPool → EniPool → Type 0
NoneShared p q =
    All (λ (r : EniReference). All (λ (s : EniReference). s.id ≢ r.id) p.spec.interfaces)
      q.spec.interfaces

-- The other pool has the same name, or another network and no interface in common.
abbrev pub Compatible : EniPool → EniPool → Type 0
Compatible pool other =
    (other.name ≡ pool.name) ⊎ ((¬ SameNetwork other pool) × NoneShared pool other)

added-ids :
    (s : String) (w : Wanted) (rs : List EniReference)
    → Lacks s (added w rs).ids ↔ (Lacks s w.ids × All (λ (r : EniReference). r.id ≢ s) rs)
added-ids s w [] = ((λ h. (h, tt)), (λ h. h.0))
added-ids s w (r ∷ rs) =
    let rest = added-ids s (add w r) rs in
    ((λ h. let (a, b) = rest.0 h in (a.1, (a.0, b))), (λ h. rest.1 ((h.1.0, h.0), h.1.1)))

Compatible-added :
    (pool other : EniPool)
    → Others.Compatible pool (added no_wanted pool.spec.interfaces).ids other
      ↔ Compatible pool other
Compatible-added pool other = (
  elim [
    | inl e ↦ inl e
    | inr (apart, h) ↦
        inr
          (apart, All-imp _ _ (λ r l. ((added-ids r.id no_wanted pool.spec.interfaces).0 l).1) _ h)
  ],
  elim [
    | inl e ↦ inl e
    | inr (apart, h) ↦
        inr (
          apart,
          All-imp _ _ (λ r l. (added-ids r.id no_wanted pool.spec.interfaces).1 (tt, l)) _ h,
        )
  ],
)

Fresh-none : (r : EniReference) → HasIpv4 r → Fresh no_wanted r
Fresh-none r h = record { id = tt; ipv4 = h; ip = tt; key = inr tt }

-- Both tests, one after the other.
abbrev then_others : EniPool → List EniPool → Result Error Wanted → Result Error Unit
then_others pool items (err e) = err e
then_others pool items (ok wanted) = check_others pool wanted.ids items

module _ (v : EniPoolCustomValidator) (server : Server) (pool : EniPool) (items : List EniPool)
    (w w₁ : server.World) (client : v.client ≡ true)
    (listed : server.serve list_pools w ≡ (ok items, w₁)) where
  run-ret :
      (c : Result Error Wanted)
      → (run server (ret c >>= validate_others v pool) w).0 ≡ then_others pool items c
  unfolding validate_others
  run-ret (err e) = refl
  run-ret (ok wanted) = rw client (rw (listed, run))

  run-validate :
      (run server (validate v pool) w).0
      ≡ then_others pool items (check_interfaces no_wanted pool.spec.interfaces)
  unfolding validate
  run-validate = run-ret (check_interfaces no_wanted pool.spec.interfaces)

  admitted_IsValid :
      (c : Result Error Wanted)
      → check_interfaces no_wanted pool.spec.interfaces ≡ c
      → then_others pool items c ≡ ok tt
      → IsValid pool × All (Compatible pool) items
  admitted_IsValid (err e) h k = absurd (cc k)
  admitted_IsValid (ok wanted) h k =
      let (fresh, distinct, same) = check_interfaces-inv pool.spec.interfaces no_wanted wanted h in
      let k' : check_others pool (added no_wanted pool.spec.interfaces).ids items ≡ ok tt =
        ap (λ (u : Wanted). check_others pool u.ids items) (sym same) ∙ k in
      (
        record { ipv4 = All-imp _ _ (λ r f. f.ipv4) _ fresh; distinct = distinct },
        All-imp _ _ (λ other. (Compatible-added pool other).0) items
            ((check_others-Compatible pool _ items).0 k'),
      )

  -- A webhook with a client admits a pool just when its interfaces are IPv4 interfaces of which no two
  -- share the id, the address or a key, and each other pool in the list has another region or VPC and
  -- no interface of it. Where the list of the pools is answered.
  pub validate-IsValid :
      ((run server (validate v pool) w).0 ≡ ok tt) ↔ (IsValid pool × All (Compatible pool) items)
  validate-IsValid = (
    (λ h.
        admitted_IsValid (check_interfaces no_wanted pool.spec.interfaces) refl
          (sym run-validate ∙ h)),
    (λ h.
        run-validate
        ∙ ap (then_others pool items) (
            check_interfaces-ok no_wanted pool.spec.interfaces (All-imp _ _ Fresh-none _ h.0.ipv4)
              h.0.distinct)
        ∙ (check_others-Compatible pool _ items).1
            (All-imp _ _ (λ other. (Compatible-added pool other).1) items h.1)),
  )
