-- ===== src/System/Refines.antt =====
-- The webhook's allocation and the controller's, as acquisitions of an interface by the machine.
use capa_eni_controller.Prelude.{
  String, ◌≡◌, refl, sym, ◌∙◌, ap, inl, inr, Bool-cases, Option-cases, Option, none, some, List, [],
  ◌∷◌, ◌==◌, eq_refl, eq_iff, not, ◌&&◌,
}
use capa_eni_controller.Prelude.Lists.{is_empty}
use capa_eni_controller.Api.Meta.{AwsMachine}
use capa_eni_controller.Api.Claim.{EniClaim}
use capa_eni_controller.Api.Pool.{EniPool, EniReference}
use capa_eni_controller.Kube.Prog.{Result, ok, err, ApiError, Error, list_claims, Server, run}
use capa_eni_controller.Kube.Platform.{Platform}
use capa_eni_controller.Kube.ClaimStore.{IsClaimStore}
use capa_eni_controller.Sort.{sort_slice}
use capa_eni_controller.Allocation.{reserve, configured, private_ip_lt, new_claim}
use capa_eni_controller.Allocation.Reserve.{create_first-Outcome}
use capa_eni_controller.Allocation.Reserve
use capa_eni_controller.Webhook.AwsMachine.{allocate, allocated}
use capa_eni_controller.Webhook.AwsMachine.Outcome
use capa_eni_controller.Webhook.AwsMachine.Outcome.{allocate-Outcome}
use capa_eni_controller.Controller.AwsMachine.{claim_interface, claim_of}
use capa_eni_controller.Controller.AwsMachine.Retry.{
  Names, claim_of-Names, claim_of-In, listed-keeps,
}
use capa_eni_controller.System.Owners.{has}
use capa_eni_controller.System.Acquired.{
  spec_of, owner_of, eni_of, ref_eq, IsNamed, IsSound, Acquired, unchanged, created,
}

module _ (server : Server) (stored : server.World → String → Option EniClaim)
    (store : IsClaimStore server stored) where
  open server use {World, serve}

  -- The interfaces of an admitted machine: those it came with, or the one acquired.
  abbrev pub given : AwsMachine → Option String → List String
  given obj none = obj.network_interfaces
  given obj (some id) = id ∷ []

  abbrev pub Admits : AwsMachine → World → Result Error AwsMachine → World → Type 0
  Admits obj w (ok obj') w' =
      (found : Option String) × Acquired server stored obj w found w'
      × (obj'.network_interfaces ≡ given obj found)
  Admits obj w (err e) w' = Unit

  Outcome-Admits :
      (platform : Platform) (obj : AwsMachine) (w w' : World) (result : Result Error AwsMachine)
      → IsNamed server stored w
      → Outcome.Outcome platform server stored store obj w result w'
      → Admits obj w result w'
  unfolding allocated
  Outcome-Admits platform obj w w' (err e) named o = tt
  Outcome-Admits platform obj w w' (ok obj') named (inl u) =
      (none, unchanged server stored obj w w' named u.keeps, ap (λ m. m.network_interfaces) u.same)
  Outcome-Admits platform obj w w' (ok obj') named (inr g) = (
    some g.claim.spec.eni_id,
    created server stored obj w w' g.claim g.claim.spec.eni_id named refl (g.namespace, g.machine)
        g.was_free g.is_stored g.others,
    ap (λ m. m.network_interfaces) g.written,
  )

  -- A machine that goes through the webhook's allocation and is admitted acquires the interface
  -- that it is given, or has the interfaces it came with and acquires none. Over a server that
  -- stores claims by name, whose claims are named by their interfaces.
  pub allocate-Acquires :
      (platform : Platform) (obj : AwsMachine) (w : World)
      → IsNamed server stored w
      → Admits obj w
          (run server (allocate platform obj) w).0
          (run server (allocate platform obj) w).1
  allocate-Acquires platform obj w named =
      Outcome-Admits platform obj w _ _ named (allocate-Outcome platform server stored store obj w)

  abbrev pub Claims : AwsMachine → World → Result Error (Option EniClaim) → World → Type 0
  Claims m w (ok found) w' = Acquired server stored m w (eni_of found) w'
  Claims m w (err e) w' = Unit

  module _ (m : AwsMachine) (pool : EniPool) where
    Reserved-Claims :
        (refs : List EniReference) (w w₁ w' : World) (result : Result Error (Option EniClaim))
        → IsNamed server stored w
        → ((n : String) → stored w₁ n ≡ stored w n)
        → Reserve.Outcome server stored store m pool refs w₁ result w'
        → Claims m w result w'
    unfolding new_claim
    Reserved-Claims refs w w₁ w' (err e) named k o = tt
    Reserved-Claims refs w w₁ w' (ok none) named k o =
        unchanged server stored m w w' named (λ n. o.keeps n ∙ k n)
    Reserved-Claims refs w w₁ w' (ok (some claim)) named k o =
        created server stored m w w' claim claim.spec.eni_id named refl
          (ap (λ s. s.machine_ref.namespace) o.spec, ap (λ s. s.machine_ref.name) o.spec)
          (sym (k claim.spec.eni_id) ∙ ap (stored w₁) id_eq ∙ o.free)
          (ap (stored w') id_eq ∙ o.stores o.chosen.id ∙ (rw (eq_refl o.chosen.id)))
          (λ n. elim (Bool-cases (o.chosen.id == n)) [
            | inl e ↦ inl (sym ((eq_iff o.chosen.id n).0 e) ∙ sym id_eq)
            | inr e ↦ inr (o.stores n ∙ (rw e) ∙ k n)
          ])
      where
        id_eq : claim.spec.eni_id ≡ o.chosen.id
        id_eq = ap (λ s. s.eni_id) o.spec

    reserve-Claims :
        (key : String) (w w₁ : World)
        → IsNamed server stored w
        → ((n : String) → stored w₁ n ≡ stored w n)
        → Claims m w (run server (reserve m pool key) w₁).0 (run server (reserve m pool key) w₁).1
    unfolding reserve
    reserve-Claims key w w₁ named k =
        elim (Bool-cases (not (key == "") && is_empty (configured pool key))) [
          | inl e ↦ rw e tt
          | inr e ↦
              let refs = sort_slice private_ip_lt (configured pool key) in
              rw e (
                Reserved-Claims refs w w₁ _ _ named k
                  (create_first-Outcome server stored store m pool refs w₁))
        ]

    -- The claim that the list has for the machine.
    found-Claims :
        (w w' : World) (c : EniClaim)
        → IsNamed server stored w
        → Names c m
        → stored w c.name ≡ some c
        → ((n : String) → stored w' n ≡ stored w n)
        → Acquired server stored m w (some c.spec.eni_id) w'
    found-Claims w w' c named names here k = record {
      acquires =
          has c.spec.eni_id
            (ap (λ n. owner_of (spec_of (stored w n))) (named c.name c.spec (ap spec_of here))
              ∙ ap (λ d. owner_of (spec_of d)) here
              ∙ ap some (ref_eq c.spec.machine_ref m names.0 names.1))
            (λ n. ap (λ d. owner_of (spec_of d)) (k n));
      named = (unchanged server stored m w w' named k).named;
    }

    listed-Claims :
        (key : String) (w w₁ : World) (answer : Result ApiError (List EniClaim))
        → IsSound server stored
        → IsNamed server stored w
        → serve list_claims w ≡ (answer, w₁)
        → Claims m w
            (run server (claim_interface m pool key) w).0
            (run server (claim_interface m pool key) w).1
    unfolding claim_interface
    listed-Claims key w w₁ (err a) sound named listed = rw (listed, run) tt
    listed-Claims key w w₁ (ok claims) sound named listed =
        let k = listed-keeps server stored store w w₁ (ok claims) listed in
        elim (Option-cases (claim_of m claims)) [
          | inl e ↦ rw (listed, run, e) (reserve-Claims key w w₁ named k)
          | inr (c, e) ↦
              rw (listed, run, e)
                (found-Claims w w₁ c named (claim_of-Names m claims c e)
                  (sound.lists w w₁ claims c listed (claim_of-In m claims c e)) k)
        ]

    -- The machine controller's allocation, when it succeeds, acquires the interface of the claim
    -- that it goes on with, or none. Over a server that stores claims by name and lists stored
    -- ones, whose claims are named by their interfaces.
    pub claim_interface-Acquires :
        (key : String) (w : World)
        → IsSound server stored
        → IsNamed server stored w
        → Claims m w
            (run server (claim_interface m pool key) w).0
            (run server (claim_interface m pool key) w).1
    claim_interface-Acquires key w sound named =
        listed-Claims key w (serve list_claims w).1 (serve list_claims w).0 sound named refl
