-- ===== src/Controller/AwsMachine/Retry.antt =====
-- A reconcile of a machine that has a claim already.
use capa_eni_controller.Prelude.{
  String, ◌≡◌, refl, sym, ◌∙◌, ap, inl, inr, true, false, ◌&&◌, Option, none, some, List, [], ◌∷◌,
  ◌==◌, arith, eq_iff, Bool-cases, Option-cases, subst,
}
use capa_eni_controller.Prelude.Lists.{In, All, All-In}
use capa_eni_controller.Api.Meta.{AwsMachine}
use capa_eni_controller.Api.Claim.{EniClaim}
use capa_eni_controller.Api.Pool.{EniPool}
use capa_eni_controller.Kube.Prog.{ok, err, Result, ApiError, Error, api, list_claims, Server, run}
use capa_eni_controller.Kube.ClaimStore.{IsClaimStore}
use capa_eni_controller.Controller.AwsMachine.{claim_of, claim_interface}

abbrev pub Names : EniClaim → AwsMachine → Type 0
Names c m = (c.spec.machine_ref.namespace ≡ m.namespace) × (c.spec.machine_ref.name ≡ m.name)

tested-Names :
    (m : AwsMachine) (d : EniClaim)
    → (d.spec.machine_ref.namespace == m.namespace && d.spec.machine_ref.name == m.name) ≡ true
    → Names d m
tested-Names m d e =
    ground (
      arith,
      eq_iff d.spec.machine_ref.namespace m.namespace,
      eq_iff d.spec.machine_ref.name m.name,
    )

untested-Names :
    (m : AwsMachine) (d : EniClaim)
    → (d.spec.machine_ref.namespace == m.namespace && d.spec.machine_ref.name == m.name) ≡ false
    → ¬ Names d m
untested-Names m d e (same_namespace, same_name) =
    ground (
      arith,
      eq_iff d.spec.machine_ref.namespace m.namespace,
      eq_iff d.spec.machine_ref.name m.name,
    )

pub claim_of-Names :
    (m : AwsMachine) (claims : List EniClaim) (c : EniClaim)
    → claim_of m claims ≡ some c
    → Names c m
unfolding claim_of
claim_of-Names m [] c h = absurd (ground arith)
claim_of-Names m (d ∷ claims) c h =
    elim (Bool-cases
      (d.spec.machine_ref.namespace == m.namespace && d.spec.machine_ref.name == m.name)) [
        | inl e ↦
            let same : d ≡ c = cc (rw e at h) in subst (λ x. Names x m) same (tested-Names m d e)
        | inr e ↦ claim_of-Names m claims c (rw e at h)
      ]

pub claim_of-In :
    (m : AwsMachine) (claims : List EniClaim) (c : EniClaim)
    → claim_of m claims ≡ some c
    → In c claims
unfolding claim_of
claim_of-In m [] c h = absurd (ground arith)
claim_of-In m (d ∷ claims) c h =
    elim (Bool-cases
      (d.spec.machine_ref.namespace == m.namespace && d.spec.machine_ref.name == m.name)) [
        | inl e ↦ inl (cc (rw e at h))
        | inr e ↦ inr (claim_of-In m claims c (rw e at h))
      ]

claim_of-none :
    (m : AwsMachine) (claims : List EniClaim)
    → claim_of m claims ≡ none
    → All (λ c. ¬ Names c m) claims
unfolding claim_of
claim_of-none m [] h = tt
claim_of-none m (d ∷ claims) h =
    elim (Bool-cases
      (d.spec.machine_ref.namespace == m.namespace && d.spec.machine_ref.name == m.name)) [
        | inl e ↦ absurd (ground (arith, e))
        | inr e ↦ ((λ n. untested-Names m d e n), claim_of-none m claims (ground (arith, e)))
      ]

module _ (server : Server) (stored : server.World → String → Option EniClaim)
    (store : IsClaimStore server stored) where
  open server use {World, serve}

  -- A list of the claims leaves out none that is stored.
  pub record IsComplete : Type 0 where
    pub lists :
        (w w' : World) (claims : List EniClaim)
        → serve list_claims w ≡ (ok claims, w')
        → (n : String) (c : EniClaim) → stored w n ≡ some c
        → In c claims

  -- The claim that is returned names the machine, or the list failed; no claim changes.
  abbrev pub Reuses : AwsMachine → World → Result Error (Option EniClaim) → World → Type 0
  Reuses m w (ok (some c)) w' = Names c m × ((n : String) → stored w' n ≡ stored w n)
  Reuses m w (ok none) w' = ⊥
  Reuses m w (err e) w' = (a : ApiError) × (e ≡ api a) × ((n : String) → stored w' n ≡ stored w n)

  pub listed-keeps :
      (w w' : World) (answer : Result ApiError (List EniClaim))
      → serve list_claims w ≡ (answer, w')
      → (n : String) → stored w' n ≡ stored w n
  listed-keeps w w' answer listed n =
      ap (λ r. stored r.1 n) (sym listed) ∙ store.read_keeps list_claims w tt n

  listed-Reuses :
      (m : AwsMachine) (pool : EniPool) (key : String) (w w' : World)
      (answer : Result ApiError (List EniClaim)) (n : String) (c : EniClaim)
      → IsComplete
      → stored w n ≡ some c
      → Names c m
      → serve list_claims w ≡ (answer, w')
      → Reuses m w
          (run server (claim_interface m pool key) w).0
          (run server (claim_interface m pool key) w).1
  unfolding claim_interface
  listed-Reuses m pool key w w' (err a) n c complete here names listed =
      rw (listed, run) (a, refl, listed-keeps w w' (err a) listed)
  listed-Reuses m pool key w w' (ok claims) n c complete here names listed =
      elim (Option-cases (claim_of m claims)) [
        | inl e ↦ absurd (
            All-In _ claims c (claim_of-none m claims e)
              (complete.lists w w' claims listed n c here) names)
        | inr (d, e) ↦
            rw (listed, run, e) (claim_of-Names m claims d e, listed-keeps w w' (ok claims) listed)
      ]

  -- A reconcile of a machine that a stored claim names makes no other claim: it goes on with a claim
  -- that names the machine, or stops at the failure of the list, and no claim changes. Over a server
  -- that stores claims by name and lists all of them.
  pub claim_interface-Reuses :
      (m : AwsMachine) (pool : EniPool) (key : String) (w : World) (n : String) (c : EniClaim)
      → IsComplete
      → stored w n ≡ some c
      → Names c m
      → Reuses m w
          (run server (claim_interface m pool key) w).0
          (run server (claim_interface m pool key) w).1
  claim_interface-Reuses m pool key w n c complete here names =
      listed-Reuses m pool key w (serve list_claims w).1 (serve list_claims w).0 n c complete here
        names refl
