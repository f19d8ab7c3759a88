-- ===== src/Controller/EniPool/Inventory.antt =====
-- What the inventory says of each declared interface.
use mathlib.Core.List.{append-nil, append_assoc}
use capa_eni_controller.Prelude.{
  ℕ, ◌+◌, String, ◌≡◌, ◌≢◌, refl, sym, ◌∙◌, ◌⊎◌, inl, inr, Option, none, some, List, [], ◌∷◌, ◌++◌,
  map, ◌==◌, if◌then◌else◌, arith, eq_iff, Option-cases, Bool-cases,
}
use capa_eni_controller.Prelude.Lists.{All, In}
use capa_eni_controller.Api.Meta.{Dict, lookup, insert, lookup-insert}
use capa_eni_controller.Api.Claim.{EniClaim}
use capa_eni_controller.Api.Pool.{
  EniReference, EniObservation, eni_state_available, eni_state_claimed,
}
use capa_eni_controller.Controller.EniPool.{index_claims, observe_one, observe}

-- An entry is about a declared interface, and says that it is claimed by the machine of a claim of
-- the list that names it, or that no claim of the list does.
pub record Reports (claims : List EniClaim) (r : EniReference) (o : EniObservation) : Type 0 where
  pub key : o.key ≡ r.key
  pub id : o.id ≡ r.id
  pub private_ip : o.private_ip ≡ r.private_ip
  pub state :
      ((c : EniClaim) × In c claims
        × (c.spec.eni_id ≡ r.id)
        × (o.state ≡ eni_state_claimed)
        × (o.claim_ref ≡ some c.spec.machine_ref))
      ⊎ (All (λ c. c.spec.eni_id ≢ r.id) claims
          × (o.state ≡ eni_state_available)
          × (o.claim_ref ≡ none))

-- The entries stand in the order of the interfaces.
abbrev pub Inventory : List EniClaim → List EniReference → List EniObservation → Type 0
Inventory claims [] [] = Unit
Inventory claims (r ∷ rs) (o ∷ os) = Reports claims r o × Inventory claims rs os
Inventory claims _ _ = ⊥

-- How many entries are available.
unfoldable pub available_in : List EniObservation → ℕ
available_in [] = 0
available_in (o ∷ os) = (if o.state == eni_state_available then 1 else 0) + available_in os

-- The index holds a claim of the list, or what it held before when no claim names the interface.
lookup-index_claims :
    (id : String) (by_eni : Dict EniClaim) (claims : List EniClaim)
    → ((c : EniClaim) × In c claims
        × (c.spec.eni_id ≡ id)
        × (lookup id (index_claims by_eni claims) ≡ some c))
      ⊎ (All (λ c. c.spec.eni_id ≢ id) claims
          × (lookup id (index_claims by_eni claims) ≡ lookup id by_eni))
unfolding index_claims
lookup-index_claims id by_eni [] = inr (tt, refl)
lookup-index_claims id by_eni (c ∷ cs) =
    elim (lookup-index_claims id (insert c.spec.eni_id c by_eni) cs) [
      | inl (d, there, same, found) ↦ inl (d, inr there, same, found)
      | inr (missing, found) ↦ elim (Bool-cases (c.spec.eni_id == id)) [
        | inl e ↦ inl (
          c,
          inl refl,
          ground (arith, eq_iff c.spec.eni_id id),
          found ∙ rw (lookup-insert c.spec.eni_id id c by_eni, e) refl,
        )
        | inr e ↦ inr (
          (ground (arith, eq_iff c.spec.eni_id id), missing),
          found ∙ rw (lookup-insert c.spec.eni_id id c by_eni, e) refl,
        )
      ]
    ]

lookup_nil : (id : String) → lookup {V = EniClaim} id [] ≡ none
unfolding lookup
lookup_nil id = refl

observe_one-Reports :
    (claims : List EniClaim) (r : EniReference)
    → Reports claims r (observe_one (index_claims [] claims) r)
unfolding observe_one
observe_one-Reports claims r =
    go (lookup r.id (index_claims [] claims)) refl (lookup-index_claims r.id [] claims)
  where
    go :
        (x : Option EniClaim)
        → lookup r.id (index_claims [] claims) ≡ x
        → ((c : EniClaim) × In c claims
            × (c.spec.eni_id ≡ r.id)
            × (lookup r.id (index_claims [] claims) ≡ some c))
          ⊎ (All (λ c. c.spec.eni_id ≢ r.id) claims
              × (lookup r.id (index_claims [] claims) ≡ lookup r.id []))
        → Reports claims r (observe_one (index_claims [] claims) r)
    go x e (inl (c, here, same, found)) =
        rw (observe_one, found)
          (record {
            key = refl;
            id = refl;
            private_ip = refl;
            state = inl (c, here, same, refl, refl);
          })
    go x e (inr (missing, found)) =
        rw (observe_one, found ∙ lookup_nil r.id)
          (record { key = refl; id = refl; private_ip = refl; state = inr (missing, refl, refl) })

free_state :
    (by_eni : Dict EniClaim) (r : EniReference)
    → lookup r.id by_eni ≡ none
    → (observe_one by_eni r).state ≡ eni_state_available
unfolding observe_one
free_state by_eni r e = rw (observe_one, e) refl

taken_state :
    (by_eni : Dict EniClaim) (r : EniReference) (c : EniClaim)
    → lookup r.id by_eni ≡ some c
    → (observe_one by_eni r).state ≡ eni_state_claimed
unfolding observe_one
taken_state by_eni r c e = rw (observe_one, e) refl

pair_eq :
    {a b : List EniObservation} {n m : ℕ}
    → a ≡ b
    → n ≡ m
    → ◌≡◌ {A = List EniObservation × ℕ} (a, n) (b, m)
pair_eq e f = cc

-- The loop is a map over the interfaces, and its counter counts the available entries.
observe-map :
    (by_eni : Dict EniClaim) (rs : List EniReference) (observed : List EniObservation) (n : ℕ)
    → observe by_eni rs observed n
      ≡ (observed ++ map (observe_one by_eni) rs, n + available_in (map (observe_one by_eni) rs))
unfolding observe available_in
observe-map by_eni [] observed n = pair_eq (sym (append-nil observed)) (omega arith)
observe-map by_eni (r ∷ rs) observed n = elim (Option-cases (lookup r.id by_eni)) [
  | inl e ↦
      rw (e, free_state by_eni r e)
        (observe-map by_eni rs _ (n + 1)
          ∙ pair_eq (append_assoc observed _ (map (observe_one by_eni) rs)) (omega arith))
  | inr (c, e) ↦
      rw (e, taken_state by_eni r c e)
        (observe-map by_eni rs _ n
          ∙ pair_eq (append_assoc observed _ (map (observe_one by_eni) rs)) (omega arith))
]

maps-Inventory :
    (claims : List EniClaim) (rs : List EniReference)
    → Inventory claims rs (map (observe_one (index_claims [] claims)) rs)
maps-Inventory claims [] = tt
maps-Inventory claims (r ∷ rs) = (observe_one-Reports claims r, maps-Inventory claims rs)

-- The inventory that the reconciler computes has one entry for each declared interface, in their
-- order, which says whether a claim of the list names the interface, and for which machine; and the
-- number that the metric gets is the number of the entries that are available.
pub observe-Inventory :
    (claims : List EniClaim) (rs : List EniReference)
    → let (observed, available) = observe (index_claims [] claims) rs [] 0 in
      Inventory claims rs observed × (available ≡ available_in observed)
observe-Inventory claims rs =
    rw (observe-map (index_claims [] claims) rs [] 0) (maps-Inventory claims rs, omega arith)
