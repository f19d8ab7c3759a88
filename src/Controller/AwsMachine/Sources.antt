-- ===== src/Controller/AwsMachine/Sources.antt =====
-- Where the reconciler has its pool and its claim from.
use capa_eni_controller.Prelude.{
  String, ◌≡◌, refl, inl, inr, not, ◌&&◌, Option, none, some, List, [], ◌∷◌, ◌==◌, Bool-cases,
  Option-cases,
}
use capa_eni_controller.Prelude.Lists.{In, All, All-self, filter, filter-All, is_empty}
use capa_eni_controller.Api.Meta.{AwsMachine}
use capa_eni_controller.Api.Claim.{EniClaim}
use capa_eni_controller.Api.Pool.{EniReference, EniPool}
use capa_eni_controller.Kube.Prog.{
  Result, Error, ApiError, ok, err, not_found, already_exists, conflict, other, create_claim,
  list_pools,
}
use capa_eni_controller.Kube.Go.{Go}
use capa_eni_controller.Kube.History.{Event, did, Yields, gives, asked}
use capa_eni_controller.Sort.Laws.{sort_slice-All}
use capa_eni_controller.Allocation.{
  match_pool, new_claim, after_create, create_first, configured, reserve, private_ip_lt,
}
use capa_eni_controller.Allocation.Pools.{in_network, at_most_one, match_pool-filter}
use capa_eni_controller.Allocation.Selection.{configured-All}
use capa_eni_controller.Controller.AwsMachine.{claim_of, find_pool, claim_interface}
use capa_eni_controller.Controller.AwsMachine.Writes.{IsListed, IsUnserved, MayAsk, Obtained}

-- A pool that was found is in the list; where none was found, none is for the network.
abbrev Found : String → String → List EniPool → Result Error (Option EniPool) → Type 0
Found region vpc_id items (ok (some pool)) = In pool items
Found region vpc_id items (ok none) = filter (in_network region vpc_id) items ≡ []
Found region vpc_id items (err e) = Unit

module _ (region vpc_id : String) where
  at_most_one-Found :
      (items : List EniPool) (e : Error) (ps : List EniPool)
      → filter (in_network region vpc_id) items ≡ ps
      → All (λ p. In p items) ps
      → Found region vpc_id items (at_most_one e ps)
  at_most_one-Found items e [] q h = q
  at_most_one-Found items e (p ∷ []) q h = h.0
  at_most_one-Found items e (p ∷ p' ∷ ps) q h = tt

  match_pool-Found :
      (items : List EniPool) → Found region vpc_id items (match_pool region vpc_id items none)
  match_pool-Found items = rw (match_pool-filter region vpc_id items) (
      at_most_one-Found items _ _ refl
        (filter-All (λ p. In p items) (in_network region vpc_id) items (All-self items)))

  -- The pool that was found is in a list of the server, or no pool of a list is for the network.
  abbrev pub FoundBy : List Event → Result Error (Option EniPool) → Type 0
  FoundBy h (ok (some pool)) = IsListed h pool
  FoundBy h (ok none) = IsUnserved h region vpc_id
  FoundBy h (err e) = Unit

  listed_by :
      (h : List Event) (items : List EniPool) (result : Result Error (Option EniPool))
      → In (did list_pools (ok items)) h
      → Found region vpc_id items result
      → FoundBy h result
  listed_by h items (ok (some pool)) i f = (items, i, f)
  listed_by h items (ok none) i f = (items, i, f)
  listed_by h items (err e) i f = tt

module _ (m : AwsMachine) where
  pub find_pool-Yields :
      {h : List Event} (region vpc_id : String)
      → Yields (MayAsk m) (FoundBy region vpc_id) h (find_pool region vpc_id)
  unfolding find_pool
  find_pool-Yields {h = h} region vpc_id = asked tt (elim [
    | ok items ↦ gives (
        listed_by region vpc_id (did list_pools (ok items) ∷ h) items _ (inl refl)
          (match_pool-Found region vpc_id items))
    | err e ↦ gives tt
  ])

  module _ (pool : EniPool) where
    after_create-Yields :
        {h : List Event} (r : EniReference) (next : Go (Option EniClaim))
        (answer : Result ApiError EniClaim)
        → Yields (MayAsk m) (Obtained m) (did (create_claim (new_claim m pool r)) answer ∷ h) next
        → Yields
            (MayAsk m)
            (Obtained m)
            (did (create_claim (new_claim m pool r)) answer ∷ h)
            (after_create next answer)
    unfolding after_create
    after_create-Yields r next (ok c) y = gives (inr (pool, r, inl refl))
    after_create-Yields r next (err already_exists) y = y
    after_create-Yields r next (err not_found) y = gives tt
    after_create-Yields r next (err conflict) y = gives tt
    after_create-Yields r next (err (other s)) y = gives tt

    create_first-Yields :
        (refs : List EniReference) {h : List Event}
        → IsListed h pool
        → All (λ r. In r pool.spec.interfaces) refs
        → Yields (MayAsk m) (Obtained m) h (create_first m pool refs)
    unfolding create_first
    create_first-Yields [] listed members = gives tt
    create_first-Yields (r ∷ refs) {h = h} (items, i, j) members =
        asked (pool, r, (items, i, j), members.0, refl)
          λ answer. after_create-Yields r (create_first m pool refs) answer (
            create_first-Yields refs {h = did (create_claim (new_claim m pool r)) answer ∷ h}
              (items, inr i, j) members.1)

    pub reserve-Yields :
        {h : List Event} (key : String)
        → IsListed h pool
        → Yields (MayAsk m) (Obtained m) h (reserve m pool key)
    unfolding reserve
    reserve-Yields key listed =
        elim (Bool-cases (not (key == "") && is_empty (configured pool key))) [
          | inl e ↦ rw e (gives tt)
          | inr e ↦ rw e (
              create_first-Yields _ listed (
                sort_slice-All private_ip_lt _ _
                  (configured-All _ pool key (All-self pool.spec.interfaces))))
        ]

    pub claim_interface-Yields :
        {h : List Event} (key : String)
        → IsListed h pool
        → Yields (MayAsk m) (Obtained m) h (claim_interface m pool key)
    unfolding claim_interface
    claim_interface-Yields key (items, i, j) = asked tt (elim [
      | err e ↦ gives tt
      | ok cs ↦ elim (Option-cases (claim_of m cs)) [
        | inl e ↦ rw e (reserve-Yields key (items, inr i, j))
        | inr (c, e) ↦ rw e (gives (inl (cs, inl refl, e)))
      ]
    ])
