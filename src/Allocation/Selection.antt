-- ===== src/Allocation/Selection.antt =====
-- Which interface `reserve` chooses, and when it chooses none.
use capa_eni_controller.Prelude.{
  ◌≤◌, String, ◌≡◌, ◌≢◌, refl, sym, ◌⊎◌, inl, inr, true, not, ◌&&◌, Option, none, some, List, [],
  ◌∷◌, ◌++◌, ◌==◌, if◌then◌else◌, arith, eq_iff, Bool-cases, subst,
}
use capa_eni_controller.Prelude.Lists.{
  All, In, Pairs, All-imp, All-append, All-append_inv, Pairs-middle, All-self, filter-All, is_empty,
}
use capa_eni_controller.Api.Meta.{AwsMachine}
use capa_eni_controller.Api.Claim.{EniClaim}
use capa_eni_controller.Api.Pool.{EniReference, EniPool}
use capa_eni_controller.Kube.Prog.{
  ok, err, Result, ApiError, already_exists, Server, run, Error, api, no_interface_with_key,
}
use capa_eni_controller.Kube.ClaimStore.{IsClaimStore}
use capa_eni_controller.Sort.{sort_slice}
use capa_eni_controller.Sort.Laws.{sort_slice-All, sort_slice-All_inv}
use capa_eni_controller.Allocation.{new_claim, configured, reserve, private_ip_lt}
use capa_eni_controller.Allocation.Order.{ip_key, HasIpv4, sort_slice-ip_key}
use capa_eni_controller.Allocation.Reserve.{Reserved, Exhausted, create_first-Outcome}
use capa_eni_controller.Allocation.Reserve

pub configured-All :
    (P : EniReference → Type 0) (pool : EniPool) (key : String)
    → All P pool.spec.interfaces
    → All P (configured pool key)
unfolding configured
configured-All P pool key h = elim (Bool-cases (key == "")) [
  | inl e ↦ rw e h
  | inr e ↦ rw e (filter-All P (λ c. c.key == key) pool.spec.interfaces h)
]

module _ (server : Server) (stored : server.World → String → Option EniClaim)
    (store : IsClaimStore server stored) (machine : AwsMachine) (pool : EniPool)
    (key : String) where
  open server use {World}

  -- `claim` is for one of the candidates, which was free; each other candidate was taken or has
  -- an address that is no smaller; and no other claim changes.
  pub record TakesLowest (w : World) (claim : EniClaim) (w' : World) : Type 0 where
    pub chosen : EniReference
    pub candidate : In chosen (configured pool key)
    pub free : stored w chosen.id ≡ none
    pub lowest :
        All (λ r. (stored w r.id ≢ none) ⊎ (ip_key chosen ≤ ip_key r)) (configured pool key)
    pub name : claim.name ≡ chosen.id
    pub spec : claim.spec ≡ (new_claim machine pool chosen).spec
    pub stores : (n : String) → stored w' n ≡ (if chosen.id == n then some claim else stored w n)

  pub record AllTaken (w w' : World) : Type 0 where
    pub taken : All (λ r. stored w r.id ≢ none) (configured pool key)
    pub keeps : (n : String) → stored w' n ≡ stored w n

  -- What may go wrong: a key that no interface has, before any request, or a failure of the server.
  pub data Refused (w : World) (e : Error) (w' : World) : Type 0 where
    unknown_key :
        e ≡ no_interface_with_key pool.name key
        → key ≢ ""
        → configured pool key ≡ []
        → w' ≡ w
        → Refused w e w'
    failed : (a : ApiError) → e ≡ api a → a ≢ already_exists → Refused w e w'

  abbrev pub Outcome : World → Result Error (Option EniClaim) → World → Type 0
  Outcome w (ok (some claim)) w' = TakesLowest w claim w'
  Outcome w (ok none) w' = AllTaken w w'
  Outcome w (err e) w' = Refused w e w'

  sorted : List EniReference
  sorted = sort_slice private_ip_lt (configured pool key)

  sorted_members :
      {w w' : World} {claim : EniClaim}
      (o : Reserved server stored store machine pool sorted w claim w')
      → All (λ r. In r (configured pool key)) (o.before ++ (o.chosen ∷ o.after))
  unfolding sorted
  sorted_members o =
      subst (All (λ r. In r (configured pool key))) o.split
        (sort_slice-All private_ip_lt _ _ (All-self (configured pool key)))

  lowest_in_sorted :
      {w w' : World} {claim : EniClaim}
      → All HasIpv4 pool.spec.interfaces
      → (o : Reserved server stored store machine pool sorted w claim w')
      → All (λ r. (stored w r.id ≢ none) ⊎ (ip_key o.chosen ≤ ip_key r)) sorted
  unfolding sorted
  lowest_in_sorted h o = subst (All _) (sym o.split) (
      All-append _ o.before (o.chosen ∷ o.after) (All-imp _ _ (λ r t. inl t) o.before o.taken)
        (inr (omega arith), All-imp _ _ (λ r le. inr le) o.after rest))
    where
      rest : All (λ r. ip_key o.chosen ≤ ip_key r) o.after
      rest =
          Pairs-middle (λ a b. ip_key a ≤ ip_key b) o.before o.chosen o.after
            (subst (Pairs (λ a b. ip_key a ≤ ip_key b)) o.split
              (sort_slice-ip_key _ (configured-All HasIpv4 pool key h)))

  sorted-Outcome :
      (w w' : World) (result : Result Error (Option EniClaim))
      → All HasIpv4 pool.spec.interfaces
      → Reserve.Outcome server stored store machine pool sorted w result w'
      → Outcome w result w'
  unfolding sorted
  sorted-Outcome w w' (ok none) h o = record {
    taken = sort_slice-All_inv private_ip_lt _ (configured pool key) o.taken;
    keeps = o.keeps;
  }
  sorted-Outcome w w' (err e) h o = failed o.0 o.1 o.2
  sorted-Outcome w w' (ok (some claim)) h o = record {
    chosen = o.chosen;
    candidate = (All-append_inv _ o.before _ (sorted_members o)).1.0;
    free = o.free;
    lowest = sort_slice-All_inv private_ip_lt _ (configured pool key) (lowest_in_sorted h o);
    name = o.name;
    spec = o.spec;
    stores = o.stores;
  }

  -- The interface that a reservation takes has the lowest private IPv4 address of all candidates
  -- that are not claimed, and no other claim is touched; without a claim every candidate was taken;
  -- and an error is an unknown key, found before any request, or a failure of the server. For a pool
  -- whose interfaces have IPv4 addresses, over a server that stores claims by name.
  pub reserve-Outcome :
      All HasIpv4 pool.spec.interfaces
      → (w : World)
      → Outcome w
          (run server (reserve machine pool key) w).0
          (run server (reserve machine pool key) w).1
  unfolding reserve sorted
  reserve-Outcome h w = elim (Bool-cases (not (key == "") && is_empty (configured pool key))) [
    | inl e ↦ rw e (unknown_key refl (named e) (none_left (configured pool key) e) refl)
    | inr e ↦
        rw e
          (sorted-Outcome w _ _ h (create_first-Outcome server stored store machine pool sorted w))
  ]
    where
      named : (not (key == "") && is_empty (configured pool key)) ≡ true → key ≢ ""
      named e = ground (arith, eq_iff key "")

      none_left : (xs : List EniReference) → (not (key == "") && is_empty xs) ≡ true → xs ≡ []
      none_left [] e = refl
      none_left (x ∷ xs) e = ground arith
