-- ===== src/Allocation/Refusals.antt =====
-- Why the search for a pool, the key of an interface and the reservation fail.
use capa_eni_controller.Prelude.{
  ◌≤◌, String, ◌≡◌, ◌≢◌, refl, ap, ◌⊎◌, inl, inr, true, false, some, none, not, ◌&&◌, Option, List,
  [], ◌∷◌, ◌==◌, arith, eq_iff,
}
use capa_eni_controller.Prelude.Lists.{In, All, All-self, filter, filter-All, length, is_empty}
use capa_eni_controller.Api.Constants.{interface_key_annotation}
use capa_eni_controller.Api.Meta.{Machine, AwsMachine, OwnerReference, get}
use capa_eni_controller.Api.Claim.{EniClaim}
use capa_eni_controller.Api.Pool.{EniReference, EniPool}
use capa_eni_controller.Kube.Prog.{
  Op, Result, ApiError, Error, ok, err, api, wrapped, already_exists, not_found, conflict, other,
  multiple_pools, no_interface_with_key, get_aws_machine, get_machine, get_cluster, get_aws_cluster,
  list_pools, list_claims, create_claim, patch_aws_machine,
}
use capa_eni_controller.Kube.Go.{Go, pure}
use capa_eni_controller.Kube.Platform.{Platform}
use capa_eni_controller.Kube.History.{
  Event, did, Extends, Yields, gives, asked, Yields-if, Yields-imp,
}
use capa_eni_controller.Sort.{sort_slice}
use capa_eni_controller.Allocation.{
  find_pool, is_machine_owner, owner_interface_key, resolve_interface_key, after_create,
  create_first, new_claim, configured, reserve, private_ip_lt,
}
use capa_eni_controller.Allocation.Pools.{in_network, at_most_one, match_pool-filter}

-- A request that the server has refused with that error; a name that is taken is no refusal.
abbrev pub IsRefusal : Event → ApiError → Type 0
IsRefusal (did (get_machine k) r) a = r ≡ err a
IsRefusal (did (get_cluster k) r) a = r ≡ err a
IsRefusal (did (get_aws_cluster k) r) a = r ≡ err a
IsRefusal (did (get_aws_machine k) r) a = r ≡ err a
IsRefusal (did list_pools r) a = r ≡ err a
IsRefusal (did list_claims r) a = r ≡ err a
IsRefusal (did (patch_aws_machine b m) r) a = r ≡ err a
IsRefusal (did (create_claim c) r) a = (r ≡ err a) × (a ≢ already_exists)
IsRefusal _ a = ⊥

-- The server has listed the pool.
abbrev pub IsListed : List Event → EniPool → Type 0
IsListed h pool = (items : List EniPool) × In (did list_pools (ok items)) h × In pool items

pub IsListed-more :
    (h h' : List Event) (pool : EniPool) → Extends h h' → IsListed h pool → IsListed h' pool
IsListed-more h h' pool more (items, i, j) = (items, more (did list_pools (ok items)) i, j)

-- Any request may be made.
abbrev pub Any : List Event → Op → Type 0
Any h o = Unit

module _ (platform : Platform) (obj : AwsMachine) where
  -- The key of the annotation of an owner of kind Machine that was read, or none where there is no such
  -- owner.
  abbrev pub OwnersKey : List OwnerReference → List Event → String → Type 0
  OwnersKey owners h key =
      ((owner : OwnerReference) × (m : Machine) × In owner owners
        × (is_machine_owner platform owner ≡ true)
        × In (did (get_machine (record { namespace = obj.namespace; name = owner.name })) (ok m)) h
        × (key ≡ get interface_key_annotation m.annotations))
      ⊎ (All (λ owner. is_machine_owner platform owner ≡ false) owners × (key ≡ ""))

  -- The key of the machine's own annotation, or that of its owner.
  abbrev pub KeyOf : List Event → String → Type 0
  KeyOf h key =
      let own = get interface_key_annotation obj.annotations in
      ((own ≢ "") × (key ≡ own)) ⊎ ((own ≡ "") × OwnersKey obj.owner_references h key)

  pub KeyOf-more : (h h' : List Event) (key : String) → Extends h h' → KeyOf h key → KeyOf h' key
  KeyOf-more h h' key more (inl own) = inl own
  KeyOf-more h h' key more (inr (e, inl (owner, m, i, t, j, k))) =
      inr (e, inl (owner, m, i, t, more _ j, k))
  KeyOf-more h h' key more (inr (e, inr none_left)) = inr (e, inr none_left)

  -- The reasons: a request that was refused, two pools or more for one network in the list, or the key
  -- of the machine, which no interface of a listed pool has.
  pub data Failed (h : List Event) : Error → Type 0 where
    refused : (a : ApiError) (e : Event) → In e h → IsRefusal e a → Failed h (api a)
    refused_while :
        (what : String) (a : ApiError) (e : Event)
        → In e h
        → IsRefusal e a
        → Failed h (wrapped what a)
    ambiguous :
        (region vpc_id : String) (items : List EniPool)
        → In (did list_pools (ok items)) h
        → 2 ≤ length (filter (in_network region vpc_id) items)
        → Failed h (multiple_pools region vpc_id)
    unknown_key :
        (pool : EniPool) (key : String)
        → IsListed h pool
        → KeyOf h key
        → key ≢ ""
        → configured pool key ≡ []
        → Failed h (no_interface_with_key pool.name key)

  -- An error has its reason.
  abbrev pub Ends : {A : Type 0} → List Event → Result Error A → Type 0
  Ends h (ok a) = Unit
  Ends h (err e) = Failed h e

  -- A pool that was found was listed.
  abbrev pub Searched : List Event → Result Error (Option EniPool) → Type 0
  Searched h (ok (some pool)) = IsListed h pool
  Searched h (ok none) = Unit
  Searched h (err e) = Failed h e

  -- The key is the machine's.
  abbrev pub Resolved : List Event → Result Error String → Type 0
  Resolved h (ok key) = KeyOf h key
  Resolved h (err e) = Failed h e

  at_most_one-Searched :
      (h : List Event) (region vpc_id : String) (items ps : List EniPool)
      → In (did list_pools (ok items)) h
      → filter (in_network region vpc_id) items ≡ ps
      → All (λ p. In p items) ps
      → Searched h (at_most_one (multiple_pools region vpc_id) ps)
  at_most_one-Searched h region vpc_id items [] i e members = tt
  at_most_one-Searched h region vpc_id items (p ∷ []) i e members = (items, i, members.0)
  at_most_one-Searched h region vpc_id items (p ∷ q ∷ ps) i e members =
      ambiguous region vpc_id items i (omega (arith, ap length e))

  pub find_pool-Searched :
      {h : List Event} (region vpc_id : String) → Yields Any Searched h (find_pool region vpc_id)
  unfolding find_pool
  find_pool-Searched {h = h} region vpc_id = asked tt (elim [
    | err a ↦ gives (refused a (did list_pools (err a)) (inl refl) refl)
    | ok items ↦ gives (
        rw (match_pool-filter region vpc_id items) (
          at_most_one-Searched (did list_pools (ok items) ∷ h) region vpc_id items _ (inl refl) refl
            (filter-All (λ p. In p items) (in_network region vpc_id) items (All-self items))))
  ])

  abbrev OwnersResolved : List OwnerReference → List Event → Result Error String → Type 0
  OwnersResolved owners h (ok key) = OwnersKey owners h key
  OwnersResolved owners h (err e) = Failed h e

  one_more :
      (owner : OwnerReference) (owners : List OwnerReference) (h : List Event)
      (r : Result Error String)
      → is_machine_owner platform owner ≡ false
      → OwnersResolved owners h r
      → OwnersResolved (owner ∷ owners) h r
  one_more owner owners h (ok key) f (inl (o, m, i, t, j, k)) = inl (o, m, inr i, t, j, k)
  one_more owner owners h (ok key) f (inr (fs, k)) = inr ((f, fs), k)
  one_more owner owners h (err e) f q = q

  owner_interface_key-OwnersResolved :
      (owners : List OwnerReference) {h : List Event}
      → Yields Any (OwnersResolved owners) h (owner_interface_key platform obj.namespace owners)
  unfolding owner_interface_key
  owner_interface_key-OwnersResolved [] = gives (inr (tt, refl))
  owner_interface_key-OwnersResolved (owner ∷ owners) {h = h} =
      Yields-if Any (OwnersResolved (owner ∷ owners)) (is_machine_owner platform owner) _ _
        (λ t. asked tt (elim [
          | ok m ↦ gives (inl (owner, m, inl refl, t, inl refl, refl))
          | err a ↦ gives (refused_while _ a _ (inl refl) refl)
        ]))
        (λ f.
          Yields-imp Any (OwnersResolved owners) (OwnersResolved (owner ∷ owners))
            (λ h' r q. one_more owner owners h' r f q)
            (owner_interface_key-OwnersResolved owners {h = h}))

  from_owners :
      (h : List Event) (r : Result Error String)
      → get interface_key_annotation obj.annotations ≡ ""
      → OwnersResolved obj.owner_references h r
      → Resolved h r
  from_owners h (ok key) e q = inr (e, q)
  from_owners h (err x) e q = q

  pub resolve_interface_key-Resolved :
      {h : List Event} → Yields Any Resolved h (resolve_interface_key platform obj)
  unfolding resolve_interface_key
  resolve_interface_key-Resolved {h = h} =
      let key : String = get interface_key_annotation obj.annotations in
      Yields-if Any Resolved (not (key == "")) (pure key) _
        (λ t. gives (inl (ground (arith, eq_iff key ""), refl)))
        (λ t.
          Yields-imp Any (OwnersResolved obj.owner_references) Resolved
            (λ h' r q. from_owners h' r (ground (arith, eq_iff key "")) q)
            (owner_interface_key-OwnersResolved obj.owner_references {h = h}))

  module _ (pool : EniPool) where
    after_create-Ends :
        {h : List Event} (c : EniClaim) (next : Go (Option EniClaim))
        (answer : Result ApiError EniClaim)
        → Yields Any Ends (did (create_claim c) answer ∷ h) next
        → Yields Any Ends (did (create_claim c) answer ∷ h) (after_create next answer)
    unfolding after_create
    after_create-Ends c next (ok d) y = gives tt
    after_create-Ends c next (err already_exists) y = y
    after_create-Ends c next (err not_found) y =
        gives (refused not_found (did (create_claim c) (err not_found)) (inl refl) (refl, λ e. cc))
    after_create-Ends c next (err conflict) y =
        gives (refused conflict (did (create_claim c) (err conflict)) (inl refl) (refl, λ e. cc))
    after_create-Ends c next (err (other s)) y =
        gives (refused (other s) (did (create_claim c) (err (other s))) (inl refl) (refl, λ e. cc))

    create_first-Ends :
        (refs : List EniReference) {h : List Event} → Yields Any Ends h (create_first obj pool refs)
    unfolding create_first
    create_first-Ends [] = gives tt
    create_first-Ends (r ∷ refs) {h = h} = asked tt λ answer.
        after_create-Ends (new_claim obj pool r) (create_first obj pool refs) answer
          (create_first-Ends refs {h = did (create_claim (new_claim obj pool r)) answer ∷ h})

    pub reserve-Ends :
        {h : List Event} (key : String)
        → IsListed h pool
        → KeyOf h key
        → Yields Any Ends h (reserve obj pool key)
    unfolding reserve
    reserve-Ends key listed kept =
        Yields-if Any Ends (not (key == "") && is_empty (configured pool key)) _ _
          (λ t.
            gives (unknown_key pool key listed kept (named t) (none_left (configured pool key) t)))
          (λ t. create_first-Ends (sort_slice private_ip_lt (configured pool key)))
      where
        named : (not (key == "") && is_empty (configured pool key)) ≡ true → key ≢ ""
        named t = ground (arith, eq_iff key "")

        none_left : (xs : List EniReference) → (not (key == "") && is_empty xs) ≡ true → xs ≡ []
        none_left [] t = refl
        none_left (x ∷ xs) t = ground arith
