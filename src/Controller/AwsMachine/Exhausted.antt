-- ===== src/Controller/AwsMachine/Exhausted.antt =====
-- Why a machine is given no claim.
use capa_eni_controller.Prelude.{
  String, ◌≡◌, refl, inl, inr, false, not, ◌&&◌, Option, none, some, List, [], ◌∷◌, ◌==◌,
  Option-cases,
}
use capa_eni_controller.Prelude.Lists.{In, All, is_empty}
use capa_eni_controller.Api.Meta.{AwsMachine}
use capa_eni_controller.Api.Claim.{EniClaim}
use capa_eni_controller.Api.Pool.{EniReference, EniPool}
use capa_eni_controller.Kube.Prog.{
  Result, ApiError, Error, ok, err, already_exists, not_found, conflict, other, list_claims,
  create_claim,
}
use capa_eni_controller.Kube.Go.{Go}
use capa_eni_controller.Kube.Platform.{Platform}
use capa_eni_controller.Kube.History.{
  Event, did, Extends, Yields, gives, asked, Yields-if, Yields-imp, Yields-more, Yields-and,
}
use capa_eni_controller.Sort.{sort_slice}
use capa_eni_controller.Allocation.{
  new_claim, after_create, create_first, configured, reserve, private_ip_lt,
}
use capa_eni_controller.Allocation.Refusals.{
  IsListed, IsListed-more, KeyOf, KeyOf-more, Failed, refused, Any, Ends, reserve-Ends,
}
use capa_eni_controller.Controller.AwsMachine.{claim_of, claim_interface}

-- The names of the claims for those interfaces were taken.
abbrev pub Taken : AwsMachine → EniPool → List Event → List EniReference → Type 0
Taken m pool h refs =
    All (λ r. In (did (create_claim (new_claim m pool r)) (err already_exists)) h) refs

-- An interface of the pool has the key, or there is no key.
abbrev pub HasKey : EniPool → String → Type 0
HasKey pool key = (not (key == "") && is_empty (configured pool key)) ≡ false

-- Nothing was reserved since the names of all claims that could be made with the key of the machine
-- were taken.
abbrev pub Exhausted : Platform → AwsMachine → EniPool → List Event → Type 0
Exhausted platform m pool h =
    (key : String) × KeyOf platform m h key
    × HasKey pool key
    × Taken m pool h (sort_slice private_ip_lt (configured pool key))

module _ (m : AwsMachine) (pool : EniPool) where
  abbrev TakenIfNone : List EniReference → List Event → Result Error (Option EniClaim) → Type 0
  TakenIfNone refs h (ok none) = Taken m pool h refs
  TakenIfNone refs h _ = Unit

  one_more :
      (r : EniReference) (refs : List EniReference) (h h' : List Event)
      (result : Result Error (Option EniClaim))
      → In (did (create_claim (new_claim m pool r)) (err already_exists)) h
      → Extends h h' × TakenIfNone refs h' result
      → TakenIfNone (r ∷ refs) h' result
  one_more r refs h h' (ok none) i (more, taken) =
      (more (did (create_claim (new_claim m pool r)) (err already_exists)) i, taken)
  one_more r refs h h' (ok (some c)) i x = tt
  one_more r refs h h' (err e) i x = tt

  after_create-Taken :
      (r : EniReference) (refs : List EniReference) (h : List Event) (next : Go (Option EniClaim))
      (answer : Result ApiError EniClaim)
      → Yields Any (TakenIfNone refs) (did (create_claim (new_claim m pool r)) answer ∷ h) next
      → Yields Any
          (TakenIfNone (r ∷ refs))
          (did (create_claim (new_claim m pool r)) answer ∷ h)
          (after_create next answer)
  unfolding after_create
  after_create-Taken r refs h next (ok c) y = gives tt
  after_create-Taken r refs h next (err already_exists) y =
      let h₁ = did (create_claim (new_claim m pool r)) (err already_exists) ∷ h in
      Yields-imp Any _ (TakenIfNone (r ∷ refs))
        (λ h' result. one_more r refs h₁ h' result (inl refl))
        (Yields-more Any (TakenIfNone refs) h₁ next y)
  after_create-Taken r refs h next (err not_found) y = gives tt
  after_create-Taken r refs h next (err conflict) y = gives tt
  after_create-Taken r refs h next (err (other s)) y = gives tt

  create_first-Taken :
      (refs : List EniReference) (h : List Event)
      → Yields Any (TakenIfNone refs) h (create_first m pool refs)
  unfolding create_first
  create_first-Taken [] h = gives tt
  create_first-Taken (r ∷ refs) h = asked tt λ answer.
      after_create-Taken r refs h (create_first m pool refs) answer
        (create_first-Taken refs (did (create_claim (new_claim m pool r)) answer ∷ h))

  module _ (platform : Platform) where
    -- A claim, nothing in a pool that is exhausted, or a reason.
    abbrev pub Claimed : List Event → Result Error (Option EniClaim) → Type 0
    Claimed h (ok none) = Exhausted platform m pool h
    Claimed h (ok (some c)) = Unit
    Claimed h (err e) = Failed platform m h e

    abbrev ExhaustedIfNone : List Event → Result Error (Option EniClaim) → Type 0
    ExhaustedIfNone h (ok none) = Exhausted platform m pool h
    ExhaustedIfNone h _ = Unit

    exhausted :
        (key : String) (h : List Event) (result : Result Error (Option EniClaim))
        → KeyOf platform m h key
        → HasKey pool key
        → TakenIfNone (sort_slice private_ip_lt (configured pool key)) h result
        → ExhaustedIfNone h result
    exhausted key h (ok none) kept has taken = (key, kept, has, taken)
    exhausted key h (ok (some c)) kept has taken = tt
    exhausted key h (err e) kept has taken = tt

    reserve-ExhaustedIfNone :
        (key : String) (h : List Event)
        → KeyOf platform m h key
        → Yields Any ExhaustedIfNone h (reserve m pool key)
    unfolding reserve
    reserve-ExhaustedIfNone key h kept =
        let refs = sort_slice private_ip_lt (configured pool key) in
        Yields-if Any _ (not (key == "") && is_empty (configured pool key)) _ _ (λ e. gives tt)
          (λ e.
            Yields-imp Any _ ExhaustedIfNone
              (λ h' result x.
                exhausted key h' result (KeyOf-more platform m h h' key x.0 kept) e x.1)
              (Yields-more Any (TakenIfNone refs) h (create_first m pool refs)
                (create_first-Taken refs h)))

    claimed :
        (h : List Event) (result : Result Error (Option EniClaim))
        → ExhaustedIfNone h result × Ends platform m h result
        → Claimed h result
    claimed h (ok none) x = x.0
    claimed h (ok (some c)) x = tt
    claimed h (err e) x = x.1

    reserve-Claimed :
        (key : String) (h : List Event)
        → IsListed h pool
        → KeyOf platform m h key
        → Yields Any Claimed h (reserve m pool key)
    reserve-Claimed key h listed kept = Yields-imp Any _ Claimed claimed (
        Yields-and Any ExhaustedIfNone (Ends platform m) h (reserve m pool key)
          (reserve-ExhaustedIfNone key h kept) (reserve-Ends platform m pool key listed kept))

    pub claim_interface-Claimed :
        (key : String) (h : List Event)
        → IsListed h pool
        → KeyOf platform m h key
        → Yields Any Claimed h (claim_interface m pool key)
    unfolding claim_interface
    claim_interface-Claimed key h listed kept = asked tt (elim [
      | err a ↦ gives (refused a (did list_claims (err a)) (inl refl) refl)
      | ok cs ↦ elim (Option-cases (claim_of m cs)) [
        | inl e ↦
            let h' : List Event = did list_claims (ok cs) ∷ h in
            let more : Extends h (did list_claims (ok cs) ∷ h) = λ e i. inr i in
            rw e (
              reserve-Claimed key h' (IsListed-more h h' pool more listed)
                (KeyOf-more platform m h h' key more kept))
        | inr (c, e) ↦ rw e (gives tt)
      ]
    ])
