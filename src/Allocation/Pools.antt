-- ===== src/Allocation/Pools.antt =====
-- Which pool findPool finds.
use capa_eni_controller.Prelude.{
  String, ◌≡◌, refl, sym, ◌∙◌, inl, inr, Bool, true, ◌&&◌, Option, none, some, List, [], ◌∷◌, ◌==◌,
  arith, eq_iff, Bool-cases,
}
use capa_eni_controller.Prelude.Lists.{All, Pairs, filter}
use capa_eni_controller.Api.Pool.{EniPool}
use capa_eni_controller.Kube.Prog.{Result, ok, err, Error, multiple_pools}
use capa_eni_controller.Allocation.{match_pool}

-- The pools of the region and the VPC.
abbrev pub in_network : String → String → EniPool → Bool
in_network region vpc_id p = p.spec.region == region && p.spec.vpc_id == vpc_id

-- The one member of a list, if any; an error where there are more.
abbrev pub at_most_one : Error → List EniPool → Result Error (Option EniPool)
at_most_one e [] = ok none
at_most_one e (p ∷ []) = ok (some p)
at_most_one e (p ∷ q ∷ ps) = err e

abbrev none_else : Error → EniPool → List EniPool → Result Error (Option EniPool)
none_else e q [] = ok (some q)
none_else e q (p ∷ ps) = err e

module _ (region vpc_id : String) where
  match_pool-some :
      (q : EniPool) (items : List EniPool)
      → match_pool region vpc_id items (some q)
        ≡ none_else (multiple_pools region vpc_id) q (filter (in_network region vpc_id) items)
  unfolding match_pool
  match_pool-some q [] = refl
  match_pool-some q (p ∷ items) = elim (Bool-cases (in_network region vpc_id p)) [
    | inl e ↦ rw e
    | inr e ↦ rw e (match_pool-some q items)
  ]

  none_else-at_most_one :
      (e : Error) (q : EniPool) (items : List EniPool)
      → none_else e q items ≡ at_most_one e (q ∷ items)
  none_else-at_most_one e q [] = refl
  none_else-at_most_one e q (p ∷ ps) = refl

  -- The loop of findPool gives the one pool of the region and VPC, nothing where there is none, and
  -- the error where there are two or more.
  pub match_pool-filter :
      (items : List EniPool)
      → match_pool region vpc_id items none
        ≡ at_most_one (multiple_pools region vpc_id) (filter (in_network region vpc_id) items)
  unfolding match_pool
  match_pool-filter [] = refl
  match_pool-filter (p ∷ items) = elim (Bool-cases (in_network region vpc_id p)) [
    | inl e ↦ rw e (match_pool-some p items ∙ none_else-at_most_one _ p _)
    | inr e ↦ rw e (match_pool-filter items)
  ]

abbrev pub first : List EniPool → Option EniPool
first [] = none
first (p ∷ ps) = some p

-- Two pools are for one region and VPC.
abbrev pub SameNetwork : EniPool → EniPool → Type 0
SameNetwork p q = (p.spec.region ≡ q.spec.region) × (p.spec.vpc_id ≡ q.spec.vpc_id)

module _ (region vpc_id : String) where
  in_network-eq :
      (p : EniPool)
      → in_network region vpc_id p ≡ true
      → (p.spec.region ≡ region) × (p.spec.vpc_id ≡ vpc_id)
  in_network-eq p e = ground (arith, eq_iff p.spec.region region, eq_iff p.spec.vpc_id vpc_id)

  filter-others :
      (p : EniPool) (items : List EniPool)
      → in_network region vpc_id p ≡ true
      → All (λ q. ¬ SameNetwork p q) items
      → filter (in_network region vpc_id) items ≡ []
  filter-others p [] e h = refl
  filter-others p (q ∷ items) e h = elim (Bool-cases (in_network region vpc_id q)) [
    | inl f ↦
        let (pr, pv) = in_network-eq p e in
        let (qr, qv) = in_network-eq q f in absurd (h.0 (pr ∙ sym qr, pv ∙ sym qv))
    | inr f ↦ rw f (filter-others p items e h.1)
  ]

  -- Where no two pools are for one region and VPC, the search never fails for ambiguity: it gives
  -- the pool of the network, if there is one.
  pub match_pool-disjoint :
      (items : List EniPool)
      → Pairs (λ p q. ¬ SameNetwork p q) items
      → match_pool region vpc_id items none ≡ ok (first (filter (in_network region vpc_id) items))
  match_pool-disjoint items h = match_pool-filter region vpc_id items ∙ unique items h
    where
      unique :
          (ps : List EniPool)
          → Pairs (λ p q. ¬ SameNetwork p q) ps
          → at_most_one (multiple_pools region vpc_id) (filter (in_network region vpc_id) ps)
            ≡ ok (first (filter (in_network region vpc_id) ps))
      unique [] hp = refl
      unique (p ∷ ps) hp = elim (Bool-cases (in_network region vpc_id p)) [
        | inl e ↦ rw (e, filter-others p ps e hp.0)
        | inr e ↦ rw e (unique ps hp.1)
      ]
