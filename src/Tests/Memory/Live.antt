-- ===== src/Tests/Memory/Live.antt =====
-- The list of the claims has just those that are found under their names.
use capa_eni_controller.Prelude.{
  Bool, String, ◌≡◌, refl, sym, ◌∙◌, ap, inl, inr, true, false, not, some, List, [], ◌∷◌, ◌==◌,
  eq_refl, eq_iff, Bool-cases, subst, ne_of_eq_false, eq_false_of_ne,
}
use capa_eni_controller.Prelude.Lists.{filter, In}
use capa_eni_controller.Api.Claim.{EniClaim}
use capa_eni_controller.Tests.Memory.{claim_named, live}

module _ (p : EniClaim → Bool) where
  filter-In : (xs : List EniClaim) (c : EniClaim) → In c (filter p xs) → In c xs × (p c ≡ true)
  filter-In [] c i = absurd i
  filter-In (x ∷ xs) c i = elim (Bool-cases (p x)) [
    | inl e ↦ kept (filter-In xs c) (rw e at i) e
    | inr e ↦ let (j, h) = filter-In xs c (rw e at i) in (inr j, h)
  ]
    where
      kept :
          (In c (filter p xs) → In c xs × (p c ≡ true))
          → In c (x ∷ filter p xs)
          → p x ≡ true
          → In c (x ∷ xs) × (p c ≡ true)
      kept later (inl same) h = (inl same, ap p (sym same) ∙ h)
      kept later (inr j) h = let (k, hk) = later j in (inr k, hk)

  In-filter : (xs : List EniClaim) (c : EniClaim) → In c xs → p c ≡ true → In c (filter p xs)
  In-filter [] c i h = absurd i
  In-filter (x ∷ xs) c (inl same) h = rw (ap p same ∙ h) (inl same)
  In-filter (x ∷ xs) c (inr i) h = elim (Bool-cases (p x)) [
    | inl e ↦ rw e (inr (In-filter xs c i h))
    | inr e ↦ rw e (In-filter xs c i h)
  ]

pub live-named :
    (cs : List EniClaim) (c : EniClaim) → In c (live cs) → claim_named c.name cs ≡ some c
live-named [] c i = absurd i
live-named (d ∷ cs) c (inl same) =
    subst (λ x. claim_named x.name (d ∷ cs) ≡ some x) same (rw (eq_refl d.name) refl)
live-named (d ∷ cs) c (inr i) =
    let (j, other) = filter-In (λ x. not (x.name == d.name)) (live cs) c i in
    rw (differs other) (live-named cs c j)
  where
    differs : not (c.name == d.name) ≡ true → (d.name == c.name) ≡ false
    differs h = eq_false_of_ne d.name c.name (λ e. apart (rw (e, eq_refl c.name) at h))
      where
        apart : false ≡ true → ⊥
        apart e = cc

pub claim_named-name :
    (n : String) (cs : List EniClaim) (c : EniClaim) → claim_named n cs ≡ some c → c.name ≡ n
claim_named-name n [] c h = absurd (cc h)
claim_named-name n (d ∷ cs) c h = elim (Bool-cases (d.name == n)) [
  | inl e ↦ first ((eq_iff d.name n).0 e) (rw e at h)
  | inr e ↦ claim_named-name n cs c (rw e at h)
]
  where
    first : d.name ≡ n → some d ≡ some c → c.name ≡ n
    first e same = cc

pub named-live :
    (n : String) (cs : List EniClaim) (c : EniClaim) → claim_named n cs ≡ some c → In c (live cs)
named-live n [] c h = absurd (cc h)
named-live n (d ∷ cs) c h = elim (Bool-cases (d.name == n)) [
  | inl e ↦ inl (first (rw e at h))
  | inr e ↦
      let found : claim_named n cs ≡ some c = rw e at h in
      inr (
        In-filter (λ x. not (x.name == d.name)) (live cs) c (named-live n cs c found)
          (differs e (claim_named-name n cs c found)))
]
  where
    first : some d ≡ some c → d ≡ c
    first same = cc

    differs : (d.name == n) ≡ false → c.name ≡ n → not (c.name == d.name) ≡ true
    differs e same =
        rw same (rw (eq_false_of_ne n d.name (λ k. ne_of_eq_false d.name n e (sym k))) refl)
