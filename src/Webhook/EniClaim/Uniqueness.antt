-- ===== src/Webhook/EniClaim/Uniqueness.antt =====
-- The claims that come into being by admission: one for each interface.
use capa_eni_controller.Prelude.{
  String, ◌≡◌, ◌≢◌, sym, ◌∙◌, ap, ◌⊎◌, inl, inr, ◌↔◌, true, not, List, [], ◌∷◌, ◌==◌, if◌then◌else◌,
  arith, eq_iff, Bool-cases, map, subst,
}
use capa_eni_controller.Prelude.Lists.{All, Pairs, filter, filter-All, filter-Pairs}
use capa_eni_controller.Api.Claim.{EniClaim, EniClaimSpec}
use capa_eni_controller.Kube.Prog.{ok}
use capa_eni_controller.Allocation.{new_claim}
use capa_eni_controller.Webhook.EniClaim.{validate_create, deep_equal, validate_update}

-- The creation of a claim is admitted just when it is named by its interface.
pub validate_create-named : (c : EniClaim) → (validate_create c ≡ ok tt) ↔ (c.name ≡ c.spec.eni_id)
unfolding validate_create
validate_create-named c = (
  (λ h. ground (arith, eq_iff c.name c.spec.eni_id)),
  (λ h. ground (arith, eq_iff c.name c.spec.eni_id)),
)

deep_equal-eq : (s t : EniClaimSpec) → (deep_equal s t ≡ true) ↔ (s ≡ t)
unfolding deep_equal
deep_equal-eq s t = (
  (λ h. ground (
    arith,
    eq_iff s.machine_ref.namespace t.machine_ref.namespace,
    eq_iff s.machine_ref.name t.machine_ref.name,
    eq_iff s.pool_ref.name t.pool_ref.name,
    eq_iff s.eni_id t.eni_id,
  )),
  (λ h. ground (
    arith,
    eq_iff s.machine_ref.namespace t.machine_ref.namespace,
    eq_iff s.machine_ref.name t.machine_ref.name,
    eq_iff s.pool_ref.name t.pool_ref.name,
    eq_iff s.eni_id t.eni_id,
  )),
)

-- The update of a claim is admitted just when it keeps the specification.
pub validate_update-spec :
    (old_claim new_claim : EniClaim)
    → (validate_update old_claim new_claim ≡ ok tt) ↔ (old_claim.spec ≡ new_claim.spec)
unfolding validate_update
validate_update-spec old_claim new_claim =
    let equal = deep_equal-eq old_claim.spec new_claim.spec in
    ((λ h. equal.0 (ground arith)), (λ h. ground (arith, equal.1 h)))

-- The stored claims after an update: the one of that name is replaced.
abbrev pub updated : EniClaim → List EniClaim → List EniClaim
updated c items = map (λ d. if d.name == c.name then c else d) items

-- The claims of a server that keeps them by name, where the webhook admits each creation and each
-- update.
pub data Stored : List EniClaim → Type 0 where
  empty : Stored []
  create :
      {items : List EniClaim} (c : EniClaim)
      → Stored items
      → All (λ (d : EniClaim). d.name ≢ c.name) items
      → validate_create c ≡ ok tt
      → Stored (c ∷ items)
  update :
      {items : List EniClaim} (c : EniClaim)
      → Stored items
      → All (λ (d : EniClaim). (d.name ≢ c.name) ⊎ (validate_update d c ≡ ok tt)) items
      → Stored (updated c items)
  delete :
      {items : List EniClaim} (name : String)
      → Stored items
      → Stored (filter (λ d. not (d.name == name)) items)

abbrev Named : EniClaim → Type 0
Named c = c.name ≡ c.spec.eni_id

abbrev OtherName : EniClaim → EniClaim → Type 0
OtherName c d = d.name ≢ c.name

updated-Named :
    (c : EniClaim) (items : List EniClaim)
    → All (λ (d : EniClaim). (d.name ≢ c.name) ⊎ (validate_update d c ≡ ok tt)) items
    → All Named items
    → All Named (updated c items)
updated-Named c [] h n = tt
updated-Named c (d ∷ items) h n = elim (Bool-cases (d.name == c.name)) [
  | inr e ↦ rw e (n.0, updated-Named c items h.1 n.1)
  | inl e ↦ rw e (kept e h.0, updated-Named c items h.1 n.1)
]
  where
    kept : (d.name == c.name) ≡ true → (d.name ≢ c.name) ⊎ (validate_update d c ≡ ok tt) → Named c
    kept e (inl x) = absurd (x ((eq_iff d.name c.name).0 e))
    kept e (inr u) =
        sym ((eq_iff d.name c.name).0 e)
        ∙ n.0
        ∙ ap (λ (s : EniClaimSpec). s.eni_id) ((validate_update-spec d c).0 u)

-- Updates keep the names.
updated-All-name :
    (P : String → Type 0) (c : EniClaim) (items : List EniClaim)
    → All (λ (d : EniClaim). P d.name) items
    → All (λ (d : EniClaim). P d.name) (updated c items)
updated-All-name P c [] h = tt
updated-All-name P c (d ∷ items) h = elim (Bool-cases (d.name == c.name)) [
  | inr e ↦ rw e (h.0, updated-All-name P c items h.1)
  | inl e ↦ rw e (subst P ((eq_iff d.name c.name).0 e) h.0, updated-All-name P c items h.1)
]

updated-OtherName :
    (c : EniClaim) (items : List EniClaim)
    → Pairs OtherName items
    → Pairs OtherName (updated c items)
updated-OtherName c [] h = tt
updated-OtherName c (d ∷ items) h = elim (Bool-cases (d.name == c.name)) [
  | inr e ↦ rw e (updated-All-name (λ n. n ≢ d.name) c items h.0, updated-OtherName c items h.1)
  | inl e ↦ rw e (
    updated-All-name (λ n. n ≢ c.name) c items
        (subst (λ m. All (λ (x : EniClaim). x.name ≢ m) items) ((eq_iff d.name c.name).0 e) h.0),
    updated-OtherName c items h.1,
  )
]

Stored-Named : {items : List EniClaim} → Stored items → All Named items
Stored-Named empty = tt
Stored-Named (create c before free passed) =
    ((validate_create-named c).0 passed, Stored-Named before)
Stored-Named (update {items = old} c before passed) =
    updated-Named c old passed (Stored-Named before)
Stored-Named (delete {items = old} name before) = filter-All Named _ old (Stored-Named before)

Stored-OtherName : {items : List EniClaim} → Stored items → Pairs OtherName items
Stored-OtherName empty = tt
Stored-OtherName (create c before free passed) = (free, Stored-OtherName before)
Stored-OtherName (update {items = old} c before passed) =
    updated-OtherName c old (Stored-OtherName before)
Stored-OtherName (delete {items = old} name before) =
    filter-Pairs OtherName _ old (Stored-OtherName before)

others_interface :
    (c : EniClaim) (items : List EniClaim)
    → Named c
    → All Named items
    → All (OtherName c) items
    → All (λ (d : EniClaim). d.spec.eni_id ≢ c.spec.eni_id) items
others_interface c [] nc n h = tt
others_interface c (d ∷ items) nc n h =
    ((λ e. h.0 (n.0 ∙ e ∙ sym nc)), others_interface c items nc n.1 h.1)

-- No two stored claims are for one interface, after any history of creations, updates and deletions
-- that the claim webhook admits, on a server that keeps claims by name.
pub Stored-unique :
    {items : List EniClaim}
    → Stored items
    → Pairs (λ (c d : EniClaim). d.spec.eni_id ≢ c.spec.eni_id) items
Stored-unique h = go _ (Stored-Named h) (Stored-OtherName h)
  where
    go :
        (xs : List EniClaim)
        → All Named xs
        → Pairs OtherName xs
        → Pairs (λ (c d : EniClaim). d.spec.eni_id ≢ c.spec.eni_id) xs
    go [] n o = tt
    go (c ∷ xs) n o = (others_interface c xs n.0 n.1 o.0, go xs n.1 o.1)
