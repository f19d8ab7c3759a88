-- ===== src/System/Owners.antt =====
-- What the allocation promises, without claims, requests or pools: every interface has an owner or
-- none, and a machine acquires at most one interface at a time, its own or a free one.
use capa_eni_controller.Prelude.{String, ◌≡◌, sym, ◌∙◌, inl, inr, ◌⊎◌, ap, Option, none, some}
use capa_eni_controller.Api.Claim.{NamespacedObjectReference}

abbrev pub Owners : Type 0
Owners = String → Option NamespacedObjectReference

-- `who` acquires the interface that is given, if one is.
pub data Acquires (who : NamespacedObjectReference) (s : Owners)
    : Option String → Owners → Type 0 where
  nothing : {s' : Owners} → ((n : String) → s' n ≡ s n) → Acquires who s none s'
  has :
      {s' : Owners} (id : String)
      → s id ≡ some who
      → ((n : String) → s' n ≡ s n)
      → Acquires who s (some id) s'
  takes :
      {s' : Owners} (id : String)
      → s id ≡ none
      → s' id ≡ some who
      → ((n : String) → (n ≡ id) ⊎ (s' n ≡ s n))
      → Acquires who s (some id) s'

some_ne_none : (o : NamespacedObjectReference) → some o ≡ none → ⊥
some_ne_none o e = cc

module _ (who : NamespacedObjectReference) (s : Owners) where
  -- What is acquired is the acquirer's afterwards.
  pub Acquires-owns : (s' : Owners) (id : String) → Acquires who s (some id) s' → s' id ≡ some who
  Acquires-owns s' id (has _ own keeps) = keeps id ∙ own
  Acquires-owns s' id (takes _ free owned others) = owned

  -- No owner loses an interface by it.
  pub Acquires-stays :
      (found : Option String) (s' : Owners) (n : String) (o : NamespacedObjectReference)
      → Acquires who s found s'
      → s n ≡ some o
      → s' n ≡ some o
  Acquires-stays none s' n o (nothing keeps) h = keeps n ∙ h
  Acquires-stays (some id) s' n o (has _ own keeps) h = keeps n ∙ h
  Acquires-stays (some id) s' n o (takes _ free owned others) h = elim (others n) [
    | inl e ↦ absurd (some_ne_none o (sym h ∙ ap s e ∙ free))
    | inr e ↦ e ∙ h
  ]
