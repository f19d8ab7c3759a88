-- ===== src/Setup/Known.antt =====
-- The types that the process can decode once init has run.
use capa_eni_controller.Prelude.{
  String, ◌≡◌, refl, true, Option, none, some, List, [], ◌∷◌, inl, inr,
}
use capa_eni_controller.Prelude.Lists.{In}
use capa_eni_controller.Setup.Scheme.{
  Schemes, GroupVersion, scheme_group_version, init, add_to_scheme, initial_builder,
  register_eni_claim, register_eni_pool, apply_builder,
}

abbrev pub machine_group_version : GroupVersion
machine_group_version = record { group = "infrastructure.cluster.x-k8s.io"; version = "v1beta2" }

module _ (schemes : Schemes) where
  open schemes use {
    Scheme, knows, add_known_types, add_to_group_version, cluster_v1, infrastructure_v1beta2,
  }

  -- What apimachinery documents, and Cluster API Provider AWS: a registration forgets nothing, the
  -- types that are added are known, and the provider adds AWSMachine.
  pub record IsRegistry : Type 0 where
    pub add_keeps :
        (s : Scheme) (v g : GroupVersion) (types : List String) (kind : String)
        → knows s g kind ≡ true
        → knows (add_known_types s v types) g kind ≡ true
    pub add_knows :
        (s : Scheme) (v : GroupVersion) (types : List String) (kind : String)
        → In kind types
        → knows (add_known_types s v types) v kind ≡ true
    pub cluster_keeps :
        (s s' : Scheme) (g : GroupVersion) (kind : String)
        → cluster_v1 s ≡ some s'
        → knows s g kind ≡ true
        → knows s' g kind ≡ true
    pub infrastructure_keeps :
        (s s' : Scheme) (g : GroupVersion) (kind : String)
        → infrastructure_v1beta2 s ≡ some s'
        → knows s g kind ≡ true
        → knows s' g kind ≡ true
    pub infrastructure_knows :
        (s s' : Scheme)
        → infrastructure_v1beta2 s ≡ some s'
        → knows s' machine_group_version "AWSMachine" ≡ true

  abbrev KnowsOwn : Scheme → Type 0
  KnowsOwn s =
      (knows s scheme_group_version "ENIClaim" ≡ true)
      × (knows s scheme_group_version "ENIClaimList" ≡ true)
      × (knows s scheme_group_version "ENIPool" ≡ true)
      × (knows s scheme_group_version "ENIPoolList" ≡ true)

  abbrev pub KnowsAll : Option Scheme → Type 0
  KnowsAll none = Unit
  KnowsAll (some s) = KnowsOwn s × (knows s machine_group_version "AWSMachine" ≡ true)

  abbrev OwnIn : Option Scheme → Type 0
  OwnIn none = ⊥
  OwnIn (some s) = KnowsOwn s

module _ (schemes : Schemes) (registry : IsRegistry schemes) where
  open schemes use {Scheme, knows, client_go_scheme, cluster_v1, infrastructure_v1beta2}

  -- Unlike those of others, the registration of the group itself cannot fail.
  add_to_scheme-Own : (s : Scheme) → OwnIn schemes (add_to_scheme schemes s)
  unfolding add_to_scheme initial_builder register_eni_claim register_eni_pool
  add_to_scheme-Own s = (
    registry.add_keeps _ _ _ _ "ENIClaim" (registry.add_knows _ _ _ "ENIClaim" (inl refl)),
    registry.add_keeps _ _ _ _ "ENIClaimList"
        (registry.add_knows _ _ _ "ENIClaimList" (inr (inl refl))),
    registry.add_knows _ _ _ "ENIPool" (inl refl),
    registry.add_knows _ _ _ "ENIPoolList" (inr (inl refl)),
  )

  -- A function of a builder in front: a failure ends the registration.
  step-Knows :
      (found : Option Scheme) (fs : List (Scheme → Option Scheme))
      → ((s : Scheme) → found ≡ some s → KnowsAll schemes (apply_builder schemes fs s))
      → KnowsAll schemes (elim found [ none ↦ none | some s ↦ apply_builder schemes fs s ])
  step-Knows none fs h = tt
  step-Knows (some s) fs h = h s refl

  KnowsOwn-keep :
      (s s' : Scheme)
      → ((kind : String)
          → knows s scheme_group_version kind ≡ true
          → knows s' scheme_group_version kind ≡ true)
      → KnowsOwn schemes s
      → KnowsOwn schemes s'
  KnowsOwn-keep s s' keep own = (
    keep "ENIClaim" own.0,
    keep "ENIClaimList" own.1,
    keep "ENIPool" own.2,
    keep "ENIPoolList" own.3,
  )

  last-Knows :
      (s : Scheme)
      → KnowsOwn schemes s
      → KnowsAll schemes (apply_builder schemes (infrastructure_v1beta2 ∷ []) s)
  last-Knows s own = step-Knows (infrastructure_v1beta2 s) [] λ s' e. (
    KnowsOwn-keep s s' (λ kind. registry.infrastructure_keeps s s' scheme_group_version kind e) own,
    registry.infrastructure_knows s s' e,
  )

  cluster-Knows :
      (s : Scheme)
      → KnowsOwn schemes s
      → KnowsAll schemes (apply_builder schemes (cluster_v1 ∷ infrastructure_v1beta2 ∷ []) s)
  cluster-Knows s own = step-Knows (cluster_v1 s) (infrastructure_v1beta2 ∷ []) λ s' e.
      last-Knows s'
        (KnowsOwn-keep s s' (λ kind. registry.cluster_keeps s s' scheme_group_version kind e) own)

  own-Knows :
      (s : Scheme)
      → KnowsAll schemes (
          apply_builder schemes
            (add_to_scheme schemes ∷ cluster_v1 ∷ infrastructure_v1beta2 ∷ [])
            s)
  unfolding add_to_scheme initial_builder register_eni_claim register_eni_pool
  own-Knows s = cluster-Knows _ (add_to_scheme-Own s)

  -- Unless init panics, the process knows the four types of its group and AWSMachine afterwards, for
  -- registrations that forget nothing.
  pub init-Known : (s : Scheme) → KnowsAll schemes (init schemes s)
  unfolding init
  init-Known s =
      step-Knows (client_go_scheme s)
        (add_to_scheme schemes ∷ cluster_v1 ∷ infrastructure_v1beta2 ∷ []) λ s' e. own-Knows s'
