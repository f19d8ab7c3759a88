-- ===== src/Setup/Scheme.antt =====
-- The registration of the API group: api/v1alpha1/groupversion_info.go, the init functions of
-- api/v1alpha1/eniclaim_types.go and enipool_types.go, and init of cmd/main.go.
use capa_eni_controller.Prelude.{String, Bool, Option, none, some, List, [], ◌∷◌, ◌++◌}

-- schema.GroupVersion
pub record GroupVersion : Type 0 where
  pub group : String
  pub version : String

-- runtime.Scheme and the functions on it: what a scheme knows, and the registrations of others,
-- which may fail.
pub record Schemes : Type 1 where
  pub Scheme : Type 0
  pub new_scheme : Scheme
  pub knows : Scheme → GroupVersion → String → Bool
  pub add_known_types : Scheme → GroupVersion → List String → Scheme
  pub add_to_group_version : Scheme → GroupVersion → Scheme
  pub client_go_scheme : Scheme → Option Scheme
  pub cluster_v1 : Scheme → Option Scheme
  pub infrastructure_v1beta2 : Scheme → Option Scheme

abbrev pub scheme_group_version : GroupVersion
scheme_group_version = record { group = "networking.dcn.ssu.ac.kr"; version = "v1alpha1" }

module _ (schemes : Schemes) where
  open schemes use {
    Scheme, add_known_types, add_to_group_version, client_go_scheme, cluster_v1,
    infrastructure_v1beta2,
  }

  -- The functions of a runtime.SchemeBuilder.
  abbrev pub SchemeBuilder : Type 0
  SchemeBuilder = List (Scheme → Option Scheme)

  -- SchemeBuilder.AddToScheme: all functions in order, up to the first failure.
  abbrev pub apply_builder : SchemeBuilder → Scheme → Option Scheme
  apply_builder [] s = some s
  apply_builder (f ∷ fs) s = elim (f s) [ none ↦ none | some s' ↦ apply_builder fs s' ]

  -- The variable SchemeBuilder as it is declared.
  unfoldable pub initial_builder : SchemeBuilder
  initial_builder = (λ s. some (add_to_group_version s scheme_group_version)) ∷ []

  -- init of eniclaim_types.go, and then that of enipool_types.go.
  unfoldable pub register_eni_claim : SchemeBuilder → SchemeBuilder
  register_eni_claim builder =
      builder
      ++ ((λ s. some (add_known_types s scheme_group_version ("ENIClaim" ∷ "ENIClaimList" ∷ [])))
          ∷ [])

  unfoldable pub register_eni_pool : SchemeBuilder → SchemeBuilder
  register_eni_pool builder =
      builder
      ++ ((λ s. some (add_known_types s scheme_group_version ("ENIPool" ∷ "ENIPoolList" ∷ [])))
          ∷ [])

  -- networkingv1alpha1.AddToScheme, which reads the variable when it is called.
  unfoldable pub add_to_scheme : Scheme → Option Scheme
  unfolding initial_builder register_eni_claim register_eni_pool
  add_to_scheme = apply_builder (register_eni_pool (register_eni_claim initial_builder))

  -- utilruntime.Must around each: a failure panics, here the result none.
  unfoldable pub init : Scheme → Option Scheme
  unfolding add_to_scheme
  init = apply_builder (client_go_scheme ∷ add_to_scheme ∷ cluster_v1 ∷ infrastructure_v1beta2 ∷ [])
