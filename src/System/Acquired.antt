-- ===== src/System/Acquired.antt =====
-- The owners of the interfaces, read off the stored claims, and what a new claim does to them.
use capa_eni_controller.Prelude.{
  String, ◌≡◌, refl, sym, ◌∙◌, ap, inl, inr, ◌⊎◌, Option, none, some, List,
}
use capa_eni_controller.Prelude.Lists.{In}
use capa_eni_controller.Api.Meta.{AwsMachine}
use capa_eni_controller.Api.Claim.{NamespacedObjectReference, EniClaimSpec, EniClaim}
use capa_eni_controller.Kube.Prog.{ok, list_claims, Server}
use capa_eni_controller.Controller.AwsMachine.Retry.{Names}
use capa_eni_controller.System.Owners.{Owners, Acquires, nothing, takes}

-- The specification under a name, and its machine.
abbrev pub spec_of : Option EniClaim → Option EniClaimSpec
spec_of none = none
spec_of (some c) = some c.spec

abbrev pub owner_of : Option EniClaimSpec → Option NamespacedObjectReference
owner_of none = none
owner_of (some s) = some s.machine_ref

abbrev pub who : AwsMachine → NamespacedObjectReference
who m = record { namespace = m.namespace; name = m.name }

abbrev pub eni_of : Option EniClaim → Option String
eni_of none = none
eni_of (some c) = some c.spec.eni_id

pub ref_eq :
    (r : NamespacedObjectReference) (m : AwsMachine)
    → r.namespace ≡ m.namespace
    → r.name ≡ m.name
    → r ≡ who m
ref_eq r m h k = rw (sym h, sym k) refl

module _ (server : Server) (stored : server.World → String → Option EniClaim) where
  open server use {World, serve}

  abbrev pub specs : World → String → Option EniClaimSpec
  specs w n = spec_of (stored w n)

  abbrev pub owners : World → Owners
  owners w n = owner_of (specs w n)

  -- Claims are named by their interfaces, as the claim webhook demands.
  abbrev pub IsNamed : World → Type 0
  IsNamed w = (n : String) (s : EniClaimSpec) → specs w n ≡ some s → s.eni_id ≡ n

  -- The claims that are listed are stored under their names.
  pub record IsSound : Type 0 where
    pub lists :
        (w w' : World) (claims : List EniClaim) (c : EniClaim)
        → serve list_claims w ≡ (ok claims, w')
        → In c claims
        → stored w c.name ≡ some c

  -- An acquisition by the machine, after which the claims are still named by their interfaces.
  pub record Acquired (m : AwsMachine) (w : World) (found : Option String) (w' : World)
      : Type 0 where
    pub acquires : Acquires (who m) (owners w) found (owners w')
    pub named : IsNamed w'

  pub unchanged :
      (m : AwsMachine) (w w' : World)
      → IsNamed w
      → ((n : String) → stored w' n ≡ stored w n)
      → Acquired m w none w'
  unchanged m w w' named keeps = record {
    acquires = nothing (λ n. ap (λ c. owner_of (spec_of c)) (keeps n));
    named = λ n s h. named n s (sym (ap spec_of (keeps n)) ∙ h);
  }

  -- A claim for a free interface, named by it, that names the machine.
  pub created :
      (m : AwsMachine) (w w' : World) (c : EniClaim) (id : String)
      → IsNamed w
      → c.spec.eni_id ≡ id
      → Names c m
      → stored w id ≡ none
      → stored w' id ≡ some c
      → ((n : String) → (n ≡ id) ⊎ (stored w' n ≡ stored w n))
      → Acquired m w (some id) w'
  created m w w' c id named same names free here others = record {
    acquires =
        takes id (ap (λ d. owner_of (spec_of d)) free)
          (ap (λ d. owner_of (spec_of d)) here
            ∙ ap some (ref_eq c.spec.machine_ref m names.0 names.1))
          (λ n. elim (others n) [ inl e ↦ inl e | inr e ↦ inr (ap (λ d. owner_of (spec_of d)) e) ]);
    named = λ n s h. elim (others n) [
      | inl e ↦ at_id n s e (sym (ap (λ k. spec_of (stored w' k)) e) ∙ h)
      | inr e ↦ named n s (sym (ap spec_of e) ∙ h)
    ];
  }
    where
      at_id :
          (n : String) (s : EniClaimSpec) → n ≡ id → spec_of (stored w' id) ≡ some s → s.eni_id ≡ n
      at_id n s e h = cc (rw here at h, same, e)
