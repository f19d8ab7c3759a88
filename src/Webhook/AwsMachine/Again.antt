-- ===== src/Webhook/AwsMachine/Again.antt =====
-- A machine that is admitted twice: a retried creation, or a second machine of the same name.
use capa_eni_controller.Prelude.{
  String, ◌≡◌, ◌≢◌, sym, ◌∙◌, ap, ◌⊎◌, inl, inr, Option, none, some, [], ◌∷◌, arith, subst,
}
use capa_eni_controller.Api.Meta.{AwsMachine}
use capa_eni_controller.Api.Claim.{EniClaim}
use capa_eni_controller.Kube.Prog.{Result, ok, err, Error, Server, run}
use capa_eni_controller.Kube.Platform.{Platform}
use capa_eni_controller.Kube.ClaimStore.{IsClaimStore}
use capa_eni_controller.Webhook.AwsMachine.{allocate, allocated}
use capa_eni_controller.Webhook.AwsMachine.Outcome.{Outcome, allocate-Outcome}

module _ (platform : Platform) (server : Server) (stored : server.World → String → Option EniClaim)
    (store : IsClaimStore server stored) (obj : AwsMachine) where
  open server use {World}

  -- The claim of interface `eni` is stored and names the machine.
  abbrev pub Holds : World → String → Type 0
  Holds w eni =
      (c : EniClaim) × (stored w eni ≡ some c)
      × (c.spec.machine_ref.namespace ≡ obj.namespace)
      × (c.spec.machine_ref.name ≡ obj.name)

  abbrev Got : World → String → World → Type 0
  Got w eni w' =
      (stored w eni ≡ none) × Holds w' eni × ((n : String) → (n ≡ eni) ⊎ (stored w' n ≡ stored w n))

  got :
      (w w' : World) (result : Result Error AwsMachine) (obj' : AwsMachine) (eni : String)
      → Outcome platform server stored store obj w result w'
      → result ≡ ok obj'
      → obj.network_interfaces ≡ []
      → obj'.network_interfaces ≡ eni ∷ []
      → Got w eni w'
  unfolding allocated
  got w w' (err e) obj' eni o h empty set = cc
  got w w' (ok x) obj' eni (inl u) h empty set = absurd (cc (ap (λ m. m.network_interfaces) u.same))
  got w w' (ok x) obj' eni (inr g) h empty set =
      subst (λ e. Got w e w') same
        (g.was_free, (g.claim, g.is_stored, g.namespace, g.machine), g.others)
    where
      written : g.claim.spec.eni_id ∷ [] ≡ x.network_interfaces
      written = ap (λ m. m.network_interfaces) (sym g.written)

      same : g.claim.spec.eni_id ≡ eni
      same = ground (arith, written)

  -- Two admissions of the same machine in a row, with no change of the claims between them, reserve
  -- two different interfaces when both reserve one: the webhook does not look for a claim that the
  -- machine has already. Both claims name the machine afterwards.
  pub allocate-twice :
      (w w₁ w₂ w₃ : World) (first second : AwsMachine) (eni₁ eni₂ : String)
      → obj.network_interfaces ≡ []
      → run server (allocate platform obj) w ≡ (ok first, w₁)
      → first.network_interfaces ≡ eni₁ ∷ []
      → ((n : String) → stored w₂ n ≡ stored w₁ n)
      → run server (allocate platform obj) w₂ ≡ (ok second, w₃)
      → second.network_interfaces ≡ eni₂ ∷ []
      → (eni₁ ≢ eni₂) × Holds w₃ eni₁ × Holds w₃ eni₂
  allocate-twice w w₁ w₂ w₃ first second eni₁ eni₂ empty run₁ set₁ between run₂ set₂ =
      (differ, kept (g₂.2 eni₁), g₂.1)
    where
      g₁ : Got w eni₁ w₁
      g₁ =
          subst (λ v. Got w eni₁ v) (ap (λ r. r.1) run₁)
            (got w _ _ first eni₁ (allocate-Outcome platform server stored store obj w)
              (ap (λ r. r.0) run₁) empty set₁)

      g₂ : Got w₂ eni₂ w₃
      g₂ =
          subst (λ v. Got w₂ eni₂ v) (ap (λ r. r.1) run₂)
            (got w₂ _ _ second eni₂ (allocate-Outcome platform server stored store obj w₂)
              (ap (λ r. r.0) run₂) empty set₂)

      differ : eni₁ ≢ eni₂
      differ e = cc (g₁.1.1, between eni₁, g₂.0, ap (stored w₂) e)

      kept : (eni₁ ≡ eni₂) ⊎ (stored w₃ eni₁ ≡ stored w₂ eni₁) → Holds w₃ eni₁
      kept (inl e) = absurd (differ e)
      kept (inr e) = (g₁.1.0, e ∙ between eni₁ ∙ g₁.1.1, g₁.1.2, g₁.1.3)
