-- ===== src/System/Exclusive.antt =====
-- Histories of the system: admissions and reconciles of any machines one after the other, releases,
-- and all else that leaves the specifications of the claims alone.
use capa_eni_controller.Prelude.{
  String, ◌≡◌, refl, sym, ◌∙◌, ap, inl, inr, ◌⊎◌, not, Option, none, some, List, [], ◌∷◌, ◌==◌,
  Bool-cases, ne_of_eq_false, subst,
}
use capa_eni_controller.Prelude.Lists.{In, All, All-In, All-imp, filter}
use capa_eni_controller.Api.Meta.{AwsMachine}
use capa_eni_controller.Api.Claim.{NamespacedObjectReference, EniClaimSpec, EniClaim}
use capa_eni_controller.Api.Pool.{EniPool}
use capa_eni_controller.Kube.Prog.{ok, Server, run}
use capa_eni_controller.Kube.Platform.{Platform}
use capa_eni_controller.Kube.ClaimStore.{IsClaimStore}
use capa_eni_controller.Webhook.AwsMachine.{allocate}
use capa_eni_controller.Controller.AwsMachine.{claim_interface}
use capa_eni_controller.System.Owners.{Acquires-owns, Acquires-stays}
use capa_eni_controller.System.Acquired.{
  who, eni_of, specs, owners, owner_of, IsNamed, IsSound, Acquired,
}
use capa_eni_controller.System.Refines.{
  allocate-Acquires, claim_interface-Acquires, given, Admits, Claims,
}

-- A machine and an interface that it was given.
abbrev pub Grant : Type 0
Grant = NamespacedObjectReference × String

-- One more grant, if an interface was given.
abbrev pub add : NamespacedObjectReference → Option String → List Grant → List Grant
add m none held = held
add m (some id) held = (m, id) ∷ held

-- The grants that are left when an interface is released.
abbrev pub without : String → List Grant → List Grant
without id held = filter (λ g. not (g.1 == id)) held

-- The interfaces of an admitted machine that came without any.
abbrev pub first_of : List String → Option String
first_of [] = none
first_of (id ∷ ids) = some id

module _ (platform : Platform) (server : Server) (stored : server.World → String → Option EniClaim)
    (store : IsClaimStore server stored) (sound : IsSound server stored) where
  open server use {World}

  -- `held` has the grants that were made and not released, the latest first.
  pub data Runs (w : World) : List Grant → World → Type 0 where
    start : IsNamed server stored w → Runs w [] w
    -- A machine without interfaces is admitted by the webhook.
    admitted :
        {held : List Grant} {w₁ w₂ : World} (obj obj' : AwsMachine)
        → Runs w held w₁
        → obj.network_interfaces ≡ []
        → run server (allocate platform obj) w₁ ≡ (ok obj', w₂)
        → Runs w (add (who obj) (first_of obj'.network_interfaces) held) w₂
    -- The machine controller allocates for a machine.
    reconciled :
        {held : List Grant} {w₁ w₂ : World} (m : AwsMachine) (pool : EniPool) (key : String)
        (found : Option EniClaim)
        → Runs w held w₁
        → run server (claim_interface m pool key) w₁ ≡ (ok found, w₂)
        → Runs w (add (who m) (eni_of found) held) w₂
    -- The claim of an interface goes.
    released :
        {held : List Grant} {w₁ w₂ : World} (id : String)
        → Runs w held w₁
        → specs server stored w₂ id ≡ none
        → ((n : String) → (n ≡ id) ⊎ (specs server stored w₂ n ≡ specs server stored w₁ n))
        → Runs w (without id held) w₂
    -- Anything that keeps the specifications of the claims.
    other :
        {held : List Grant} {w₁ w₂ : World}
        → Runs w held w₁
        → ((n : String) → specs server stored w₂ n ≡ specs server stored w₁ n)
        → Runs w held w₂

  -- Every grant is that of the present owner.
  record Held (held : List Grant) (w : World) : Type 0 where
    named : IsNamed server stored w
    owned : All (λ g. owners server stored w g.1 ≡ some g.0) held

  Held-Acquired :
      (m : AwsMachine) (found : Option String) (held : List Grant) (w w' : World)
      → Held held w
      → Acquired server stored m w found w'
      → Held (add (who m) found held) w'
  Held-Acquired m none held w w' h a = record {
    named = a.named;
    owned =
        All-imp _ _
          (λ g.
            Acquires-stays (who m) (owners server stored w) none (owners server stored w') g.1 g.0
              a.acquires)
          held h.owned;
  }
  Held-Acquired m (some id) held w w' h a = record {
    named = a.named;
    owned = (
      Acquires-owns (who m) (owners server stored w) (owners server stored w') id a.acquires,
      All-imp _ _
          (λ g.
            Acquires-stays (who m) (owners server stored w) (some id) (owners server stored w') g.1
              g.0 a.acquires)
          held h.owned,
    );
  }

  first_of-given :
      (obj : AwsMachine) (found : Option String)
      → obj.network_interfaces ≡ []
      → first_of (given server stored store obj found) ≡ found
  first_of-given obj none h = ap first_of h
  first_of-given obj (some id) h = refl

  Held-Admits :
      (obj obj' : AwsMachine) (held : List Grant) (w w' : World)
      → Held held w
      → obj.network_interfaces ≡ []
      → Admits server stored store obj w (ok obj') w'
      → Held (add (who obj) (first_of obj'.network_interfaces) held) w'
  Held-Admits obj obj' held w w' h bare (found, a, written) =
      subst (λ f. Held (add (who obj) f held) w')
        (sym (ap first_of written ∙ first_of-given obj found bare))
        (Held-Acquired obj found held w w' h a)

  Held-admitted :
      (obj obj' : AwsMachine) (held : List Grant) (w w' : World)
      → Held held w
      → obj.network_interfaces ≡ []
      → run server (allocate platform obj) w ≡ (ok obj', w')
      → Held (add (who obj) (first_of obj'.network_interfaces) held) w'
  Held-admitted obj obj' held w w' h bare e = Held-Admits obj obj' held w w' h bare (
      subst (λ r. Admits server stored store obj w r.0 r.1) e
        (allocate-Acquires server stored store platform obj w h.named))

  Held-reconciled :
      (m : AwsMachine) (pool : EniPool) (key : String) (found : Option EniClaim) (held : List Grant)
      (w w' : World)
      → Held held w
      → run server (claim_interface m pool key) w ≡ (ok found, w')
      → Held (add (who m) (eni_of found) held) w'
  Held-reconciled m pool key found held w w' h e = Held-Acquired m (eni_of found) held w w' h (
      subst (λ r. Claims server stored store m w r.0 r.1) e
        (claim_interface-Acquires server stored store m pool key w sound h.named))

  Held-other :
      (held : List Grant) (w w' : World)
      → Held held w
      → ((n : String) → specs server stored w' n ≡ specs server stored w n)
      → Held held w'
  Held-other held w w' h keeps = record {
    named = λ n s e. h.named n s (sym (keeps n) ∙ e);
    owned = All-imp _ _ (λ g e. ap owner_of (keeps g.1) ∙ e) held h.owned;
  }

  without-owned :
      (id : String) (held : List Grant) (w w' : World)
      → ((n : String) → (n ≡ id) ⊎ (specs server stored w' n ≡ specs server stored w n))
      → All (λ g. owners server stored w g.1 ≡ some g.0) held
      → All (λ g. owners server stored w' g.1 ≡ some g.0) (without id held)
  without-owned id [] w w' others h = tt
  without-owned id (g ∷ held) w w' others h = elim (Bool-cases (g.1 == id)) [
    | inl e ↦ rw e (without-owned id held w w' others h.1)
    | inr e ↦ rw e (elim (others g.1) [
      | inl same ↦ absurd (ne_of_eq_false g.1 id e same)
      | inr keep ↦ (ap owner_of keep ∙ h.0, without-owned id held w w' others h.1)
    ])
  ]

  Held-released :
      (id : String) (held : List Grant) (w w' : World)
      → Held held w
      → specs server stored w' id ≡ none
      → ((n : String) → (n ≡ id) ⊎ (specs server stored w' n ≡ specs server stored w n))
      → Held (without id held) w'
  Held-released id held w w' h gone others = record {
    named = λ n s e. elim (others n) [
      | inl same ↦ absurd (no_spec s (sym e ∙ ap (specs server stored w') same ∙ gone))
      | inr keep ↦ h.named n s (sym keep ∙ e)
    ];
    owned = without-owned id held w w' others h.owned;
  }
    where
      no_spec : (s : EniClaimSpec) → some s ≡ none → ⊥
      no_spec s e = cc

  Runs-Held : (w w' : World) (held : List Grant) → Runs w held w' → Held held w'
  Runs-Held w w' _ (start named) = record { named = named; owned = tt }
  Runs-Held w w' _ (admitted obj obj' runs bare e) =
      Held-admitted obj obj' _ _ w' (Runs-Held w _ _ runs) bare e
  Runs-Held w w' _ (reconciled m pool key found runs e) =
      Held-reconciled m pool key found _ _ w' (Runs-Held w _ _ runs) e
  Runs-Held w w' _ (released id runs gone others) =
      Held-released id _ _ w' (Runs-Held w _ _ runs) gone others
  Runs-Held w w' held (other runs keeps) = Held-other held _ w' (Runs-Held w _ _ runs) keeps

  -- However admissions and reconciles of machines, releases and all else follow each other, from claims
  -- that are named by their interfaces: two machines that were given one interface that was not
  -- released are the same machine, and the claim of the interface names it. Over a server that stores
  -- claims by name and lists stored ones.
  pub Runs-exclusive :
      (w w' : World) (held : List Grant) (a b : NamespacedObjectReference) (id : String)
      → Runs w held w'
      → In (a, id) held
      → In (b, id) held
      → (a ≡ b) × (owners server stored w' id ≡ some a)
  Runs-exclusive w w' held a b id runs ia ib =
      let owned = (Runs-Held w w' held runs).owned in
      let own_a = All-In (λ g. owners server stored w' g.1 ≡ some g.0) held (a, id) owned ia in
      let own_b = All-In (λ g. owners server stored w' g.1 ≡ some g.0) held (b, id) owned ib in
      (cc (sym own_a ∙ own_b), own_a)
