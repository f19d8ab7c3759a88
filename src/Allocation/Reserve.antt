-- ===== src/Allocation/Reserve.antt =====
-- What a reservation does to the claims that the server stores.
use capa_eni_controller.Prelude.{
  String, ◌≡◌, ◌≢◌, refl, sym, ap, ◌∙◌, Option, none, some, List, [], ◌∷◌, ◌++◌, ◌==◌,
  if◌then◌else◌,
}
use capa_eni_controller.Prelude.Lists.{All, All-imp}
use capa_eni_controller.Api.Meta.{AwsMachine}
use capa_eni_controller.Api.Claim.{EniClaim}
use capa_eni_controller.Api.Pool.{EniReference, EniPool}
use capa_eni_controller.Kube.Prog.{
  ok, err, Result, ApiError, not_found, already_exists, conflict, other, create_claim, Server, run,
  Error, api,
}
use capa_eni_controller.Kube.Go.{Go}
use capa_eni_controller.Kube.ClaimStore.{IsClaimStore}
use capa_eni_controller.Allocation.{new_claim, create_first, after_create}

module _ (server : Server) (stored : server.World → String → Option EniClaim)
    (store : IsClaimStore server stored) (machine : AwsMachine) (pool : EniPool) where
  open server use {World, serve}

  -- `claim` reserves one of `refs`, which was free, and those before it were taken.
  pub record Reserved (refs : List EniReference) (w : World) (claim : EniClaim) (w' : World)
      : Type 0 where
    pub before : List EniReference
    pub chosen : EniReference
    pub after : List EniReference
    pub split : refs ≡ before ++ (chosen ∷ after)
    pub taken : All (λ r. stored w r.id ≢ none) before
    pub free : stored w chosen.id ≡ none
    pub name : claim.name ≡ chosen.id
    pub spec : claim.spec ≡ (new_claim machine pool chosen).spec
    pub stores : (n : String) → stored w' n ≡ (if chosen.id == n then some claim else stored w n)

  -- Each of `refs` was taken, and the claims are as they were.
  pub record Exhausted (refs : List EniReference) (w w' : World) : Type 0 where
    pub taken : All (λ r. stored w r.id ≢ none) refs
    pub keeps : (n : String) → stored w' n ≡ stored w n

  abbrev pub Outcome : List EniReference → World → Result Error (Option EniClaim) → World → Type 0
  Outcome refs w (ok (some claim)) w' = Reserved refs w claim w'
  Outcome refs w (ok none) w' = Exhausted refs w w'
  Outcome refs w (err e) w' = (a : ApiError) × (e ≡ api a) × (a ≢ already_exists)

  skip-Outcome :
      (r : EniReference) (rest : List EniReference) (w w₁ w' : World)
      → (result : Result Error (Option EniClaim)) → stored w r.id ≢ none
      → ((n : String) → stored w₁ n ≡ stored w n)
      → Outcome rest w₁ result w'
      → Outcome (r ∷ rest) w result w'
  skip-Outcome r rest w w₁ w' (ok none) t k o = record {
    taken = (t, All-imp _ _ (λ x h e. h (k x.id ∙ e)) rest o.taken);
    keeps = λ n. o.keeps n ∙ k n;
  }
  skip-Outcome r rest w w₁ w' (ok (some claim)) t k o = record {
    before = r ∷ o.before;
    chosen = o.chosen;
    after = o.after;
    split = ap (◌∷◌ r) o.split;
    taken = (t, All-imp _ _ (λ x h e. h (k x.id ∙ e)) o.before o.taken);
    free = sym (k o.chosen.id) ∙ o.free;
    name = o.name;
    spec = o.spec;
    stores = λ n. o.stores n ∙ ap (λ s. if o.chosen.id == n then some claim else s) (k n);
  }
  skip-Outcome r rest w w₁ w' (err e) t k o = o

  after_create-Outcome :
      (r : EniReference) (rest : List EniReference) (w w₁ : World) (next : Go (Option EniClaim))
      (answer : Result ApiError EniClaim)
      → serve (create_claim (new_claim machine pool r)) w ≡ (answer, w₁)
      → Outcome rest w₁ (run server next w₁).0 (run server next w₁).1
      → Outcome
          (r ∷ rest)
          w
          (run server (after_create next answer) w₁).0
          (run server (after_create next answer) w₁).1
  unfolding after_create new_claim
  after_create-Outcome r rest w w₁ next (ok claim) e o =
      let c = new_claim machine pool r in
      record {
        before = [];
        chosen = r;
        after = rest;
        split = refl;
        taken = tt;
        free = store.create_free c claim w w₁ e;
        name = (store.create_answer c claim w w₁ e).0;
        spec = (store.create_answer c claim w w₁ e).1;
        stores = store.create_stores c claim w w₁ e;
      }
  after_create-Outcome r rest w w₁ next (err already_exists) e o =
      let c = new_claim machine pool r in
      skip-Outcome r rest w w₁ (run server next w₁).1 (run server next w₁).0
        (store.create_taken c w w₁ e) (store.create_keeps c w w₁ e) o
  after_create-Outcome r rest w w₁ next (err not_found) e o = (not_found, refl, λ h. cc)
  after_create-Outcome r rest w w₁ next (err conflict) e o = (conflict, refl, λ h. cc)
  after_create-Outcome r rest w w₁ next (err (other s)) e o = (other s, refl, λ h. cc)

  pub create_first-Outcome :
      (refs : List EniReference) (w : World)
      → Outcome refs w
          (run server (create_first machine pool refs) w).0
          (run server (create_first machine pool refs) w).1
  unfolding create_first
  create_first-Outcome [] w = record { taken = tt; keeps = λ n. refl }
  create_first-Outcome (r ∷ rest) w =
      let (answer, w₁) = serve (create_claim (new_claim machine pool r)) w in
      after_create-Outcome r rest w w₁ (create_first machine pool rest) answer refl
        (create_first-Outcome rest w₁)
