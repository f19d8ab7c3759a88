-- ===== src/Tests/Memory/Laws.antt =====
-- The server keeps claims by name, lists all of them, and deletes them in two steps.
use capa_eni_controller.Prelude.{
  eq_refl, ℕ, suc, String, ◌≡◌, ◌≢◌, refl, sym, ◌∙◌, ap, inl, inr, not, Option, none, some, List,
  [], ◌∷◌, ◌==◌, if◌then◌else◌, Bool-cases, subst,
}
use capa_eni_controller.Prelude.Lists.{filter, In}
use capa_eni_controller.Api.Claim.{EniClaim}
use capa_eni_controller.Kube.Prog.{
  Op, IsRead, ok, err, Result, ApiError, already_exists, get_aws_machine, get_machine, get_cluster,
  get_aws_cluster, get_pool, get_claim, list_pools, list_claims, create_claim, delete_claim,
  patch_claim, patch_aws_machine, update_claim_status, update_pool_status, now,
  set_status_condition, record_event, inc_dynamic_fallbacks, set_pool_available,
}
use capa_eni_controller.Kube.ClaimStore.{IsClaimStore}
use capa_eni_controller.Kube.Lifecycle.{IsLifecycle}
use capa_eni_controller.Controller.AwsMachine.Retry.{IsComplete}
use capa_eni_controller.System.Acquired.{IsSound}
use capa_eni_controller.Tests.Memory.Live.{live-named, named-live}
use capa_eni_controller.Tests.Memory.{
  World, answer, claim_named, stored, live, created, create, without, put, delete_by, delete,
  patch_by, patch, serve, server,
}

pub create-ok :
    (x : Option EniClaim) (c c' : EniClaim) (w w' : World)
    → create x c w ≡ (ok c', w')
    → (x ≡ none) × (c' ≡ c) × (w' ≡ created w c)
create-ok none c c' w w' h = (refl, sym (ok_inj (ap (λ r. r.0) h)), sym (ap (λ r. r.1) h))
  where
    ok_inj : {a b : EniClaim} → ◌≡◌ {A = Result ApiError EniClaim} (ok a) (ok b) → a ≡ b
    ok_inj e = cc
create-ok (some d) c c' w w' h = absurd (cc (ap (λ r. r.0) h))

create-err :
    (x : Option EniClaim) (c : EniClaim) (w w' : World)
    → create x c w ≡ (err already_exists, w')
    → (x ≢ none) × (w' ≡ w)
create-err none c w w' h = absurd (cc (ap (λ r. r.0) h))
create-err (some d) c w w' h = ((λ e. cc), sym (ap (λ r. r.1) h))

read-keeps : (o : Op) (w : World) → IsRead o → (n : String) → stored (serve o w).1 n ≡ stored w n
read-keeps (get_aws_machine k) w h n = refl
read-keeps (get_machine k) w h n = refl
read-keeps (get_cluster k) w h n = refl
read-keeps (get_aws_cluster k) w h n = refl
read-keeps (get_pool k) w h n = refl
read-keeps (get_claim k) w h n = refl
read-keeps list_pools w h n = refl
read-keeps list_claims w h n = refl
read-keeps now w h n = refl
read-keeps (set_status_condition cs c) w h n = refl
read-keeps (create_claim c) w h n = absurd h
read-keeps (delete_claim c) w h n = absurd h
read-keeps (patch_claim b c) w h n = absurd h
read-keeps (patch_aws_machine b m) w h n = absurd h
read-keeps (update_claim_status c) w h n = absurd h
read-keeps (update_pool_status p) w h n = absurd h
read-keeps (record_event t r k) w h n = absurd h
read-keeps (inc_dynamic_fallbacks r) w h n = absurd h
read-keeps (set_pool_available p r v k) w h n = absurd h

pub store : IsClaimStore server stored
store = record {
  read_keeps = read-keeps;
  create_free = λ c c' w w' h. (create-ok (stored w c.name) c c' w w' h).0;
  create_answer = λ c c' w w' h.
      let same = (create-ok (stored w c.name) c c' w w' h).1 in
      (ap (λ d. d.name) same, ap (λ d. d.spec) same);
  create_stores = λ c c' w w' h n.
      let all = create-ok (stored w c.name) c c' w w' h in
      ap (λ v. stored v n) all.2 ∙ ap (λ d. if c.name == n then some d else stored w n) (sym all.1);
  create_taken = λ c w w' h. (create-err (stored w c.name) c w w' h).0;
  create_keeps = λ c w w' h n. ap (λ v. stored v n) (create-err (stored w c.name) c w w' h).1;
}

listed-claims :
    (w w' : World) (claims : List EniClaim)
    → ◌≡◌ {A = Result ApiError (List EniClaim) × World} (ok (live w.claims), w) (ok claims, w')
    → live w.claims ≡ claims
listed-claims w w' claims h = cc (ap (λ r. r.0) h)

pub complete : IsComplete server stored store
complete = record {
  lists = λ w w' claims h n c here.
      subst (In c) (listed-claims w w' claims h) (named-live n w.claims c here);
}

pub sound : IsSound server stored
sound = record {
  lists = λ w w' claims c h i.
      live-named w.claims c (subst (In c) (sym (listed-claims w w' claims h)) i);
}

pub named-without :
    (n : String) (cs : List EniClaim) → claim_named n (filter (λ d. not (d.name == n)) cs) ≡ none
named-without n [] = refl
named-without n (d ∷ cs) = elim (Bool-cases (d.name == n)) [
  | inl e ↦ rw e (named-without n cs)
  | inr e ↦ rw e (rw e (named-without n cs))
]

stored-put : (c : EniClaim) (w : World) → stored (put c w) c.name ≡ some c
stored-put c w = rw (eq_refl c.name) refl

delete_by-marks :
    (fs : List String) (c : EniClaim) (w : World)
    → fs ≢ []
    → delete_by fs c w
      ≡ put (record c { deletion_timestamp = some w.clock; generation = suc c.generation }) w
delete_by-marks [] c w h = absurd (h refl)
delete_by-marks (f ∷ fs) c w h = refl

patch_by-removes :
    (t : Option ℕ) (fs : List String) (c : EniClaim) (w : World)
    → t ≢ none
    → fs ≡ []
    → patch_by t fs c w ≡ without c.name w
patch_by-removes none fs c w h e = absurd (h refl)
patch_by-removes (some t) [] c w h e = refl
patch_by-removes (some t) (f ∷ fs) c w h e = absurd (cc e)

pub lifecycle : IsLifecycle server stored
lifecycle = record {
  get_stored = λ n c w e. ap (λ x. (answer x, w)) e;
  delete_marks = λ c w e f alive. (
    put (record c { deletion_timestamp = some w.clock; generation = suc c.generation }) w,
    w.clock,
    suc c.generation,
    ap (λ x. delete x w) e ∙ ap (λ v. (ok tt, v)) (delete_by-marks c.finalizers c w f),
    stored-put (record c { deletion_timestamp = some w.clock; generation = suc c.generation }) w,
  );
  patch_removes = λ b c w e d same f. (
    without c.name w,
    c,
    ap (λ x. patch x c w) e
        ∙ ap (λ v. (ok c, v)) (patch_by-removes b.deletion_timestamp c.finalizers c w d f),
    ap (claim_named b.name) (ap (λ n. (without n w).claims) same) ∙ named-without b.name w.claims,
  );
}
