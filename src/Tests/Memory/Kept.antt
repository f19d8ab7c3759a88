-- ===== src/Tests/Memory/Kept.antt =====
-- The server in lists behind the claim webhook: writes to a claim keep its name and specification.
use capa_eni_controller.Prelude.{
  eq_refl, eq_iff, ne_of_eq_false, eq_false_of_ne, ℕ, suc, String, ◌≡◌, ◌≢◌, refl, sym, ◌∙◌, ap,
  inl, inr, not, Option, true, false, none, some, List, [], ◌∷◌, ◌==◌, if◌then◌else◌, Bool-cases,
  subst,
}
use capa_eni_controller.Prelude.Lists.{filter}
use capa_eni_controller.Api.Claim.{EniClaimSpec, EniClaim}
use capa_eni_controller.Kube.Prog.{
  Op, Response, ok, err, Result, ApiError, not_found, get_aws_machine, get_machine, get_cluster,
  get_aws_cluster, get_pool, get_claim, list_pools, list_claims, create_claim, delete_claim,
  patch_claim, patch_aws_machine, update_claim_status, update_pool_status, now,
  set_status_condition, record_event, inc_dynamic_fallbacks, set_pool_available, Server,
}
use capa_eni_controller.System.Acquired.{spec_of}
use capa_eni_controller.System.Threads.Specs.{Change, same, goes, made, IsSpecStore}
use capa_eni_controller.Tests.Memory
use capa_eni_controller.Tests.Memory.{
  World, claim_named, stored, created, create, without, put, delete_by, delete, patch_by,
}
use capa_eni_controller.Tests.Memory.Live.{claim_named-name}
use capa_eni_controller.Tests.Memory.Laws.{named-without, create-ok, sound}

-- The patch of the finalizers, and of the status.
abbrev finalized : Option EniClaim → EniClaim → World → Result ApiError EniClaim × World
finalized none c w = (err not_found, w)
finalized (some d) c w =
    let d' : EniClaim = record d { finalizers = c.finalizers } in
    (ok d', patch_by d.deletion_timestamp c.finalizers d' w)

abbrev reported : Option EniClaim → EniClaim → World → Result ApiError EniClaim × World
reported none c w = (err not_found, w)
reported (some d) c w = let d' : EniClaim = record d { status = c.status } in (ok d', put d' w)

abbrev pub serve : (o : Op) → World → Response o × World
serve (patch_claim b c) w = finalized (stored w b.name) c w
serve (update_claim_status c) w = reported (stored w c.name) c w
serve o w = Memory.serve o w

abbrev pub kept : Server
kept = record { World = World; serve = serve }

abbrev pub specs : World → String → Option EniClaimSpec
specs w n = spec_of (stored w n)

named-elsewhere :
    (k n : String) (cs : List EniClaim)
    → k ≢ n
    → claim_named n (filter (λ d. not (d.name == k)) cs) ≡ claim_named n cs
named-elsewhere k n [] other = refl
named-elsewhere k n (d ∷ cs) other = elim (Bool-cases (d.name == k)) [
  | inr e ↦ rw e (ap (λ x. if d.name == n then some d else x) (named-elsewhere k n cs other))
  | inl e ↦ rw e (
      rw (eq_false_of_ne d.name n (λ f. other (sym ((eq_iff d.name k).0 e) ∙ f)))
        (named-elsewhere k n cs other))
]

without-Change :
    (o : Op) (k n : String) (w : World) → Change o n (specs w n) (specs (without k w) n)
without-Change o k n w = elim (Bool-cases (k == n)) [
  | inl e ↦ goes (
      subst (λ x. specs (without k w) x ≡ none) ((eq_iff k n).0 e)
        (ap spec_of (named-without k w.claims)))
  | inr e ↦ same (ap spec_of (named-elsewhere k n w.claims (ne_of_eq_false k n e)))
]

put-Change :
    (o : Op) (k n : String) (d d' : EniClaim) (w : World)
    → stored w k ≡ some d
    → d'.name ≡ d.name
    → d'.spec ≡ d.spec
    → Change o n (specs w n) (specs (put d' w) n)
put-Change o k n d d' w here name spec = elim (Bool-cases (d'.name == n)) [
  | inl e ↦
      let at_n : k ≡ n =
        sym (claim_named-name k w.claims d here) ∙ sym name ∙ (eq_iff d'.name n).0 e in
      same (ap spec_of (stored-first e) ∙ ap some spec ∙ sym (ap spec_of here) ∙ ap (specs w) at_n)
  | inr e ↦
      same (
        ap spec_of
          (stored-rest e ∙ named-elsewhere d'.name n w.claims (ne_of_eq_false d'.name n e)))
]
  where
    stored-first : (d'.name == n) ≡ true → stored (put d' w) n ≡ some d'
    stored-first e = rw e refl

    stored-rest :
        (d'.name == n) ≡ false
        → stored (put d' w) n ≡ claim_named n (filter (λ x. not (x.name == d'.name)) w.claims)
    stored-rest e = rw e refl

create-Change :
    (x : Option EniClaim) (c : EniClaim) (n : String) (w : World)
    → stored w c.name ≡ x
    → Change (create_claim c) n (specs w n) (specs (create x c w).1 n)
create-Change (some d) c n w here = same refl
create-Change none c n w here = elim (Bool-cases (c.name == n)) [
  | inl e ↦
      let at_n = (eq_iff c.name n).0 e in
      made c refl at_n (ap spec_of (ap (stored w) (sym at_n) ∙ here)) (rw e refl)
  | inr e ↦ rw e (same refl)
]

delete-Change :
    (o : Op) (x : Option EniClaim) (k n : String) (w : World)
    → stored w k ≡ x
    → Change o n (specs w n) (specs (delete x w).1 n)
delete-Change o none k n w here = same refl
delete-Change o (some d) k n w here = by_finalizers d.finalizers
  where
    by_finalizers : (fs : List String) → Change o n (specs w n) (specs (delete_by fs d w) n)
    by_finalizers [] = without-Change o d.name n w
    by_finalizers (f ∷ fs) =
        put-Change o k n d
          (record d { deletion_timestamp = some w.clock; generation = suc d.generation }) w here
          refl refl

finalized-Change :
    (o : Op) (x : Option EniClaim) (c : EniClaim) (k n : String) (w : World)
    → stored w k ≡ x
    → Change o n (specs w n) (specs (finalized x c w).1 n)
finalized-Change o none c k n w here = same refl
finalized-Change o (some d) c k n w here = by_patch d.deletion_timestamp c.finalizers
  where
    d' : EniClaim
    d' = record d { finalizers = c.finalizers }

    by_patch :
        (t : Option ℕ) (fs : List String) → Change o n (specs w n) (specs (patch_by t fs d' w) n)
    by_patch (some t) [] = without-Change o d'.name n w
    by_patch (some t) (f ∷ fs) = put-Change o k n d d' w here refl refl
    by_patch none fs = put-Change o k n d d' w here refl refl

reported-Change :
    (o : Op) (x : Option EniClaim) (c : EniClaim) (k n : String) (w : World)
    → stored w k ≡ x
    → Change o n (specs w n) (specs (reported x c w).1 n)
reported-Change o none c k n w here = same refl
reported-Change o (some d) c k n w here =
    put-Change o k n d (record d { status = c.status }) w here refl refl

serve-Change : (o : Op) (w : World) (n : String) → Change o n (specs w n) (specs (serve o w).1 n)
serve-Change (create_claim c) w n = create-Change (stored w c.name) c n w refl
serve-Change (delete_claim c) w n = delete-Change _ (stored w c.name) c.name n w refl
serve-Change (patch_claim b c) w n = finalized-Change _ (stored w b.name) c b.name n w refl
serve-Change (update_claim_status c) w n = reported-Change _ (stored w c.name) c c.name n w refl
serve-Change (get_aws_machine k) w n = same refl
serve-Change (get_machine k) w n = same refl
serve-Change (get_cluster k) w n = same refl
serve-Change (get_aws_cluster k) w n = same refl
serve-Change (get_pool k) w n = same refl
serve-Change (get_claim k) w n = same refl
serve-Change list_pools w n = same refl
serve-Change list_claims w n = same refl
serve-Change (patch_aws_machine b m) w n = same refl
serve-Change (update_pool_status p) w n = same refl
serve-Change now w n = same refl
serve-Change (set_status_condition cs c) w n = same refl
serve-Change (record_event t r k) w n = same refl
serve-Change (inc_dynamic_fallbacks r) w n = same refl
serve-Change (set_pool_available p r v k) w n = same refl

pub spec_store : IsSpecStore kept specs
spec_store = record {
  changes = λ o w n proper. serve-Change o w n;
  created = λ c c' w w' h.
      let all = create-ok (stored w c.name) c c' w w' h in
      (ap (λ d. d.spec) all.1, ap (λ v. specs v c.name) all.2 ∙ rw (eq_refl c.name) refl);
  listed = λ w w' cs c h i. ap spec_of (sound.lists w w' cs c h i);
}
