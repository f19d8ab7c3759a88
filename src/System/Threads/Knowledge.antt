-- ===== src/System/Threads/Knowledge.antt =====
-- What the answers to a handler say of the claims, and what it may request.
use capa_eni_controller.Prelude.{
  String, ◌≡◌, refl, sym, ◌∙◌, ap, inl, inr, Option, List, [], ◌∷◌, subst,
}
use capa_eni_controller.Prelude.Lists.{In, All}
use capa_eni_controller.Api.Meta.{NamespacedName, AwsMachine}
use capa_eni_controller.Api.Claim.{EniClaimSpec, EniClaim}
use capa_eni_controller.Kube.Prog.{
  Op, Prog, ok, Only, quiet, asks, create_claim, patch_claim, list_claims, patch_aws_machine,
  get_aws_machine, get_machine, get_cluster, get_aws_cluster, get_pool, get_claim, list_pools,
  delete_claim, update_claim_status, update_pool_status, now, set_status_condition, record_event,
  inc_dynamic_fallbacks, set_pool_available, Server,
}
use capa_eni_controller.Kube.History
use capa_eni_controller.Kube.History.{Event, did, Justified, Yields, gives, asked}
use capa_eni_controller.Kube.Platform.{Platform}
use capa_eni_controller.Allocation.{new_claim}
use capa_eni_controller.Controller.AwsMachine.Writes
use capa_eni_controller.Controller.EniClaim
use capa_eni_controller.Controller.EniPool
use capa_eni_controller.Controller.EniClaim.Deletion
use capa_eni_controller.Controller.EniPool.Requests
use capa_eni_controller.System.Threads.{Grant, grants_of, written}
use capa_eni_controller.System.Threads.Specs.{IsProper, IsSpecStore, IsNamed, Stays, Keeps}

-- The machine webhook and the machine controller create claims that are proper, and patch no claim.
pub machine-IsProper : (m : AwsMachine) (h : List Event) (o : Op) → Writes.MayAsk m h o → IsProper o
unfolding new_claim
machine-IsProper m h o may = record {
  creates = λ c e. named c (subst (Writes.MayAsk m h) e may);
  patches = λ b c e. absurd (subst (Writes.MayAsk m h) e may);
}
  where
    named : (c : EniClaim) → Writes.MayAsk m h (create_claim c) → c.spec.eni_id ≡ c.name
    named c (pool, r, listed, i, e) = ap (λ d. d.spec.eni_id) e ∙ sym (ap (λ d. d.name) e)

-- The other two controllers patch no machine either.
pub record IsTended (o : Op) : Type 0 where
  pub proper : IsProper o
  pub leaves : (b m : AwsMachine) → ¬ (o ≡ patch_aws_machine b m)

claim-IsTended : (h : List Event) (o : Op) → Deletion.MayAsk h o → IsTended o
claim-IsTended h o may = record {
  proper = record {
    creates = λ c e. absurd (subst (Deletion.MayAsk h) e may);
    patches = λ b c e. elim (subst (Deletion.MayAsk h) e may) [
      | inl (d, f) ↦ (ap (λ x. x.name) f, ap (λ x. x.spec) f)
      | inr (d, f) ↦ (ap (λ x. x.name) f, ap (λ x. x.spec) f)
    ];
  };
  leaves = λ b m e. subst (Deletion.MayAsk h) e may;
}

pool-IsTended :
    (req : NamespacedName) (h : List Event) (o : Op) → Requests.MayAsk req h o → IsTended o
pool-IsTended req h o may = record {
  proper = record {
    creates = λ c e. absurd (subst (Requests.MayAsk req h) e may);
    patches = λ b c e. absurd (subst (Requests.MayAsk req h) e may);
  };
  leaves = λ b m e. subst (Requests.MayAsk req h) e may;
}

module _ {A : Type 0} (P : List Event → Op → Type 0) where
  Justified-Only :
      (Q : Op → Type 0)
      → ((h : List Event) (o : Op) → P h o → Q o)
      → (h : List Event) (p : Prog A) → Justified P h p
      → Only Q p
  Justified-Only Q imp h _ (History.quiet a) = quiet a
  Justified-Only Q imp h _ (History.asks {o = o} {k = k} p j) =
      asks (imp h o p) (λ r. Justified-Only Q imp (did o r ∷ h) (k r) (j r))

  Yields-Justified :
      {R : List Event → A → Type 0} (h : List Event) (p : Prog A) → Yields P R h p → Justified P h p
  Yields-Justified h _ (gives q) = History.quiet _
  Yields-Justified h _ (asked {o = o} {k = k} p y) =
      History.asks p (λ r. Yields-Justified (did o r ∷ h) (k r) (y r))

pub claim_reconcile-IsTended : (req : NamespacedName) → Only IsTended (EniClaim.reconcile req)
claim_reconcile-IsTended req =
    Justified-Only Deletion.MayAsk IsTended claim-IsTended [] _ (Deletion.reconcile-Justified req)

pub pool_reconcile-IsTended : (req : NamespacedName) → Only IsTended (EniPool.reconcile req)
pool_reconcile-IsTended req =
    Justified-Only (Requests.MayAsk req) IsTended (pool-IsTended req) [] _
      (Yields-Justified (Requests.MayAsk req) [] _ (Requests.reconcile-Finished req))

-- What a request gives, it gives by a patch of a machine.
pub written-All :
    (P : Grant → Type 0) (o : Op)
    → ((b m : AwsMachine) → o ≡ patch_aws_machine b m → All P (grants_of m))
    → All P (written o)
written-All P (patch_aws_machine b m) h = h b m refl
written-All P (create_claim c) h = tt
written-All P (delete_claim c) h = tt
written-All P (patch_claim b c) h = tt
written-All P (get_aws_machine k) h = tt
written-All P (get_machine k) h = tt
written-All P (get_cluster k) h = tt
written-All P (get_aws_cluster k) h = tt
written-All P (get_pool k) h = tt
written-All P (get_claim k) h = tt
written-All P list_pools h = tt
written-All P list_claims h = tt
written-All P (update_claim_status c) h = tt
written-All P (update_pool_status p) h = tt
written-All P now h = tt
written-All P (set_status_condition cs c) h = tt
written-All P (record_event t r n) h = tt
written-All P (inc_dynamic_fallbacks r) h = tt
written-All P (set_pool_available p r v n) h = tt

module _ (platform : Platform) (server : Server)
    (specs : server.World → String → Option EniClaimSpec) where
  open server use {World, serve}

  -- Claims that were created or listed are stored as they were, or have gone.
  pub record Known (gone : List String) (w : World) (h : List Event) : Type 0 where
    pub made :
        (c c' : EniClaim)
        → In (did (create_claim c) (ok c')) h
        → (c'.spec ≡ c.spec) × Stays server specs gone w c.name c.spec
    pub listed :
        (cs : List EniClaim) (c : EniClaim)
        → In (did list_claims (ok cs)) h
        → In c cs
        → (c.spec.eni_id ≡ c.name) × Stays server specs gone w c.name c.spec

  pub Known-empty : (gone : List String) (w : World) → Known gone w []
  Known-empty gone w = record { made = λ c c' i. absurd i; listed = λ cs c i j. absurd i }

  pub Known-keeps :
      (gone gone' : List String) (w w' : World) (h : List Event)
      → Keeps platform server specs gone w gone' w'
      → Known gone w h
      → Known gone' w' h
  Known-keeps gone gone' w w' h keeps known = record {
    made = λ c c' i. let (same, s) = known.made c c' i in (same, keeps.stays c.name c.spec s);
    listed =
        λ cs c i j. let (same, s) = known.listed cs c i j in (same, keeps.stays c.name c.spec s);
  }

  Answered : World → World → Event → Type 0
  Answered w w' (did o r) = serve o w ≡ (r, w')

  -- An answer adds to what is known.
  pub Known-more :
      (gone gone' : List String) (o : Op) (w : World) (h : List Event)
      → IsSpecStore server specs
      → IsNamed server specs w
      → Keeps platform server specs gone w gone' (serve o w).1
      → Known gone w h
      → Known gone' (serve o w).1 (did o (serve o w).0 ∷ h)
  unfolding Answered
  Known-more gone gone' o w h store named keeps known = record {
    made = λ c c' i. elim i [
      | inl e ↦
          let (same, here) =
            store.created c c' w (serve o w).1 (subst (Answered w (serve o w).1) e refl) in
          (same, inl here)
      | inr j ↦ moved.made c c' j
    ];
    listed = λ cs c i j. elim i [
      | inl e ↦
          let here =
            store.listed w (serve o w).1 cs c (subst (Answered w (serve o w).1) e refl) j in
          (named c.name c.spec here, keeps.stays c.name c.spec (inl here))
      | inr k ↦ moved.listed cs c k j
    ];
  }
    where
      moved : Known gone' (serve o w).1 h
      moved = Known-keeps gone gone' w (serve o w).1 h keeps known
