-- ===== src/Controller/EniClaim/Reclaim.antt =====
-- The claim of a machine that is gone is removed, by two reconciles.
use capa_eni_controller.Prelude.{
  ℕ, ◌-◌, String, ◌≡◌, ◌≢◌, refl, ◌∙◌, ap, true, false, Option, none, some, [], ◌∷◌, ltb,
}
use capa_eni_controller.Api.Constants.{claim_finalizer}
use capa_eni_controller.Api.Meta.{NamespacedName}
use capa_eni_controller.Api.Claim.{EniClaim}
use capa_eni_controller.Api.Pool.{EniPool}
use capa_eni_controller.Kube.Prog.{
  Op, Response, Prog, call, delete_claim, patch_claim, get_pool, Error, get_aws_machine, now, ok,
  err, not_found, Server, run, Result,
}
use capa_eni_controller.Kube.Go.{Go, ReconcileResult, ◌>>=◌, pure, done}
use capa_eni_controller.Kube.Lifecycle.{IsLifecycle}
use capa_eni_controller.Controller.EniClaim.{
  contains_string, remove_string, remove_finalizer, ensure_finalizer, grace, reclaim_at, reclaim,
  check_machine, reconcile_live, release, unless_deleted, reconcile_claim, reconcile,
}
use capa_eni_controller.Controller.EniClaim.Deletion.{machine_key}

unless_deleted-live :
    (c : EniClaim) (live : Go ReconcileResult)
    → c.deletion_timestamp ≡ none
    → unless_deleted c live ≡ live
unfolding unless_deleted
unless_deleted-live c live e = ap (λ d. elim d [ some _ ↦ release c | none ↦ live ]) e

unless_deleted-release :
    (c : EniClaim) (live : Go ReconcileResult) (t : ℕ)
    → c.deletion_timestamp ≡ some t
    → unless_deleted c live ≡ release c
unfolding unless_deleted
unless_deleted-release c live t e = ap (λ d. elim d [ some _ ↦ release c | none ↦ live ]) e

has_finalizer :
    (c : EniClaim)
    → c.finalizers ≡ claim_finalizer ∷ []
    → contains_string c.finalizers claim_finalizer ≡ true
unfolding contains_string
has_finalizer c e = ap (λ fs. contains_string fs claim_finalizer) e

one_finalizer : (c : EniClaim) → c.finalizers ≡ claim_finalizer ∷ [] → c.finalizers ≢ []
one_finalizer c e h = cc

nothing_left :
    (c : EniClaim)
    → c.finalizers ≡ claim_finalizer ∷ []
    → remove_string c.finalizers claim_finalizer ≡ []
unfolding remove_string
nothing_left c e = ap (λ fs. remove_string fs claim_finalizer) e

ensure_finalizer-present :
    (c : EniClaim) → c.finalizers ≡ claim_finalizer ∷ [] → ensure_finalizer c ≡ pure c
unfolding ensure_finalizer
ensure_finalizer-present c e = rw (has_finalizer c e) refl

module _ (server : Server) (stored : server.World → String → Option EniClaim)
    (laws : IsLifecycle server stored) where
  open server use {World, serve}

  answered :
      {A : Type 0} (o : Op) (k : Response o → Prog A) (w w' : World) (a : Response o)
      → serve o w ≡ (a, w')
      → run server (call o k) w ≡ run server (k a) w'
  answered o k w w' a e = ap (λ r. run server (k r.0) r.1) e

  got_claim :
      (req : NamespacedName) (c : EniClaim) (w : World)
      → stored w req.name ≡ some c
      → run server (reconcile req) w ≡ run server (reconcile_claim c) w
  unfolding reconcile
  got_claim req c w e = rw (laws.get_stored req.name c w e, run) refl

  got_pool :
      (c : EniClaim) (pool : EniPool) (w : World)
      → serve (get_pool c.spec.pool_ref.name) w ≡ (ok pool, w)
      → run server (reconcile_claim c) w ≡ run server (unless_deleted c (reconcile_live c pool)) w
  unfolding reconcile_claim
  got_pool c pool w e = rw (e, run) refl

  got_no_machine :
      (c : EniClaim) (pool : EniPool) (w : World)
      → serve (get_aws_machine (machine_key c)) w ≡ (err not_found, w)
      → run server (check_machine c pool) w ≡ run server (reclaim c) w
  unfolding check_machine
  got_no_machine c pool w e = rw (e, run) refl

  -- The claim is stored with the reconciler's finalizer alone and is not being deleted; its pool is there,
  -- its machine is not, and it is as old as the grace.
  pub record IsOrphan (w : World) (c : EniClaim) : Type 0 where
    pub is_stored : stored w c.name ≡ some c
    pub alive : c.deletion_timestamp ≡ none
    pub finalizers : c.finalizers ≡ claim_finalizer ∷ []
    pub pool : EniPool
    pub has_pool : serve (get_pool c.spec.pool_ref.name) w ≡ (ok pool, w)
    pub no_machine : serve (get_aws_machine (machine_key c)) w ≡ (err not_found, w)
    pub time : ℕ
    pub clock : serve now w ≡ (time, w)
    pub old : ltb (time - c.creation_timestamp) grace ≡ false

  orphan-reclaim_at :
      (req : NamespacedName) (w : World) (c : EniClaim) (o : IsOrphan w c)
      → req.name ≡ c.name
      → run server (reconcile req) w ≡ run server (reclaim_at c o.time) w
  unfolding reconcile_live reclaim
  orphan-reclaim_at req w c o named =
      got_claim req c w (ap (stored w) named ∙ o.is_stored)
      ∙ got_pool c o.pool w o.has_pool
      ∙ ap (λ p. run server p w) (unless_deleted-live c (reconcile_live c o.pool) o.alive)
      ∙ ap (λ p. run server (p >>= λ c'. check_machine c' o.pool) w)
          (ensure_finalizer-present c o.finalizers)
      ∙ got_no_machine c o.pool w o.no_machine
      ∙ answered now (reclaim_at c) w w o.time o.clock

  deleted_old :
      (c : EniClaim) (time : ℕ) (w w' : World)
      → ltb (time - c.creation_timestamp) grace ≡ false
      → serve (delete_claim c) w ≡ (ok tt, w')
      → run server (reclaim_at c time) w ≡ (ok done, w')
  unfolding reclaim_at
  deleted_old c time w w' old e = rw (old, e, run) refl

  -- The first reconcile has the claim marked as deleted.
  orphan-marked :
      (req : NamespacedName) (w : World) (c : EniClaim)
      → IsOrphan w c
      → req.name ≡ c.name
      → (t : ℕ) × (g : ℕ) × (stored (run server (reconcile req) w).1 c.name
          ≡ some (record c { deletion_timestamp = some t; generation = g }))
  orphan-marked req w c o named =
      let (w', t, g, answer, marked) =
        laws.delete_marks c w o.is_stored (one_finalizer c o.finalizers) o.alive in
      (
        t,
        g,
        ap (λ (r : Result Error ReconcileResult × World). stored r.1 c.name)
              (orphan-reclaim_at req w c o named ∙ deleted_old c o.time w w' o.old answer)
            ∙ marked,
      )

  removed_by_patch :
      (c c' : EniClaim) (w w' : World)
      → contains_string c.finalizers claim_finalizer ≡ true
      → serve
          (patch_claim c (record c { finalizers = remove_string c.finalizers claim_finalizer }))
          w
        ≡ (ok c', w')
      → run server (release c) w ≡ (ok done, w')
  unfolding release remove_finalizer
  removed_by_patch c c' w w' h e = rw (h, e, run) refl

  -- Once the claim is marked, a reconcile removes it, wherever its pool is found.
  marked-removed :
      (req : NamespacedName) (w : World) (c : EniClaim) (t : ℕ) (pool : EniPool)
      → stored w c.name ≡ some c
      → c.finalizers ≡ claim_finalizer ∷ []
      → c.deletion_timestamp ≡ some t
      → req.name ≡ c.name
      → serve (get_pool c.spec.pool_ref.name) w ≡ (ok pool, w)
      → stored (run server (reconcile req) w).1 c.name ≡ none
  marked-removed req w c t pool is_stored one deleted named has_pool =
      let (w', c', answer, gone) =
        laws.patch_removes c (record c { finalizers = remove_string c.finalizers claim_finalizer })
          w is_stored (λ e. absurd (cc (deleted, e))) refl (nothing_left c one) in
      ap (λ (r : Result Error ReconcileResult × World). stored r.1 c.name)
        (got_claim req c w (ap (stored w) named ∙ is_stored)
          ∙ got_pool c pool w has_pool
          ∙ ap (λ p. run server p w) (unless_deleted-release c (reconcile_live c pool) t deleted)
          ∙ removed_by_patch c c' w w' (has_finalizer c one) answer)
      ∙ gone

  -- The claim of a machine that is gone is removed by two reconciles: an orphan that has the
  -- reconciler's finalizer and no other, is as old as the grace and has its pool is not stored any more after a reconcile and a second one, in any later
  -- state in which the claim is stored as the first has left it and the pool is there. On a server
  -- that deletes an object with finalizers in two steps.
  pub orphan-removed :
      (req : NamespacedName) (w w₂ : World) (c : EniClaim) (pool : EniPool)
      → IsOrphan w c
      → req.name ≡ c.name
      → stored w₂ c.name ≡ stored (run server (reconcile req) w).1 c.name
      → serve (get_pool c.spec.pool_ref.name) w₂ ≡ (ok pool, w₂)
      → stored (run server (reconcile req) w₂).1 c.name ≡ none
  orphan-removed req w w₂ c pool o named kept has_pool =
      let (t, g, marked) = orphan-marked req w c o named in
      marked-removed req w₂ (record c { deletion_timestamp = some t; generation = g }) t pool
        (kept ∙ marked) o.finalizers refl named has_pool
