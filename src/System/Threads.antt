-- ===== src/System/Threads.antt =====
-- The handlers of the program at the same time: each runs up to its next request, in any order.
pub mod Specs
pub mod Knowledge
pub mod Owned
pub mod Invariant
pub mod Exclusive
use capa_eni_controller.Prelude.{
  ℕ, String, ◌≡◌, ◌⊎◌, Option, none, some, List, [], ◌∷◌, ◌++◌, map, nat_eq, if◌then◌else◌,
}
use capa_eni_controller.Prelude.Lists.{In, All}
use capa_eni_controller.Api.Meta.{NamespacedName, AwsMachine}
use capa_eni_controller.Api.Claim.{NamespacedObjectReference, EniClaimSpec, EniClaim}
use capa_eni_controller.Kube.Prog.{
  Op, Response, Prog, ret, call, Result, Error, ok, err, patch_aws_machine, Server,
}
use capa_eni_controller.Kube.Go.{Go, ReconcileResult}
use capa_eni_controller.Kube.History.{Event, did}
use capa_eni_controller.Kube.Platform.{Platform}
use capa_eni_controller.Webhook.AwsMachine
use capa_eni_controller.Webhook.AwsMachine.{AwsMachineCustomDefaulter, Context}
use capa_eni_controller.Controller.AwsMachine.{AwsMachineReconciler, reconcile_machine}
use capa_eni_controller.Controller.EniClaim
use capa_eni_controller.Controller.EniPool
use capa_eni_controller.System.Acquired.{who}

-- A handler under way: the machine, the answers so far, the latest first, and the rest of the program.
pub data Thread : Type 0 where
  idle : Thread
  admitting : AwsMachine → List Event → Go AwsMachine → Thread
  reconciling : AwsMachine → List Event → Go ReconcileResult → Thread
  tending : List Event → Go ReconcileResult → Thread

-- A machine and an interface that it was given.
abbrev pub Grant : Type 0
Grant = NamespacedObjectReference × String

-- The machine with each of its interfaces.
abbrev pub grants_of : AwsMachine → List Grant
grants_of m = map (λ id. (who m, id)) m.network_interfaces

-- A patch of a machine gives it interfaces, whatever the server answers.
abbrev pub written : Op → List Grant
written (patch_aws_machine base m) = grants_of m
written _ = []

module _ (server : Server) where
  open server use {World, serve}

  -- One turn of a thread: its next request with the answer, or its end; and what it gives.
  abbrev pub turn : World → Thread → World × Thread × List Grant
  turn w idle = (w, idle, [])
  turn w (admitting obj h (ret (ok obj'))) = (w, idle, grants_of obj')
  turn w (admitting obj h (ret (err e))) = (w, idle, [])
  turn w (admitting obj h (call o k)) =
      let (r, w') = serve o w in (w', admitting obj (did o r ∷ h) (k r), written o)
  turn w (reconciling m h (ret x)) = (w, idle, [])
  turn w (reconciling m h (call o k)) =
      let (r, w') = serve o w in (w', reconciling m (did o r ∷ h) (k r), written o)
  turn w (tending h (ret x)) = (w, idle, [])
  turn w (tending h (call o k)) =
      let (r, w') = serve o w in (w', tending (did o r ∷ h) (k r), written o)

  -- All threads over one server, with what has been given, and the names of claims that have gone.
  pub record State : Type 0 where
    pub world : World
    pub threads : ℕ → Thread
    pub grants : List Grant
    pub gone : List String

abbrev pub update : (ℕ → Thread) → ℕ → Thread → ℕ → Thread
update threads i t j = if nat_eq i j then t else threads j

-- The handlers start for machines without interfaces, since they leave others alone, and for any
-- claim and pool.
pub data Starts (platform : Platform) : Thread → Type 0 where
  admission :
      (d : AwsMachineCustomDefaulter) (ctx : Context) (obj : AwsMachine)
      → obj.network_interfaces ≡ []
      → Starts platform (admitting obj [] (AwsMachine.default platform d ctx obj))
  machine_reconcile :
      (r : AwsMachineReconciler) (m : AwsMachine)
      → m.network_interfaces ≡ []
      → Starts platform (reconciling m [] (reconcile_machine platform r m))
  claim_reconcile : (req : NamespacedName) → Starts platform (tending [] (EniClaim.reconcile req))
  pool_reconcile : (req : NamespacedName) → Starts platform (tending [] (EniPool.reconcile req))

module _ (platform : Platform) (server : Server)
    (specs : server.World → String → Option EniClaimSpec) where
  open server use {World, serve}

  -- `lost` names the claims that a change of the server has removed, and no others.
  pub record Loses (w w' : World) (lost : List String) : Type 0 where
    pub covers :
        (n : String) (s : EniClaimSpec) → specs w n ≡ some s → specs w' n ≡ none → In n lost
    pub exact : All (λ n. specs w' n ≡ none) lost

  -- What others do: a claim keeps its specification or goes, and claims are named by their
  -- interfaces, both by the claim webhook.
  pub record Outside (w w' : World) : Type 0 where
    pub keeps :
        (n : String) (s : EniClaimSpec)
        → specs w n ≡ some s
        → (specs w' n ≡ some s) ⊎ (specs w' n ≡ none)
    pub named : (n : String) (s : EniClaimSpec) → specs w' n ≡ some s → s.eni_id ≡ n

  pub data Step (s : State server) : State server → Type 0 where
    begin :
        (i : ℕ) (t : Thread)
        → s.threads i ≡ idle
        → Starts platform t
        → Step s (record s { threads = update s.threads i t })
    go_on :
        (i : ℕ) (lost : List String)
        → Loses s.world (turn server s.world (s.threads i)).0 lost
        → Step s (record {
          world = (turn server s.world (s.threads i)).0;
          threads = update s.threads i (turn server s.world (s.threads i)).1;
          grants = (turn server s.world (s.threads i)).2 ++ s.grants;
          gone = lost ++ s.gone;
        })
    outside :
        (w' : World) (lost : List String)
        → Outside s.world w'
        → Loses s.world w' lost
        → Step s (record s { world = w'; gone = lost ++ s.gone })

  pub data Reach (s : State server) : State server → Type 0 where
    here : Reach s s
    later : {t u : State server} → Reach s t → Step t u → Reach s u

  -- No thread runs, and nothing is given or gone yet.
  abbrev pub quiet_state : World → State server
  quiet_state w = record { world = w; threads = λ i. idle; grants = []; gone = [] }
