-- ===== src/System/Threads/Invariant.antt =====
-- What holds of all threads at any time.
use capa_eni_controller.Prelude.{String, ◌≡◌, Option, List, [], ◌∷◌, ◌++◌, subst}
use capa_eni_controller.Prelude.Lists.{All, All-imp}
use capa_eni_controller.Api.Meta.{AwsMachine}
use capa_eni_controller.Api.Claim.{EniClaimSpec}
use capa_eni_controller.Kube.Prog.{
  Op, Result, Error, ok, err, ret, call, Only, patch_aws_machine, Server,
}
use capa_eni_controller.Kube.Prog
use capa_eni_controller.Kube.History
use capa_eni_controller.Kube.History.{Event, did, Justified, Yields, gives, asked}
use capa_eni_controller.Kube.Platform.{Platform}
use capa_eni_controller.Controller.AwsMachine.Writes
use capa_eni_controller.Controller.AwsMachine.Writes.{
  IsBacked, IsWritten, with_claim, as_failed, without_pool, as_dynamic,
}
use capa_eni_controller.Controller.AwsMachine.Requests.{reconcile_machine-Justified}
use capa_eni_controller.System.Admitted.{Gains, default-Gains}
use capa_eni_controller.System.Threads.{
  Thread, idle, admitting, reconciling, tending, Grant, grants_of, written, turn, Starts, admission,
  machine_reconcile, claim_reconcile, pool_reconcile, Loses,
}
use capa_eni_controller.System.Threads.Specs.{IsSpecStore, IsNamed, Keeps, serve-Keeps, idle-Keeps}
use capa_eni_controller.System.Threads.Knowledge.{
  machine-IsProper, IsTended, claim_reconcile-IsTended, pool_reconcile-IsTended, written-All, Known,
  Known-empty, Known-keeps, Known-more,
}
use capa_eni_controller.System.Threads.Owned.{Owned, owner_kept, IsWritten-Owned, Gains-Owned}

module _ (platform : Platform) (server : Server)
    (specs : server.World → String → Option EniClaimSpec) where
  open server use {World, serve}

  -- A thread has been told what holds, and asks for what it may.
  abbrev pub Fits : List String → World → Thread → Type 0
  Fits gone w idle = Unit
  Fits gone w (admitting obj h rest) =
      Yields (Writes.MayAsk obj) (Gains platform obj) h rest
      × Known platform server specs gone w h
      × (obj.network_interfaces ≡ [])
  Fits gone w (reconciling m h rest) =
      Justified (Writes.MayAsk m) h rest
      × Known platform server specs gone w h
      × (m.network_interfaces ≡ [])
  Fits gone w (tending h rest) = Only IsTended rest

  pub thread_kept :
      (gone gone' : List String) (w w' : World) (t : Thread)
      → Keeps platform server specs gone w gone' w'
      → Fits gone w t
      → Fits gone' w' t
  thread_kept gone gone' w w' idle keeps f = tt
  thread_kept gone gone' w w' (admitting obj h rest) keeps (y, known, bare) =
      (y, Known-keeps platform server specs gone gone' w w' h keeps known, bare)
  thread_kept gone gone' w w' (reconciling m h rest) keeps (j, known, bare) =
      (j, Known-keeps platform server specs gone gone' w w' h keeps known, bare)
  thread_kept gone gone' w w' (tending h rest) keeps only = only

  pub Starts-Fits :
      (gone : List String) (w : World) (t : Thread) → Starts platform t → Fits gone w t
  Starts-Fits gone w _ (admission d ctx obj bare) =
      (default-Gains platform obj d ctx, Known-empty platform server specs gone w, bare)
  Starts-Fits gone w _ (machine_reconcile r m bare) =
      (reconcile_machine-Justified m platform r, Known-empty platform server specs gone w, bare)
  Starts-Fits gone w _ (claim_reconcile req) = claim_reconcile-IsTended req
  Starts-Fits gone w _ (pool_reconcile req) = pool_reconcile-IsTended req

  -- After a turn of a thread: what was there stays or is lost, the thread fits, and what it gives is
  -- owned.
  pub record Turned (gone : List String) (w : World) (lost : List String)
      (x : World × Thread × List Grant) : Type 0 where
    pub keeps : Keeps platform server specs gone w (lost ++ gone) x.0
    pub fits : Fits (lost ++ gone) x.0 x.1
    pub owned : All (Owned platform server specs (lost ++ gone) x.0) x.2

  ended :
      (gone lost : List String) (w : World) (given : List Grant)
      → All (Owned platform server specs (lost ++ gone) w) given
      → Turned gone w lost (w, idle, given)
  ended gone lost w given owned = record {
    keeps = idle-Keeps platform server specs gone lost w;
    fits = tt;
    owned = owned;
  }

  module _ (store : IsSpecStore server specs) where
    -- A request of the webhook or the controller for a machine, with its answer.
    module _ (m : AwsMachine) (gone lost : List String) (w : World) (h : List Event) (o : Op)
        (named : IsNamed server specs w) (known : Known platform server specs gone w h)
        (may : Writes.MayAsk m h o) (loses : Loses platform server specs w (serve o w).1 lost) where
      asked-Keeps : Keeps platform server specs gone w (lost ++ gone) (serve o w).1
      asked-Keeps =
          serve-Keeps platform server specs store o gone lost w (machine-IsProper m h o may) loses

      asked-Known :
          Known platform server specs (lost ++ gone) (serve o w).1 (did o (serve o w).0 ∷ h)
      asked-Known =
          Known-more platform server specs gone (lost ++ gone) o w h store named asked-Keeps known

      asked-Owned :
          m.network_interfaces ≡ []
          → All (Owned platform server specs (lost ++ gone) (serve o w).1) (written o)
      asked-Owned bare = written-All _ o λ b m' e.
          IsWritten-Owned platform server specs m (lost ++ gone) (serve o w).1 h
            (Known-keeps platform server specs gone (lost ++ gone) w (serve o w).1 h asked-Keeps
              known)
            m' bare (subst (Writes.MayAsk m h) e may).1

    pub turn-Turned :
        (gone lost : List String) (w : World) (t : Thread)
        → IsNamed server specs w
        → Fits gone w t
        → Loses platform server specs w (turn server w t).0 lost
        → Turned gone w lost (turn server w t)
    turn-Turned gone lost w idle named fits loses = ended gone lost w [] tt
    turn-Turned gone lost w (admitting obj h (ret (ok obj'))) named (gives q, known, bare) loses =
        ended gone lost w (grants_of obj') (
          All-imp _ _
            (λ g.
              owner_kept platform server specs gone (lost ++ gone) w w g
                (idle-Keeps platform server specs gone lost w))
            (grants_of obj') (Gains-Owned platform server specs obj gone w h known obj' bare q))
    turn-Turned gone lost w (admitting obj h (ret (err e))) named fits loses =
        ended gone lost w [] tt
    turn-Turned gone lost w (admitting obj h (call o k)) named (asked may next, known, bare) loses =
        record {
          keeps = asked-Keeps obj gone lost w h o named known may loses;
          fits = (next (serve o w).0, asked-Known obj gone lost w h o named known may loses, bare);
          owned = asked-Owned obj gone lost w h o named known may loses bare;
        }
    turn-Turned gone lost w (reconciling m h (ret x)) named fits loses = ended gone lost w [] tt
    turn-Turned gone lost w (reconciling m h (call o k)) named (History.asks may next, known, bare)
          loses =
        record {
          keeps = asked-Keeps m gone lost w h o named known may loses;
          fits = (next (serve o w).0, asked-Known m gone lost w h o named known may loses, bare);
          owned = asked-Owned m gone lost w h o named known may loses bare;
        }
    turn-Turned gone lost w (tending h (ret x)) named fits loses = ended gone lost w [] tt
    turn-Turned gone lost w (tending h (call o k)) named (Prog.asks may next) loses = record {
      keeps = serve-Keeps platform server specs store o gone lost w may.proper loses;
      fits = next (serve o w).0;
      owned = written-All _ o (λ b m e. absurd (may.leaves b m e));
    }
