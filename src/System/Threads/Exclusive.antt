-- ===== src/System/Threads/Exclusive.antt =====
-- However the handlers interleave, a machine is given only the interface of its own claim.
use capa_eni_controller.Prelude.{
  ℕ, String, ◌≡◌, sym, ◌∙◌, inl, inr, Option, some, List, ◌++◌, nat_eq, Bool, true, false,
  if◌then◌else◌,
}
use capa_eni_controller.Prelude.Lists.{In, All, All-In, All-imp, All-append}
use capa_eni_controller.Api.Claim.{NamespacedObjectReference, EniClaimSpec}
use capa_eni_controller.Kube.Prog.{Server}
use capa_eni_controller.Kube.Platform.{Platform}
use capa_eni_controller.System.Acquired.{owner_of}
use capa_eni_controller.System.Threads.{
  Thread, turn, State, update, Step, begin, go_on, outside, Reach, here, later, quiet_state,
}
use capa_eni_controller.System.Threads.Specs.{IsSpecStore, IsNamed, Keeps, others_keep}
use capa_eni_controller.System.Threads.Owned.{Owned, owner_kept}
use capa_eni_controller.System.Threads.Invariant.{Fits, thread_kept, Starts-Fits, turn-Turned}

module _ (platform : Platform) (server : Server)
    (specs : server.World → String → Option EniClaimSpec) (store : IsSpecStore server specs) where
  open server use {World, serve}

  record Inv (s : State server) : Type 0 where
    named : IsNamed server specs s.world
    fits : (i : ℕ) → Fits platform server specs s.gone s.world (s.threads i)
    owned : All (Owned platform server specs s.gone s.world) s.grants

  by_test : (P : Thread → Type 0) (b : Bool) (t u : Thread) → P t → P u → P (if b then t else u)
  by_test P true t u pt pu = pt
  by_test P false t u pt pu = pu

  update-All :
      (P : Thread → Type 0) (threads : ℕ → Thread) (i : ℕ) (t : Thread)
      → P t
      → ((j : ℕ) → P (threads j))
      → (j : ℕ) → P (update threads i t j)
  update-All P threads i t now rest j = by_test P (nat_eq i j) t (threads j) now (rest j)

  -- Threads and grants over a change of the world.
  module _ (s : State server) (inv : Inv s) (gone' : List String) (w' : World)
      (keeps : Keeps platform server specs s.gone s.world gone' w') where
    threads_kept : (i : ℕ) → Fits platform server specs gone' w' (s.threads i)
    threads_kept i =
        thread_kept platform server specs s.gone gone' s.world w' (s.threads i) keeps (inv.fits i)

    grants_kept : All (Owned platform server specs gone' w') s.grants
    grants_kept =
        All-imp _ _ (λ g. owner_kept platform server specs s.gone gone' s.world w' g keeps) s.grants
          inv.owned

  Step-Inv : (s t : State server) → Step platform server specs s t → Inv s → Inv t
  Step-Inv s _ (begin i t was starts) inv = record {
    named = inv.named;
    fits =
        update-All (Fits platform server specs s.gone s.world) s.threads i t
          (Starts-Fits platform server specs s.gone s.world t starts) inv.fits;
    owned = inv.owned;
  }
  Step-Inv s _ (go_on i lost loses) inv =
      let now =
        turn-Turned platform server specs store s.gone lost s.world (s.threads i) inv.named
          (inv.fits i) loses in
      record {
        named = now.keeps.named inv.named;
        fits =
            update-All
              (Fits platform server specs (lost ++ s.gone) (turn server s.world (s.threads i)).0)
              s.threads i (turn server s.world (s.threads i)).1 now.fits
              (threads_kept s inv (lost ++ s.gone) _ now.keeps);
        owned =
            All-append _ (turn server s.world (s.threads i)).2 s.grants now.owned
              (grants_kept s inv (lost ++ s.gone) _ now.keeps);
      }
  Step-Inv s _ (outside w' lost out loses) inv =
      let keeps = others_keep platform server specs s.gone lost s.world w' out loses in
      record {
        named = keeps.named inv.named;
        fits = threads_kept s inv (lost ++ s.gone) w' keeps;
        owned = grants_kept s inv (lost ++ s.gone) w' keeps;
      }

  Reach-Inv : (s t : State server) → Reach platform server specs s t → Inv s → Inv t
  Reach-Inv s _ here inv = inv
  Reach-Inv s u (later {t = t} r step) inv = Step-Inv t u step (Reach-Inv s t r inv)

  -- However admissions and reconciles of machines without interfaces, and reconciles of claims and
  -- pools, interleave, request by request, with each other and with what others do, from a world whose
  -- claims are named by their interfaces: where an interface was given to two machines and none of its
  -- claims has gone, the two are the same machine, and the interface's claim names it. Over a server
  -- that keeps the specifications of claims, creates a claim once per name, and lists what is stored,
  -- and others who keep a claim's specification or remove it, and name claims by their interfaces.
  pub Reach-exclusive :
      (w : World) (s : State server) (a b : NamespacedObjectReference) (id : String)
      → IsNamed server specs w
      → Reach platform server specs (quiet_state platform server specs w) s
      → In (a, id) s.grants
      → In (b, id) s.grants
      → ¬ In id s.gone
      → (a ≡ b) × (owner_of (specs s.world id) ≡ some a)
  Reach-exclusive w s a b id named reach ia ib stays =
      let inv = Reach-Inv _ s reach (record { named = named; fits = λ i. tt; owned = tt }) in
      let own_a = still (All-In _ s.grants (a, id) inv.owned ia) in
      let own_b = still (All-In _ s.grants (b, id) inv.owned ib) in (cc (sym own_a ∙ own_b), own_a)
    where
      still :
          {c : NamespacedObjectReference}
          → Owned platform server specs s.gone s.world (c, id)
          → owner_of (specs s.world id) ≡ some c
      still (inl e) = e
      still (inr i) = absurd (stays i)
