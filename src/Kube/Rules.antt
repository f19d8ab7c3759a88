-- ===== src/Kube/Rules.antt =====
-- Rules for what programs request and return, one for each way to build a program.
use capa_eni_controller.Prelude.{String, ◌≡◌, refl, ◌∙◌, Bool, true, false, Option, if◌then◌else◌}
use capa_eni_controller.Api.Claim.{EniClaim}
use capa_eni_controller.Kube.Prog.{
  Op, Prog, ret, call, ok, err, Result, Error, Only, quiet, asks, IsRead, Server, run,
}
use capa_eni_controller.Kube.Go.{Go, ◌>>=◌}
use capa_eni_controller.Kube.ClaimStore.{IsClaimStore}

module _ {A B : Type 0} (P : Op → Type 0) where
  pub Only-bind : (m : Go A) (f : A → Go B) → Only P m → ((a : A) → Only P (f a)) → Only P (m >>= f)
  Only-bind (ret (ok a)) f h hf = hf a
  Only-bind (ret (err e)) f h hf = quiet (err e)
  Only-bind (call o k) f (asks p h) hf = asks p (λ r. Only-bind (k r) f (h r) hf)

module _ {A : Type 0} (P : Op → Type 0) where
  pub Only-if : (b : Bool) (m n : Prog A) → Only P m → Only P n → Only P (if b then m else n)
  Only-if true m n hm hn = hm
  Only-if false m n hm hn = hn

module _ {A : Type 0} (P Q : Op → Type 0) (imp : (o : Op) → P o → Q o) where
  pub Only-imp : (m : Prog A) → Only P m → Only Q m
  Only-imp (ret a) h = quiet a
  Only-imp (call o k) (asks p h) = asks (imp o p) (λ r. Only-imp (k r) (h r))

module _ (server : Server) {A B : Type 0} where
  open server use {World, serve}

  abbrev pub after : (A → Go B) → Result Error A → World → Result Error B × World
  after f (ok a) w = run server (f a) w
  after f (err e) w = (err e, w)

  -- A run of a sequence is a run of the first part and, without an error, of the second.
  pub run->>= :
      (m : Go A) (f : A → Go B) (w : World)
      → run server (m >>= f) w ≡ after f (run server m w).0 (run server m w).1
  run->>= (ret (ok a)) f w = refl
  run->>= (ret (err e)) f w = refl
  run->>= (call o k) f w = let (r, w') = serve o w in run->>= (k r) f w'

module _ {A : Type 0} (server : Server) (stored : server.World → String → Option EniClaim)
    (store : IsClaimStore server stored) where
  open server use {World, serve}

  -- A program that only reads leaves the claims alone.
  pub reads_keep :
      (m : Prog A) (w : World)
      → Only IsRead m
      → (n : String) → stored (run server m w).1 n ≡ stored w n
  reads_keep (ret a) w h n = refl
  reads_keep (call o k) w (asks p h) n =
      let (r, w') = serve o w in reads_keep (k r) w' (h r) n ∙ store.read_keeps o w p n
