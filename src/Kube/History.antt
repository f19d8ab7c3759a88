-- ===== src/Kube/History.antt =====
-- What a program may request after what has been answered.
use capa_eni_controller.Prelude.{List, ◌∷◌, Bool, true, false, ◌≡◌, refl, if◌then◌else◌, inr}
use capa_eni_controller.Prelude.Lists.{In}
use capa_eni_controller.Kube.Prog.{Op, Response, Prog, ret, call, Result, ok, err, Error}
use capa_eni_controller.Kube.Go.{Go, ◌>>=◌}

-- A request and its answer.
pub data Event : Type 0 where
  did : (o : Op) → Response o → Event

-- Each request satisfies `P` with the answers before it, the latest first.
pub data Justified {A : Type 0} (P : List Event → Op → Type 0) : List Event → Prog A → Type 0 where
  quiet : {h : List Event} (a : A) → Justified P h (ret a)
  asks :
      {h : List Event} {o : Op} {k : Response o → Prog A}
      → P h o
      → ((r : Response o) → Justified P (did o r ∷ h) (k r))
      → Justified P h (call o k)

module _ {A : Type 0} (P : List Event → Op → Type 0) where
  pub Justified-if :
      {h : List Event} (b : Bool) (m n : Prog A)
      → (b ≡ true → Justified P h m)
      → (b ≡ false → Justified P h n)
      → Justified P h (if b then m else n)
  Justified-if true m n hm hn = hm refl
  Justified-if false m n hm hn = hn refl

-- What has been answered stays answered.
abbrev pub Extends : List Event → List Event → Type 0
Extends h h' = (e : Event) → In e h → In e h'

-- Each request satisfies `P` with the answers before it, and the result satisfies `Q` with all of them.
pub data Yields {A : Type 0} (P : List Event → Op → Type 0) (Q : List Event → A → Type 0)
    : List Event → Prog A → Type 0 where
  gives : {h : List Event} {a : A} → Q h a → Yields P Q h (ret a)
  asked :
      {h : List Event} {o : Op} {k : Response o → Prog A}
      → P h o
      → ((r : Response o) → Yields P Q (did o r ∷ h) (k r))
      → Yields P Q h (call o k)

module _ {A B : Type 0} (P : List Event → Op → Type 0) (Q : List Event → Result Error A → Type 0)
    (f : A → Go B) where
  -- A sequence: what follows may use the first result, and all that has been answered before.
  pub Justified-bind :
      (h : List Event) (m : Go A)
      → Yields P Q h m
      → ((h' : List Event) (a : A) → Extends h h' → Q h' (ok a) → Justified P h' (f a))
      → Justified P h (m >>= f)
  Justified-bind h (ret (ok a)) (gives q) next = next h a (λ e i. i) q
  Justified-bind h (ret (err e)) (gives q) next = quiet (err e)
  Justified-bind h (call o k) (asked p y) next = asks p (λ r.
      Justified-bind (did o r ∷ h) (k r) (y r) (λ h' a more q. next h' a (λ e i. more e (inr i)) q))

-- The rules for results: a test, a sequence whose errors end it, and results that say less.
module _ {A : Type 0} (P : List Event → Op → Type 0) (Q : List Event → A → Type 0) where
  pub Yields-if :
      {h : List Event} (b : Bool) (m n : Prog A)
      → (b ≡ true → Yields P Q h m)
      → (b ≡ false → Yields P Q h n)
      → Yields P Q h (if b then m else n)
  Yields-if true m n hm hn = hm refl
  Yields-if false m n hm hn = hn refl

module _ {A B : Type 0} (P : List Event → Op → Type 0) (Q : List Event → Result Error A → Type 0)
    (R : List Event → Result Error B → Type 0)
    (fails : (h : List Event) (e : Error) → Q h (err e) → R h (err e)) (f : A → Go B) where
  pub Yields-bind :
      (h : List Event) (m : Go A)
      → Yields P Q h m
      → ((h' : List Event) (a : A) → Q h' (ok a) → Yields P R h' (f a))
      → Yields P R h (m >>= f)
  Yields-bind h (ret (ok a)) (gives q) next = next h a q
  Yields-bind h (ret (err e)) (gives q) next = gives (fails h e q)
  Yields-bind h (call o k) (asked p y) next =
      asked p (λ r. Yields-bind (did o r ∷ h) (k r) (y r) next)

-- A result that says more, and what has been answered on the way.
module _ {A : Type 0} (P : List Event → Op → Type 0) (Q R : List Event → A → Type 0)
    (imp : (h : List Event) (a : A) → Q h a → R h a) where
  pub Yields-imp : {h : List Event} {p : Prog A} → Yields P Q h p → Yields P R h p
  Yields-imp (gives q) = gives (imp _ _ q)
  Yields-imp (asked p y) = asked p (λ r. Yields-imp (y r))

module _ {A : Type 0} (P : List Event → Op → Type 0) (Q : List Event → A → Type 0) where
  pub Yields-more :
      (h : List Event) (p : Prog A) → Yields P Q h p → Yields P (λ h' a. Extends h h' × Q h' a) h p
  Yields-more h _ (gives q) = gives ((λ e i. i), q)
  Yields-more h _ (asked {o = o} {k = k} p y) = asked p λ r.
      Yields-imp P (λ h' a. Extends (did o r ∷ h) h' × Q h' a) (λ h' a. Extends h h' × Q h' a)
        (λ h' a x. ((λ e i. x.0 e (inr i)), x.1)) (Yields-more (did o r ∷ h) (k r) (y r))

module _ {A : Type 0} (P : List Event → Op → Type 0) (Q R : List Event → A → Type 0) where
  pub Yields-and :
      (h : List Event) (p : Prog A)
      → Yields P Q h p
      → Yields P R h p
      → Yields P (λ h' a. Q h' a × R h' a) h p
  Yields-and h _ (gives q) (gives r) = gives (q, r)
  Yields-and h _ (asked {o = o} {k = k} p y) (asked p' z) =
      asked p (λ r. Yields-and (did o r ∷ h) (k r) (y r) (z r))

pub Yields-allowed :
    {A : Type 0} (P P' : List Event → Op → Type 0) (Q : List Event → A → Type 0)
    → ((h : List Event) (o : Op) → P h o → P' h o)
    → {h : List Event} {p : Prog A} → Yields P Q h p
    → Yields P' Q h p
Yields-allowed P P' Q imp (gives q) = gives q
Yields-allowed P P' Q imp (asked p y) = asked (imp _ _ p) (λ r. Yields-allowed P P' Q imp (y r))
