-- ===== src/System/Threads/Specs.antt =====
-- What a request does to the specifications of the claims.
use capa_eni_controller.Prelude.{
  String, ◌≡◌, sym, ◌∙◌, ap, ◌⊎◌, inl, inr, Option, none, some, List, [], ◌∷◌, ◌++◌,
}
use capa_eni_controller.Prelude.Lists.{In}
use capa_eni_controller.Api.Claim.{EniClaimSpec, EniClaim}
use capa_eni_controller.Kube.Prog.{Op, ok, create_claim, patch_claim, list_claims, Server}
use capa_eni_controller.Kube.Platform.{Platform}
use capa_eni_controller.System.Threads.{Loses, Outside}

-- A claim is created under the name of its interface, and a patch keeps name and specification.
pub record IsProper (o : Op) : Type 0 where
  pub creates : (c : EniClaim) → o ≡ create_claim c → c.spec.eni_id ≡ c.name
  pub patches : (b c : EniClaim) → o ≡ patch_claim b c → (c.name ≡ b.name) × (c.spec ≡ b.spec)

-- What may become of the claim under a name: it keeps its specification, goes, or is created.
pub data Change (o : Op) (n : String) (before after : Option EniClaimSpec) : Type 0 where
  same : after ≡ before → Change o n before after
  goes : after ≡ none → Change o n before after
  made :
      (c : EniClaim)
      → o ≡ create_claim c
      → c.name ≡ n
      → before ≡ none
      → after ≡ some c.spec
      → Change o n before after

module _ (server : Server) (specs : server.World → String → Option EniClaimSpec) where
  open server use {World, serve}

  -- The API server with the claim webhook: specifications do not change, a creation is atomic on the
  -- name, and a list has the claims that are stored.
  pub record IsSpecStore : Type 0 where
    pub changes :
        (o : Op) (w : World) (n : String)
        → IsProper o
        → Change o n (specs w n) (specs (serve o w).1 n)
    pub created :
        (c c' : EniClaim) (w w' : World)
        → serve (create_claim c) w ≡ (ok c', w')
        → (c'.spec ≡ c.spec) × (specs w' c.name ≡ some c.spec)
    pub listed :
        (w w' : World) (cs : List EniClaim) (c : EniClaim)
        → serve list_claims w ≡ (ok cs, w')
        → In c cs
        → specs w c.name ≡ some c.spec

  abbrev pub IsNamed : World → Type 0
  IsNamed w = (n : String) (s : EniClaimSpec) → specs w n ≡ some s → s.eni_id ≡ n

  -- The claim under the name has the specification, or one under that name has gone.
  abbrev pub Stays : List String → World → String → EniClaimSpec → Type 0
  Stays gone w n s = (specs w n ≡ some s) ⊎ In n gone

pub In-append_left : {A : Type 0} (a : A) (xs ys : List A) → In a xs → In a (xs ++ ys)
In-append_left a [] ys i = absurd i
In-append_left a (x ∷ xs) ys (inl e) = inl e
In-append_left a (x ∷ xs) ys (inr i) = inr (In-append_left a xs ys i)

pub In-append_right : {A : Type 0} (a : A) (xs ys : List A) → In a ys → In a (xs ++ ys)
In-append_right a [] ys i = i
In-append_right a (x ∷ xs) ys i = inr (In-append_right a xs ys i)

some_ne_none : (s : EniClaimSpec) → some s ≡ none → ⊥
some_ne_none s e = cc

some-inj : (s t : EniClaimSpec) → some s ≡ some t → s ≡ t
some-inj s t e = cc

module _ (platform : Platform) (server : Server)
    (specs : server.World → String → Option EniClaimSpec) where
  open server use {World, serve}

  -- A change of the world that keeps what it does not lose.
  pub record Keeps (gone : List String) (w : World) (gone' : List String) (w' : World)
      : Type 0 where
    pub stays :
        (n : String) (s : EniClaimSpec)
        → Stays server specs gone w n s
        → Stays server specs gone' w' n s
    pub named : IsNamed server specs w → IsNamed server specs w'
    pub lasts : (n : String) → In n gone → In n gone'

  Change-Stays :
      (o : Op) (n : String) (s : EniClaimSpec) (gone lost : List String) (w w' : World)
      → Loses platform server specs w w' lost
      → Change o n (specs w n) (specs w' n)
      → Stays server specs gone w n s
      → Stays server specs (lost ++ gone) w' n s
  Change-Stays o n s gone lost w w' loses change (inr i) = inr (In-append_right n lost gone i)
  Change-Stays o n s gone lost w w' loses (same a) (inl e) = inl (a ∙ e)
  Change-Stays o n s gone lost w w' loses (goes a) (inl e) =
      inr (In-append_left n lost gone (loses.covers n s e a))
  Change-Stays o n s gone lost w w' loses (made c created here free now) (inl e) =
      absurd (some_ne_none s (sym e ∙ free))

  Change-named :
      (o : Op) (n : String) (s : EniClaimSpec) (w w' : World)
      → IsProper o
      → Change o n (specs w n) (specs w' n)
      → IsNamed server specs w
      → specs w' n ≡ some s
      → s.eni_id ≡ n
  Change-named o n s w w' proper (same a) named e = named n s (sym a ∙ e)
  Change-named o n s w w' proper (goes a) named e = absurd (some_ne_none s (sym e ∙ a))
  Change-named o n s w w' proper (made c created here free now) named e =
      ap (λ t. t.eni_id) (some-inj s c.spec (sym e ∙ now)) ∙ proper.creates c created ∙ here

  module _ (store : IsSpecStore server specs) where
    pub serve-Keeps :
        (o : Op) (gone lost : List String) (w : World)
        → IsProper o
        → Loses platform server specs w (serve o w).1 lost
        → Keeps gone w (lost ++ gone) (serve o w).1
    serve-Keeps o gone lost w proper loses = record {
      stays =
          λ n s. Change-Stays o n s gone lost w (serve o w).1 loses (store.changes o w n proper);
      named =
          λ named n s. Change-named o n s w (serve o w).1 proper (store.changes o w n proper) named;
      lasts = λ n i. In-append_right n lost gone i;
    }

  -- Where the world is the same, nothing that was there has gone.
  pub idle-Keeps : (gone lost : List String) (w : World) → Keeps gone w (lost ++ gone) w
  idle-Keeps gone lost w = record {
    stays = λ n s. stays n s;
    named = λ h. h;
    lasts = λ n i. In-append_right n lost gone i;
  }
    where
      stays :
          (n : String) (s : EniClaimSpec)
          → Stays server specs gone w n s
          → Stays server specs (lost ++ gone) w n s
      stays n s (inl e) = inl e
      stays n s (inr i) = inr (In-append_right n lost gone i)

  pub others_keep :
      (gone lost : List String) (w w' : World)
      → Outside platform server specs w w'
      → Loses platform server specs w w' lost
      → Keeps gone w (lost ++ gone) w'
  others_keep gone lost w w' out loses = record {
    stays = λ n s. stays n s;
    named = λ named. out.named;
    lasts = λ n i. In-append_right n lost gone i;
  }
    where
      stays :
          (n : String) (s : EniClaimSpec)
          → Stays server specs gone w n s
          → Stays server specs (lost ++ gone) w' n s
      stays n s (inr i) = inr (In-append_right n lost gone i)
      stays n s (inl e) = elim (out.keeps n s e) [
        | inl k ↦ inl k
        | inr g ↦ inr (In-append_left n lost gone (loses.covers n s e g))
      ]
