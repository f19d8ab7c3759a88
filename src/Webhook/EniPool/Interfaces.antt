-- ===== src/Webhook/EniPool/Interfaces.antt =====
-- The test of a pool's own interfaces: it passes just when they are distinct IPv4 interfaces.
use capa_eni_controller.Prelude.{
  ℕ, String, ◌≡◌, ◌≢◌, refl, sym, ap, ◌⊎◌, inl, inr, ◌↔◌, true, false, Option, none, some, List, [],
  ◌∷◌, ◌==◌, if◌then◌else◌, arith, eq_iff, Bool-cases, subst,
}
use capa_eni_controller.Prelude.Lists.{All, Pairs}
use capa_eni_controller.Api.Pool.{EniReference}
use capa_eni_controller.Kube.Prog.{Result, ok, err, Error}
use capa_eni_controller.Netip.{Addr, v4, v6, parse_addr, is4, addr_eq}
use capa_eni_controller.Allocation.Order.{ip_key, ip_key_of, HasIpv4}
use capa_eni_controller.Webhook.EniPool.{
  has_text, has_addr, Wanted, check_interface, check_interfaces,
}

-- No member is `a`.
abbrev pub Lacks : {A : Type 0} → A → List A → Type 0
Lacks a xs = All (λ x. x ≢ a) xs

pub has_text-Lacks : (s : String) (xs : List String) → has_text s xs ≡ false → Lacks s xs
unfolding has_text
has_text-Lacks s [] h = tt
has_text-Lacks s (x ∷ xs) h = (λ e. ground (arith, eq_iff x s), has_text-Lacks s xs (ground arith))

pub Lacks-has_text : (s : String) (xs : List String) → Lacks s xs → has_text s xs ≡ false
unfolding has_text
Lacks-has_text s [] h = refl
Lacks-has_text s (x ∷ xs) h = ground (arith, eq_iff x s, h.0, Lacks-has_text s xs h.1)

addr_eq-v4 : (a : Addr) (n : ℕ) → (addr_eq a (v4 n) ≡ true) ↔ (a ≡ v4 n)
unfolding addr_eq
addr_eq-v4 (v4 m) n = (λ h. ground arith, λ e. ground arith)
addr_eq-v4 (v6 m z) n = (λ h. cc, λ e. cc)

has_addr-Lacks : (n : ℕ) (xs : List Addr) → has_addr (v4 n) xs ≡ false → Lacks (v4 n) xs
unfolding has_addr
has_addr-Lacks n [] h = tt
has_addr-Lacks n (x ∷ xs) h =
    (λ e. ground (arith, addr_eq-v4 x n), has_addr-Lacks n xs (ground arith))

Lacks-has_addr : (n : ℕ) (xs : List Addr) → Lacks (v4 n) xs → has_addr (v4 n) xs ≡ false
unfolding has_addr
Lacks-has_addr n [] h = refl
Lacks-has_addr n (x ∷ xs) h = ground (arith, addr_eq-v4 x n, h.0, Lacks-has_addr n xs h.1)

v4-injective : {m n : ℕ} → v4 m ≡ v4 n → m ≡ n
v4-injective e = cc

-- The interface may follow those that `w` has collected.
pub record Fresh (w : Wanted) (r : EniReference) : Type 0 where
  pub id : Lacks r.id w.ids
  pub ipv4 : HasIpv4 r
  pub ip : Lacks (v4 (ip_key r)) w.ips
  pub key : (r.key ≡ "") ⊎ Lacks r.key w.keys

-- Two interfaces of a pool differ in all that names them; the key may be missing.
pub record Differ (q r : EniReference) : Type 0 where
  pub id : q.id ≢ r.id
  pub ip : ip_key q ≢ ip_key r
  pub key : (r.key ≡ "") ⊎ (q.key ≢ r.key)

abbrev pub add : Wanted → EniReference → Wanted
add w r = record {
  ids = r.id ∷ w.ids;
  ips = v4 (ip_key r) ∷ w.ips;
  keys = if r.key == "" then w.keys else r.key ∷ w.keys;
}

check_interface-ok :
    (w : Wanted) (r : EniReference) → Fresh w r → check_interface w r ≡ ok (add w r)
unfolding check_interface
check_interface-ok w r f = ground (
  arith,
  f.ipv4.1,
  ip_key_of r f.ipv4.0 f.ipv4.1,
  Lacks-has_text r.id w.ids f.id,
  Lacks-has_addr (ip_key r) w.ips f.ip,
  eq_iff r.key "",
  Lacks-has_text r.key w.keys,
)

-- An address text is refused, an IPv4 address, or another address.
abbrev Ipv4Cases : Option Addr → Type 0
Ipv4Cases o =
    ((bits : ℕ) × (o ≡ some (v4 bits)))
    ⊎ ((o ≡ none) ⊎ ((a : Addr) × (o ≡ some a) × (is4 a ≡ false)))

ipv4_cases : (o : Option Addr) → Ipv4Cases o
ipv4_cases none = inr (inl refl)
ipv4_cases (some (v4 bits)) = inl (bits, refl)
ipv4_cases (some (v6 bits zone)) = inr (inr (v6 bits zone, refl, refl))

module _ (w w' : Wanted) (r : EniReference) (e : check_interface w r ≡ ok w') where
  passed_id : has_text r.id w.ids ≡ false
  unfolding check_interface
  passed_id = ground arith

  passed_ipv4 : HasIpv4 r
  unfolding check_interface
  passed_ipv4 = elim (ipv4_cases (parse_addr r.private_ip)) [
    | inl four ↦ four
    | inr (inl p) ↦ absurd (ground arith)
    | inr (inr (a, p, n)) ↦ absurd (ground arith)
  ]

  passed_ip : has_addr (v4 passed_ipv4.0) w.ips ≡ false
  unfolding check_interface
  passed_ip = ground (arith, passed_ipv4.1)

  passed_key : (r.key ≡ "") ⊎ (has_text r.key w.keys ≡ false)
  unfolding check_interface
  passed_key = elim (Bool-cases (r.key == "")) [
    | inl k ↦ inl ((eq_iff r.key "").0 k)
    | inr k ↦ inr (ground (arith, passed_ipv4.1))
  ]

  passed_result : w' ≡ add w r
  unfolding check_interface
  passed_result =
      ground (arith, passed_ipv4.1, ip_key_of r passed_ipv4.0 passed_ipv4.1, eq_iff r.key "")

  check_interface-inv : Fresh w r × (w' ≡ add w r)
  check_interface-inv = (
    record {
      id = has_text-Lacks r.id w.ids passed_id;
      ipv4 = passed_ipv4;
      ip =
          subst (λ n. Lacks (v4 n) w.ips) (sym (ip_key_of r passed_ipv4.0 passed_ipv4.1))
            (has_addr-Lacks passed_ipv4.0 w.ips passed_ip);
      key = elim passed_key [ inl k ↦ inl k | inr k ↦ inr (has_text-Lacks r.key w.keys k) ];
    },
    passed_result,
  )

-- The collected keys after an interface with key `rk`.
abbrev KeyFresh : String → List String → Type 0
KeyFresh qk ks = (qk ≡ "") ⊎ Lacks qk ks

abbrev with_key : String → List String → List String
with_key rk ks = if rk == "" then ks else rk ∷ ks

key_apart :
    (rk qk : String) (ks : List String)
    → KeyFresh qk (with_key rk ks)
    → KeyFresh qk ks × ((qk ≡ "") ⊎ (rk ≢ qk))
key_apart rk qk ks (inl e) = (inl e, inl e)
key_apart rk qk ks (inr h) = elim (Bool-cases (rk == "")) [
  | inr k ↦ let h' : Lacks qk (rk ∷ ks) = rw k at h in (inr h'.1, inr h'.0)
  | inl k ↦
      let h' : Lacks qk ks = rw k at h in
      elim (Bool-cases (qk == "")) [
        | inl q ↦ (inr h', inl ((eq_iff qk "").0 q))
        | inr q ↦ (inr h', inr (λ e. ground (arith, eq_iff qk "", eq_iff rk "")))
      ]
]

key_joined :
    (rk qk : String) (ks : List String)
    → KeyFresh qk ks
    → (qk ≡ "") ⊎ (rk ≢ qk)
    → KeyFresh qk (with_key rk ks)
key_joined rk qk ks (inl e) d = inl e
key_joined rk qk ks (inr h) (inl e) = inl e
key_joined rk qk ks (inr h) (inr d) = elim (Bool-cases (rk == "")) [
  | inl k ↦ inr (rw k h)
  | inr k ↦ inr (rw k (d, h))
]

-- An interface may follow `r` and those before it when it may follow those and differs from `r`.
Fresh-add : (w : Wanted) (r q : EniReference) → Fresh (add w r) q ↔ (Fresh w q × Differ r q)
Fresh-add w r q = (apart, joined)
  where
    apart : Fresh (add w r) q → Fresh w q × Differ r q
    apart f = (
      record {
        id = f.id.1;
        ipv4 = f.ipv4;
        ip = f.ip.1;
        key = (key_apart r.key q.key w.keys f.key).0;
      },
      record {
        id = f.id.0;
        ip = λ e. f.ip.0 (ap v4 e);
        key = (key_apart r.key q.key w.keys f.key).1;
      },
    )

    joined : Fresh w q × Differ r q → Fresh (add w r) q
    joined (f, d) = record {
      id = (d.id, f.id);
      ipv4 = f.ipv4;
      ip = (λ e. d.ip (v4-injective e), f.ip);
      key = key_joined r.key q.key w.keys f.key d.key;
    }

-- Everything that the loop collects.
abbrev pub added : Wanted → List EniReference → Wanted
added w [] = w
added w (r ∷ rest) = added (add w r) rest

All-Fresh-add :
    (w : Wanted) (r : EniReference) (qs : List EniReference)
    → All (Fresh (add w r)) qs ↔ (All (Fresh w) qs × All (Differ r) qs)
All-Fresh-add w r [] = (λ h. (tt, tt), λ h. tt)
All-Fresh-add w r (q ∷ qs) =
    let rest = All-Fresh-add w r qs in
    (
      (λ h.
          let (f, d) = (Fresh-add w r q).0 h.0 in let (fs, ds) = rest.0 h.1 in ((f, fs), (d, ds))),
      (λ h. ((Fresh-add w r q).1 (h.0.0, h.1.0), rest.1 (h.0.1, h.1.1))),
    )

pub check_interfaces-ok :
    (w : Wanted) (rs : List EniReference)
    → All (Fresh w) rs
    → Pairs Differ rs
    → check_interfaces w rs ≡ ok (added w rs)
unfolding check_interfaces
check_interfaces-ok w [] f d = refl
check_interfaces-ok w (r ∷ rs) f d =
    rw (check_interface-ok w r f.0, check_interfaces)
      (check_interfaces-ok (add w r) rs ((All-Fresh-add w r rs).1 (f.1, d.0)) d.1)

pub check_interfaces-inv :
    (rs : List EniReference) (w w' : Wanted)
    → check_interfaces w rs ≡ ok w'
    → All (Fresh w) rs × Pairs Differ rs × (w' ≡ added w rs)
unfolding check_interfaces
check_interfaces-inv [] w w' e = (tt, tt, cc)
check_interfaces-inv (r ∷ rs) w w' e = go (check_interface w r) refl e (check_interfaces-inv rs)
  where
    go :
        (c : Result Error Wanted)
        → check_interface w r ≡ c
        → (elim c [ err x ↦ err x | ok v ↦ check_interfaces v rs ]) ≡ ok w'
        → ((v v' : Wanted)
            → check_interfaces v rs ≡ ok v'
            → All (Fresh v) rs × Pairs Differ rs × (v' ≡ added v rs))
        → All (Fresh w) (r ∷ rs) × Pairs Differ (r ∷ rs) × (w' ≡ added w (r ∷ rs))
    go (err x) h k rec = absurd (cc k)
    go (ok v) h k rec =
        let (f, same) = check_interface-inv w v r h in
        let (fs, ds, e') = rec (add w r) w' (subst (λ u. check_interfaces u rs ≡ ok w') same k) in
        let (old, differ) = (All-Fresh-add w r rs).0 fs in ((f, old), (differ, ds), e')
