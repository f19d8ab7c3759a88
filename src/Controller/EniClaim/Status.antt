-- ===== src/Controller/EniClaim/Status.antt =====
-- The status of a claim.
use capa_eni_controller.Prelude.{
  ◌*◌, ◌≡◌, ◌≢◌, String, ◌∙◌, ap, inl, inr, List, [], ◌∷◌, eq_refl, eq_false_of_ne, subst, arith,
  eq_iff, false, not, ◌||◌, ◌==◌,
}
use capa_eni_controller.Prelude.Lists.{All-In, In, Pairs}
use capa_eni_controller.Api.Claim.{EniClaim, eni_claim_phase_bound}
use capa_eni_controller.Api.Pool.{EniReference, EniPool}
use capa_eni_controller.Kube.Prog.{Op, update_claim_status, IsRead}
use capa_eni_controller.Kube.Go.{Go, ReconcileResult, pure}
use capa_eni_controller.Netip.{parse_addr}
use capa_eni_controller.Allocation.Order.{HasIpv4}
use capa_eni_controller.Webhook.EniPool.Interfaces.{Differ}
use capa_eni_controller.Webhook.EniPool.Validity.{IsValid}
use capa_eni_controller.Controller.AwsMachine.{second}
use capa_eni_controller.Controller.EniClaim.{
  configured_ip, configured_private_ip, phase_of, update_status,
}

abbrev next_look : Go ReconcileResult
next_look = pure (record { requeue_after = 300 * second })

-- A request is a read, or writes a status of the claim at which the reconciler stops.
abbrev pub Settles : EniClaim → EniPool → Op → Type 0
Settles claim pool (update_claim_status d) =
    (d ≡ record claim { status = d.status }) × (update_status d pool ≡ next_look)
Settles claim pool o = IsRead o

pub not_stale :
    (phase wanted ip configured : String)
    → (not (phase == wanted) || not (ip == configured)) ≡ false
    → (phase ≡ wanted) × (ip ≡ configured)
not_stale phase wanted ip configured h =
    (ground (arith, eq_iff phase wanted), ground (arith, eq_iff ip configured))

abbrev pub IsRight : EniClaim → String → Type 0
IsRight claim ip = (claim.status.phase ≡ phase_of ip) × (claim.status.private_ip ≡ ip)

configured_ip-In :
    (rs : List EniReference) (r : EniReference)
    → Pairs Differ rs
    → In r rs
    → configured_ip rs r.id ≡ r.private_ip
unfolding configured_ip
configured_ip-In [] r d i = absurd i
configured_ip-In (q ∷ rs) r d (inl e) =
    subst (λ (x : EniReference). configured_ip (q ∷ rs) x.id ≡ x.private_ip) e
      (rw (eq_refl q.id, configured_ip))
configured_ip-In (q ∷ rs) r d (inr i) =
    let apart : q.id ≢ r.id = (All-In (Differ q) rs r d.0 i).id in
    rw (eq_false_of_ne q.id r.id apart, configured_ip) (configured_ip-In rs r d.1 i)

nonempty : (r : EniReference) → HasIpv4 r → r.private_ip ≢ ""
unfolding parse_addr
nonempty r h e = cc (ap parse_addr e, h.1)

-- In a pool that the webhook admits, the claim of one of its interfaces gets the address declared for
-- that interface, and the phase Bound.
pub phase_of-IsValid :
    (pool : EniPool) (r : EniReference) (claim : EniClaim)
    → IsValid pool
    → In r pool.spec.interfaces
    → claim.spec.eni_id ≡ r.id
    → (configured_private_ip pool claim.spec.eni_id ≡ r.private_ip)
      × (phase_of (configured_private_ip pool claim.spec.eni_id) ≡ eni_claim_phase_bound)
unfolding configured_private_ip phase_of
phase_of-IsValid pool r claim v i e =
    let ip : configured_ip pool.spec.interfaces claim.spec.eni_id ≡ r.private_ip =
      ap (configured_ip pool.spec.interfaces) e
      ∙ configured_ip-In pool.spec.interfaces r v.distinct i in
    (ip, rw (ip, eq_false_of_ne r.private_ip "" (nonempty r (All-In HasIpv4 _ r v.ipv4 i))))
