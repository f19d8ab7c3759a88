-- ===== src/Tests/Threads.antt =====
-- Two machines that are admitted at the same time.
use capa_eni_controller.Prelude.{
  ℕ, ◌≡◌, refl, sym, ◌∙◌, inl, inr, none, some, List, [], ◌∷◌, ◌++◌, true, ◌==◌, Bool-cases, subst,
}
use capa_eni_controller.Prelude.Lists.{In}
use capa_eni_controller.Api.Meta.{AwsMachine}
use capa_eni_controller.Api.Claim.{EniClaimSpec, EniClaim}
use capa_eni_controller.Api.Meta.{get, lookup}
use capa_eni_controller.Allocation.{
  find_pool, resolve_interface_key, reserve, private_ip_lt, new_claim,
}
use capa_eni_controller.Sort.{sort_slice}
use capa_eni_controller.Netip.{parse_addr, compare_addr}
use capa_eni_controller.Webhook.AwsMachine.{
  AwsMachineCustomDefaulter, Context, default, allocate, resolve_cluster_network, is_dry_run,
  allocated,
}
use capa_eni_controller.System.Acquired.{who, owner_of}
use capa_eni_controller.System.Threads.{
  State, turn, update, begin, go_on, Reach, here, later, idle, admitting, quiet_state, admission,
  Loses,
}
use capa_eni_controller.System.Threads.Exclusive.{Reach-exclusive}
use capa_eni_controller.Tests.Memory.{World, platform, created}
use capa_eni_controller.Tests.Memory.Kept.{kept, specs, spec_store}
use capa_eni_controller.Tests.Data.{machine, world}

abbrev second_machine : AwsMachine
second_machine = record machine { name = "worker-fghij" }

-- A thread goes on, and no claim goes.
abbrev next : ℕ → State kept → State kept
next i s = record {
  world = (turn kept s.world (s.threads i)).0;
  threads = update s.threads i (turn kept s.world (s.threads i)).1;
  grants = (turn kept s.world (s.threads i)).2 ++ s.grants;
  gone = s.gone;
}

abbrev nexts : List ℕ → State kept → State kept
nexts [] s = s
nexts (i ∷ is) s = nexts is (next i s)

abbrev LossFree : List ℕ → State kept → Type 0
LossFree [] s = Unit
LossFree (i ∷ is) s = Loses platform kept specs s.world (next i s).world [] × LossFree is (next i s)

nexts-Reach :
    (is : List ℕ) (s t : State kept)
    → LossFree is t
    → Reach platform kept specs s t
    → Reach platform kept specs s (nexts is t)
nexts-Reach [] s t free reach = reach
nexts-Reach (i ∷ is) s t free reach =
    nexts-Reach is s (next i t) free.1 (later reach (go_on i [] free.0))

same_world : (w : World) → Loses platform kept specs w w []
same_world w = record { covers = λ n s e f. absurd (cc (sym e ∙ f)); exact = tt }

one_more : (w : World) (c : EniClaim) → Loses platform kept specs w (created w c) []
one_more w c = record {
  covers = λ n s e f. elim (Bool-cases (c.name == n)) [
    | inl t ↦ absurd (cc (rw t at f))
    | inr t ↦ absurd (cc (sym e ∙ (rw t at f)))
  ];
  exact = tt;
}

abbrev defaulter : AwsMachineCustomDefaulter
defaulter = record { client = true }

abbrev context : Context
context = record { request = none }

-- Both admissions have begun.
abbrev both : State kept
both = record (quiet_state platform kept specs world) {
  threads =
      update
        (update (λ i. idle) 0 (admitting machine [] (default platform defaulter context machine))) 1
        (admitting second_machine [] (default platform defaulter context second_machine));
}

both-Reach : Reach platform kept specs (quiet_state platform kept specs world) both
both-Reach =
    later (later here (begin 0 _ refl (admission defaulter context machine refl)))
      (begin 1 _ refl (admission defaulter context second_machine refl))

-- Both list the pools before either creates a claim; the second is refused the first interface.
abbrev order : List ℕ
order = 0 ∷ 1 ∷ 0 ∷ 1 ∷ 0 ∷ 1 ∷ 0 ∷ 1 ∷ 1 ∷ 0 ∷ 1 ∷ []

order-grants :
    (nexts order both).grants ≡ (who second_machine, "eni-0999") ∷ (who machine, "eni-0123") ∷ []
unfolding default is_dry_run allocate resolve_cluster_network get lookup find_pool
    resolve_interface_key reserve sort_slice private_ip_lt parse_addr compare_addr new_claim
    allocated
order-grants = refl

order-LossFree : LossFree order both
unfolding default is_dry_run allocate resolve_cluster_network get lookup find_pool
    resolve_interface_key reserve sort_slice private_ip_lt parse_addr compare_addr new_claim
    allocated
order-LossFree = (
  same_world _,
  (
    same_world _,
    (
      same_world _,
      (
        same_world _,
        (
          same_world _,
          (
            same_world _,
            (one_more _ _, (same_world _, (one_more _ _, (same_world _, (same_world _, tt))))),
          ),
        ),
      ),
    ),
  ),
)

no_spec : (s : EniClaimSpec) → none ≡ some s → ⊥
no_spec s h = cc

order-gone : (nexts order both).gone ≡ []
order-gone = refl

Reach-exclusive_example :
    (who machine ≡ who machine)
    × (owner_of (specs (nexts order both).world "eni-0123") ≡ some (who machine))
Reach-exclusive_example =
    Reach-exclusive platform kept specs spec_store world (nexts order both) (who machine)
      (who machine) "eni-0123" (λ n s h. absurd (no_spec s h))
      (nexts-Reach order _ both order-LossFree both-Reach)
      (subst (In (who machine, "eni-0123")) (sym order-grants) (inr (inl refl)))
      (subst (In (who machine, "eni-0123")) (sym order-grants) (inr (inl refl))) (λ i. i)
