-- ===== src/Tests/System.antt =====
-- A machine that is admitted and reconciled afterwards, and what it owns.
use capa_eni_controller.Prelude.{
  ◌≡◌, refl, ◌∙◌, inl, inr, none, some, [], ◌∷◌, ◌==◌, Bool-cases, eq_iff,
}
use capa_eni_controller.Api.Claim.{EniClaimSpec}
use capa_eni_controller.Kube.Prog.{ok, run}
use capa_eni_controller.Webhook.AwsMachine.{allocate, allocated}
use capa_eni_controller.Controller.AwsMachine.{claim_interface}
use capa_eni_controller.System.Acquired.{who, IsNamed, owners}
use capa_eni_controller.System.Refines.{Admits, Claims, allocate-Acquires, claim_interface-Acquires}
use capa_eni_controller.System.Exclusive.{Runs, start, admitted, reconciled, Runs-exclusive}
use capa_eni_controller.Tests.Memory.{server, stored, platform}
use capa_eni_controller.Tests.Memory.Laws.{store, sound}
use capa_eni_controller.Tests.Data.{pool_a, low, machine, claim_of_machine, world, world_with}
use capa_eni_controller.Tests.Admission.{allocate_first}

no_spec : (s : EniClaimSpec) → none ≡ some s → ⊥
no_spec s h = cc

world-IsNamed : IsNamed server stored world
world-IsNamed n s h = absurd (no_spec s h)

claimed-IsNamed : IsNamed server stored (world_with (claim_of_machine low ∷ []))
claimed-IsNamed n s h = elim (Bool-cases ("eni-0123" == n)) [
  | inl e ↦ same (rw e at h) ∙ (eq_iff "eni-0123" n).0 e
  | inr e ↦ absurd (no_spec s (rw e at h))
]
  where
    same : some (claim_of_machine low).spec ≡ some s → s.eni_id ≡ "eni-0123"
    same e = cc

allocate-Acquires_example :
    Admits server stored store machine world
      (run server (allocate platform machine) world).0
      (run server (allocate platform machine) world).1
allocate-Acquires_example =
    allocate-Acquires server stored store platform machine world world-IsNamed

claim_interface-Acquires_example :
    Claims server stored store machine
      (world_with (claim_of_machine low ∷ []))
      (run server (claim_interface machine pool_a "") (world_with (claim_of_machine low ∷ []))).0
      (run server (claim_interface machine pool_a "") (world_with (claim_of_machine low ∷ []))).1
claim_interface-Acquires_example =
    claim_interface-Acquires server stored store machine pool_a ""
      (world_with (claim_of_machine low ∷ [])) sound claimed-IsNamed

found_again :
    run server (claim_interface machine pool_a "") (world_with (claim_of_machine low ∷ []))
    ≡ (ok (some (claim_of_machine low)), world_with (claim_of_machine low ∷ []))
unfolding claim_interface
found_again = refl

history :
    Runs platform server stored store sound world
      ((who machine, "eni-0123") ∷ (who machine, "eni-0123") ∷ [])
      (world_with (claim_of_machine low ∷ []))
unfolding allocated
history =
    reconciled machine pool_a "" (some (claim_of_machine low))
      (admitted machine (allocated machine (claim_of_machine low)) (start world-IsNamed) refl
        allocate_first)
      found_again

Runs-exclusive_example :
    (who machine ≡ who machine)
    × (owners server stored (world_with (claim_of_machine low ∷ [])) "eni-0123"
        ≡ some (who machine))
Runs-exclusive_example =
    Runs-exclusive platform server stored store sound world (world_with (claim_of_machine low ∷ []))
      ((who machine, "eni-0123") ∷ (who machine, "eni-0123") ∷ []) (who machine) (who machine)
      "eni-0123" history (inl refl) (inr (inl refl))
