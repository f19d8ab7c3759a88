-- ===== src/Webhook/AwsMachine/Policy.antt =====
-- The exhaustion policy of a pool plays no part in admission.
use capa_eni_controller.Prelude.{String, ◌≡◌, refl, ap, Option, some, List, [], ◌∷◌}
use mathlib.Core.Path.{fun_ext}
use capa_eni_controller.Api.Meta.{AwsMachine}
use capa_eni_controller.Api.Claim.{EniClaim}
use capa_eni_controller.Api.Pool.{EniReference, EniPool, ExhaustionPolicy}
use capa_eni_controller.Kube.Prog.{call, create_claim}
use capa_eni_controller.Kube.Go.{Go, ◌>>=◌}
use capa_eni_controller.Kube.Platform.{Platform}
use capa_eni_controller.Sort.{sort_slice}
use capa_eni_controller.Allocation.{
  new_claim, create_first, after_create, configured, reserve, private_ip_lt, resolve_interface_key,
}
use capa_eni_controller.Webhook.AwsMachine.{allocate_from, conclude}

abbrev pub with_policy : ExhaustionPolicy → EniPool → EniPool
with_policy policy pool = record pool { spec = record (pool.spec) { exhaustion_policy = policy } }

module _ (obj : AwsMachine) (pool : EniPool) (policy : ExhaustionPolicy) where
  create_first-with_policy :
      (refs : List EniReference)
      → create_first obj (with_policy policy pool) refs ≡ create_first obj pool refs
  unfolding create_first new_claim
  create_first-with_policy [] = refl
  create_first-with_policy (r ∷ rest) =
      ap (λ next. call (create_claim (new_claim obj pool r)) (after_create next))
        (create_first-with_policy rest)

  reserve-with_policy :
      (key : String) → reserve obj (with_policy policy pool) key ≡ reserve obj pool key
  unfolding reserve configured
  reserve-with_policy key =
      rw (create_first-with_policy (sort_slice private_ip_lt (configured pool key)))

  -- Two pools that differ in the exhaustion policy alone lead to the same requests and the same
  -- admission: under the policies Wait and Fail too, a machine that gets no interface is admitted for
  -- dynamic networking.
  pub allocate_from-with_policy :
      (platform : Platform)
      → allocate_from platform obj (some (with_policy policy pool))
        ≡ allocate_from platform obj (some pool)
  unfolding allocate_from
  allocate_from-with_policy platform =
      ap (λ f. resolve_interface_key platform obj >>= f)
        (fun_ext λ key.
          ap (λ (m : Go (Option EniClaim)). m >>= conclude platform obj) (reserve-with_policy key))
