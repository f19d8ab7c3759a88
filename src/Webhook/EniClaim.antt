-- ===== src/Webhook/EniClaim.antt =====
-- internal/webhook/v1alpha1/eniclaim_webhook.go: a claim is named by its interface, and its
-- specification does not change.
pub mod Uniqueness
use capa_eni_controller.Prelude.{String, Bool, ◌&&◌, not, ◌==◌, if◌then◌else◌}
use capa_eni_controller.Api.Claim.{EniClaim, EniClaimSpec}
use capa_eni_controller.Kube.Prog.{Result, ok, err, Error, claim_name_differs, claim_spec_immutable}

unfoldable pub validate_create : EniClaim → Result Error Unit
validate_create obj = if not (obj.name == obj.spec.eni_id) then err claim_name_differs else ok tt

-- reflect.DeepEqual of two specifications: all of their texts.
unfoldable pub deep_equal : EniClaimSpec → EniClaimSpec → Bool
deep_equal s t =
    s.machine_ref.namespace == t.machine_ref.namespace
    && s.machine_ref.name == t.machine_ref.name
    && s.pool_ref.name == t.pool_ref.name
    && s.eni_id == t.eni_id

unfoldable pub validate_update : EniClaim → EniClaim → Result Error Unit
unfolding deep_equal
validate_update old_obj new_obj =
    if not (deep_equal old_obj.spec new_obj.spec) then err claim_spec_immutable else ok tt

unfoldable pub validate_delete : EniClaim → Result Error Unit
validate_delete obj = ok tt
