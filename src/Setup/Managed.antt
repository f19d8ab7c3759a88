-- ===== src/Setup/Managed.antt =====
-- The SetupWithManager functions of internal/controller, and the Setup...WebhookWithManager functions
-- of internal/webhook.
use capa_eni_controller.Prelude.{String, true, Option, none, some}
use capa_eni_controller.Setup.Boot.{
  eni_pool, eni_claim, aws_machine, eni_pool_reconciler, eni_claim_reconciler,
  aws_machine_reconciler, eni_pool_validator, eni_claim_validator, eni_pool_defaulter,
  aws_machine_defaulter, complete_controller, complete_webhook, Boot, ret, ask,
}

unfoldable pub setup_aws_machine_reconciler : String → Boot (Option String)
setup_aws_machine_reconciler recorder =
    ask
      (complete_controller (record {
        for_kind = aws_machine;
        named = "awsmachine";
        reconciler = aws_machine_reconciler recorder;
      }))
      ret

unfoldable pub setup_eni_pool_reconciler : Boot (Option String)
setup_eni_pool_reconciler =
    ask
      (complete_controller
        (record { for_kind = eni_pool; named = "enipool"; reconciler = eni_pool_reconciler }))
      ret

unfoldable pub setup_eni_claim_reconciler : Boot (Option String)
setup_eni_claim_reconciler =
    ask
      (complete_controller
        (record { for_kind = eni_claim; named = "eniclaim"; reconciler = eni_claim_reconciler }))
      ret

unfoldable pub setup_aws_machine_webhook : Boot (Option String)
setup_aws_machine_webhook =
    ask
      (complete_webhook (record {
        kind = aws_machine;
        validator = none;
        defaulter = some (aws_machine_defaulter true);
      }))
      ret

unfoldable pub setup_eni_pool_webhook : Boot (Option String)
setup_eni_pool_webhook =
    ask
      (complete_webhook (record {
        kind = eni_pool;
        validator = some (eni_pool_validator true);
        defaulter = some eni_pool_defaulter;
      }))
      ret

unfoldable pub setup_eni_claim_webhook : Boot (Option String)
setup_eni_claim_webhook =
    ask
      (complete_webhook
        (record { kind = eni_claim; validator = some eni_claim_validator; defaulter = none }))
      ret
