-- ===== src/Setup/Main.antt =====
-- main of cmd/main.go, after the flags are parsed.
use capa_eni_controller.Prelude.{
  String, not, Option, none, some, List, [], ◌∷◌, ◌==◌, if◌then◌else◌, Bool,
}
use capa_eni_controller.Setup.Boot.{
  get_config_or_die, new_manager, getenv, add_healthz_check, add_readyz_check, start, log_info,
  log_error, Boot, ret, exit, ask, ◌>>=◌, ◌>>◌,
}
use capa_eni_controller.Setup.Options.{CommandLine, Flags, parse_flags, manager_options}
use capa_eni_controller.Setup.Managed.{
  setup_aws_machine_reconciler, setup_eni_pool_reconciler, setup_eni_claim_reconciler,
  setup_aws_machine_webhook, setup_eni_pool_webhook, setup_eni_claim_webhook,
}

-- `if err != nil { setupLog.Error(err, message, keys...); os.Exit(1) }`
unfoldable pub exit_on : String → List (String × String) → Option String → Boot Unit
exit_on message keys none = ret tt
exit_on message keys (some e) = ask (log_error e message keys) (λ _. exit 1)

-- `if given { setupLog.Info(message, keys...) }`
unfoldable pub info_if : Bool → String → List (String × String) → Boot Unit
info_if given message keys = if given then ask (log_info message keys) ret else ret tt

-- The body of `if os.Getenv("ENABLE_WEBHOOKS") != "false"`.
unfoldable pub unless_disabled : Boot Unit → Boot Unit
unless_disabled body = do
  value ← ask (getenv "ENABLE_WEBHOOKS") ret
  if not (value == "false") then body else ret tt

-- ctrl.GetConfigOrDie, which logs and exits by itself.
unfoldable pub config_or_die : Boot Unit
config_or_die = do found ← ask get_config_or_die ret; if found then ret tt else exit 1

-- The options of the two servers, with the log entries on the way.
unfoldable pub announce : Flags → Boot Unit
unfolding info_if
announce flags =
    info_if (not (flags.webhook_cert_path == ""))
      "Initializing webhook certificate watcher using provided certificates"
      (("webhook-cert-path", flags.webhook_cert_path)
        ∷ ("webhook-cert-name", flags.webhook_cert_name)
        ∷ ("webhook-cert-key", flags.webhook_cert_key)
        ∷ [])
    >> info_if (not (flags.metrics_cert_path == ""))
        "Initializing metrics certificate watcher using provided certificates"
        (("metrics-cert-path", flags.metrics_cert_path)
          ∷ ("metrics-cert-name", flags.metrics_cert_name)
          ∷ ("metrics-cert-key", flags.metrics_cert_key)
          ∷ [])

-- From the creation of the manager on.
unfoldable pub start_manager : Flags → Boot Unit
unfolding exit_on unless_disabled
start_manager flags = do
  e ← ask (new_manager (manager_options flags)) ret
  exit_on "Failed to start manager" [] e
  e ← setup_eni_pool_reconciler
  exit_on "Failed to create controller" (("controller", "enipool") ∷ []) e
  e ← setup_eni_claim_reconciler
  exit_on "Failed to create controller" (("controller", "eniclaim") ∷ []) e
  unless_disabled (do
    e ← setup_aws_machine_webhook
    exit_on "Failed to create webhook" (("webhook", "AWSMachine") ∷ []) e)
  e ← setup_aws_machine_reconciler "capa-eni-controller"
  exit_on "Failed to create controller" (("controller", "awsmachine") ∷ []) e
  unless_disabled (do
    e ← setup_eni_pool_webhook
    exit_on "Failed to create webhook" (("webhook", "ENIPool") ∷ []) e)
  unless_disabled (do
    e ← setup_eni_claim_webhook
    exit_on "Failed to create webhook" (("webhook", "ENIClaim") ∷ []) e)
  e ← ask (add_healthz_check "healthz") ret
  exit_on "Failed to set up health check" [] e
  e ← ask (add_readyz_check "readyz") ret
  exit_on "Failed to set up ready check" [] e
  ask (log_info "Starting manager" []) ret
  e ← ask start ret
  exit_on "Failed to run manager" [] e

unfoldable pub main : CommandLine → Boot Unit
unfolding announce config_or_die start_manager
main line = do let flags = parse_flags line; announce flags; config_or_die; start_manager flags
