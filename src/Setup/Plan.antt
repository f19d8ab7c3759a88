-- ===== src/Setup/Plan.antt =====
-- What cmd/main.go does, as a list of attempts that are made in order until one fails.
use capa_eni_controller.Prelude.{
  String, ◌≡◌, refl, ◌∙◌, Bool, true, false, not, Option, none, some, List, [], ◌∷◌, ◌==◌, ap,
  subst, inl, inr, Bool-cases, if◌then◌else◌,
}
use capa_eni_controller.Setup.Boot.{
  Kind, eni_pool, eni_claim, aws_machine, ManagerOptions, ControllerBuilder, WebhookBuilder,
  eni_pool_reconciler, eni_claim_reconciler, aws_machine_reconciler, eni_pool_validator,
  eni_claim_validator, eni_pool_defaulter, aws_machine_defaulter, new_manager, complete_controller,
  complete_webhook, getenv, add_healthz_check, add_readyz_check, start, get_config_or_die, log_info,
  log_error, Boot, ret, exit, ask, ◌>>=◌, ◌>>◌, Surroundings, boot, boot-cong,
}
use capa_eni_controller.Setup.Options.{CommandLine, Flags, parse_flags, manager_options, string_var}
use capa_eni_controller.Setup.Expected.{
  expected_options, webhook_notice, metrics_notice, manager_options-expected,
}
use capa_eni_controller.Setup.Managed.{
  setup_aws_machine_reconciler, setup_eni_pool_reconciler, setup_eni_claim_reconciler,
  setup_aws_machine_webhook, setup_eni_pool_webhook, setup_eni_claim_webhook,
}
use capa_eni_controller.Setup.Main.{
  exit_on, unless_disabled, info_if, config_or_die, announce, start_manager, main,
}

-- What can fail on the way.
pub data Attempt : Type 0 where
  create_manager : ManagerOptions → Attempt
  control : ControllerBuilder → Attempt
  admit : WebhookBuilder → Attempt
  check_health check_ready run_manager : Attempt

-- The name of a kind in the messages.
abbrev kind_text : Kind → String
kind_text eni_pool = "ENIPool"
kind_text eni_claim = "ENIClaim"
kind_text aws_machine = "AWSMachine"

abbrev attempt : Attempt → Boot (Option String)
attempt (create_manager o) = ask (new_manager o) ret
attempt (control b) = ask (complete_controller b) ret
attempt (admit b) = ask (complete_webhook b) ret
attempt check_health = ask (add_healthz_check "healthz") ret
attempt check_ready = ask (add_readyz_check "readyz") ret
attempt run_manager = ask (log_info "Starting manager" []) (λ _. ask start ret)

-- What is logged when it fails.
abbrev complaint : Attempt → String × List (String × String)
complaint (create_manager o) = ("Failed to start manager", [])
complaint (control b) = ("Failed to create controller", ("controller", b.named) ∷ [])
complaint (admit b) = ("Failed to create webhook", ("webhook", kind_text b.kind) ∷ [])
complaint check_health = ("Failed to set up health check", [])
complaint check_ready = ("Failed to set up ready check", [])
complaint run_manager = ("Failed to run manager", [])

-- The end of an attempt: without an error the next one follows.
abbrev pub settle : String × List (String × String) → Option String → Boot Unit → Boot Unit
settle (message, keys) none next = next
settle (message, keys) (some e) next = ask (log_error e message keys) (λ _. exit 1)

-- One after the other; the first failure is logged and ends the process with code 1.
abbrev pub execute : List Attempt → Boot Unit
execute [] = ret tt
execute (a ∷ rest) = attempt a >>= λ e. settle (complaint a) e (execute rest)

abbrev admit_if : Bool → WebhookBuilder → List Attempt → List Attempt
admit_if enabled b rest = if enabled then admit b ∷ rest else rest

-- The manager, the controllers of pools and claims, the webhook of machines, the controller of
-- machines, the webhooks of pools and claims, the checks, and the run.
abbrev pub plan : ManagerOptions → Bool → List Attempt
plan options webhooks =
    create_manager options
    ∷ control (record { for_kind = eni_pool; named = "enipool"; reconciler = eni_pool_reconciler })
    ∷ control
        (record { for_kind = eni_claim; named = "eniclaim"; reconciler = eni_claim_reconciler })
    ∷ admit_if webhooks
        (record {
          kind = aws_machine;
          validator = none;
          defaulter = some (aws_machine_defaulter true);
        })
        (control (record {
          for_kind = aws_machine;
          named = "awsmachine";
          reconciler = aws_machine_reconciler "capa-eni-controller";
        })
          ∷ admit_if webhooks
              (record {
                kind = eni_pool;
                validator = some (eni_pool_validator true);
                defaulter = some eni_pool_defaulter;
              })
              (admit_if webhooks
                (record {
                  kind = eni_claim;
                  validator = some eni_claim_validator;
                  defaulter = none;
                })
                (check_health ∷ check_ready ∷ run_manager ∷ [])))

-- The notices are logged one after the other, before what follows.
abbrev pub log_all : List (String × List (String × String)) → Boot Unit → Boot Unit
log_all [] next = next
log_all ((message, keys) ∷ rest) next = ask (log_info message keys) (λ _. log_all rest next)

-- Without a configuration the process ends with code 1.
abbrev pub with_config : Boot Unit → Boot Unit
with_config next = ask get_config_or_die (elim [ true ↦ next | false ↦ exit 1 ])

announce-notices :
    (line : CommandLine) (next : Boot Unit)
    → (announce (parse_flags line) >> next)
      ≡ log_all (webhook_notice line) (log_all (metrics_notice line) next)
unfolding announce parse_flags info_if
announce-notices line next = elim (Bool-cases (string_var line "webhook-cert-path" "" == "")) [
  | inl e ↦ elim (Bool-cases (string_var line "metrics-cert-path" "" == "")) [
    | inl f ↦ rw (e, f) refl
    | inr f ↦ rw (e, f) refl
  ]
  | inr e ↦ elim (Bool-cases (string_var line "metrics-cert-path" "" == "")) [
    | inl f ↦ rw (e, f) refl
    | inr f ↦ rw (e, f) refl
  ]
]

module _ (s : Surroundings) where
  -- A part of main runs as the attempts that are left.
  record Agrees (rest : Boot Unit) (left : List Attempt) : Type 0 where
    same : (w : s.World) → boot s rest w ≡ boot s (execute left) w

  settled :
      (m : String × List (String × String)) (e : Option String) (rest : Boot Unit)
      (left : List Attempt)
      → Agrees rest left
      → (w : s.World) → boot s (exit_on m.0 m.1 e >> rest) w ≡ boot s (settle m e (execute left)) w
  unfolding exit_on
  settled m none rest left h w = h.same w
  settled m (some e) rest left h w = refl

  Agrees-attempt :
      (a : Attempt) (rest : Boot Unit) (left : List Attempt)
      → Agrees rest left
      → Agrees (attempt a >>= λ e. exit_on (complaint a).0 (complaint a).1 e >> rest) (a ∷ left)
  Agrees-attempt a rest left h = record {
    same = λ w. boot-cong s (attempt a) _ _ (λ e. settled (complaint a) e rest left h) w;
  }

  settled_last :
      (m : String × List (String × String)) (e : Option String) (w : s.World)
      → boot s (exit_on m.0 m.1 e) w ≡ boot s (settle m e (ret tt)) w
  unfolding exit_on
  settled_last m none w = refl
  settled_last m (some e) w = refl

  Agrees-last :
      (a : Attempt) → Agrees (attempt a >>= exit_on (complaint a).0 (complaint a).1) (a ∷ [])
  Agrees-last a = record {
    same = λ w. boot-cong s (attempt a) _ _ (λ e. settled_last (complaint a) e) w;
  }

  log_all-cong :
      (ns : List (String × List (String × String))) (p q : Boot Unit)
      → ((v : s.World) → boot s p v ≡ boot s q v)
      → (w : s.World) → boot s (log_all ns p) w ≡ boot s (log_all ns q) w
  log_all-cong [] p q h w = h w
  log_all-cong (n ∷ ns) p q h w = log_all-cong ns p q h (s.serve (log_info n.0 n.1) w).1

  configured :
      (rest : Boot Unit) (left : List Attempt)
      → Agrees rest left
      → (w : s.World) → boot s (config_or_die >> rest) w ≡ boot s (with_config (execute left)) w
  unfolding config_or_die
  configured rest left h w =
      boot-cong s (ask get_config_or_die ret) (λ found. (if found then ret tt else exit 1) >> rest)
        (elim [ true ↦ execute left | false ↦ exit 1 ]) (elim [ true ↦ h.same | false ↦ λ v. refl ])
        w

  module _ (value : String)
      (env : (w : s.World) → s.serve (getenv "ENABLE_WEBHOOKS") w ≡ (value, w)) where
    boot-getenv :
        (body rest : Boot Unit) (w : s.World)
        → boot s (unless_disabled body >> rest) w
          ≡ boot s ((if not (value == "false") then body else ret tt) >> rest) w
    unfolding unless_disabled
    boot-getenv body rest w = rw (env w, boot) refl

    Agrees-if :
        (b : WebhookBuilder) (rest : Boot Unit) (left : List Attempt) (enabled : Bool)
        → Agrees rest left
        → (w : s.World)
        → boot s
            ((if enabled
                then (attempt (admit b) >>= exit_on (complaint (admit b)).0 (complaint (admit b)).1)
                else ret tt)
              >> rest)
            w
          ≡ boot s (execute (admit_if enabled b left)) w
    Agrees-if b rest left true h w = (Agrees-attempt (admit b) rest left h).same w
    Agrees-if b rest left false h w = h.same w

    Agrees-admit :
        (b : WebhookBuilder) (rest : Boot Unit) (left : List Attempt)
        → Agrees rest left
        → Agrees
            (unless_disabled
                (attempt (admit b) >>= exit_on (complaint (admit b)).0 (complaint (admit b)).1)
              >> rest)
            (admit_if (not (value == "false")) b left)
    unfolding unless_disabled
    Agrees-admit b rest left h = record {
      same = λ w. boot-getenv _ rest w ∙ Agrees-if b rest left (not (value == "false")) h w;
    }

    start_manager-Agrees :
        (flags : Flags)
        → Agrees (start_manager flags) (plan (manager_options flags) (not (value == "false")))
    unfolding start_manager setup_aws_machine_reconciler setup_eni_pool_reconciler
        setup_eni_claim_reconciler setup_aws_machine_webhook setup_eni_pool_webhook
        setup_eni_claim_webhook
    start_manager-Agrees flags = Agrees-attempt _ _ _ (
        Agrees-attempt _ _ _ (
          Agrees-attempt _ _ _ (
            Agrees-admit _ _ _ (
              Agrees-attempt _ _ _ (
                Agrees-admit _ _ _ (
                  Agrees-admit _ _ _
                    (Agrees-attempt _ _ _ (Agrees-attempt _ _ _ (Agrees-last run_manager)))))))))

    -- main logs a notice for each server whose certificate directory is on the command line, ends with
    -- code 1 if there is no configuration, and then makes the attempts of its plan in order, the manager
    -- with the options that the command line gives it, of which the first that fails is logged and ends
    -- the process with code 1. The webhooks are part of the plan unless ENABLE_WEBHOOKS, which does not
    -- change in the meantime, is "false".
    pub main-execute :
        (line : CommandLine) (w : s.World)
        → boot s (main line) w
          ≡ boot s
              (log_all (webhook_notice line) (
                log_all
                  (metrics_notice line)
                  (with_config (execute (plan (expected_options line) (not (value == "false")))))))
              w
    unfolding main
    main-execute line w =
        ap (λ p. boot s p w) (announce-notices line _)
        ∙ log_all-cong (webhook_notice line) _ _
            (log_all-cong (metrics_notice line) _ _ (
              configured _ _ (
                subst
                  (λ o. Agrees (start_manager (parse_flags line)) (plan o (not (value == "false"))))
                  (manager_options-expected line) (start_manager-Agrees (parse_flags line)))))
            w
