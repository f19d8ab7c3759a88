-- ===== src/Setup/Boot.antt =====
-- What cmd/main.go asks of the libraries and the operating system, and programs that may exit.
use capa_eni_controller.Prelude.{ℕ, String, ◌≡◌, refl, Bool, Option, List}

-- The kinds that are reconciled or admitted.
pub data Kind : Type 0 where
  eni_pool eni_claim aws_machine : Kind

-- tls.Config: the protocols that a server offers.
pub record TlsConfig : Type 0 where
  pub next_protos : List String

-- A function of tlsOpts.
abbrev pub TlsOption : Type 0
TlsOption = TlsConfig → TlsConfig

-- webhook.Options
pub record WebhookServerOptions : Type 0 where
  pub tls_opts : List TlsOption
  pub cert_dir : String
  pub cert_name : String
  pub key_name : String

-- The filters of controller-runtime for the metrics endpoint.
pub data FilterProvider : Type 0 where
  with_authentication_and_authorization : FilterProvider

-- metricsserver.Options
pub record MetricsServerOptions : Type 0 where
  pub bind_address : String
  pub secure_serving : Bool
  pub tls_opts : List TlsOption
  pub filter_provider : Option FilterProvider
  pub cert_dir : String
  pub cert_name : String
  pub key_name : String

-- ctrl.Options
pub record ManagerOptions : Type 0 where
  pub metrics : MetricsServerOptions
  pub webhook_server : WebhookServerOptions
  pub health_probe_bind_address : String
  pub leader_election : Bool
  pub leader_election_id : String

-- The types that reconcile; that of AWSMachine carries the name of its event recorder.
pub data Reconciler : Type 0 where
  eni_pool_reconciler eni_claim_reconciler : Reconciler
  aws_machine_reconciler : (recorder : String) → Reconciler

-- What NewControllerManagedBy is told.
pub record ControllerBuilder : Type 0 where
  pub for_kind : Kind
  pub named : String
  pub reconciler : Reconciler

-- Whether the Client of the validator or defaulter is set, that is, the manager's.
pub data Validator : Type 0 where
  eni_pool_validator : (client : Bool) → Validator
  eni_claim_validator : Validator

pub data Defaulter : Type 0 where
  eni_pool_defaulter : Defaulter
  aws_machine_defaulter : (client : Bool) → Defaulter

-- What NewWebhookManagedBy is told.
pub record WebhookBuilder : Type 0 where
  pub kind : Kind
  pub validator : Option Validator
  pub defaulter : Option Defaulter

pub data Op : Type 0 where
  get_config_or_die : Op
  new_manager : ManagerOptions → Op
  complete_controller : ControllerBuilder → Op
  complete_webhook : WebhookBuilder → Op
  getenv : String → Op
  add_healthz_check add_readyz_check : String → Op
  start : Op
  log_info : String → List (String × String) → Op
  log_error : String → String → List (String × String) → Op

-- An `error` is a text or nil. GetConfigOrDie has no configuration to give when it exits.
abbrev pub Answer : Op → Type 0
Answer get_config_or_die = Bool
Answer (new_manager o) = Option String
Answer (complete_controller b) = Option String
Answer (complete_webhook b) = Option String
Answer (getenv name) = String
Answer (add_healthz_check name) = Option String
Answer (add_readyz_check name) = Option String
Answer start = Option String
Answer (log_info m kv) = Unit
Answer (log_error e m kv) = Unit

-- A program that asks, and returns or leaves the process with a code.
pub data Boot (A : Type 0) : Type 0 where
  ret : A → Boot A
  exit : ℕ → Boot A
  ask : (o : Op) → (Answer o → Boot A) → Boot A

infixl 5 ◌>>=◌ ◌>>◌
abbrev pub ◌>>=◌ : {A B : Type 0} → Boot A → (A → Boot B) → Boot B
ret a >>= f = f a
exit n >>= f = exit n
ask o k >>= f = ask o (λ r. k r >>= f)

abbrev pub ◌>>◌ : {A B : Type 0} → Boot A → Boot B → Boot B
m >> n = m >>= λ _. n

-- The surroundings: any state, and an answer to each request.
pub record Surroundings : Type 1 where
  pub World : Type 0
  pub serve : (o : Op) → World → Answer o × World

-- How a run ends.
pub data End (A : Type 0) : Type 0 where
  returned : A → End A
  exited : ℕ → End A

module _ (s : Surroundings) where
  open s use {World, serve}

  abbrev pub boot : {A : Type 0} → Boot A → World → End A × World
  boot (ret a) w = (returned a, w)
  boot (exit n) w = (exited n, w)
  boot (ask o k) w = let (r, w') = serve o w in boot (k r) w'

  -- Programs that go on alike run alike.
  pub boot-cong :
      {A B : Type 0} (m : Boot A) (f g : A → Boot B)
      → ((a : A) (v : World) → boot (f a) v ≡ boot (g a) v)
      → (w : World) → boot (m >>= f) w ≡ boot (m >>= g) w
  boot-cong (ret a) f g h w = h a w
  boot-cong (exit n) f g h w = refl
  boot-cong (ask o k) f g h w = let (r, w') = serve o w in boot-cong (k r) f g h w'
