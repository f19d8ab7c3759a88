-- ===== src/Setup/Options.antt =====
-- The flags of cmd/main.go and the options of the two servers and the manager made of them.
use capa_eni_controller.Prelude.{
  String, Bool, true, false, not, Option, none, some, List, [], ◌∷◌, ◌==◌, if◌then◌else◌,
}
use capa_eni_controller.Setup.Boot.{
  TlsConfig, TlsOption, WebhookServerOptions, with_authentication_and_authorization,
  MetricsServerOptions, ManagerOptions,
}

-- What the flag package has read from the command line, by the name of the flag.
pub record CommandLine : Type 0 where
  pub texts : String → Option String
  pub switches : String → Option Bool

-- flag.StringVar and flag.BoolVar, after flag.Parse.
abbrev pub string_var : CommandLine → String → String → String
string_var line name value = elim (line.texts name) [ none ↦ value | some v ↦ v ]

abbrev pub bool_var : CommandLine → String → Bool → Bool
bool_var line name value = elim (line.switches name) [ none ↦ value | some v ↦ v ]

pub record Flags : Type 0 where
  pub metrics_addr : String
  pub probe_addr : String
  pub enable_leader_election : Bool
  pub secure_metrics : Bool
  pub webhook_cert_path : String
  pub webhook_cert_name : String
  pub webhook_cert_key : String
  pub metrics_cert_path : String
  pub metrics_cert_name : String
  pub metrics_cert_key : String
  pub enable_http2 : Bool

unfoldable pub parse_flags : CommandLine → Flags
parse_flags line = record {
  metrics_addr = string_var line "metrics-bind-address" "0";
  probe_addr = string_var line "health-probe-bind-address" ":8081";
  enable_leader_election = bool_var line "leader-elect" false;
  secure_metrics = bool_var line "metrics-secure" true;
  webhook_cert_path = string_var line "webhook-cert-path" "";
  webhook_cert_name = string_var line "webhook-cert-name" "tls.crt";
  webhook_cert_key = string_var line "webhook-cert-key" "tls.key";
  metrics_cert_path = string_var line "metrics-cert-path" "";
  metrics_cert_name = string_var line "metrics-cert-name" "tls.crt";
  metrics_cert_key = string_var line "metrics-cert-key" "tls.key";
  enable_http2 = bool_var line "enable-http2" false;
}

-- Its log entry is left out.
unfoldable pub disable_http2 : TlsConfig → TlsConfig
disable_http2 c = record { next_protos = "http/1.1" ∷ [] }

unfoldable pub tls_opts : Flags → List TlsOption
unfolding disable_http2
tls_opts flags = if not flags.enable_http2 then disable_http2 ∷ [] else []

unfoldable pub webhook_server_options : Flags → WebhookServerOptions
webhook_server_options flags =
    let given = not (flags.webhook_cert_path == "") in
    record {
      tls_opts = tls_opts flags;
      cert_dir = if given then flags.webhook_cert_path else "";
      cert_name = if given then flags.webhook_cert_name else "";
      key_name = if given then flags.webhook_cert_key else "";
    }

unfoldable pub metrics_server_options : Flags → MetricsServerOptions
metrics_server_options flags =
    let given = not (flags.metrics_cert_path == "") in
    record {
      bind_address = flags.metrics_addr;
      secure_serving = flags.secure_metrics;
      tls_opts = tls_opts flags;
      filter_provider =
          if flags.secure_metrics then some with_authentication_and_authorization else none;
      cert_dir = if given then flags.metrics_cert_path else "";
      cert_name = if given then flags.metrics_cert_name else "";
      key_name = if given then flags.metrics_cert_key else "";
    }

unfoldable pub manager_options : Flags → ManagerOptions
manager_options flags = record {
  metrics = metrics_server_options flags;
  webhook_server = webhook_server_options flags;
  health_probe_bind_address = flags.probe_addr;
  leader_election = flags.enable_leader_election;
  leader_election_id = "8af9a227.dcn.ssu.ac.kr";
}
