-- ===== src/Setup/Expected.antt =====
-- What the command line comes to: the options of the manager, and the notices of the certificates.
use capa_eni_controller.Prelude.{
  String, ◌≡◌, refl, true, false, not, none, some, List, [], ◌∷◌, ◌==◌, if◌then◌else◌,
}
use capa_eni_controller.Setup.Boot.{ManagerOptions, with_authentication_and_authorization}
use capa_eni_controller.Setup.Options.{
  CommandLine, parse_flags, manager_options, metrics_server_options, webhook_server_options,
  tls_opts, disable_http2, string_var, bool_var,
}

-- What the manager is told, by the flags of the command line.
abbrev pub expected_options : CommandLine → ManagerOptions
expected_options line =
    let metrics = not (string_var line "metrics-cert-path" "" == "") in
    let webhook = not (string_var line "webhook-cert-path" "" == "") in
    let protocols =
      if not (bool_var line "enable-http2" false)
      then (λ c. record { next_protos = "http/1.1" ∷ [] }) ∷ []
      else [] in
    record {
      metrics = record {
        bind_address = string_var line "metrics-bind-address" "0";
        secure_serving = bool_var line "metrics-secure" true;
        tls_opts = protocols;
        filter_provider =
            if bool_var line "metrics-secure" true
            then some with_authentication_and_authorization
            else none;
        cert_dir = if metrics then string_var line "metrics-cert-path" "" else "";
        cert_name = if metrics then string_var line "metrics-cert-name" "tls.crt" else "";
        key_name = if metrics then string_var line "metrics-cert-key" "tls.key" else "";
      };
      webhook_server = record {
        tls_opts = protocols;
        cert_dir = if webhook then string_var line "webhook-cert-path" "" else "";
        cert_name = if webhook then string_var line "webhook-cert-name" "tls.crt" else "";
        key_name = if webhook then string_var line "webhook-cert-key" "tls.key" else "";
      };
      health_probe_bind_address = string_var line "health-probe-bind-address" ":8081";
      leader_election = bool_var line "leader-elect" false;
      leader_election_id = "8af9a227.dcn.ssu.ac.kr";
    }

-- A notice of the certificates of one server, if their directory is given.
abbrev notice : String → String → List (String × String) → List (String × List (String × String))
notice path message keys = if path == "" then [] else (message, keys) ∷ []

abbrev pub webhook_notice : CommandLine → List (String × List (String × String))
webhook_notice line =
    notice (string_var line "webhook-cert-path" "")
      "Initializing webhook certificate watcher using provided certificates"
      (("webhook-cert-path", string_var line "webhook-cert-path" "")
        ∷ ("webhook-cert-name", string_var line "webhook-cert-name" "tls.crt")
        ∷ ("webhook-cert-key", string_var line "webhook-cert-key" "tls.key")
        ∷ [])

abbrev pub metrics_notice : CommandLine → List (String × List (String × String))
metrics_notice line =
    notice (string_var line "metrics-cert-path" "")
      "Initializing metrics certificate watcher using provided certificates"
      (("metrics-cert-path", string_var line "metrics-cert-path" "")
        ∷ ("metrics-cert-name", string_var line "metrics-cert-name" "tls.crt")
        ∷ ("metrics-cert-key", string_var line "metrics-cert-key" "tls.key")
        ∷ [])

pub manager_options-expected :
    (line : CommandLine) → manager_options (parse_flags line) ≡ expected_options line
unfolding manager_options parse_flags metrics_server_options webhook_server_options tls_opts
    disable_http2
manager_options-expected line = refl
