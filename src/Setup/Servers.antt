-- ===== src/Setup/Servers.antt =====
-- What the flags make of the two servers of the manager.
use capa_eni_controller.Prelude.{
  Bool, true, false, not, ◌≡◌, String, Option, refl, none, some, List, [], ◌∷◌, if◌then◌else◌,
}
use capa_eni_controller.Setup.Boot.{
  FilterProvider, TlsConfig, TlsOption, with_authentication_and_authorization,
}
use capa_eni_controller.Setup.Options.{
  CommandLine, parse_flags, tls_opts, disable_http2, manager_options, metrics_server_options,
  webhook_server_options,
}

-- The options applied one after the other, as controller-runtime documents for TLSOpts.
abbrev pub configure : List TlsOption → TlsConfig → TlsConfig
configure [] c = c
configure (f ∷ fs) c = configure fs (f c)

-- The protocols that are left, by what the command line says of enable-http2.
abbrev pub offered : Option Bool → List String → List String
offered (some true) protos = protos
offered (some false) protos = "http/1.1" ∷ []
offered none protos = "http/1.1" ∷ []

-- Whether the metrics are served securely and behind which filter, by what the command line says of
-- metrics-secure.
abbrev pub served : Option Bool → Bool × Option FilterProvider
served (some true) = (true, some with_authentication_and_authorization)
served (some false) = (false, none)
served none = (true, some with_authentication_and_authorization)

tls_opts-protos :
    (line : CommandLine) (c : TlsConfig)
    → (configure (tls_opts (parse_flags line)) c).next_protos
      ≡ offered (line.switches "enable-http2") c.next_protos
unfolding tls_opts disable_http2 parse_flags
tls_opts-protos line c = go (line.switches "enable-http2")
  where
    go :
        (given : Option Bool)
        → (let enabled : Bool = elim given [ none ↦ false | some v ↦ v ] in
            let set : TlsOption = λ x. record { next_protos = "http/1.1" ∷ [] } in
            let left : TlsConfig = configure (if not enabled then set ∷ [] else []) c in
            left.next_protos ≡ offered given c.next_protos)
    go (some true) = refl
    go (some false) = refl
    go none = refl

metrics_server_options-served :
    (line : CommandLine)
    → (let metrics = metrics_server_options (parse_flags line) in
        (metrics.secure_serving, metrics.filter_provider) ≡ served (line.switches "metrics-secure"))
unfolding metrics_server_options parse_flags
metrics_server_options-served line = go (line.switches "metrics-secure")
  where
    go :
        (given : Option Bool)
        → (let secure : Bool = elim given [ none ↦ true | some v ↦ v ] in
            (secure, if secure then some with_authentication_and_authorization else none)
            ≡ served given)
    go (some true) = refl
    go (some false) = refl
    go none = refl

-- Whatever the command line, both servers offer HTTP/1.1 alone unless it sets enable-http2 to true,
-- and then what they would offer otherwise; the metrics are served in plain text and without a filter
-- where it sets metrics-secure to false, and else securely, behind authentication and authorization.
pub manager_options-Servers :
    (line : CommandLine) (c : TlsConfig)
    → (let options = manager_options (parse_flags line) in
        ((configure options.metrics.tls_opts c).next_protos
          ≡ offered (line.switches "enable-http2") c.next_protos)
        × ((configure options.webhook_server.tls_opts c).next_protos
            ≡ offered (line.switches "enable-http2") c.next_protos)
        × ((options.metrics.secure_serving, options.metrics.filter_provider)
            ≡ served (line.switches "metrics-secure")))
unfolding manager_options metrics_server_options webhook_server_options
manager_options-Servers line c =
    (tls_opts-protos line c, tls_opts-protos line c, metrics_server_options-served line)
