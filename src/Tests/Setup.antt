-- ===== src/Tests/Setup.antt =====
-- The start of the process over surroundings that answer every request alike, and a registry in
-- memory.
use capa_eni_controller.Prelude.{
  String, ◌≡◌, refl, Bool, true, false, ◌||◌, ◌&&◌, none, some, List, [], ◌∷◌, ◌==◌, eq_refl, ap,
  subst, not, inl, inr, if◌then◌else◌,
}
use capa_eni_controller.Prelude.Lists.{In}
use capa_eni_controller.Setup.Boot.{
  Op, get_config_or_die, new_manager, complete_controller, complete_webhook, getenv,
  add_healthz_check, add_readyz_check, start, log_info, log_error, Answer, Surroundings, boot,
  TlsConfig,
}
use capa_eni_controller.Setup.Options.{CommandLine, parse_flags, manager_options}
use capa_eni_controller.Setup.Main.{main}
use capa_eni_controller.Setup.Plan.{plan, execute, log_all, with_config, main-execute}
use capa_eni_controller.Setup.Expected.{expected_options, webhook_notice, metrics_notice}
use capa_eni_controller.Setup.Servers.{configure, offered, served, manager_options-Servers}
use capa_eni_controller.Setup.Scheme.{Schemes, GroupVersion, init}
use capa_eni_controller.Setup.Known.{IsRegistry, KnowsAll, init-Known, machine_group_version}

-- No readiness check can be added; all else succeeds. The requests are counted.
abbrev answer : (o : Op) → Answer o
answer get_config_or_die = true
answer (new_manager o) = none
answer (complete_controller b) = none
answer (complete_webhook b) = none
answer (getenv name) = "true"
answer (add_healthz_check name) = none
answer (add_readyz_check name) = some "no"
answer start = none
answer (log_info m kv) = tt
answer (log_error e m kv) = tt

abbrev surroundings : Surroundings
surroundings = record { World = Unit; serve = λ o w. (answer o, w) }

-- enable-http2, and a directory of certificates for the webhooks.
abbrev line : CommandLine
line = record {
  texts = λ name. if name == "webhook-cert-path" then some "/certs" else none;
  switches = λ name. if name == "enable-http2" then some true else none;
}

abbrev config : TlsConfig
config = record { next_protos = "h2" ∷ "http/1.1" ∷ [] }

main-execute_example :
    boot surroundings (main line) tt
    ≡ boot surroundings
        (log_all (webhook_notice line) (
          log_all
            (metrics_notice line)
            (with_config (execute (plan (expected_options line) (not ("true" == "false")))))))
        tt
main-execute_example = main-execute surroundings "true" (λ w. refl) line tt

manager_options-Servers_example :
    (let options = manager_options (parse_flags line) in
      ((configure options.metrics.tls_opts config).next_protos
        ≡ offered (line.switches "enable-http2") config.next_protos)
      × ((configure options.webhook_server.tls_opts config).next_protos
          ≡ offered (line.switches "enable-http2") config.next_protos)
      × ((options.metrics.secure_serving, options.metrics.filter_provider)
          ≡ served (line.switches "metrics-secure")))
manager_options-Servers_example = manager_options-Servers line config

-- A scheme is the list of what it knows; machine types come with the provider.
abbrev Known : Type 0
Known = List (GroupVersion × String)

abbrev known : Known → GroupVersion → String → Bool
known [] g kind = false
known (k ∷ ks) g kind =
    ((k.0.group == g.group && k.0.version == g.version) && k.1 == kind) || known ks g kind

abbrev add_types : Known → GroupVersion → List String → Known
add_types s v [] = s
add_types s v (t ∷ types) = (v, t) ∷ add_types s v types

abbrev registries : Schemes
registries = record {
  Scheme = Known;
  new_scheme = [];
  knows = known;
  add_known_types = add_types;
  add_to_group_version = λ s v. s;
  client_go_scheme = λ s. some s;
  cluster_v1 = λ s. some s;
  infrastructure_v1beta2 = λ s. some ((machine_group_version, "AWSMachine") ∷ s);
}

or_true : (b : Bool) → b || true ≡ true
or_true true = refl
or_true false = refl

known-cons :
    (k : GroupVersion × String) (s : Known) (g : GroupVersion) (kind : String)
    → known s g kind ≡ true
    → known (k ∷ s) g kind ≡ true
known-cons k s g kind h = rw h (or_true _)

add_types-keeps :
    (s : Known) (v g : GroupVersion) (types : List String) (kind : String)
    → known s g kind ≡ true
    → known (add_types s v types) g kind ≡ true
add_types-keeps s v g [] kind h = h
add_types-keeps s v g (t ∷ types) kind h =
    known-cons (v, t) (add_types s v types) g kind (add_types-keeps s v g types kind h)

add_types-knows :
    (s : Known) (v : GroupVersion) (types : List String) (kind : String)
    → In kind types
    → known (add_types s v types) v kind ≡ true
add_types-knows s v [] kind i = absurd i
add_types-knows s v (t ∷ types) kind (inl e) =
    rw (eq_refl v.group, eq_refl v.version, e, eq_refl kind) refl
add_types-knows s v (t ∷ types) kind (inr i) =
    known-cons (v, t) (add_types s v types) v kind (add_types-knows s v types kind i)

some-inj : (s s' : Known) → some s ≡ some s' → s ≡ s'
some-inj s s' e = ap (λ o. elim o [ none ↦ s | some x ↦ x ]) e

registries-IsRegistry : IsRegistry registries
registries-IsRegistry = record {
  add_keeps = add_types-keeps;
  add_knows = add_types-knows;
  cluster_keeps = λ s s' g kind e h. subst (λ x. known x g kind ≡ true) (some-inj s s' e) h;
  infrastructure_keeps = λ s s' g kind e h.
      subst (λ x. known x g kind ≡ true) (some-inj _ s' e)
        (known-cons (machine_group_version, "AWSMachine") s g kind h);
  infrastructure_knows = λ s s' e.
      subst (λ x. known x machine_group_version "AWSMachine" ≡ true) (some-inj _ s' e) refl;
}

init-Known_example : KnowsAll registries (init registries [])
init-Known_example = init-Known registries registries-IsRegistry []
