-- ===== src/Tests/Launch.antt =====
-- A process in which a call fails, and one with an option for HTTP/2.
use kubeturbo_deploy.Prelude.{String, ◌≡◌, refl, true, Option, some, [], ◌∷◌}
use kubeturbo_deploy.Outcome.{Outcome, ok, err, failure}
use kubeturbo_deploy.Startup.Main.{
  Flags, default_flags, TlsConfig, manager_options, client_go, api_extensions, charts_v1,
  charts_v1alpha1, Call, add_to_scheme, get_config, new_manager, init, main, exited,
}
use kubeturbo_deploy.Startup.Main.Laws.{
  configured, all_calls, recorded, until_failure, manager_options-serves, main-until_failure,
}

abbrev environment : String → Option String
environment k = some "turbo"

abbrev with_http2 : Flags → Flags
with_http2 flags = record flags { enable_http2 = true }

-- The manager cannot be built.
abbrev answers : Call → Outcome (Unit {0})
answers (new_manager o) = err (failure "no manager")
answers _ = ok tt

abbrev both : TlsConfig
both = record { next_protos = "h2" ∷ "http/1.1" ∷ [] }

manager_options-serves_example :
    let o = manager_options default_flags environment in
    (configured o.metrics.tls_opts both ≡ record { next_protos = "http/1.1" ∷ [] })
    × (configured o.webhook_tls_opts both ≡ record { next_protos = "http/1.1" ∷ [] })
    × (o.default_namespaces ≡ "turbo" ∷ [])
manager_options-serves_example = manager_options-serves default_flags environment both

main-until_failure_example :
    init (recorded answers) (main (recorded answers) with_http2 environment) []
    ≡ (exited 1, until_failure answers (all_calls (with_http2 default_flags) environment))
main-until_failure_example = main-until_failure answers with_http2 environment refl

-- The last call is the one for the manager.
six_calls :
    until_failure answers (all_calls default_flags environment)
    ≡ add_to_scheme client_go
      ∷ add_to_scheme api_extensions
      ∷ add_to_scheme charts_v1
      ∷ add_to_scheme charts_v1alpha1
      ∷ get_config
      ∷ new_manager (manager_options default_flags environment)
      ∷ []
six_calls = refl
