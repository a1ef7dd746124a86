-- ===== src/Startup/Main.antt =====
-- cmd/main.go: init and main up to the start of the manager, and SetupWithManager of
-- internal/controller/kubeturbo_controller.go. The calls of controller-runtime are one parameter, `call`;
-- `parse` is flag.Parse on a command line that it accepts: it may change the flags from their defaults.
-- GetConfigOrDie ends the process with code 1 when it fails. The clients, recorders and channels that
-- calls are given are the ones of the one manager and process, and left out, as is log output.
pub mod Laws
use kubeturbo_deploy.Prelude.{
  ℕ, String, Bool, true, false, not, Option, List, [], ◌∷◌, ◌++◌, if◌then◌else◌,
}
use kubeturbo_deploy.Outcome.{Outcome, ok, err, panic, Exec}
use kubeturbo_deploy.Objects.{Kind, kubeturbo, deployment, config_map, service_account}
use kubeturbo_deploy.Constants.{kubeturbo_crd_name}
use kubeturbo_deploy.Startup.{cached_namespaces}

pub record Flags : Type 0 where
  pub metrics_addr : String
  pub probe_addr : String
  pub enable_leader_election : Bool
  pub secure_metrics : Bool
  pub enable_http2 : Bool

abbrev pub default_flags : Flags
default_flags = record {
  metrics_addr = ":8080";
  probe_addr = ":8081";
  enable_leader_election = false;
  secure_metrics = false;
  enable_http2 = false;
}

-- The field of tls.Config that the operator sets.
pub record TlsConfig : Type 0 where
  pub next_protos : List String

abbrev pub TlsOpts : Type 0
TlsOpts = List (TlsConfig → TlsConfig)

unfoldable pub disable_http2 : TlsConfig → TlsConfig
disable_http2 c = record c { next_protos = "http/1.1" ∷ [] }

unfoldable pub tls_opts : Flags → TlsOpts
tls_opts flags = if not flags.enable_http2 then [] ++ (disable_http2 ∷ []) else []

-- metricsserver.Options
pub record Metrics : Type 0 where
  pub bind_address : String
  pub secure_serving : Bool
  pub tls_opts : TlsOpts

-- ctrl.Options, with the options of the webhook server and the namespaces that NewCache is given.
pub record ManagerOptions : Type 0 where
  pub metrics : Metrics
  pub webhook_tls_opts : TlsOpts
  pub health_probe_bind_address : String
  pub leader_election : Bool
  pub leader_election_id : String
  pub default_namespaces : List String

unfoldable pub manager_options : Flags → (String → Option String) → ManagerOptions
manager_options flags lookup_env = record {
  metrics = record {
    bind_address = flags.metrics_addr;
    secure_serving = flags.secure_metrics;
    tls_opts = tls_opts flags;
  };
  webhook_tls_opts = tls_opts flags;
  health_probe_bind_address = flags.probe_addr;
  leader_election = flags.enable_leader_election;
  leader_election_id = "dd27fc3c.helm.k8s.io";
  default_namespaces = cached_namespaces lookup_env;
}

-- The kinds that bring a cycle: the resource, and the objects that it owns.
pub record Watches : Type 0 where
  pub for_kind : Kind
  pub owns : List Kind

unfoldable pub setup_with_manager : Watches
setup_with_manager = record {
  for_kind = kubeturbo;
  owns = deployment ∷ config_map ∷ service_account ∷ [];
}

pub data Scheme : Type 0 where
  client_go api_extensions charts_v1 charts_v1alpha1 : Scheme

-- The calls of main that may fail, and the go statement.
pub data Call : Type 0 where
  add_to_scheme : Scheme → Call
  get_config : Call
  new_manager : ManagerOptions → Call
  build_controller : Watches → Call
  add_healthz_check : String → Call
  add_readyz_check : String → Call
  add_crd_check : String → String → Call
  go_wait : Call
  start_manager : Call

-- How the process ends: with an exit code, or by a panic.
pub data Exit : Type 0 where
  exited : ℕ → Exit
  crashed : Exit

module _ {World : Type 0} (call : Call → Exec World (Unit {0})) where
  abbrev pub Run : Type 0
  Run = World → Exit × World

  -- utilruntime.Must(f())
  abbrev pub must : Call → Run → Run
  must f rest w =
      let (r, v) = call f w in
      elim r [ ok u ↦ rest v | err e ↦ (crashed, v) | panic ↦ (crashed, v) ]

  -- `if err := f(); err != nil { os.Exit(1) }`
  abbrev pub or_exit : Call → Run → Run
  or_exit f rest w =
      let (r, v) = call f w in
      elim r [ ok u ↦ rest v | err e ↦ (exited 1, v) | panic ↦ (crashed, v) ]

  -- A go statement.
  abbrev pub spawn : Call → Run → Run
  spawn f rest w = rest (call f w).1

  unfoldable pub init : Run → Run
  init rest = must (add_to_scheme client_go) (
      must (add_to_scheme api_extensions)
        (must (add_to_scheme charts_v1) (must (add_to_scheme charts_v1alpha1) rest)))

  unfoldable pub main : (Flags → Flags) → (String → Option String) → Run
  unfolding manager_options setup_with_manager
  main parse lookup_env = or_exit get_config (
      or_exit (new_manager (manager_options (parse default_flags) lookup_env)) (
        or_exit (build_controller setup_with_manager) (
          or_exit (add_healthz_check "healthz") (
            or_exit (add_readyz_check "readyz") (
              or_exit (add_crd_check kubeturbo_crd_name "kubeturbo-operator")
                (spawn go_wait (or_exit start_manager (λ w. (exited 0, w)))))))))
