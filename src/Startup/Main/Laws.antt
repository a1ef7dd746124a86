-- ===== src/Startup/Main/Laws.antt =====
-- What main calls, in which order, and with which options.
use kubeturbo_deploy.Prelude.{
  String, ◌≡◌, refl, sym, ap, Bool, true, false, Option, none, some, List, [], ◌∷◌, ◌++◌,
  if◌then◌else◌, arith, ◌==◌,
}
use mathlib.Core.List.{append_assoc, append-nil}
use kubeturbo_deploy.Outcome.{Outcome, ok, err, panic, Exec}
use kubeturbo_deploy.Constants.{kubeturbo_crd_name}
use kubeturbo_deploy.Startup.{get_watch_namespace, cached_namespaces, watch_namespace_env_var}
use kubeturbo_deploy.Startup.Main.{
  Flags, default_flags, TlsConfig, TlsOpts, tls_opts, disable_http2, manager_options,
  setup_with_manager, Scheme, client_go, api_extensions, charts_v1, charts_v1alpha1, Call,
  add_to_scheme, get_config, new_manager, build_controller, add_healthz_check, add_readyz_check,
  add_crd_check, go_wait, start_manager, Exit, exited, crashed, Run, must, or_exit, spawn, init,
  main,
}

-- The configuration of a server, after its options.
abbrev pub configured : TlsOpts → TlsConfig → TlsConfig
configured [] c = c
configured (o ∷ opts) c = configured opts (o c)

-- The namespaces that the variable asks for.
abbrev pub asked_namespaces : Option String → List String
asked_namespaces none = []
asked_namespaces (some ns) = if ns == "" then [] else ns ∷ []

-- Whatever the configuration of the metrics server or of the webhook server is before its options, it is
-- left with http/1.1 only, or as it is if the flag enables HTTP/2; the cache is of the namespace that the
-- variable names, or of all namespaces if the variable is unset or empty.
pub manager_options-serves :
    (flags : Flags) (lookup_env : String → Option String) (c : TlsConfig)
    → let o = manager_options flags lookup_env in
      let c' : TlsConfig =
        if flags.enable_http2 then c else record { next_protos = "http/1.1" ∷ [] } in
      (configured o.metrics.tls_opts c ≡ c')
      × (configured o.webhook_tls_opts c ≡ c')
      × (o.default_namespaces ≡ asked_namespaces (lookup_env watch_namespace_env_var))
unfolding manager_options tls_opts disable_http2 cached_namespaces get_watch_namespace
manager_options-serves flags lookup_env c = (ground arith, ground arith, ground arith)

-- The calls of a process, in their order.
abbrev pub all_calls : Flags → (String → Option String) → List Call
all_calls flags lookup_env =
    add_to_scheme client_go
    ∷ add_to_scheme api_extensions
    ∷ add_to_scheme charts_v1
    ∷ add_to_scheme charts_v1alpha1
    ∷ get_config
    ∷ new_manager (manager_options flags lookup_env)
    ∷ build_controller setup_with_manager
    ∷ add_healthz_check "healthz"
    ∷ add_readyz_check "readyz"
    ∷ add_crd_check kubeturbo_crd_name "kubeturbo-operator"
    ∷ go_wait
    ∷ start_manager
    ∷ []

abbrev pub is_registration : Call → Bool
is_registration (add_to_scheme s) = true
is_registration _ = false

module _ (answer : Call → Outcome (Unit {0})) where
  -- Calls that are answered so, and recorded.
  abbrev pub recorded : Call → Exec (List Call) (Unit {0})
  recorded f calls = (answer f, calls ++ (f ∷ []))

  -- The calls up to the first one that does not succeed, with it.
  abbrev pub until_failure : List Call → List Call
  until_failure [] = []
  until_failure (f ∷ fs) = f ∷ (elim (answer f) [ ok u ↦ until_failure fs | _ ↦ [] ])

  -- What that one means for the process.
  abbrev pub verdict : List Call → Exit
  verdict [] = exited 0
  verdict (f ∷ fs) = elim (answer f) [
    | ok u ↦ verdict fs
    | err e ↦ if is_registration f then crashed else exited 1
    | panic ↦ crashed
  ]

  -- A run that makes the calls of a list until one of them does not succeed, and ends accordingly.
  record Follows (run : Run recorded) (fs : List Call) : Type 0 where
    at : (calls : List Call) → run calls ≡ (verdict fs, calls ++ until_failure fs)

  must-Follows :
      {s : Scheme} {rest : Run recorded} {fs : List Call}
      → Follows rest fs
      → Follows (must recorded (add_to_scheme s) rest) (add_to_scheme s ∷ fs)
  must-Follows {s} {rest} {fs} follows = record {
    at = λ calls. ground (
      arith,
      follows.at (calls ++ (add_to_scheme s ∷ [])),
      append_assoc calls (add_to_scheme s ∷ []) (until_failure fs),
    );
  }

  or_exit-Follows :
      {f : Call} {rest : Run recorded} {fs : List Call}
      → is_registration f ≡ false
      → Follows rest fs
      → Follows (or_exit recorded f rest) (f ∷ fs)
  or_exit-Follows {f} {rest} {fs} reg follows = record {
    at = λ calls.
        ground
          (arith, follows.at (calls ++ (f ∷ [])), append_assoc calls (f ∷ []) (until_failure fs));
  }

  spawn-Follows :
      {f : Call} {rest : Run recorded} {fs : List Call}
      → answer f ≡ ok tt
      → Follows rest fs
      → Follows (spawn recorded f rest) (f ∷ fs)
  spawn-Follows {f} {rest} {fs} spawned follows = record {
    at = λ calls.
        ground
          (arith, follows.at (calls ++ (f ∷ [])), append_assoc calls (f ∷ []) (until_failure fs));
  }

  exits-Follows : Follows (λ calls. (exited 0, calls)) []
  exits-Follows = record { at = λ calls. ap (λ l. (exited 0, l)) (sym (append-nil calls)) }

-- Whatever each call answers, a process makes the calls of the list in their order up to the first that
-- does not succeed, and no other; it ends with code 0 if all succeed, by a panic if a registration does
-- not succeed or a call panics, and else with code 1. A go statement does not fail.
pub main-until_failure :
    (answer : Call → Outcome (Unit {0})) (parse : Flags → Flags)
    (lookup_env : String → Option String)
    → answer go_wait ≡ ok tt
    → let calls = all_calls (parse default_flags) lookup_env in
      init (recorded answer) (main (recorded answer) parse lookup_env) []
      ≡ (verdict answer calls, until_failure answer calls)
unfolding init main
main-until_failure answer parse lookup_env spawned =
    (must-Follows answer (
        must-Follows answer (
          must-Follows answer (
            must-Follows answer (
              or_exit-Follows answer refl (
                or_exit-Follows answer refl (
                  or_exit-Follows answer refl (
                    or_exit-Follows answer refl (
                      or_exit-Follows answer refl (
                        or_exit-Follows answer refl (
                          spawn-Follows answer spawned
                            (or_exit-Follows answer refl (exits-Follows answer))))))))))))).at
      []
