-- ===== src/Types/Defaults.antt =====
-- api/v1/kubeturbo_types.go: SetSpecDefault, which fills what an old CRD left out and then verifies.
-- The package variable `defaultKtVersion` is part of the state. Pointers to it are never written
-- through, so a pointer is the value that it shows.
pub mod Laws
use kubeturbo_deploy.Prelude.{
  String, Bool, true, false, Option, none, some, List, [], ◌∷◌, ◌==◌, if◌then◌else◌, is_some,
}
use kubeturbo_deploy.Prelude.Maps.{Map, lookup}
use kubeturbo_deploy.Outcome.{Outcome, ok, Exec, pure, lift, gets, modify, ◌>>=◌, ◌>>◌}
use kubeturbo_deploy.Utils.{get_default_kubeturbo_version}
use kubeturbo_deploy.Types.{Kubeturbo, KubeturboSpec}
use kubeturbo_deploy.Types.Reflect.{Fields}
use kubeturbo_deploy.Types.Verify.{verify_subfields}

abbrev pub default_version : String
default_version = "VERSION"

abbrev pub default_annotation_key : String
default_annotation_key = "kubeturbo.io/controllable"

abbrev pub default_annotation_val : String
default_annotation_val = "false"

abbrev pub default_sys_wl_ns_patterns : List String
default_sys_wl_ns_patterns = "kube-.*" ∷ "openshift-.*" ∷ "cattle.*" ∷ []

-- The receiver and the package variable.
pub record Defaulting : Type 0 where
  pub default_kt_version : String
  pub kt : Kubeturbo

-- What the function reads of its surroundings: os.LookupEnv, and what reflection shows of the
-- embedded structs.
pub record Surroundings : Type 0 where
  pub lookup_env : String → Option String
  pub type_meta : Fields
  pub object_meta : Fields

-- `p == nil || *p == DefaultVersion`
abbrev is_unset : Option String → Bool
is_unset none = true
is_unset (some v) = v == default_version

abbrev patch_version : String → Option String → Option String
patch_version default p = if is_unset p then some default else p

abbrev patch_annotations : Map String → Map String
patch_annotations m =
    if is_some (lookup default_annotation_key m)
    then m
    else (default_annotation_key, default_annotation_val) ∷ []

abbrev patch_patterns : Option (List String) → Option (List String)
patch_patterns none = some default_sys_wl_ns_patterns
patch_patterns (some ps) = some ps

patch_spec : String → KubeturboSpec → KubeturboSpec
patch_spec default s = record s {
  image = record s.image { tag = patch_version default s.image.tag };
  server_meta = record s.server_meta { version = patch_version default s.server_meta.version };
  annotations = patch_annotations s.annotations;
  system_workload_detectors = record {
    namespace_patterns = patch_patterns s.system_workload_detectors.namespace_patterns;
  };
}

module _ (env : Surroundings) where
  load_default_version : Exec Defaulting (Unit {0})
  load_default_version s =
      if s.default_kt_version == ""
      then (do
        version ← lift (get_default_kubeturbo_version env.lookup_env)
        modify (λ t. record t { default_kt_version = version }))
          s
      else (ok tt, s)

  verify_receiver : Exec Defaulting (Unit {0})
  verify_receiver s = (verify_subfields env.type_meta env.object_meta s.kt, s)

  unfoldable pub set_spec_default : Exec Defaulting (Unit {0})
  unfolding load_default_version verify_receiver patch_spec
  set_spec_default = do
    load_default_version
    modify (λ s. record s { kt = record s.kt { spec = patch_spec s.default_kt_version s.kt.spec } })
    verify_receiver
