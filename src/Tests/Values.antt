-- ===== src/Tests/Values.antt =====
-- The values that the operator computes from a resource.
use kubeturbo_deploy.Prelude.{
  String, ◌≡◌, ◌≢◌, refl, true, Option, none, some, List, [], ◌∷◌, arith, All, Any, ◌⊎◌, ◌↔◌,
  str_len, ◌≤◌,
}
use kubeturbo_deploy.Outcome.{ok, err, panic, failure}
use kubeturbo_deploy.Types.{Kubeturbo, role_type_read_only}
use kubeturbo_deploy.Objects.{ClusterRole}
use kubeturbo_deploy.Tests.Samples.{kt, spec, env, named}
use kubeturbo_deploy.Utils.{string_in_slice, get_default_kubeturbo_version}
use kubeturbo_deploy.Request.{name, trim_right_dashes, instance_of, labels}
use kubeturbo_deploy.Config.{config, dynamic_config}
use kubeturbo_deploy.Config.NodeRoles.{split_commas, node_roles}
use kubeturbo_deploy.Roles.{cluster_role_name, cluster_role_binding_name, mutate_cluster_role}
use kubeturbo_deploy.ContainerArgs.{container_args}
use kubeturbo_deploy.Prelude.Maps.{lookup}
use kubeturbo_deploy.Json.{Json, number, strings, object, Block, end}
use kubeturbo_deploy.Json.Lookup.{read}
use kubeturbo_deploy.Prelude.Decimal.{pos}
use kubeturbo_deploy.Types.Defaults.{Surroundings, Defaulting, set_spec_default}
use kubeturbo_deploy.Types.Defaults.Laws.{
  IsComplete, set_spec_default-IsComplete, set_spec_default_fails,
}
use kubeturbo_deploy.Types.Verify.{verify_subfields, scan_nested, missing_fields_error}
use kubeturbo_deploy.Types.Verify.Laws.{missing, critical_fields, verify_subfields-missing}
use kubeturbo_deploy.Types.Reflect.{kubeturbo_fields, Fields}
use kubeturbo_deploy.Request.Instance.{instance_of_fits, instance_of-injective}
use kubeturbo_deploy.Config.Contents.Dynamic.{dynamic_config_misplaced}
use kubeturbo_deploy.Config.NodeRoles.Laws.{node_roles-join, node_roles-panic, IsBad}
use kubeturbo_deploy.ContainerArgs.Flags.{flag_value, settings, container_args-settings}
use kubeturbo_deploy.Roles.Laws.{mutate_cluster_role_reads, cluster_names_collide, only_reads}

-- The fields of TypeMeta and ObjectMeta do not count.
abbrev no_fields : Fields
no_fields = env.type_meta

-- A resource without its tag, version and patterns, and without annotations.
abbrev bare : Kubeturbo
bare = record kt {
  spec = record kt.spec {
    annotations = ("mine", "1") ∷ [];
    image = record kt.spec.image { tag = none };
    server_meta = record kt.spec.server_meta { version = some "VERSION" };
    system_workload_detectors = record { namespace_patterns = none };
  };
}

abbrev before : Defaulting
before = record { default_kt_version = ""; kt = bare }

abbrev after : Defaulting
after = (set_spec_default env before).1

defaults_run : set_spec_default env before ≡ (ok tt, after)
unfolding string_in_slice get_default_kubeturbo_version set_spec_default verify_subfields
    scan_nested kubeturbo_fields
defaults_run = refl

-- The user's own annotation is gone.
own_annotation_lost : lookup "mine" after.kt.spec.annotations ≡ none
unfolding get_default_kubeturbo_version lookup set_spec_default
own_annotation_lost = refl

set_spec_default-IsComplete_example : IsComplete after.kt
set_spec_default-IsComplete_example = set_spec_default-IsComplete env before after defaults_run

abbrev no_env : Surroundings
no_env = record env { lookup_env = λ k. none }

no_version :
    set_spec_default no_env before ≡ (err (failure "DEFAULT_KUBETURBO_VERSION must be set"), before)
unfolding get_default_kubeturbo_version set_spec_default
no_version = refl

set_spec_default_fails_example :
    ((before.default_kt_version ≡ "")
      × (no_env.lookup_env "DEFAULT_KUBETURBO_VERSION" ≡ none)
      × (before ≡ before))
    ⊎ (missing (critical_fields before.kt) ≢ [])
set_spec_default_fails_example =
    set_spec_default_fails no_env before before (failure "DEFAULT_KUBETURBO_VERSION must be set")
      no_version

abbrev full : Defaulting
full = record { default_kt_version = "9"; kt = kt }

abbrev given : String
given = "8.14.3"

verify_subfields-missing_example :
    verify_subfields no_fields no_fields kt ≡ missing_fields_error (missing (critical_fields kt))
verify_subfields-missing_example = verify_subfields-missing no_fields no_fields kt

instance_of_fits_example : (i : String) × (instance_of kt ≡ ok i) × (str_len i ≤ 63)
instance_of_fits_example = instance_of_fits kt (omega arith)

kt_label : instance_of kt ≡ ok "kubeturbo-release-6f2a-01"
unfolding name trim_right_dashes labels
kt_label = refl

instance_of-injective_example : kt.metadata.uid ≡ kt.metadata.uid
instance_of-injective_example =
    instance_of-injective kt kt "kubeturbo-release-6f2a-01" refl kt_label kt_label

abbrev spec_block : Block
spec_block = elim (config spec) [ ok b ↦ b | _ ↦ end ]

abbrev at_path : List String → Option Json
at_path path = read path (some (object (dynamic_config spec)))

dynamic_config_misplaced_example :
    (at_path ("nodePoolSize" ∷ "mac" ∷ []) ≡ some (number (pos 1000)))
    × (at_path ("daemonPodDetectors" ∷ "operatorControlledWorkloadsPatterns" ∷ []) ≡ none)
    × (at_path ("daemonPodDetectors" ∷ "operatorControlledNamespacePatterns" ∷ [])
        ≡ some (strings (".*ccp.*" ∷ [])))
    × (at_path ("nodePoolSize" ∷ "max" ∷ []) ≡ none)
    × (at_path ("logging" ∷ []) ≡ some (number (pos 2)))
    × (at_path ("logging" ∷ "level" ∷ []) ≡ none)
    × (at_path ("daemonPodDetectors" ∷ "namespaces" ∷ []) ≡ none)
    × (at_path ("daemonPodDetectors" ∷ "podNamePatterns" ∷ []) ≡ none)
dynamic_config_misplaced_example = dynamic_config_misplaced spec

container_args-settings_example :
    All (λ (e : String × Option String). flag_value e.0 (container_args spec) ≡ e.1) (settings spec)
container_args-settings_example = container_args-settings spec

node_roles-join_example : node_roles "\"master\",\"infra\"" ≡ ok ("master" ∷ "infra" ∷ [])
node_roles-join_example = node_roles-join "master" ("infra" ∷ []) (
  (refl, (refl, (refl, (refl, (refl, (refl, tt)))))),
  ((refl, (refl, (refl, (refl, (refl, tt))))), tt),
)

node_roles-panic_example : (node_roles "master," ≡ panic) ↔ Any IsBad (split_commas "master,")
node_roles-panic_example = node_roles-panic "master,"

abbrev reader_kt : Kubeturbo
reader_kt = record kt { spec = record kt.spec { role_name = role_type_read_only } }

abbrev fresh_role : ClusterRole
fresh_role = record {
  metadata = named "turbo-cluster-reader-kubeturbo-release-turbo" "";
  rules = [];
}

abbrev reader_role : ClusterRole
reader_role = elim (mutate_cluster_role reader_kt fresh_role) [ ok r ↦ r | _ ↦ fresh_role ]

reader_role_run : mutate_cluster_role reader_kt fresh_role ≡ ok reader_role
unfolding labels mutate_cluster_role
reader_role_run = refl

mutate_cluster_role_reads_example : only_reads reader_role.rules ≡ true
mutate_cluster_role_reads_example =
    mutate_cluster_role_reads reader_kt fresh_role reader_role refl reader_role_run

abbrev kt_at : String → String → Kubeturbo
kt_at n ns = record kt { metadata = record kt.metadata { name = n; namespace = ns } }

cluster_names_collide_example :
    (cluster_role_name (kt_at "a-b" "c") ≡ cluster_role_name (kt_at "a" "b-c"))
    × (cluster_role_binding_name (kt_at "a-b" "c") ≡ cluster_role_binding_name (kt_at "a" "b-c"))
cluster_names_collide_example = cluster_names_collide kt "a" "b" "c"
