-- ===== src/Tests/Runs.antt =====
-- One cycle, a restart and a teardown on the cluster in memory.
use kubeturbo_deploy.Prelude.{
  String, ◌≡◌, ◌≢◌, refl, sym, ap, false, none, some, [], ◌==◌, true-ne-false,
}
use kubeturbo_deploy.Prelude.Maps.{Map}
use kubeturbo_deploy.Outcome.{ok, err, failure, requeue_on_deletion}
use kubeturbo_deploy.Objects.{cluster_role, deployment, Key, ClusterRole, apart}
use kubeturbo_deploy.Client.{Client, matches}
use kubeturbo_deploy.Cycle.{Cycle}
use kubeturbo_deploy.Tests.Memory.{Tables, memory, put_object}
use kubeturbo_deploy.Tests.Memory.Laws.{memory-IsLawful}
use kubeturbo_deploy.Tests.Samples.{kt, kt_b, spec, cluster_of, outdated, named, hash}
use kubeturbo_deploy.Utils.{
  return_on_error, new_map_builder, put, put_all, build, string_in_slice,
  get_default_kubeturbo_version,
}
use kubeturbo_deploy.Request.{
  namespace, name, trim_right_dashes, instance_of, release_labels, labels,
}
use kubeturbo_deploy.Calls.{delete_if_exists, restart_deployment}
use kubeturbo_deploy.Config.{
  set_if, set_when, config_block, config, build_kubeturbo_config, set_wiremock, dynamic_config,
  build_kubeturbo_dynamic_config, get_kubeturbo_config_hash,
}
use kubeturbo_deploy.Config.NodeRoles.{split_commas, strip_quotes, strip_all, node_roles}
use kubeturbo_deploy.Config.Hash.{fnv64}
use kubeturbo_deploy.Json.{set_member, of_bools, marshal_indent}
use kubeturbo_deploy.Json.Quote.{quote}
use kubeturbo_deploy.Roles.{
  cluster_role_name, cluster_role_binding_name, keeps_out, rules_for, orm_rules,
  mutate_cluster_role,
}
use kubeturbo_deploy.Roles.Rules.{reader_rules, admin_rules}
use kubeturbo_deploy.Workload.{
  mutate_config_map, mutate_service_account, maps_equal, selector_differs,
  mutate_cluster_role_binding, mutate_deployment,
}
use kubeturbo_deploy.Workload.Pod.{config_map_name, deployment_spec}
use kubeturbo_deploy.Reconciler.{
  create_or_update_config_map, create_or_update_service_account, create_or_update_cluster_role,
  create_or_update_cluster_role_binding, update_status, update_cluster_resource, restart,
  apply_deployment, create_or_update_deployment, reconcile_kube_turbo, reconcile,
}
use kubeturbo_deploy.ContainerArgs.{container_args}
use kubeturbo_deploy.Types.Blocks.{internalize}
use kubeturbo_deploy.Prelude.Maps.{lookup, insert}
use kubeturbo_deploy.Prelude.Decimal.{format_nat, format_int}
use kubeturbo_deploy.Tests.Memory.{set_table, search, remove, select}
use kubeturbo_deploy.Reconciler.Spared.{is_managed, reconcile-spares}
use kubeturbo_deploy.Reconciler.Restart.{sent, dropped, is_panic, restart-requeues}
use kubeturbo_deploy.Workload.{deployment_key}
use kubeturbo_deploy.Teardown.{
  delete_all, clean_up_kind, remove_finalizer_step, clean_up_cluster_resources, teardown,
}
use kubeturbo_deploy.Teardown.Laws.{teardown-removes, teardown-spares}

abbrev reconciled : Tables
reconciled = (reconcile memory kt (cluster_of kt)).1

-- A cycle over the resource with a hash that is not its configuration's.
abbrev stale : Cycle memory
stale = record { status = outdated.status; world = cluster_of outdated }

hash_of : get_kubeturbo_config_hash spec ≡ ok hash
unfolding config build_kubeturbo_config get_kubeturbo_config_hash node_roles hash
hash_of = refl

stale-ne-empty : outdated.status.config_hash ≢ ""
stale-ne-empty p = true-ne-false (sym (ap (λ x. x == "") p))

stale-ne-hash : outdated.status.config_hash ≢ hash
unfolding set_if set_when config_block config build_kubeturbo_config get_kubeturbo_config_hash
    node_roles fnv64 set_member of_bools marshal_indent quote hash
stale-ne-hash p = true-ne-false (ap (λ x. x == "1") p)

sent_calm : is_panic (sent memory outdated hash stale).0 ≡ false
unfolding search set_table
sent_calm = refl

dropped_ok : (dropped memory outdated hash stale).0 ≡ ok tt
unfolding delete_if_exists set_table search
dropped_ok = refl

restart-requeues_example :
    (t : Cycle memory) × (create_or_update_deployment memory outdated stale
      ≡ (err requeue_on_deletion, t))
    × (t.status.config_hash ≡ hash)
    × (memory.find t.world deployment (deployment_key memory outdated) ≡ none)
restart-requeues_example =
    restart-requeues memory memory-IsLawful outdated hash stale hash_of stale-ne-empty stale-ne-hash
      sent_calm dropped_ok

-- A cluster that refuses every deletion.
abbrev denying : Client
denying = record memory { delete = λ k key w. (err (failure "denied"), w) }

abbrev stale_denying : Cycle denying
stale_denying = record { status = outdated.status; world = cluster_of outdated }

-- A cluster role of each of two resources.
abbrev pub labels_a : Map String
labels_a = elim (labels kt) [ ok ls ↦ ls | _ ↦ [] ]

abbrev pub labels_b : Map String
labels_b = elim (labels kt_b) [ ok ls ↦ ls | _ ↦ [] ]

labels_a_run : labels kt ≡ ok labels_a
unfolding labels
labels_a_run = refl

abbrev pub role_of : String → Map String → ClusterRole
role_of n ls = record { metadata = record (named n "") { labels = ls }; rules = [] }

abbrev pub role_key : String → Key
role_key n = record { name = n; namespace = "" }

abbrev two_roles : Tables
two_roles =
    put_object cluster_role (role_key "a") (role_of "a" labels_a)
      (put_object cluster_role (role_key "b") (role_of "b" labels_b) (cluster_of kt))

abbrev torn_down : Tables
torn_down = (teardown memory kt two_roles).1

teardown_run : teardown memory kt two_roles ≡ (ok tt, torn_down)
unfolding return_on_error namespace name trim_right_dashes labels delete_if_exists
    mutate_service_account lookup insert set_table search remove select delete_all clean_up_kind
    remove_finalizer_step clean_up_cluster_resources teardown
teardown_run = refl

-- The role of `kt` is gone.
gone_a : memory.find torn_down cluster_role (role_key "a") ≡ none
unfolding return_on_error namespace name trim_right_dashes labels delete_if_exists
    mutate_service_account lookup insert set_table search remove select delete_all clean_up_kind
    remove_finalizer_step clean_up_cluster_resources teardown
gone_a = refl

found_b : memory.find torn_down cluster_role (role_key "b") ≡ some (role_of "b" labels_b)
unfolding return_on_error namespace name trim_right_dashes labels delete_if_exists
    mutate_service_account lookup insert set_table search remove select delete_all clean_up_kind
    remove_finalizer_step clean_up_cluster_resources teardown
found_b = refl

there_b : memory.find two_roles cluster_role (role_key "b") ≡ some (role_of "b" labels_b)
unfolding search set_table remove
there_b = refl

no_match : matches labels_a labels_b ≡ false
unfolding return_on_error new_map_builder put put_all build string_in_slice
    get_default_kubeturbo_version namespace name trim_right_dashes instance_of release_labels labels
    delete_if_exists restart_deployment set_if set_when config_block config build_kubeturbo_config
    set_wiremock dynamic_config build_kubeturbo_dynamic_config get_kubeturbo_config_hash
    split_commas strip_quotes strip_all node_roles fnv64 set_member of_bools marshal_indent quote
    cluster_role_name cluster_role_binding_name keeps_out rules_for orm_rules mutate_cluster_role
    reader_rules admin_rules mutate_config_map mutate_service_account maps_equal selector_differs
    mutate_cluster_role_binding mutate_deployment config_map_name deployment_spec
    create_or_update_config_map create_or_update_service_account create_or_update_cluster_role
    create_or_update_cluster_role_binding update_status update_cluster_resource restart
    apply_deployment create_or_update_deployment reconcile_kube_turbo reconcile container_args
    internalize lookup insert format_nat format_int set_table search remove select
no_match = refl

teardown-removes_example : matches labels_a labels_b ≡ false
teardown-removes_example =
    teardown-removes memory memory-IsLawful kt cluster_role labels_a two_roles torn_down
      (role_key "b") (role_of "b" labels_b) refl labels_a_run teardown_run found_b

teardown-spares_example :
    memory.find torn_down cluster_role (role_key "b") ≡ some (role_of "b" labels_b)
teardown-spares_example =
    teardown-spares memory memory-IsLawful kt cluster_role labels_a two_roles torn_down
      (role_key "b") (role_of "b" labels_b) (apart refl) labels_a_run teardown_run there_b no_match

-- A cycle beside the roles of two resources.
abbrev reconciled_beside : Tables
reconciled_beside = (reconcile memory kt two_roles).1

beside_run : reconcile memory kt two_roles ≡ (ok tt, reconciled_beside)
unfolding return_on_error labels set_if set_when config_block config build_kubeturbo_config
    build_kubeturbo_dynamic_config get_kubeturbo_config_hash node_roles fnv64 set_member of_bools
    marshal_indent quote cluster_role_name cluster_role_binding_name keeps_out mutate_cluster_role
    mutate_config_map mutate_service_account selector_differs mutate_cluster_role_binding
    mutate_deployment deployment_spec create_or_update_config_map create_or_update_service_account
    create_or_update_cluster_role create_or_update_cluster_role_binding update_status
    update_cluster_resource apply_deployment create_or_update_deployment reconcile_kube_turbo
    reconcile set_table search remove
beside_run = refl

not_managed : is_managed memory kt cluster_role (role_key "b") ≡ false
unfolding cluster_role_name name namespace
not_managed = refl

reconcile-spares_example :
    memory.find reconciled_beside cluster_role (role_key "b")
    ≡ memory.find two_roles cluster_role (role_key "b")
reconcile-spares_example =
    reconcile-spares memory memory-IsLawful kt two_roles reconciled_beside cluster_role
      (role_key "b") beside_run not_managed
