-- ===== src/Tests/Retries.antt =====
-- Cycles that follow one another on the cluster in memory.
use kubeturbo_deploy.Prelude.{◌≡◌, refl, []}
use kubeturbo_deploy.Outcome.{Outcome, ok, err, requeue_on_deletion}
use kubeturbo_deploy.Types.{Kubeturbo, KubeturboStatus}
use kubeturbo_deploy.Objects.{cluster_role_binding}
use kubeturbo_deploy.Utils.{return_on_error}
use kubeturbo_deploy.Request.{labels}
use kubeturbo_deploy.Calls.{delete_if_exists}
use kubeturbo_deploy.Config.{
  set_if, set_when, config_block, config, build_kubeturbo_config, build_kubeturbo_dynamic_config,
  get_kubeturbo_config_hash,
}
use kubeturbo_deploy.Config.NodeRoles.{node_roles}
use kubeturbo_deploy.Config.Hash.{fnv64}
use kubeturbo_deploy.Json.{set_member, of_bools, marshal_indent}
use kubeturbo_deploy.Json.Quote.{quote}
use kubeturbo_deploy.Roles.{
  cluster_role_name, cluster_role_binding_name, keeps_out, mutate_cluster_role,
}
use kubeturbo_deploy.Workload.{
  mutate_config_map, mutate_service_account, mutate_cluster_role_binding,
}
use kubeturbo_deploy.Workload.Pod.{deployment_spec}
use kubeturbo_deploy.Reconciler.{
  unset_spec, create_or_update_config_map, create_or_update_service_account,
  create_or_update_cluster_role, create_or_update_cluster_role_binding, update_status,
  update_cluster_resource, restart, create_or_update_deployment, reconcile_kube_turbo, reconcile,
}
use kubeturbo_deploy.Reconciler.Retry.{cycles}
use kubeturbo_deploy.Reconciler.Retry.Renders.{Renders}
use kubeturbo_deploy.Reconciler.Retry.Bound.{Converges, cycles-Converges}
use kubeturbo_deploy.Prelude.Maps.{lookup}
use kubeturbo_deploy.Utils.{string_in_slice}
use kubeturbo_deploy.Types.Defaults.{set_spec_default}
use kubeturbo_deploy.Types.Verify.{verify_subfields, scan_fields}
use kubeturbo_deploy.Types.Reflect.{kubeturbo_fields}
use kubeturbo_deploy.Controller.{Process, defaulted}
use kubeturbo_deploy.Controller.Again.{Settles, requests-Settles}
use kubeturbo_deploy.Tests.Memory.{Tables, memory, put_object, set_table, search, remove}
use kubeturbo_deploy.Tests.Memory.Laws.{memory-IsLawful}
use kubeturbo_deploy.Tests.Memory.Responsive.{memory-IsResponsive}
use kubeturbo_deploy.Tests.Samples.{kt, cluster_of, outdated, named, env, request, util}

abbrev or_default : {A : Type 0} → A → Outcome A → A
or_default a (ok b) = b
or_default a (err e) = a
or_default a _ = a

-- A binding to another role, which an earlier resource has left.
abbrev bound_elsewhere : Tables
bound_elsewhere =
    put_object cluster_role_binding (record { name = cluster_role_binding_name kt; namespace = "" })
      (record {
        metadata = named (cluster_role_binding_name kt) "";
        subjects = [];
        role_ref = record { kind = "ClusterRole"; name = "another"; api_group = "" };
      })
      (cluster_of outdated)

-- The binding is deleted, then the deployment restarted: two cycles are too few.
two_cycles_run : (cycles memory outdated 2 bound_elsewhere).0 ≡ err requeue_on_deletion
unfolding return_on_error labels delete_if_exists set_if set_when config_block config
    build_kubeturbo_config build_kubeturbo_dynamic_config get_kubeturbo_config_hash node_roles fnv64
    set_member of_bools marshal_indent quote cluster_role_name cluster_role_binding_name keeps_out
    mutate_cluster_role mutate_config_map mutate_service_account mutate_cluster_role_binding
    deployment_spec create_or_update_config_map create_or_update_service_account
    create_or_update_cluster_role create_or_update_cluster_role_binding update_status
    update_cluster_resource restart create_or_update_deployment reconcile_kube_turbo reconcile
    cycles set_table search remove
two_cycles_run = refl

outdated-Renders : (st : KubeturboStatus) → Renders (record outdated { status = st })
unfolding labels config build_kubeturbo_config build_kubeturbo_dynamic_config node_roles
    deployment_spec
outdated-Renders st =
    let k : Kubeturbo = record outdated { status = st } in
    record {
      ls = or_default [] (labels k);
      labels_ok = refl;
      text = or_default "" (build_kubeturbo_config k.spec);
      config_ok = refl;
      dynamic = or_default "" (build_kubeturbo_dynamic_config k.spec);
      dynamic_ok = refl;
      pod = or_default unset_spec (deployment_spec k (or_default [] (labels k)));
      pod_ok = refl;
    }

cycles-Converges_example : Converges memory outdated 3 bound_elsewhere
unfolding search set_table
cycles-Converges_example =
    cycles-Converges memory memory-IsLawful memory-IsResponsive outdated outdated-Renders
      bound_elsewhere outdated refl

abbrev asked : Process memory env util
asked = record { default_kt_version = "8.14.3"; world = bound_elsewhere }

asked-filled : defaulted memory env util outdated asked ≡ (ok outdated, asked)
unfolding string_in_slice lookup set_spec_default verify_subfields scan_fields kubeturbo_fields
asked-filled = refl

requests-Settles_example : Settles memory env util 3 request outdated asked
unfolding search set_table
requests-Settles_example =
    requests-Settles memory memory-IsLawful memory-IsResponsive env util request asked asked
      outdated outdated refl asked-filled refl outdated-Renders
