-- ===== src/Tests/Requests.antt =====
-- Requests to the controller on the cluster in memory.
use kubeturbo_deploy.Prelude.{◌≡◌, refl, true, false, not, none, some, [], ◌∷◌, ◌&&◌, all}
use kubeturbo_deploy.Outcome.{ok, err, failure, conflict}
use kubeturbo_deploy.Types.{Kubeturbo}
use kubeturbo_deploy.Client.{Client}
use kubeturbo_deploy.Tests.Memory.{memory, no_objects}
use kubeturbo_deploy.Tests.Samples.{kt, env, request, cluster_of, outdated, util}
use kubeturbo_deploy.Utils.{return_on_error}
use kubeturbo_deploy.Request.{labels}
use kubeturbo_deploy.Calls.{delete_if_exists}
use kubeturbo_deploy.Config.{
  set_if, set_when, config_block, config, build_kubeturbo_config, build_kubeturbo_dynamic_config,
  get_kubeturbo_config_hash,
}
use kubeturbo_deploy.Config.NodeRoles.{node_roles}
use kubeturbo_deploy.Config.Hash.{fnv64}
use kubeturbo_deploy.Json.{set_member, of_bools, marshal_indent}
use kubeturbo_deploy.Json.Quote.{quote}
use kubeturbo_deploy.Roles.{
  cluster_role_name, cluster_role_binding_name, keeps_out, mutate_cluster_role,
}
use kubeturbo_deploy.Workload.{
  mutate_config_map, mutate_service_account, mutate_cluster_role_binding,
}
use kubeturbo_deploy.Workload.Pod.{deployment_spec}
use kubeturbo_deploy.Reconciler.{
  create_or_update_config_map, create_or_update_service_account, create_or_update_cluster_role,
  create_or_update_cluster_role_binding, update_status, update_cluster_resource, restart,
  create_or_update_deployment, reconcile_kube_turbo, reconcile,
}
use kubeturbo_deploy.Tests.Memory.{set_table, search}
use kubeturbo_deploy.Constants.{kubeturbo_finalizer}
use kubeturbo_deploy.Finalizers.{remove_foreign, ensure_finalizer}
use kubeturbo_deploy.Finalizers.Laws.{is_own, ensure_finalizer-need}
use kubeturbo_deploy.Controller.{Process, answer_of, run_reconcile, process, reconcile_request}
use kubeturbo_deploy.Controller.Laws.{read, process-answers}
use kubeturbo_deploy.Controller.Deletion.{ensured}

abbrev asked : Process memory env util
asked = record { default_kt_version = "8.14.3"; world = cluster_of kt }

abbrev answered : Process memory env util
answered = (reconcile_request memory env util request asked).1

-- A resource with an earlier hash: its deployment is restarted.
process-answers_example : process memory env util request outdated (cluster_of outdated) ≡ (
  read (reconcile memory outdated (cluster_of outdated)).0,
  (reconcile memory outdated (cluster_of outdated)).1,
)
process-answers_example =
    process-answers memory env util request outdated (cluster_of outdated) refl

-- It is then asked for again after a second.
restart_answer :
    (process memory env util request outdated (cluster_of outdated)).0
    ≡ ok (record { requeue_after = 1 }, none)
unfolding return_on_error labels delete_if_exists set_if set_when config_block config
    build_kubeturbo_config build_kubeturbo_dynamic_config get_kubeturbo_config_hash node_roles fnv64
    set_member of_bools marshal_indent quote cluster_role_name cluster_role_binding_name keeps_out
    mutate_cluster_role mutate_config_map mutate_service_account mutate_cluster_role_binding
    deployment_spec create_or_update_config_map create_or_update_service_account
    create_or_update_cluster_role create_or_update_cluster_role_binding update_status
    update_cluster_resource restart create_or_update_deployment reconcile_kube_turbo reconcile
    set_table search remove_foreign ensure_finalizer answer_of run_reconcile process
restart_answer = refl

ensure_finalizer-need_example :
    (ensure_finalizer util ("a" ∷ "b" ∷ [])).need_to_update_cr
    ≡ not (
        all is_own ("a" ∷ "b" ∷ []) && util.contains_finalizer ("a" ∷ "b" ∷ []) kubeturbo_finalizer)
ensure_finalizer-need_example = ensure_finalizer-need util ("a" ∷ "b" ∷ [])

own_kept : (ensure_finalizer util kt.metadata.finalizers).need_to_update_cr ≡ false
unfolding ensure_finalizer remove_foreign
own_kept = refl

-- With the array left alone, every foreign finalizer goes.
foreign_gone : (ensure_finalizer util ("a" ∷ "b" ∷ "c" ∷ [])).finalizers ≡ kubeturbo_finalizer ∷ []
unfolding ensure_finalizer remove_foreign
foreign_gone = refl

abbrev deleted : Kubeturbo
deleted = record kt { metadata = record kt.metadata { deletion_timestamp = some "now" } }

-- An update that fails.
abbrev read_only : Client
read_only = record memory { update = λ k o w. (err conflict, w) }

owned :
    util.contains_finalizer
      (ensured read_only env util deleted).metadata.finalizers
      kubeturbo_finalizer
    ≡ true
unfolding ensure_finalizer remove_foreign
owned = refl

-- An update after which the resource is gone, and a teardown that fails.
abbrev releasing : Client
releasing = record memory {
  update = λ k o w. (ok tt, no_objects);
  create_or_update = λ k o f w. (err (failure "denied"), w);
}
