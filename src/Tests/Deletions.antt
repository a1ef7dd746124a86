-- ===== src/Tests/Deletions.antt =====
-- A request for a resource that is being deleted, on the cluster in memory with the roles of two resources.
use kubeturbo_deploy.Prelude.{◌≡◌, refl, true, none, some}
use kubeturbo_deploy.Types.{Kubeturbo}
use kubeturbo_deploy.Objects.{cluster_role}
use kubeturbo_deploy.Prelude.Maps.{lookup, insert}
use kubeturbo_deploy.Utils.{return_on_error, string_in_slice}
use kubeturbo_deploy.Request.{namespace, name, trim_right_dashes, labels}
use kubeturbo_deploy.Calls.{delete_if_exists}
use kubeturbo_deploy.Workload.{mutate_service_account}
use kubeturbo_deploy.Teardown.{
  delete_all, clean_up_kind, remove_finalizer_step, clean_up_cluster_resources, teardown,
}
use kubeturbo_deploy.Types.Defaults.{set_spec_default}
use kubeturbo_deploy.Types.Verify.{verify_subfields, scan_fields}
use kubeturbo_deploy.Types.Reflect.{kubeturbo_fields}
use kubeturbo_deploy.Finalizers.{remove_foreign, ensure_finalizer}
use kubeturbo_deploy.Controller.{
  delete_kubeturbo, wait_for_pod_deletion, get_pod_by_deployment, process, Process,
  reconcile_request,
}
use kubeturbo_deploy.Tests.Memory.{set_table, search, remove, select, memory, put_object}
use kubeturbo_deploy.Tests.Samples.{kt, env, request, cluster_of, util}
use kubeturbo_deploy.Tests.Runs.{labels_a, labels_b, role_of, role_key}

-- It asks to wait for its pods.
abbrev deleted : Kubeturbo
deleted = record kt {
  metadata = record kt.metadata { deletion_timestamp = some "now" };
  spec = record kt.spec {
    args = record kt.spec.args { cleanup_scc_impersonation_resources = some true };
  };
}

abbrev asked : Process memory env util
asked = record {
  default_kt_version = "8.14.3";
  world =
      put_object cluster_role (role_key "a") (role_of "a" labels_a)
        (put_object cluster_role (role_key "b") (role_of "b" labels_b) (cluster_of deleted));
}

abbrev answered : Process memory env util
answered = (reconcile_request memory env util request asked).1

-- The role of the resource is gone.
gone_a : memory.find answered.world cluster_role (role_key "a") ≡ none
unfolding return_on_error string_in_slice labels delete_if_exists namespace name trim_right_dashes
    lookup insert mutate_service_account set_table search remove select remove_foreign
    ensure_finalizer process reconcile_request delete_kubeturbo wait_for_pod_deletion
    get_pod_by_deployment delete_all clean_up_kind remove_finalizer_step clean_up_cluster_resources
    teardown set_spec_default verify_subfields scan_fields kubeturbo_fields
gone_a = refl
