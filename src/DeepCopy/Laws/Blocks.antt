-- ===== src/DeepCopy/Laws/Blocks.antt =====
-- The DeepCopy of every block of the specification is deep.
use kubeturbo_deploy.DeepCopy.Laws.{kubeturbo_list_deep_copy-IsDeepCopy}
use kubeturbo_deploy.DeepCopy.{kubeturbo_list_deep_copy}
use kubeturbo_deploy.DeepCopy.Views.{kubeturbo_list_view, kubeturbo_list_reach}
use kubeturbo_deploy.Prelude.{none, some, []}
use kubeturbo_deploy.Types.Blocks.{KubeturboHaNodeConfig}
use kubeturbo_deploy.Types.{KubeturboStatus}
use kubeturbo_deploy.DeepCopy.Cells.Instances.{
  stored_kubeturbo_list, stored_annotation_whitelist, stored_daemon_pod_detectors, stored_discovery,
  stored_exclusion_detectors, stored_kubeturbo_image, stored_kubeturbo_pod_scheduling,
  stored_kubeturbo_rest_api_config, stored_kubeturbo_sdk_protocol_config,
  stored_kubeturbo_server_meta, stored_kubeturbo_target_config, stored_logging,
  stored_node_pool_size, stored_orm_owners, stored_resource_requirements,
  stored_system_workload_detectors, stored_wiremock, stored_kubeturbo_args, stored_kubeturbo_spec,
  stored_kubeturbo_ha_node_config, stored_kubeturbo_status,
}
use kubeturbo_deploy.DeepCopy.Foreign.{Library, IsLawful}
use kubeturbo_deploy.DeepCopy.Laws.Settings.{
  annotation_whitelist_deep_copy_into-IsDeepCopy, daemon_pod_detectors_deep_copy_into-IsDeepCopy,
  exclusion_detectors_deep_copy_into-IsDeepCopy,
  system_workload_detectors_deep_copy_into-IsDeepCopy, orm_owners_deep_copy_into-IsDeepCopy,
  discovery_deep_copy_into-IsDeepCopy, wiremock_deep_copy_into-IsDeepCopy,
  logging_deep_copy_into-IsDeepCopy, node_pool_size_deep_copy_into-IsDeepCopy,
}
use kubeturbo_deploy.DeepCopy.Laws.Connection.{
  kubeturbo_server_meta_deep_copy_into-IsDeepCopy,
  kubeturbo_rest_api_config_deep_copy_into-IsDeepCopy,
  kubeturbo_sdk_protocol_config_deep_copy_into-IsDeepCopy,
  kubeturbo_target_config_deep_copy_into-IsDeepCopy,
}
use kubeturbo_deploy.DeepCopy.Laws.Pods.{
  kubeturbo_image_deep_copy_into-IsDeepCopy, kubeturbo_pod_scheduling_deep_copy_into-IsDeepCopy,
  resource_requirements_deep_copy_into-IsDeepCopy,
}
use kubeturbo_deploy.DeepCopy.Laws.Args.{kubeturbo_args_deep_copy_into-IsDeepCopy}
use kubeturbo_deploy.DeepCopy.Laws.Spec.{kubeturbo_spec_deep_copy_into-IsDeepCopy}
use kubeturbo_deploy.DeepCopy.{kubeturbo_spec_deep_copy}
use kubeturbo_deploy.DeepCopy.Settings.{
  annotation_whitelist_deep_copy, daemon_pod_detectors_deep_copy, exclusion_detectors_deep_copy,
  system_workload_detectors_deep_copy, orm_owners_deep_copy, discovery_deep_copy,
  wiremock_deep_copy, logging_deep_copy, node_pool_size_deep_copy,
}
use kubeturbo_deploy.DeepCopy.Connection.{
  kubeturbo_server_meta_deep_copy, kubeturbo_rest_api_config_deep_copy,
  kubeturbo_sdk_protocol_config_deep_copy, kubeturbo_target_config_deep_copy,
}
use kubeturbo_deploy.DeepCopy.Pods.{
  kubeturbo_image_deep_copy, kubeturbo_pod_scheduling_deep_copy, resource_requirements_deep_copy,
  kubeturbo_ha_node_config_deep_copy_into, kubeturbo_ha_node_config_deep_copy,
  kubeturbo_status_deep_copy_into, kubeturbo_status_deep_copy,
}
use kubeturbo_deploy.DeepCopy.Args.{kubeturbo_args_deep_copy}
use kubeturbo_deploy.DeepCopy.Views.Settings.{
  annotation_whitelist_view, annotation_whitelist_reach, daemon_pod_detectors_view,
  daemon_pod_detectors_reach, exclusion_detectors_view, exclusion_detectors_reach,
  system_workload_detectors_view, system_workload_detectors_reach, orm_owners_view,
  orm_owners_reach, discovery_view, discovery_reach, wiremock_view, wiremock_reach, logging_view,
  logging_reach, node_pool_size_view, node_pool_size_reach,
}
use kubeturbo_deploy.DeepCopy.Views.Connection.{
  kubeturbo_server_meta_view, kubeturbo_server_meta_reach, kubeturbo_rest_api_config_view,
  kubeturbo_rest_api_config_reach, kubeturbo_sdk_protocol_config_view,
  kubeturbo_sdk_protocol_config_reach, kubeturbo_target_config_view, kubeturbo_target_config_reach,
}
use kubeturbo_deploy.DeepCopy.Views.Pods.{
  kubeturbo_image_view, kubeturbo_image_reach, kubeturbo_pod_scheduling_view,
  kubeturbo_pod_scheduling_reach, resource_requirements_view, resource_requirements_reach,
}
use kubeturbo_deploy.DeepCopy.Views.Args.{kubeturbo_args_view, kubeturbo_args_reach}
use kubeturbo_deploy.DeepCopy.Views.{kubeturbo_spec_view, kubeturbo_spec_reach}
use kubeturbo_deploy.Heap.Copies.{IsDeepCopy, plain-IsDeepCopy}
use kubeturbo_deploy.Heap.Filled.{struct-IsDeepCopy, view_at, reach_at}

-- The DeepCopy of each struct that is part of a resource, and of a list of resources.
pub record AreDeep (lib : Library) : Type 0 where
  pub annotation_whitelist :
      IsDeepCopy
        (view_at annotation_whitelist_view some none)
        (reach_at annotation_whitelist_reach)
        annotation_whitelist_deep_copy
  pub daemon_pod_detectors :
      IsDeepCopy
        (view_at daemon_pod_detectors_view some none)
        (reach_at daemon_pod_detectors_reach)
        daemon_pod_detectors_deep_copy
  pub exclusion_detectors :
      IsDeepCopy
        (view_at exclusion_detectors_view some none)
        (reach_at exclusion_detectors_reach)
        exclusion_detectors_deep_copy
  pub system_workload_detectors :
      IsDeepCopy
        (view_at system_workload_detectors_view some none)
        (reach_at system_workload_detectors_reach)
        system_workload_detectors_deep_copy
  pub orm_owners :
      IsDeepCopy
        (view_at orm_owners_view some none)
        (reach_at orm_owners_reach)
        orm_owners_deep_copy
  pub discovery :
      IsDeepCopy (view_at discovery_view some none) (reach_at discovery_reach) discovery_deep_copy
  pub wiremock :
      IsDeepCopy (view_at wiremock_view some none) (reach_at wiremock_reach) wiremock_deep_copy
  pub logging :
      IsDeepCopy (view_at logging_view some none) (reach_at logging_reach) logging_deep_copy
  pub node_pool_size :
      IsDeepCopy
        (view_at node_pool_size_view some none)
        (reach_at node_pool_size_reach)
        node_pool_size_deep_copy
  pub kubeturbo_server_meta :
      IsDeepCopy
        (view_at kubeturbo_server_meta_view some none)
        (reach_at kubeturbo_server_meta_reach)
        kubeturbo_server_meta_deep_copy
  pub kubeturbo_rest_api_config :
      IsDeepCopy
        (view_at kubeturbo_rest_api_config_view some none)
        (reach_at kubeturbo_rest_api_config_reach)
        kubeturbo_rest_api_config_deep_copy
  pub kubeturbo_sdk_protocol_config :
      IsDeepCopy
        (view_at kubeturbo_sdk_protocol_config_view some none)
        (reach_at kubeturbo_sdk_protocol_config_reach)
        kubeturbo_sdk_protocol_config_deep_copy
  pub kubeturbo_target_config :
      IsDeepCopy
        (view_at kubeturbo_target_config_view some none)
        (reach_at kubeturbo_target_config_reach)
        kubeturbo_target_config_deep_copy
  pub kubeturbo_image :
      IsDeepCopy
        (view_at kubeturbo_image_view some none)
        (reach_at kubeturbo_image_reach)
        kubeturbo_image_deep_copy
  pub kubeturbo_pod_scheduling :
      IsDeepCopy
        (view_at kubeturbo_pod_scheduling_view some none)
        (reach_at kubeturbo_pod_scheduling_reach)
        (kubeturbo_pod_scheduling_deep_copy lib)
  pub resource_requirements :
      IsDeepCopy
        (view_at resource_requirements_view some none)
        (reach_at resource_requirements_reach)
        (resource_requirements_deep_copy lib)
  pub kubeturbo_args :
      IsDeepCopy
        (view_at kubeturbo_args_view some none)
        (reach_at kubeturbo_args_reach)
        kubeturbo_args_deep_copy
  pub kubeturbo_spec :
      IsDeepCopy
        (view_at kubeturbo_spec_view some none)
        (reach_at kubeturbo_spec_reach)
        (kubeturbo_spec_deep_copy lib)
  pub kubeturbo_ha_node_config :
      IsDeepCopy
        (view_at (λ σ (m : KubeturboHaNodeConfig). m) some none)
        (reach_at (λ σ m. []))
        kubeturbo_ha_node_config_deep_copy
  pub kubeturbo_status :
      IsDeepCopy
        (view_at (λ σ (m : KubeturboStatus). m) some none)
        (reach_at (λ σ m. []))
        kubeturbo_status_deep_copy
  pub kubeturbo_list :
      IsDeepCopy
        (view_at kubeturbo_list_view some none)
        (reach_at kubeturbo_list_reach)
        (kubeturbo_list_deep_copy lib)

-- The DeepCopy of every block, of the specification, of the status and of a list of resources is deep: whatever the memory, if
-- the addresses that the receiver reaches are in use, no cell in use changes, the copy shows the value
-- that the receiver shows (nil for nil), and all that is reached from the copy is newly allocated. The
-- deep copies of k8s.io are taken to give equal values.
pub blocks-AreDeep : (lib : Library) → IsLawful lib → AreDeep lib
unfolding annotation_whitelist_deep_copy daemon_pod_detectors_deep_copy
    exclusion_detectors_deep_copy system_workload_detectors_deep_copy orm_owners_deep_copy
    discovery_deep_copy wiremock_deep_copy logging_deep_copy node_pool_size_deep_copy
    kubeturbo_server_meta_deep_copy kubeturbo_rest_api_config_deep_copy
    kubeturbo_sdk_protocol_config_deep_copy kubeturbo_target_config_deep_copy
    kubeturbo_image_deep_copy kubeturbo_pod_scheduling_deep_copy resource_requirements_deep_copy
    kubeturbo_args_deep_copy kubeturbo_spec_deep_copy kubeturbo_ha_node_config_deep_copy_into
    kubeturbo_ha_node_config_deep_copy kubeturbo_status_deep_copy_into kubeturbo_status_deep_copy
blocks-AreDeep lib ok = record {
  annotation_whitelist = struct-IsDeepCopy annotation_whitelist_deep_copy_into-IsDeepCopy some none;
  daemon_pod_detectors = struct-IsDeepCopy daemon_pod_detectors_deep_copy_into-IsDeepCopy some none;
  exclusion_detectors = struct-IsDeepCopy exclusion_detectors_deep_copy_into-IsDeepCopy some none;
  system_workload_detectors =
      struct-IsDeepCopy system_workload_detectors_deep_copy_into-IsDeepCopy some none;
  orm_owners = struct-IsDeepCopy orm_owners_deep_copy_into-IsDeepCopy some none;
  discovery = struct-IsDeepCopy discovery_deep_copy_into-IsDeepCopy some none;
  wiremock = struct-IsDeepCopy wiremock_deep_copy_into-IsDeepCopy some none;
  logging = struct-IsDeepCopy logging_deep_copy_into-IsDeepCopy some none;
  node_pool_size = struct-IsDeepCopy node_pool_size_deep_copy_into-IsDeepCopy some none;
  kubeturbo_server_meta =
      struct-IsDeepCopy kubeturbo_server_meta_deep_copy_into-IsDeepCopy some none;
  kubeturbo_rest_api_config =
      struct-IsDeepCopy kubeturbo_rest_api_config_deep_copy_into-IsDeepCopy some none;
  kubeturbo_sdk_protocol_config =
      struct-IsDeepCopy kubeturbo_sdk_protocol_config_deep_copy_into-IsDeepCopy some none;
  kubeturbo_target_config =
      struct-IsDeepCopy kubeturbo_target_config_deep_copy_into-IsDeepCopy some none;
  kubeturbo_image = struct-IsDeepCopy kubeturbo_image_deep_copy_into-IsDeepCopy some none;
  kubeturbo_pod_scheduling =
      struct-IsDeepCopy (kubeturbo_pod_scheduling_deep_copy_into-IsDeepCopy lib ok) some none;
  resource_requirements =
      struct-IsDeepCopy (resource_requirements_deep_copy_into-IsDeepCopy lib ok) some none;
  kubeturbo_args = struct-IsDeepCopy kubeturbo_args_deep_copy_into-IsDeepCopy some none;
  kubeturbo_spec = struct-IsDeepCopy (kubeturbo_spec_deep_copy_into-IsDeepCopy lib ok) some none;
  kubeturbo_ha_node_config = struct-IsDeepCopy plain-IsDeepCopy some none;
  kubeturbo_status = struct-IsDeepCopy plain-IsDeepCopy some none;
  kubeturbo_list = kubeturbo_list_deep_copy-IsDeepCopy lib ok;
}
