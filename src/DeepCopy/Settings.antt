-- ===== src/DeepCopy/Settings.antt =====
-- api/v1/zz_generated.deepcopy.go: the blocks on what is discovered and how.
-- `*out = *in` is the record that the copied fields update. A method fills `*out`, which is the value that
-- it gives back here.
use kubeturbo_deploy.Prelude.{Option}
use kubeturbo_deploy.Heap.{Pointer, Alloc, pure, ◌>>=◌, copy_pointer, copy_struct}
use kubeturbo_deploy.DeepCopy.Layout.{
  AnnotationWhitelistLayout, DaemonPodDetectorsLayout, DiscoveryLayout, ExclusionDetectorsLayout,
  LoggingLayout, NodePoolSizeLayout, OrmOwnersLayout, SystemWorkloadDetectorsLayout, WiremockLayout,
}
use kubeturbo_deploy.DeepCopy.Cells.{Cell}
use kubeturbo_deploy.DeepCopy.Cells.Instances.{
  stored_text, stored_number, stored_flag, stored_texts, stored_annotation_whitelist,
  stored_daemon_pod_detectors, stored_discovery, stored_exclusion_detectors, stored_logging,
  stored_node_pool_size, stored_orm_owners, stored_system_workload_detectors, stored_wiremock,
}

unfoldable pub annotation_whitelist_deep_copy_into :
    AnnotationWhitelistLayout → Alloc Cell AnnotationWhitelistLayout
annotation_whitelist_deep_copy_into obj = do
  container_spec ← copy_pointer obj.container_spec
  namespace ← copy_pointer obj.namespace
  workload_controller ← copy_pointer obj.workload_controller
  pure (record obj {
    container_spec = container_spec;
    namespace = namespace;
    workload_controller = workload_controller;
  })

unfoldable pub annotation_whitelist_deep_copy :
    Option (Pointer AnnotationWhitelistLayout)
    → Alloc Cell (Option (Pointer AnnotationWhitelistLayout))
annotation_whitelist_deep_copy = copy_struct annotation_whitelist_deep_copy_into

unfoldable pub daemon_pod_detectors_deep_copy_into :
    DaemonPodDetectorsLayout → Alloc Cell DaemonPodDetectorsLayout
daemon_pod_detectors_deep_copy_into obj = do
  pod_name_patterns ← copy_pointer obj.pod_name_patterns
  namespace_patterns ← copy_pointer obj.namespace_patterns
  pure (record obj {
    pod_name_patterns = pod_name_patterns;
    namespace_patterns = namespace_patterns;
  })

unfoldable pub daemon_pod_detectors_deep_copy :
    Option (Pointer DaemonPodDetectorsLayout)
    → Alloc Cell (Option (Pointer DaemonPodDetectorsLayout))
daemon_pod_detectors_deep_copy = copy_struct daemon_pod_detectors_deep_copy_into

unfoldable pub exclusion_detectors_deep_copy_into :
    ExclusionDetectorsLayout → Alloc Cell ExclusionDetectorsLayout
exclusion_detectors_deep_copy_into obj = do
  operator_controlled_workloads_patterns ← copy_pointer obj.operator_controlled_workloads_patterns
  operator_controlled_namespace_patterns ← copy_pointer obj.operator_controlled_namespace_patterns
  pure (record obj {
    operator_controlled_workloads_patterns = operator_controlled_workloads_patterns;
    operator_controlled_namespace_patterns = operator_controlled_namespace_patterns;
  })

unfoldable pub exclusion_detectors_deep_copy :
    Option (Pointer ExclusionDetectorsLayout)
    → Alloc Cell (Option (Pointer ExclusionDetectorsLayout))
exclusion_detectors_deep_copy = copy_struct exclusion_detectors_deep_copy_into

unfoldable pub system_workload_detectors_deep_copy_into :
    SystemWorkloadDetectorsLayout → Alloc Cell SystemWorkloadDetectorsLayout
system_workload_detectors_deep_copy_into obj = do
  namespace_patterns ← copy_pointer obj.namespace_patterns
  pure (record obj { namespace_patterns = namespace_patterns })

unfoldable pub system_workload_detectors_deep_copy :
    Option (Pointer SystemWorkloadDetectorsLayout)
    → Alloc Cell (Option (Pointer SystemWorkloadDetectorsLayout))
system_workload_detectors_deep_copy = copy_struct system_workload_detectors_deep_copy_into

unfoldable pub orm_owners_deep_copy_into : OrmOwnersLayout → Alloc Cell OrmOwnersLayout
orm_owners_deep_copy_into obj = do
  api_group ← copy_pointer obj.api_group
  resources ← copy_pointer obj.resources
  pure (record obj { api_group = api_group; resources = resources })

unfoldable pub orm_owners_deep_copy :
    Option (Pointer OrmOwnersLayout) → Alloc Cell (Option (Pointer OrmOwnersLayout))
orm_owners_deep_copy = copy_struct orm_owners_deep_copy_into

unfoldable pub discovery_deep_copy_into : DiscoveryLayout → Alloc Cell DiscoveryLayout
discovery_deep_copy_into obj = do
  chunk_send_delay_millis ← copy_pointer obj.chunk_send_delay_millis
  num_objects_per_chunk ← copy_pointer obj.num_objects_per_chunk
  pure (record obj {
    chunk_send_delay_millis = chunk_send_delay_millis;
    num_objects_per_chunk = num_objects_per_chunk;
  })

unfoldable pub discovery_deep_copy :
    Option (Pointer DiscoveryLayout) → Alloc Cell (Option (Pointer DiscoveryLayout))
discovery_deep_copy = copy_struct discovery_deep_copy_into

unfoldable pub wiremock_deep_copy_into : WiremockLayout → Alloc Cell WiremockLayout
wiremock_deep_copy_into obj = do
  enabled ← copy_pointer obj.enabled
  url ← copy_pointer obj.url
  pure (record obj { enabled = enabled; url = url })

unfoldable pub wiremock_deep_copy :
    Option (Pointer WiremockLayout) → Alloc Cell (Option (Pointer WiremockLayout))
wiremock_deep_copy = copy_struct wiremock_deep_copy_into

unfoldable pub logging_deep_copy_into : LoggingLayout → Alloc Cell LoggingLayout
logging_deep_copy_into obj = do level ← copy_pointer obj.level; pure (record obj { level = level })

unfoldable pub logging_deep_copy :
    Option (Pointer LoggingLayout) → Alloc Cell (Option (Pointer LoggingLayout))
logging_deep_copy = copy_struct logging_deep_copy_into

unfoldable pub node_pool_size_deep_copy_into : NodePoolSizeLayout → Alloc Cell NodePoolSizeLayout
node_pool_size_deep_copy_into obj = do
  min ← copy_pointer obj.min
  max ← copy_pointer obj.max
  pure (record obj { min = min; max = max })

unfoldable pub node_pool_size_deep_copy :
    Option (Pointer NodePoolSizeLayout) → Alloc Cell (Option (Pointer NodePoolSizeLayout))
node_pool_size_deep_copy = copy_struct node_pool_size_deep_copy_into
