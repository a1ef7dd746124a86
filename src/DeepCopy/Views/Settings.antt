-- ===== src/DeepCopy/Views/Settings.antt =====
-- The blocks on what is discovered and how: what they show in memory, and the addresses that are
-- reached from them.
use kubeturbo_deploy.Prelude.{ℕ, none, some, List, ◌++◌}
use kubeturbo_deploy.Types.Blocks.{
  AnnotationWhitelist, DaemonPodDetectors, Discovery, ExclusionDetectors, Logging, NodePoolSize,
  OrmOwners, SystemWorkloadDetectors, Wiremock,
}
use kubeturbo_deploy.Heap.{Store, refers, shows}
use kubeturbo_deploy.DeepCopy.Layout.{
  AnnotationWhitelistLayout, DaemonPodDetectorsLayout, DiscoveryLayout, ExclusionDetectorsLayout,
  LoggingLayout, NodePoolSizeLayout, OrmOwnersLayout, SystemWorkloadDetectorsLayout, WiremockLayout,
}
use kubeturbo_deploy.DeepCopy.Cells.{Cell}
use kubeturbo_deploy.DeepCopy.Cells.Instances.{
  stored_text, stored_number, stored_flag, stored_texts,
}

abbrev pub annotation_whitelist_view : Store Cell → AnnotationWhitelistLayout → AnnotationWhitelist
annotation_whitelist_view σ m = record {
  container_spec = shows some none σ m.container_spec;
  namespace = shows some none σ m.namespace;
  workload_controller = shows some none σ m.workload_controller;
}

abbrev pub annotation_whitelist_reach : Store Cell → AnnotationWhitelistLayout → List ℕ
annotation_whitelist_reach σ m =
    refers m.container_spec ++ refers m.namespace ++ refers m.workload_controller

abbrev pub daemon_pod_detectors_view : Store Cell → DaemonPodDetectorsLayout → DaemonPodDetectors
daemon_pod_detectors_view σ m = record {
  pod_name_patterns = shows some none σ m.pod_name_patterns;
  namespace_patterns = shows some none σ m.namespace_patterns;
}

abbrev pub daemon_pod_detectors_reach : Store Cell → DaemonPodDetectorsLayout → List ℕ
daemon_pod_detectors_reach σ m = refers m.pod_name_patterns ++ refers m.namespace_patterns

abbrev pub exclusion_detectors_view : Store Cell → ExclusionDetectorsLayout → ExclusionDetectors
exclusion_detectors_view σ m = record {
  operator_controlled_workloads_patterns =
      shows some none σ m.operator_controlled_workloads_patterns;
  operator_controlled_namespace_patterns =
      shows some none σ m.operator_controlled_namespace_patterns;
}

abbrev pub exclusion_detectors_reach : Store Cell → ExclusionDetectorsLayout → List ℕ
exclusion_detectors_reach σ m =
    refers m.operator_controlled_workloads_patterns
    ++ refers m.operator_controlled_namespace_patterns

abbrev pub system_workload_detectors_view :
    Store Cell → SystemWorkloadDetectorsLayout → SystemWorkloadDetectors
system_workload_detectors_view σ m = record {
  namespace_patterns = shows some none σ m.namespace_patterns;
}

abbrev pub system_workload_detectors_reach : Store Cell → SystemWorkloadDetectorsLayout → List ℕ
system_workload_detectors_reach σ m = refers m.namespace_patterns

abbrev pub orm_owners_view : Store Cell → OrmOwnersLayout → OrmOwners
orm_owners_view σ m = record {
  api_group = shows some none σ m.api_group;
  resources = shows some none σ m.resources;
}

abbrev pub orm_owners_reach : Store Cell → OrmOwnersLayout → List ℕ
orm_owners_reach σ m = refers m.api_group ++ refers m.resources

abbrev pub discovery_view : Store Cell → DiscoveryLayout → Discovery
discovery_view σ m = record {
  chunk_send_delay_millis = shows some none σ m.chunk_send_delay_millis;
  num_objects_per_chunk = shows some none σ m.num_objects_per_chunk;
}

abbrev pub discovery_reach : Store Cell → DiscoveryLayout → List ℕ
discovery_reach σ m = refers m.chunk_send_delay_millis ++ refers m.num_objects_per_chunk

abbrev pub wiremock_view : Store Cell → WiremockLayout → Wiremock
wiremock_view σ m = record { enabled = shows some none σ m.enabled; url = shows some none σ m.url }

abbrev pub wiremock_reach : Store Cell → WiremockLayout → List ℕ
wiremock_reach σ m = refers m.enabled ++ refers m.url

abbrev pub logging_view : Store Cell → LoggingLayout → Logging
logging_view σ m = record { level = shows some none σ m.level }

abbrev pub logging_reach : Store Cell → LoggingLayout → List ℕ
logging_reach σ m = refers m.level

abbrev pub node_pool_size_view : Store Cell → NodePoolSizeLayout → NodePoolSize
node_pool_size_view σ m = record { min = shows some none σ m.min; max = shows some none σ m.max }

abbrev pub node_pool_size_reach : Store Cell → NodePoolSizeLayout → List ℕ
node_pool_size_reach σ m = refers m.min ++ refers m.max
