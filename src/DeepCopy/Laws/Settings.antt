-- ===== src/DeepCopy/Laws/Settings.antt =====
-- The blocks on what is discovered and how: their copies are deep.
use kubeturbo_deploy.Prelude.{refl}
use kubeturbo_deploy.Types.Blocks.{
  AnnotationWhitelist, DaemonPodDetectors, Discovery, ExclusionDetectors, Logging, NodePoolSize,
  OrmOwners, SystemWorkloadDetectors, Wiremock,
}
use kubeturbo_deploy.DeepCopy.Layout.{
  AnnotationWhitelistLayout, DaemonPodDetectorsLayout, DiscoveryLayout, ExclusionDetectorsLayout,
  LoggingLayout, NodePoolSizeLayout, OrmOwnersLayout, SystemWorkloadDetectorsLayout, WiremockLayout,
}
use kubeturbo_deploy.DeepCopy.Cells.Instances.{
  stored_text, stored_number, stored_flag, stored_texts,
}
use kubeturbo_deploy.DeepCopy.Settings.{
  annotation_whitelist_deep_copy_into, daemon_pod_detectors_deep_copy_into,
  exclusion_detectors_deep_copy_into, system_workload_detectors_deep_copy_into,
  orm_owners_deep_copy_into, discovery_deep_copy_into, wiremock_deep_copy_into,
  logging_deep_copy_into, node_pool_size_deep_copy_into,
}
use kubeturbo_deploy.DeepCopy.Views.Settings.{
  annotation_whitelist_view, annotation_whitelist_reach, daemon_pod_detectors_view,
  daemon_pod_detectors_reach, exclusion_detectors_view, exclusion_detectors_reach,
  system_workload_detectors_view, system_workload_detectors_reach, orm_owners_view,
  orm_owners_reach, discovery_view, discovery_reach, wiremock_view, wiremock_reach, logging_view,
  logging_reach, node_pool_size_view, node_pool_size_reach,
}
use kubeturbo_deploy.Heap.Copies.{IsDeepCopy, ◌⊗◌}
use kubeturbo_deploy.Heap.Slices.{◌&◌, fields-IsDeepCopy}
use kubeturbo_deploy.DeepCopy.Laws.Fields.{pointer_law}

pub annotation_whitelist_deep_copy_into-IsDeepCopy :
    IsDeepCopy annotation_whitelist_view annotation_whitelist_reach
      annotation_whitelist_deep_copy_into
unfolding annotation_whitelist_deep_copy_into
annotation_whitelist_deep_copy_into-IsDeepCopy =
    fields-IsDeepCopy {M = AnnotationWhitelistLayout} {V = AnnotationWhitelist}
      (λ m. m.container_spec & m.namespace & m.workload_controller)
      (λ m n. record m { container_spec = n.0.0; namespace = n.0.1; workload_controller = n.1 })
      (λ m w. record { container_spec = w.0.0; namespace = w.0.1; workload_controller = w.1 })
      (pointer_law ⊗ pointer_law ⊗ pointer_law) (λ m n. refl) (λ m n w. refl)

pub daemon_pod_detectors_deep_copy_into-IsDeepCopy :
    IsDeepCopy daemon_pod_detectors_view daemon_pod_detectors_reach
      daemon_pod_detectors_deep_copy_into
unfolding daemon_pod_detectors_deep_copy_into
daemon_pod_detectors_deep_copy_into-IsDeepCopy =
    fields-IsDeepCopy {M = DaemonPodDetectorsLayout} {V = DaemonPodDetectors}
      (λ m. m.pod_name_patterns & m.namespace_patterns)
      (λ m n. record m { pod_name_patterns = n.0; namespace_patterns = n.1 })
      (λ m w. record { pod_name_patterns = w.0; namespace_patterns = w.1 })
      (pointer_law ⊗ pointer_law) (λ m n. refl) (λ m n w. refl)

pub exclusion_detectors_deep_copy_into-IsDeepCopy :
    IsDeepCopy exclusion_detectors_view exclusion_detectors_reach exclusion_detectors_deep_copy_into
unfolding exclusion_detectors_deep_copy_into
exclusion_detectors_deep_copy_into-IsDeepCopy =
    fields-IsDeepCopy {M = ExclusionDetectorsLayout} {V = ExclusionDetectors}
      (λ m. m.operator_controlled_workloads_patterns & m.operator_controlled_namespace_patterns)
      (λ m n. record m {
        operator_controlled_workloads_patterns = n.0;
        operator_controlled_namespace_patterns = n.1;
      })
      (λ m w. record {
        operator_controlled_workloads_patterns = w.0;
        operator_controlled_namespace_patterns = w.1;
      })
      (pointer_law ⊗ pointer_law) (λ m n. refl) (λ m n w. refl)

pub system_workload_detectors_deep_copy_into-IsDeepCopy :
    IsDeepCopy system_workload_detectors_view system_workload_detectors_reach
      system_workload_detectors_deep_copy_into
unfolding system_workload_detectors_deep_copy_into
system_workload_detectors_deep_copy_into-IsDeepCopy =
    fields-IsDeepCopy {M = SystemWorkloadDetectorsLayout} {V = SystemWorkloadDetectors}
      (λ m. m.namespace_patterns) (λ m n. record m { namespace_patterns = n })
      (λ m w. record { namespace_patterns = w }) (pointer_law) (λ m n. refl) (λ m n w. refl)

pub orm_owners_deep_copy_into-IsDeepCopy :
    IsDeepCopy orm_owners_view orm_owners_reach orm_owners_deep_copy_into
unfolding orm_owners_deep_copy_into
orm_owners_deep_copy_into-IsDeepCopy =
    fields-IsDeepCopy {M = OrmOwnersLayout} {V = OrmOwners} (λ m. m.api_group & m.resources)
      (λ m n. record m { api_group = n.0; resources = n.1 })
      (λ m w. record { api_group = w.0; resources = w.1 }) (pointer_law ⊗ pointer_law) (λ m n. refl)
      (λ m n w. refl)

pub discovery_deep_copy_into-IsDeepCopy :
    IsDeepCopy discovery_view discovery_reach discovery_deep_copy_into
unfolding discovery_deep_copy_into
discovery_deep_copy_into-IsDeepCopy =
    fields-IsDeepCopy {M = DiscoveryLayout} {V = Discovery}
      (λ m. m.chunk_send_delay_millis & m.num_objects_per_chunk)
      (λ m n. record m { chunk_send_delay_millis = n.0; num_objects_per_chunk = n.1 })
      (λ m w. record { chunk_send_delay_millis = w.0; num_objects_per_chunk = w.1 })
      (pointer_law ⊗ pointer_law) (λ m n. refl) (λ m n w. refl)

pub wiremock_deep_copy_into-IsDeepCopy :
    IsDeepCopy wiremock_view wiremock_reach wiremock_deep_copy_into
unfolding wiremock_deep_copy_into
wiremock_deep_copy_into-IsDeepCopy =
    fields-IsDeepCopy {M = WiremockLayout} {V = Wiremock} (λ m. m.enabled & m.url)
      (λ m n. record m { enabled = n.0; url = n.1 }) (λ m w. record { enabled = w.0; url = w.1 })
      (pointer_law ⊗ pointer_law) (λ m n. refl) (λ m n w. refl)

pub logging_deep_copy_into-IsDeepCopy : IsDeepCopy logging_view logging_reach logging_deep_copy_into
unfolding logging_deep_copy_into
logging_deep_copy_into-IsDeepCopy =
    fields-IsDeepCopy {M = LoggingLayout} {V = Logging} (λ m. m.level)
      (λ m n. record m { level = n }) (λ m w. record { level = w }) (pointer_law) (λ m n. refl)
      (λ m n w. refl)

pub node_pool_size_deep_copy_into-IsDeepCopy :
    IsDeepCopy node_pool_size_view node_pool_size_reach node_pool_size_deep_copy_into
unfolding node_pool_size_deep_copy_into
node_pool_size_deep_copy_into-IsDeepCopy =
    fields-IsDeepCopy {M = NodePoolSizeLayout} {V = NodePoolSize} (λ m. m.min & m.max)
      (λ m n. record m { min = n.0; max = n.1 }) (λ m w. record { min = w.0; max = w.1 })
      (pointer_law ⊗ pointer_law) (λ m n. refl) (λ m n w. refl)
