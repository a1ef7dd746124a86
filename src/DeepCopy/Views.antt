-- ===== src/DeepCopy/Views.antt =====
-- What a struct in memory shows, as the record of Types, and the addresses that are reached from it.
pub mod Settings
pub mod Connection
pub mod Pods
pub mod Args
use kubeturbo_deploy.Heap.Filled.{view_at, reach_at}
use kubeturbo_deploy.Heap.Slices.{view_each, reach_each}
use kubeturbo_deploy.Prelude.{
  ℕ, String, Bool, false, Option, none, some, List, [], ◌++◌, map, ◌≡◌, ◌≢◌, ◌<◌, refl, sym, ap,
  subst, All,
}
use kubeturbo_deploy.Prelude.Decimal.{ℤ, pos}
use kubeturbo_deploy.Prelude.Maps.{Map}
use kubeturbo_deploy.Types.Blocks.{
  AnnotationWhitelist, DaemonPodDetectors, Discovery, ExclusionDetectors, KubeturboImage,
  KubeturboPodScheduling, KubeturboRestApiConfig, KubeturboSdkProtocolConfig, KubeturboServerMeta,
  KubeturboTargetConfig, Logging, NodePoolSize, OrmOwners, ResourceRequirements,
  SystemWorkloadDetectors, Wiremock, KubeturboHaNodeConfig,
}
use kubeturbo_deploy.Types.Args.{KubeturboArgs}
use kubeturbo_deploy.Types.{KubeturboSpec, KubeturboStatus, Kubeturbo, ObjectMeta}
use kubeturbo_deploy.Heap.{
  Pointer, Store, Stored, Alloc, refers, shows, pure, ◌>>=◌, copy_with, copy_pointer, copy_struct,
  copy_slice,
}
use kubeturbo_deploy.Heap.Maps.{GoMap, empty, copy_map, copy_map-entries}
use kubeturbo_deploy.DeepCopy.Layout.{
  AnnotationWhitelistLayout, DaemonPodDetectorsLayout, DiscoveryLayout, ExclusionDetectorsLayout,
  KubeturboImageLayout, KubeturboPodSchedulingLayout, KubeturboRestApiConfigLayout,
  KubeturboSdkProtocolConfigLayout, KubeturboServerMetaLayout, KubeturboTargetConfigLayout,
  LoggingLayout, NodePoolSizeLayout, OrmOwnersLayout, ResourceRequirementsLayout,
  SystemWorkloadDetectorsLayout, WiremockLayout, KubeturboArgsLayout, KubeturboSpecLayout,
  KubeturboLayout, KubeturboListLayout, TypeMeta,
}
use kubeturbo_deploy.DeepCopy.Cells.{Cell}
use kubeturbo_deploy.DeepCopy.Cells.Instances.{
  stored_number, stored_text_map, stored_flag_map, stored_resource_requirements, stored_kubeturbos,
}
use kubeturbo_deploy.DeepCopy.Views.Settings.{
  annotation_whitelist_view, annotation_whitelist_reach, daemon_pod_detectors_view,
  daemon_pod_detectors_reach, exclusion_detectors_view, exclusion_detectors_reach,
  system_workload_detectors_view, system_workload_detectors_reach, orm_owners_view,
  orm_owners_reach, discovery_view, discovery_reach, wiremock_view, wiremock_reach, logging_view,
  logging_reach, node_pool_size_view, node_pool_size_reach,
}
use kubeturbo_deploy.DeepCopy.Views.Connection.{
  kubeturbo_server_meta_view, kubeturbo_server_meta_reach, kubeturbo_rest_api_config_view,
  kubeturbo_rest_api_config_reach, kubeturbo_sdk_protocol_config_view,
  kubeturbo_sdk_protocol_config_reach, kubeturbo_target_config_view, kubeturbo_target_config_reach,
}
use kubeturbo_deploy.DeepCopy.Views.Pods.{
  kubeturbo_image_view, kubeturbo_image_reach, kubeturbo_pod_scheduling_view,
  kubeturbo_pod_scheduling_reach, resource_requirements_view, resource_requirements_reach,
}
use kubeturbo_deploy.DeepCopy.Views.Args.{kubeturbo_args_view, kubeturbo_args_reach}

abbrev pub kubeturbo_spec_view : Store Cell → KubeturboSpecLayout → KubeturboSpec
kubeturbo_spec_view σ m = record {
  daemon_pod_detectors = daemon_pod_detectors_view σ m.daemon_pod_detectors;
  annotation_whitelist = annotation_whitelist_view σ m.annotation_whitelist;
  annotations = shows (λ g. g.entries) [] σ m.annotations;
  role_name = m.role_name;
  role_binding = m.role_binding;
  service_account_name = m.service_account_name;
  replica_count = shows some none σ m.replica_count;
  image = kubeturbo_image_view σ m.image;
  server_meta = kubeturbo_server_meta_view σ m.server_meta;
  rest_api_config = kubeturbo_rest_api_config_view σ m.rest_api_config;
  sdk_protocol_config = kubeturbo_sdk_protocol_config_view σ m.sdk_protocol_config;
  feature_gates = shows (λ g. g.entries) [] σ m.feature_gates;
  ha_node_config = m.ha_node_config;
  target_config = kubeturbo_target_config_view σ m.target_config;
  args = kubeturbo_args_view σ m.args;
  resources = view_at resource_requirements_view some none σ m.resources;
  logging = logging_view σ m.logging;
  node_pool_size = node_pool_size_view σ m.node_pool_size;
  orm_owners = orm_owners_view σ m.orm_owners;
  system_workload_detectors = system_workload_detectors_view σ m.system_workload_detectors;
  exclusion_detectors = exclusion_detectors_view σ m.exclusion_detectors;
  wiremock = wiremock_view σ m.wiremock;
  discovery = discovery_view σ m.discovery;
  kubeturbo_pod_scheduling = kubeturbo_pod_scheduling_view σ m.kubeturbo_pod_scheduling;
}

abbrev pub kubeturbo_spec_reach : Store Cell → KubeturboSpecLayout → List ℕ
kubeturbo_spec_reach σ m =
    (daemon_pod_detectors_reach σ m.daemon_pod_detectors
      ++ annotation_whitelist_reach σ m.annotation_whitelist
      ++ refers m.annotations
      ++ refers m.replica_count
      ++ kubeturbo_image_reach σ m.image)
    ++ (kubeturbo_server_meta_reach σ m.server_meta
        ++ kubeturbo_rest_api_config_reach σ m.rest_api_config
        ++ kubeturbo_sdk_protocol_config_reach σ m.sdk_protocol_config
        ++ refers m.feature_gates
        ++ kubeturbo_target_config_reach σ m.target_config)
    ++ (kubeturbo_args_reach σ m.args
        ++ reach_at resource_requirements_reach σ m.resources
        ++ logging_reach σ m.logging
        ++ node_pool_size_reach σ m.node_pool_size
        ++ orm_owners_reach σ m.orm_owners)
    ++ (system_workload_detectors_reach σ m.system_workload_detectors
        ++ exclusion_detectors_reach σ m.exclusion_detectors
        ++ wiremock_reach σ m.wiremock
        ++ discovery_reach σ m.discovery
        ++ kubeturbo_pod_scheduling_reach σ m.kubeturbo_pod_scheduling)

-- The resource and its type.
abbrev pub kubeturbo_view : Store Cell → KubeturboLayout → TypeMeta × Kubeturbo
kubeturbo_view σ m = (
  m.type_meta,
  record { metadata = m.metadata; spec = kubeturbo_spec_view σ m.spec; status = m.status },
)

abbrev pub kubeturbo_reach : Store Cell → KubeturboLayout → List ℕ
kubeturbo_reach σ m = kubeturbo_spec_reach σ m.spec

-- The list's type and metadata, and its items.
abbrev pub kubeturbo_list_view :
    Store Cell → KubeturboListLayout → TypeMeta × (String × List (TypeMeta × Kubeturbo))
kubeturbo_list_view σ m =
    (m.type_meta, (m.metadata, view_at (view_each kubeturbo_view) (λ vs. vs) [] σ m.items))

abbrev pub kubeturbo_list_reach : Store Cell → KubeturboListLayout → List ℕ
kubeturbo_list_reach σ m = reach_at (reach_each kubeturbo_reach) σ m.items
