-- ===== src/DeepCopy/Cells.antt =====
-- What a cell of the memory of api/v1 holds: a value behind a pointer, the elements of a slice, or a
-- map. A cell of another type reads as the zero value.
pub mod Instances
use kubeturbo_deploy.Prelude.{
  ℕ, String, Bool, false, Option, none, some, List, [], ◌++◌, map, ◌≡◌, ◌≢◌, ◌<◌, refl, sym, ap,
  subst, All,
}
use kubeturbo_deploy.Prelude.Decimal.{ℤ, pos}
use kubeturbo_deploy.Prelude.Maps.{Map}
use kubeturbo_deploy.Types.Blocks.{
  AnnotationWhitelist, DaemonPodDetectors, Discovery, ExclusionDetectors, KubeturboImage,
  KubeturboPodScheduling, KubeturboRestApiConfig, KubeturboSdkProtocolConfig, KubeturboServerMeta,
  KubeturboTargetConfig, Logging, NodePoolSize, OrmOwners, ResourceRequirements,
  SystemWorkloadDetectors, Wiremock, KubeturboHaNodeConfig,
}
use kubeturbo_deploy.Types.Args.{KubeturboArgs}
use kubeturbo_deploy.Types.{KubeturboSpec, KubeturboStatus, Kubeturbo, ObjectMeta}
use kubeturbo_deploy.Heap.{
  Pointer, Store, Stored, Alloc, refers, shows, pure, ◌>>=◌, copy_with, copy_pointer, copy_struct,
  copy_slice,
}
use kubeturbo_deploy.Heap.Maps.{GoMap, empty, copy_map, copy_map-entries}
use kubeturbo_deploy.DeepCopy.Layout.{
  AnnotationWhitelistLayout, DaemonPodDetectorsLayout, DiscoveryLayout, ExclusionDetectorsLayout,
  KubeturboImageLayout, KubeturboPodSchedulingLayout, KubeturboRestApiConfigLayout,
  KubeturboSdkProtocolConfigLayout, KubeturboServerMetaLayout, KubeturboTargetConfigLayout,
  LoggingLayout, NodePoolSizeLayout, OrmOwnersLayout, ResourceRequirementsLayout,
  SystemWorkloadDetectorsLayout, WiremockLayout, KubeturboArgsLayout, KubeturboSpecLayout,
  KubeturboLayout, KubeturboListLayout, TypeMeta,
}
use kubeturbo_deploy.DeepCopy.Zero.{
  zero_annotation_whitelist, zero_daemon_pod_detectors, zero_discovery, zero_exclusion_detectors,
  zero_kubeturbo_image, zero_kubeturbo_pod_scheduling, zero_kubeturbo_rest_api_config,
  zero_kubeturbo_sdk_protocol_config, zero_kubeturbo_server_meta, zero_kubeturbo_target_config,
  zero_logging, zero_node_pool_size, zero_orm_owners, zero_resource_requirements,
  zero_system_workload_detectors, zero_wiremock, zero_kubeturbo_args, zero_kubeturbo_spec,
  zero_kubeturbo, zero_kubeturbo_list,
}

pub data Cell : Type 0 where
  text_cell : String → Cell
  number_cell : ℤ → Cell
  flag_cell : Bool → Cell
  texts_cell : (List String) → Cell
  text_map_cell : (GoMap String) → Cell
  flag_map_cell : (GoMap Bool) → Cell
  annotation_whitelist_cell : AnnotationWhitelistLayout → Cell
  daemon_pod_detectors_cell : DaemonPodDetectorsLayout → Cell
  discovery_cell : DiscoveryLayout → Cell
  exclusion_detectors_cell : ExclusionDetectorsLayout → Cell
  kubeturbo_image_cell : KubeturboImageLayout → Cell
  kubeturbo_pod_scheduling_cell : KubeturboPodSchedulingLayout → Cell
  kubeturbo_rest_api_config_cell : KubeturboRestApiConfigLayout → Cell
  kubeturbo_sdk_protocol_config_cell : KubeturboSdkProtocolConfigLayout → Cell
  kubeturbo_server_meta_cell : KubeturboServerMetaLayout → Cell
  kubeturbo_target_config_cell : KubeturboTargetConfigLayout → Cell
  logging_cell : LoggingLayout → Cell
  node_pool_size_cell : NodePoolSizeLayout → Cell
  orm_owners_cell : OrmOwnersLayout → Cell
  resource_requirements_cell : ResourceRequirementsLayout → Cell
  system_workload_detectors_cell : SystemWorkloadDetectorsLayout → Cell
  wiremock_cell : WiremockLayout → Cell
  kubeturbo_args_cell : KubeturboArgsLayout → Cell
  kubeturbo_spec_cell : KubeturboSpecLayout → Cell
  kubeturbo_ha_node_config_cell : KubeturboHaNodeConfig → Cell
  kubeturbo_status_cell : KubeturboStatus → Cell
  kubeturbo_cell : KubeturboLayout → Cell
  kubeturbos_cell : (List KubeturboLayout) → Cell
  kubeturbo_list_cell : KubeturboListLayout → Cell

abbrev pub text_of : Cell → String
text_of (text_cell v) = v
text_of _ = ""

abbrev pub number_of : Cell → ℤ
number_of (number_cell v) = v
number_of _ = pos 0

abbrev pub flag_of : Cell → Bool
flag_of (flag_cell v) = v
flag_of _ = false

abbrev pub texts_of : Cell → List String
texts_of (texts_cell v) = v
texts_of _ = []

abbrev pub text_map_of : Cell → GoMap String
text_map_of (text_map_cell v) = v
text_map_of _ = empty

abbrev pub flag_map_of : Cell → GoMap Bool
flag_map_of (flag_map_cell v) = v
flag_map_of _ = empty

abbrev pub annotation_whitelist_of : Cell → AnnotationWhitelistLayout
annotation_whitelist_of (annotation_whitelist_cell v) = v
annotation_whitelist_of _ = zero_annotation_whitelist

abbrev pub daemon_pod_detectors_of : Cell → DaemonPodDetectorsLayout
daemon_pod_detectors_of (daemon_pod_detectors_cell v) = v
daemon_pod_detectors_of _ = zero_daemon_pod_detectors

abbrev pub discovery_of : Cell → DiscoveryLayout
discovery_of (discovery_cell v) = v
discovery_of _ = zero_discovery

abbrev pub exclusion_detectors_of : Cell → ExclusionDetectorsLayout
exclusion_detectors_of (exclusion_detectors_cell v) = v
exclusion_detectors_of _ = zero_exclusion_detectors

abbrev pub kubeturbo_image_of : Cell → KubeturboImageLayout
kubeturbo_image_of (kubeturbo_image_cell v) = v
kubeturbo_image_of _ = zero_kubeturbo_image

abbrev pub kubeturbo_pod_scheduling_of : Cell → KubeturboPodSchedulingLayout
kubeturbo_pod_scheduling_of (kubeturbo_pod_scheduling_cell v) = v
kubeturbo_pod_scheduling_of _ = zero_kubeturbo_pod_scheduling

abbrev pub kubeturbo_rest_api_config_of : Cell → KubeturboRestApiConfigLayout
kubeturbo_rest_api_config_of (kubeturbo_rest_api_config_cell v) = v
kubeturbo_rest_api_config_of _ = zero_kubeturbo_rest_api_config

abbrev pub kubeturbo_sdk_protocol_config_of : Cell → KubeturboSdkProtocolConfigLayout
kubeturbo_sdk_protocol_config_of (kubeturbo_sdk_protocol_config_cell v) = v
kubeturbo_sdk_protocol_config_of _ = zero_kubeturbo_sdk_protocol_config

abbrev pub kubeturbo_server_meta_of : Cell → KubeturboServerMetaLayout
kubeturbo_server_meta_of (kubeturbo_server_meta_cell v) = v
kubeturbo_server_meta_of _ = zero_kubeturbo_server_meta

abbrev pub kubeturbo_target_config_of : Cell → KubeturboTargetConfigLayout
kubeturbo_target_config_of (kubeturbo_target_config_cell v) = v
kubeturbo_target_config_of _ = zero_kubeturbo_target_config

abbrev pub logging_of : Cell → LoggingLayout
logging_of (logging_cell v) = v
logging_of _ = zero_logging

abbrev pub node_pool_size_of : Cell → NodePoolSizeLayout
node_pool_size_of (node_pool_size_cell v) = v
node_pool_size_of _ = zero_node_pool_size

abbrev pub orm_owners_of : Cell → OrmOwnersLayout
orm_owners_of (orm_owners_cell v) = v
orm_owners_of _ = zero_orm_owners

abbrev pub resource_requirements_of : Cell → ResourceRequirementsLayout
resource_requirements_of (resource_requirements_cell v) = v
resource_requirements_of _ = zero_resource_requirements

abbrev pub system_workload_detectors_of : Cell → SystemWorkloadDetectorsLayout
system_workload_detectors_of (system_workload_detectors_cell v) = v
system_workload_detectors_of _ = zero_system_workload_detectors

abbrev pub wiremock_of : Cell → WiremockLayout
wiremock_of (wiremock_cell v) = v
wiremock_of _ = zero_wiremock

abbrev pub kubeturbo_args_of : Cell → KubeturboArgsLayout
kubeturbo_args_of (kubeturbo_args_cell v) = v
kubeturbo_args_of _ = zero_kubeturbo_args

abbrev pub kubeturbo_spec_of : Cell → KubeturboSpecLayout
kubeturbo_spec_of (kubeturbo_spec_cell v) = v
kubeturbo_spec_of _ = zero_kubeturbo_spec

abbrev pub kubeturbo_ha_node_config_of : Cell → KubeturboHaNodeConfig
kubeturbo_ha_node_config_of (kubeturbo_ha_node_config_cell v) = v
kubeturbo_ha_node_config_of _ = record { node_roles = "" }

abbrev pub kubeturbo_status_of : Cell → KubeturboStatus
kubeturbo_status_of (kubeturbo_status_cell v) = v
kubeturbo_status_of _ = record { last_updated_timestamp = ""; config_hash = "" }

abbrev pub kubeturbo_of : Cell → KubeturboLayout
kubeturbo_of (kubeturbo_cell v) = v
kubeturbo_of _ = zero_kubeturbo

abbrev pub kubeturbos_of : Cell → List KubeturboLayout
kubeturbos_of (kubeturbos_cell v) = v
kubeturbos_of _ = []

abbrev pub kubeturbo_list_of : Cell → KubeturboListLayout
kubeturbo_list_of (kubeturbo_list_cell v) = v
kubeturbo_list_of _ = zero_kubeturbo_list
