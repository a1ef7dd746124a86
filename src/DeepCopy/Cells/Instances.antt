-- ===== src/DeepCopy/Cells/Instances.antt =====
-- How each type of api/v1 lies in a cell.
use kubeturbo_deploy.Prelude.{String, Bool, false, List, [], ◌≡◌, refl}
use kubeturbo_deploy.Prelude.Decimal.{ℤ, pos}
use kubeturbo_deploy.Types.Blocks.{KubeturboHaNodeConfig}
use kubeturbo_deploy.Types.{KubeturboStatus}
use kubeturbo_deploy.Heap.{Stored}
use kubeturbo_deploy.Heap.Maps.{GoMap, empty}
use kubeturbo_deploy.DeepCopy.Layout.{
  AnnotationWhitelistLayout, DaemonPodDetectorsLayout, DiscoveryLayout, ExclusionDetectorsLayout,
  KubeturboImageLayout, KubeturboPodSchedulingLayout, KubeturboRestApiConfigLayout,
  KubeturboSdkProtocolConfigLayout, KubeturboServerMetaLayout, KubeturboTargetConfigLayout,
  LoggingLayout, NodePoolSizeLayout, OrmOwnersLayout, ResourceRequirementsLayout,
  SystemWorkloadDetectorsLayout, WiremockLayout, KubeturboArgsLayout, KubeturboSpecLayout,
  KubeturboLayout, KubeturboListLayout,
}
use kubeturbo_deploy.DeepCopy.Zero.{
  zero_annotation_whitelist, zero_daemon_pod_detectors, zero_discovery, zero_exclusion_detectors,
  zero_kubeturbo_image, zero_kubeturbo_pod_scheduling, zero_kubeturbo_rest_api_config,
  zero_kubeturbo_sdk_protocol_config, zero_kubeturbo_server_meta, zero_kubeturbo_target_config,
  zero_logging, zero_node_pool_size, zero_orm_owners, zero_resource_requirements,
  zero_system_workload_detectors, zero_wiremock, zero_kubeturbo_args, zero_kubeturbo_spec,
  zero_kubeturbo, zero_kubeturbo_list,
}
use kubeturbo_deploy.DeepCopy.Cells.{
  Cell, text_cell, number_cell, flag_cell, texts_cell, text_map_cell, flag_map_cell,
  annotation_whitelist_cell, daemon_pod_detectors_cell, discovery_cell, exclusion_detectors_cell,
  kubeturbo_image_cell, kubeturbo_pod_scheduling_cell, kubeturbo_rest_api_config_cell,
  kubeturbo_sdk_protocol_config_cell, kubeturbo_server_meta_cell, kubeturbo_target_config_cell,
  logging_cell, node_pool_size_cell, orm_owners_cell, resource_requirements_cell,
  system_workload_detectors_cell, wiremock_cell, kubeturbo_args_cell, kubeturbo_spec_cell,
  kubeturbo_ha_node_config_cell, kubeturbo_status_cell, kubeturbo_cell, kubeturbos_cell,
  kubeturbo_list_cell, text_of, number_of, flag_of, texts_of, text_map_of, flag_map_of,
  annotation_whitelist_of, daemon_pod_detectors_of, discovery_of, exclusion_detectors_of,
  kubeturbo_image_of, kubeturbo_pod_scheduling_of, kubeturbo_rest_api_config_of,
  kubeturbo_sdk_protocol_config_of, kubeturbo_server_meta_of, kubeturbo_target_config_of,
  logging_of, node_pool_size_of, orm_owners_of, resource_requirements_of,
  system_workload_detectors_of, wiremock_of, kubeturbo_args_of, kubeturbo_spec_of,
  kubeturbo_ha_node_config_of, kubeturbo_status_of, kubeturbo_of, kubeturbos_of, kubeturbo_list_of,
}

abbrev stored :
    {A : Type 0} (z : A) (encode : A → Cell) (decode : Cell → A)
    → ((a : A) → decode (encode a) ≡ a)
    → Stored Cell A
stored z encode decode law = record {
  default = z;
  encode = encode;
  decode = decode;
  decode-encode = law;
}

instance abbrev pub stored_text : Stored Cell String
stored_text = stored ("") text_cell text_of (λ v. refl)

instance abbrev pub stored_number : Stored Cell ℤ
stored_number = stored (pos 0) number_cell number_of (λ v. refl)

instance abbrev pub stored_flag : Stored Cell Bool
stored_flag = stored (false) flag_cell flag_of (λ v. refl)

instance abbrev pub stored_texts : Stored Cell (List String)
stored_texts = stored ([]) texts_cell texts_of (λ v. refl)

instance abbrev pub stored_text_map : Stored Cell (GoMap String)
stored_text_map = stored (empty) text_map_cell text_map_of (λ v. refl)

instance abbrev pub stored_flag_map : Stored Cell (GoMap Bool)
stored_flag_map = stored (empty) flag_map_cell flag_map_of (λ v. refl)

instance abbrev pub stored_annotation_whitelist : Stored Cell AnnotationWhitelistLayout
stored_annotation_whitelist =
    stored (zero_annotation_whitelist) annotation_whitelist_cell annotation_whitelist_of (λ v. refl)

instance abbrev pub stored_daemon_pod_detectors : Stored Cell DaemonPodDetectorsLayout
stored_daemon_pod_detectors =
    stored (zero_daemon_pod_detectors) daemon_pod_detectors_cell daemon_pod_detectors_of (λ v. refl)

instance abbrev pub stored_discovery : Stored Cell DiscoveryLayout
stored_discovery = stored (zero_discovery) discovery_cell discovery_of (λ v. refl)

instance abbrev pub stored_exclusion_detectors : Stored Cell ExclusionDetectorsLayout
stored_exclusion_detectors =
    stored (zero_exclusion_detectors) exclusion_detectors_cell exclusion_detectors_of (λ v. refl)

instance abbrev pub stored_kubeturbo_image : Stored Cell KubeturboImageLayout
stored_kubeturbo_image =
    stored (zero_kubeturbo_image) kubeturbo_image_cell kubeturbo_image_of (λ v. refl)

instance abbrev pub stored_kubeturbo_pod_scheduling : Stored Cell KubeturboPodSchedulingLayout
stored_kubeturbo_pod_scheduling =
    stored (zero_kubeturbo_pod_scheduling) kubeturbo_pod_scheduling_cell kubeturbo_pod_scheduling_of
      (λ v. refl)

instance abbrev pub stored_kubeturbo_rest_api_config : Stored Cell KubeturboRestApiConfigLayout
stored_kubeturbo_rest_api_config =
    stored (zero_kubeturbo_rest_api_config) kubeturbo_rest_api_config_cell
      kubeturbo_rest_api_config_of (λ v. refl)

instance abbrev pub stored_kubeturbo_sdk_protocol_config :
    Stored Cell KubeturboSdkProtocolConfigLayout
stored_kubeturbo_sdk_protocol_config =
    stored (zero_kubeturbo_sdk_protocol_config) kubeturbo_sdk_protocol_config_cell
      kubeturbo_sdk_protocol_config_of (λ v. refl)

instance abbrev pub stored_kubeturbo_server_meta : Stored Cell KubeturboServerMetaLayout
stored_kubeturbo_server_meta =
    stored (zero_kubeturbo_server_meta) kubeturbo_server_meta_cell kubeturbo_server_meta_of
      (λ v. refl)

instance abbrev pub stored_kubeturbo_target_config : Stored Cell KubeturboTargetConfigLayout
stored_kubeturbo_target_config =
    stored (zero_kubeturbo_target_config) kubeturbo_target_config_cell kubeturbo_target_config_of
      (λ v. refl)

instance abbrev pub stored_logging : Stored Cell LoggingLayout
stored_logging = stored (zero_logging) logging_cell logging_of (λ v. refl)

instance abbrev pub stored_node_pool_size : Stored Cell NodePoolSizeLayout
stored_node_pool_size =
    stored (zero_node_pool_size) node_pool_size_cell node_pool_size_of (λ v. refl)

instance abbrev pub stored_orm_owners : Stored Cell OrmOwnersLayout
stored_orm_owners = stored (zero_orm_owners) orm_owners_cell orm_owners_of (λ v. refl)

instance abbrev pub stored_resource_requirements : Stored Cell ResourceRequirementsLayout
stored_resource_requirements =
    stored (zero_resource_requirements) resource_requirements_cell resource_requirements_of
      (λ v. refl)

instance abbrev pub stored_system_workload_detectors : Stored Cell SystemWorkloadDetectorsLayout
stored_system_workload_detectors =
    stored (zero_system_workload_detectors) system_workload_detectors_cell
      system_workload_detectors_of (λ v. refl)

instance abbrev pub stored_wiremock : Stored Cell WiremockLayout
stored_wiremock = stored (zero_wiremock) wiremock_cell wiremock_of (λ v. refl)

instance abbrev pub stored_kubeturbo_args : Stored Cell KubeturboArgsLayout
stored_kubeturbo_args =
    stored (zero_kubeturbo_args) kubeturbo_args_cell kubeturbo_args_of (λ v. refl)

instance abbrev pub stored_kubeturbo_spec : Stored Cell KubeturboSpecLayout
stored_kubeturbo_spec =
    stored (zero_kubeturbo_spec) kubeturbo_spec_cell kubeturbo_spec_of (λ v. refl)

instance abbrev pub stored_kubeturbo_ha_node_config : Stored Cell KubeturboHaNodeConfig
stored_kubeturbo_ha_node_config =
    stored (record { node_roles = "" }) kubeturbo_ha_node_config_cell kubeturbo_ha_node_config_of
      (λ v. refl)

instance abbrev pub stored_kubeturbo_status : Stored Cell KubeturboStatus
stored_kubeturbo_status =
    stored (record { last_updated_timestamp = ""; config_hash = "" }) kubeturbo_status_cell
      kubeturbo_status_of (λ v. refl)

instance abbrev pub stored_kubeturbo : Stored Cell KubeturboLayout
stored_kubeturbo = stored (zero_kubeturbo) kubeturbo_cell kubeturbo_of (λ v. refl)

instance abbrev pub stored_kubeturbos : Stored Cell (List KubeturboLayout)
stored_kubeturbos = stored ([]) kubeturbos_cell kubeturbos_of (λ v. refl)

instance abbrev pub stored_kubeturbo_list : Stored Cell KubeturboListLayout
stored_kubeturbo_list =
    stored (zero_kubeturbo_list) kubeturbo_list_cell kubeturbo_list_of (λ v. refl)
