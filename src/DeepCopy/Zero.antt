-- ===== src/DeepCopy/Zero.antt =====
-- The zero values of the structs of api/v1, which `new` and `make` fill memory with.
use kubeturbo_deploy.Prelude.{none, []}
use kubeturbo_deploy.Types.{ObjectMeta}
use kubeturbo_deploy.DeepCopy.Layout.{
  AnnotationWhitelistLayout, DaemonPodDetectorsLayout, DiscoveryLayout, ExclusionDetectorsLayout,
  KubeturboImageLayout, KubeturboPodSchedulingLayout, KubeturboRestApiConfigLayout,
  KubeturboSdkProtocolConfigLayout, KubeturboServerMetaLayout, KubeturboTargetConfigLayout,
  LoggingLayout, NodePoolSizeLayout, OrmOwnersLayout, ResourceRequirementsLayout,
  SystemWorkloadDetectorsLayout, WiremockLayout, KubeturboArgsLayout, KubeturboSpecLayout,
  KubeturboLayout, KubeturboListLayout, TypeMeta,
}

abbrev pub zero_annotation_whitelist : AnnotationWhitelistLayout
zero_annotation_whitelist = record {
  container_spec = none;
  namespace = none;
  workload_controller = none;
}

abbrev pub zero_daemon_pod_detectors : DaemonPodDetectorsLayout
zero_daemon_pod_detectors = record { pod_name_patterns = none; namespace_patterns = none }

abbrev pub zero_discovery : DiscoveryLayout
zero_discovery = record { chunk_send_delay_millis = none; num_objects_per_chunk = none }

abbrev pub zero_exclusion_detectors : ExclusionDetectorsLayout
zero_exclusion_detectors = record {
  operator_controlled_workloads_patterns = none;
  operator_controlled_namespace_patterns = none;
}

abbrev pub zero_kubeturbo_image : KubeturboImageLayout
zero_kubeturbo_image = record {
  repository = "";
  tag = none;
  busybox_repository = none;
  cpufreqgetter_repository = none;
  pull_policy = none;
  image_pull_secret = none;
}

abbrev pub zero_kubeturbo_pod_scheduling : KubeturboPodSchedulingLayout
zero_kubeturbo_pod_scheduling = record { node_selector = none; affinity = none; tolerations = none }

abbrev pub zero_kubeturbo_rest_api_config : KubeturboRestApiConfigLayout
zero_kubeturbo_rest_api_config = record {
  turbonomic_credentials_secret_name = "";
  ops_manager_user_name = none;
  ops_manager_password = none;
}

abbrev pub zero_kubeturbo_sdk_protocol_config : KubeturboSdkProtocolConfigLayout
zero_kubeturbo_sdk_protocol_config = record {
  registration_timeout_sec = none;
  restart_on_registration_timeout = none;
}

abbrev pub zero_kubeturbo_server_meta : KubeturboServerMetaLayout
zero_kubeturbo_server_meta = record { version = none; turbo_server = ""; proxy = none }

abbrev pub zero_kubeturbo_target_config : KubeturboTargetConfigLayout
zero_kubeturbo_target_config = record { target_name = none }

abbrev pub zero_logging : LoggingLayout
zero_logging = record { level = none }

abbrev pub zero_node_pool_size : NodePoolSizeLayout
zero_node_pool_size = record { min = none; max = none }

abbrev pub zero_orm_owners : OrmOwnersLayout
zero_orm_owners = record { api_group = none; resources = none }

abbrev pub zero_resource_requirements : ResourceRequirementsLayout
zero_resource_requirements = record { limits = none; requests = none }

abbrev pub zero_system_workload_detectors : SystemWorkloadDetectorsLayout
zero_system_workload_detectors = record { namespace_patterns = none }

abbrev pub zero_wiremock : WiremockLayout
zero_wiremock = record { enabled = none; url = none }

abbrev pub zero_kubeturbo_args : KubeturboArgsLayout
zero_kubeturbo_args = record {
  logginglevel = none;
  kubelethttps = none;
  kubeletport = none;
  sccsupport = none;
  readiness_retry_threshold = none;
  fail_volume_pod_moves = none;
  busybox_exclude_node_labels = none;
  stitchuuid = none;
  pre16_k8s_version = none;
  cleanup_scc_impersonation_resources = none;
  skip_creating_scc_impersonation_resources = none;
  git_email = none;
  git_username = none;
  git_secret_name = none;
  git_secret_namespace = none;
  git_commit_mode = none;
  satellite_location_provider = none;
  discovery_interval_sec = none;
  discovery_sample_interval_sec = none;
  discovery_samples = none;
  discovery_timeout_sec = none;
  garbage_collection_interval_min = none;
  discovery_workers = none;
}

abbrev pub zero_kubeturbo_spec : KubeturboSpecLayout
zero_kubeturbo_spec = record {
  daemon_pod_detectors = zero_daemon_pod_detectors;
  annotation_whitelist = zero_annotation_whitelist;
  annotations = none;
  role_name = "";
  role_binding = "";
  service_account_name = "";
  replica_count = none;
  image = zero_kubeturbo_image;
  server_meta = zero_kubeturbo_server_meta;
  rest_api_config = zero_kubeturbo_rest_api_config;
  sdk_protocol_config = zero_kubeturbo_sdk_protocol_config;
  feature_gates = none;
  ha_node_config = record { node_roles = "" };
  target_config = zero_kubeturbo_target_config;
  args = zero_kubeturbo_args;
  resources = none;
  logging = zero_logging;
  node_pool_size = zero_node_pool_size;
  orm_owners = zero_orm_owners;
  system_workload_detectors = zero_system_workload_detectors;
  exclusion_detectors = zero_exclusion_detectors;
  wiremock = zero_wiremock;
  discovery = zero_discovery;
  kubeturbo_pod_scheduling = zero_kubeturbo_pod_scheduling;
}

abbrev pub zero_type_meta : TypeMeta
zero_type_meta = record { kind = ""; api_version = "" }

abbrev pub zero_object_meta : ObjectMeta
zero_object_meta = record {
  name = "";
  namespace = "";
  uid = "";
  labels = [];
  annotations = [];
  finalizers = [];
  owner = none;
  deletion_timestamp = none;
}

abbrev pub zero_kubeturbo : KubeturboLayout
zero_kubeturbo = record {
  type_meta = zero_type_meta;
  metadata = zero_object_meta;
  spec = zero_kubeturbo_spec;
  status = record { last_updated_timestamp = ""; config_hash = "" };
}

abbrev pub zero_kubeturbo_list : KubeturboListLayout
zero_kubeturbo_list = record { type_meta = zero_type_meta; metadata = ""; items = none }
