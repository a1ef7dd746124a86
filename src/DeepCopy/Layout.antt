-- ===== src/DeepCopy/Layout.antt =====
-- api/v1/kubeturbo_types.go: the structs as they lie in memory. A nil pointer, slice or map is `none`.
-- A struct without references is the record of Types.
use kubeturbo_deploy.Prelude.{String, Bool, Option, List}
use kubeturbo_deploy.Prelude.Decimal.{ℤ}
use kubeturbo_deploy.Types.Blocks.{KubeturboHaNodeConfig}
use kubeturbo_deploy.Types.{KubeturboStatus, ObjectMeta}
use kubeturbo_deploy.Heap.{Pointer}
use kubeturbo_deploy.Heap.Maps.{GoMap}

pub record AnnotationWhitelistLayout : Type 0 where
  pub container_spec : Option (Pointer String)
  pub namespace : Option (Pointer String)
  pub workload_controller : Option (Pointer String)

pub record DaemonPodDetectorsLayout : Type 0 where
  pub pod_name_patterns : Option (Pointer (List String))
  pub namespace_patterns : Option (Pointer (List String))

pub record DiscoveryLayout : Type 0 where
  pub chunk_send_delay_millis : Option (Pointer ℤ)
  pub num_objects_per_chunk : Option (Pointer ℤ)

pub record ExclusionDetectorsLayout : Type 0 where
  pub operator_controlled_workloads_patterns : Option (Pointer (List String))
  pub operator_controlled_namespace_patterns : Option (Pointer (List String))

pub record KubeturboImageLayout : Type 0 where
  pub repository : String
  pub tag : Option (Pointer String)
  pub busybox_repository : Option (Pointer String)
  pub cpufreqgetter_repository : Option (Pointer String)
  pub pull_policy : Option (Pointer String)
  pub image_pull_secret : Option (Pointer String)

pub record KubeturboPodSchedulingLayout : Type 0 where
  pub node_selector : Option (Pointer (GoMap String))
  pub affinity : Option (Pointer String)
  pub tolerations : Option (Pointer (List String))

pub record KubeturboRestApiConfigLayout : Type 0 where
  pub turbonomic_credentials_secret_name : String
  pub ops_manager_user_name : Option (Pointer String)
  pub ops_manager_password : Option (Pointer String)

pub record KubeturboSdkProtocolConfigLayout : Type 0 where
  pub registration_timeout_sec : Option (Pointer ℤ)
  pub restart_on_registration_timeout : Option (Pointer Bool)

pub record KubeturboServerMetaLayout : Type 0 where
  pub version : Option (Pointer String)
  pub turbo_server : String
  pub proxy : Option (Pointer String)

pub record KubeturboTargetConfigLayout : Type 0 where
  pub target_name : Option (Pointer String)

pub record LoggingLayout : Type 0 where
  pub level : Option (Pointer ℤ)

pub record NodePoolSizeLayout : Type 0 where
  pub min : Option (Pointer ℤ)
  pub max : Option (Pointer ℤ)

pub record OrmOwnersLayout : Type 0 where
  pub api_group : Option (Pointer (List String))
  pub resources : Option (Pointer (List String))

pub record ResourceRequirementsLayout : Type 0 where
  pub limits : Option (Pointer (GoMap String))
  pub requests : Option (Pointer (GoMap String))

pub record SystemWorkloadDetectorsLayout : Type 0 where
  pub namespace_patterns : Option (Pointer (List String))

pub record WiremockLayout : Type 0 where
  pub enabled : Option (Pointer Bool)
  pub url : Option (Pointer String)

pub record KubeturboArgsLayout : Type 0 where
  pub logginglevel : Option (Pointer ℤ)
  pub kubelethttps : Option (Pointer Bool)
  pub kubeletport : Option (Pointer ℤ)
  pub sccsupport : Option (Pointer String)
  pub readiness_retry_threshold : Option (Pointer ℤ)
  pub fail_volume_pod_moves : Option (Pointer Bool)
  pub busybox_exclude_node_labels : Option (Pointer String)
  pub stitchuuid : Option (Pointer Bool)
  pub pre16_k8s_version : Option (Pointer Bool)
  pub cleanup_scc_impersonation_resources : Option (Pointer Bool)
  pub skip_creating_scc_impersonation_resources : Option (Pointer Bool)
  pub git_email : Option (Pointer String)
  pub git_username : Option (Pointer String)
  pub git_secret_name : Option (Pointer String)
  pub git_secret_namespace : Option (Pointer String)
  pub git_commit_mode : Option (Pointer String)
  pub satellite_location_provider : Option (Pointer String)
  pub discovery_interval_sec : Option (Pointer ℤ)
  pub discovery_sample_interval_sec : Option (Pointer ℤ)
  pub discovery_samples : Option (Pointer ℤ)
  pub discovery_timeout_sec : Option (Pointer ℤ)
  pub garbage_collection_interval_min : Option (Pointer ℤ)
  pub discovery_workers : Option (Pointer ℤ)

pub record KubeturboSpecLayout : Type 0 where
  pub daemon_pod_detectors : DaemonPodDetectorsLayout
  pub annotation_whitelist : AnnotationWhitelistLayout
  pub annotations : Option (Pointer (GoMap String))
  pub role_name : String
  pub role_binding : String
  pub service_account_name : String
  pub replica_count : Option (Pointer ℤ)
  pub image : KubeturboImageLayout
  pub server_meta : KubeturboServerMetaLayout
  pub rest_api_config : KubeturboRestApiConfigLayout
  pub sdk_protocol_config : KubeturboSdkProtocolConfigLayout
  pub feature_gates : Option (Pointer (GoMap Bool))
  pub ha_node_config : KubeturboHaNodeConfig
  pub target_config : KubeturboTargetConfigLayout
  pub args : KubeturboArgsLayout
  pub resources : Option (Pointer ResourceRequirementsLayout)
  pub logging : LoggingLayout
  pub node_pool_size : NodePoolSizeLayout
  pub orm_owners : OrmOwnersLayout
  pub system_workload_detectors : SystemWorkloadDetectorsLayout
  pub exclusion_detectors : ExclusionDetectorsLayout
  pub wiremock : WiremockLayout
  pub discovery : DiscoveryLayout
  pub kubeturbo_pod_scheduling : KubeturboPodSchedulingLayout

-- metav1.TypeMeta
pub record TypeMeta : Type 0 where
  pub kind : String
  pub api_version : String

pub record KubeturboLayout : Type 0 where
  pub type_meta : TypeMeta
  pub metadata : ObjectMeta
  pub spec : KubeturboSpecLayout
  pub status : KubeturboStatus

-- `metadata` is an encoded metav1.ListMeta.
pub record KubeturboListLayout : Type 0 where
  pub type_meta : TypeMeta
  pub metadata : String
  pub items : Option (Pointer (List KubeturboLayout))
