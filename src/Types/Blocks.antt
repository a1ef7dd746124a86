-- ===== src/Types/Blocks.antt =====
-- api/v1/kubeturbo_types.go: the blocks of the specification, but for the command line arguments.
use kubeturbo_deploy.Prelude.{String, Bool, Option, List}
use kubeturbo_deploy.Prelude.Decimal.{ℤ}
use kubeturbo_deploy.Prelude.Maps.{Map}

-- `affinity` and each of the `tolerations` are encoded values.
pub record KubeturboPodScheduling : Type 0 where
  pub node_selector : Map String
  pub affinity : Option String
  pub tolerations : List String

pub record KubeturboImage : Type 0 where
  pub repository : String
  pub tag : Option String
  pub busybox_repository : Option String
  pub cpufreqgetter_repository : Option String
  pub pull_policy : Option String
  pub image_pull_secret : Option String

pub record KubeturboServerMeta : Type 0 where
  pub version : Option String
  pub turbo_server : String
  pub proxy : Option String

pub record KubeturboRestApiConfig : Type 0 where
  pub turbonomic_credentials_secret_name : String
  pub ops_manager_user_name : Option String
  pub ops_manager_password : Option String

pub record KubeturboSdkProtocolConfig : Type 0 where
  pub registration_timeout_sec : Option ℤ
  pub restart_on_registration_timeout : Option Bool

pub record KubeturboHaNodeConfig : Type 0 where
  pub node_roles : String

pub record KubeturboTargetConfig : Type 0 where
  pub target_name : Option String

pub record DaemonPodDetectors : Type 0 where
  pub pod_name_patterns : Option (List String)
  pub namespace_patterns : Option (List String)

pub record AnnotationWhitelist : Type 0 where
  pub container_spec : Option String
  pub namespace : Option String
  pub workload_controller : Option String

pub record Logging : Type 0 where
  pub level : Option ℤ

pub record NodePoolSize : Type 0 where
  pub min : Option ℤ
  pub max : Option ℤ

pub record OrmOwners : Type 0 where
  pub api_group : Option (List String)
  pub resources : Option (List String)

pub record SystemWorkloadDetectors : Type 0 where
  pub namespace_patterns : Option (List String)

pub record ExclusionDetectors : Type 0 where
  pub operator_controlled_workloads_patterns : Option (List String)
  pub operator_controlled_namespace_patterns : Option (List String)

pub record Wiremock : Type 0 where
  pub enabled : Option Bool
  pub url : Option String

pub record Discovery : Type 0 where
  pub chunk_send_delay_millis : Option ℤ
  pub num_objects_per_chunk : Option ℤ

-- The quantities are encoded values.
pub record ResourceRequirements : Type 0 where
  pub limits : Map String
  pub requests : Map String

-- corev1.ResourceRequirements has the same two fields.
unfoldable pub internalize : ResourceRequirements → ResourceRequirements
internalize rr = record { limits = rr.limits; requests = rr.requests }
