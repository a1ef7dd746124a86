-- ===== src/Types.antt =====
-- api/v1/kubeturbo_types.go: the custom resource. A pointer is an `Option`; a slice that the code
-- compares with nil is one too. Values that the code only copies (Affinity, Tolerations, resource
-- quantities, which are types of k8s.io/api) stand as their encoded text.
pub mod Blocks
pub mod Args
pub mod Defaults
pub mod Reflect
pub mod Verify
use kubeturbo_deploy.Prelude.{String, Bool, Option, List}
use kubeturbo_deploy.Prelude.Decimal.{ℤ}
use kubeturbo_deploy.Prelude.Maps.{Map}
use kubeturbo_deploy.Types.Blocks.{
  DaemonPodDetectors, AnnotationWhitelist, KubeturboImage, KubeturboServerMeta,
  KubeturboRestApiConfig, KubeturboSdkProtocolConfig, ResourceRequirements, Logging, NodePoolSize,
  OrmOwners, SystemWorkloadDetectors, ExclusionDetectors, Wiremock, Discovery,
  KubeturboPodScheduling, KubeturboHaNodeConfig, KubeturboTargetConfig,
}
use kubeturbo_deploy.Types.Args.{KubeturboArgs}

abbrev pub role_type_read_only : String
role_type_read_only = "turbo-cluster-reader"

abbrev pub role_type_admin : String
role_type_admin = "turbo-cluster-admin"

abbrev pub role_type_cluster_admin : String
role_type_cluster_admin = "cluster-admin"

pub record KubeturboSpec : Type 0 where
  pub daemon_pod_detectors : DaemonPodDetectors
  pub annotation_whitelist : AnnotationWhitelist
  pub annotations : Map String
  pub role_name : String
  pub role_binding : String
  pub service_account_name : String
  pub replica_count : Option ℤ
  pub image : KubeturboImage
  pub server_meta : KubeturboServerMeta
  pub rest_api_config : KubeturboRestApiConfig
  pub sdk_protocol_config : KubeturboSdkProtocolConfig
  pub feature_gates : Map Bool
  pub ha_node_config : KubeturboHaNodeConfig
  pub target_config : KubeturboTargetConfig
  pub args : KubeturboArgs
  pub resources : Option ResourceRequirements
  pub logging : Logging
  pub node_pool_size : NodePoolSize
  pub orm_owners : OrmOwners
  pub system_workload_detectors : SystemWorkloadDetectors
  pub exclusion_detectors : ExclusionDetectors
  pub wiremock : Wiremock
  pub discovery : Discovery
  pub kubeturbo_pod_scheduling : KubeturboPodScheduling

pub record KubeturboStatus : Type 0 where
  pub last_updated_timestamp : String
  pub config_hash : String

-- The fields of metav1.ObjectMeta that the operator reads or writes. `owner` is the UID of the
-- controller reference.
pub record ObjectMeta : Type 0 where
  pub name : String
  pub namespace : String
  pub uid : String
  pub labels : Map String
  pub annotations : Map String
  pub finalizers : List String
  pub owner : Option String
  pub deletion_timestamp : Option String

pub record Kubeturbo : Type 0 where
  pub metadata : ObjectMeta
  pub spec : KubeturboSpec
  pub status : KubeturboStatus
