-- ===== src/Config.antt =====
-- internal/api/kubeturbo/reconciler.go: buildKubeturboConfig, buildKubeturboDynamicConfig and
-- getKubeturboConfigHash.
pub mod NodeRoles
pub mod Hash
pub mod Contents
use kubeturbo_deploy.Prelude.{
  String, Bool, true, false, Option, none, some, List, [], ◌∷◌, ◌||◌, ◌&&◌, if◌then◌else◌, is_some,
  not, ◌==◌,
}
use kubeturbo_deploy.Prelude.Decimal.{ℤ, format_nat}
use kubeturbo_deploy.Prelude.Maps.{Map}
use kubeturbo_deploy.Outcome.{Outcome, ok, panic, and_then}
use kubeturbo_deploy.Json.{
  Json, text, number, boolean, strings, object, Block, end, set_member, of_bools, marshal_indent,
}
use kubeturbo_deploy.Types.{KubeturboSpec}
use kubeturbo_deploy.Config.NodeRoles.{node_roles}
use kubeturbo_deploy.Config.Hash.{fnv64}

-- `if p != nil { block[k] = *p }`
unfoldable pub set_if : {A : Type 0} → (A → Json) → String → Option A → Block → Block
set_if f k none b = b
set_if f k (some a) b = set_member k (f a) b

-- `if cond { block[k] = inner }`
unfoldable pub set_when : Bool → String → Block → Block → Block
set_when true k inner b = set_member k (object inner) b
set_when false k inner b = b

-- *kt.spec.ServerMeta.Version, which the caller has followed.
server_meta_block : String → KubeturboSpec → Block
server_meta_block short_version s =
    let b = set_member "version" (text short_version) end in
    let c =
      if not (s.server_meta.turbo_server == "")
      then set_member "turboServer" (text s.server_meta.turbo_server) b
      else b in
    set_if text "proxy" s.server_meta.proxy c

rest_api_block : KubeturboSpec → Block
rest_api_block s =
    set_if text "opsManagerPassword" s.rest_api_config.ops_manager_password
      (set_if text "opsManagerUserName" s.rest_api_config.ops_manager_user_name end)

sdk_protocol_block : KubeturboSpec → Block
sdk_protocol_block s =
    set_if boolean "restartOnRegistrationTimeout"
      s.sdk_protocol_config.restart_on_registration_timeout
      (set_if number "registrationTimeoutSec" s.sdk_protocol_config.registration_timeout_sec end)

comm_config_block : String → KubeturboSpec → Block
comm_config_block short_version s =
    let b = set_member "serverMeta" (object (server_meta_block short_version s)) end in
    let c =
      set_when
        (is_some s.rest_api_config.ops_manager_user_name
          && is_some s.rest_api_config.ops_manager_password)
        "restAPIConfig" (rest_api_block s) b in
    set_when
      (is_some s.sdk_protocol_config.registration_timeout_sec
        || is_some s.sdk_protocol_config.restart_on_registration_timeout)
      "sdkProtocolConfig" (sdk_protocol_block s) c

annotation_white_list_block : KubeturboSpec → Block
annotation_white_list_block s =
    set_if text "workloadController" s.annotation_whitelist.workload_controller (
      set_if text "namespace" s.annotation_whitelist.namespace
        (set_if text "containerSpec" s.annotation_whitelist.container_spec end))

has_annotation_white_list : KubeturboSpec → Bool
has_annotation_white_list s =
    is_some s.annotation_whitelist.container_spec
    || is_some s.annotation_whitelist.namespace
    || is_some s.annotation_whitelist.workload_controller

abbrev is_empty_map : Map Bool → Bool
is_empty_map [] = true
is_empty_map (e ∷ m) = false

-- The configuration from the version and the node roles.
unfoldable pub config_block : String → List String → KubeturboSpec → Block
unfolding server_meta_block rest_api_block sdk_protocol_block comm_config_block
    annotation_white_list_block has_annotation_white_list
config_block short_version roles s =
    let b =
      set_member "HANodeConfig" (object (set_member "roles" (strings roles) end))
        (set_member "communicationConfig" (object (comm_config_block short_version s)) end) in
    let c =
      set_when (not (is_empty_map s.feature_gates)) "featureGates" (of_bools s.feature_gates) b in
    let d =
      set_when (is_some s.target_config.target_name) "targetConfig"
        (set_if text "targetName" s.target_config.target_name end) c in
    set_when (has_annotation_white_list s) "annotationWhiteList" (annotation_white_list_block s) d

-- Following a nil pointer panics.
abbrev pub deref : {A : Type 0} → Option A → Outcome A
deref none = panic
deref (some a) = ok a

unfoldable pub config : KubeturboSpec → Outcome Block
config s = and_then (deref s.server_meta.version) λ short_version.
    and_then (node_roles s.ha_node_config.node_roles)
      λ roles. ok (config_block short_version roles s)

unfoldable pub build_kubeturbo_config : KubeturboSpec → Outcome String
build_kubeturbo_config s = and_then (config s) λ b. ok (marshal_indent (object b))

node_pool_size_block : KubeturboSpec → Block
node_pool_size_block s =
    set_if number "mac" s.node_pool_size.max (set_if number "min" s.node_pool_size.min end)

exclusion_detectors_block : KubeturboSpec → Block
exclusion_detectors_block s =
    set_if strings "operatorControlledNamespacePatterns"
      s.exclusion_detectors.operator_controlled_namespace_patterns
      (set_if strings "operatorControlledWorkloadsPatterns"
        s.exclusion_detectors.operator_controlled_workloads_patterns end)

daemon_pod_detectors_block : KubeturboSpec → Block
daemon_pod_detectors_block s =
    set_if strings "operatorControlledNamespacePatterns" s.daemon_pod_detectors.pod_name_patterns (
      set_if strings "operatorControlledWorkloadsPatterns" s.daemon_pod_detectors.namespace_patterns
        end)

discovery_block : KubeturboSpec → Block
discovery_block s =
    set_if number "numObjectsPerChunk" s.discovery.num_objects_per_chunk
      (set_if number "chunkSendDelayMillis" s.discovery.chunk_send_delay_millis end)

-- `Enabled != nil && URL != nil && *Enabled`
unfoldable pub set_wiremock : Option Bool → Option String → Block → Block
set_wiremock (some true) (some url) b =
    set_member "wiremock"
      (object (set_member "url" (text url) (set_member "enabled" (boolean true) end))) b
set_wiremock _ _ b = b

unfoldable pub dynamic_config : KubeturboSpec → Block
unfolding node_pool_size_block exclusion_detectors_block daemon_pod_detectors_block discovery_block
dynamic_config s =
    let b = set_if number "logging" s.logging.level end in
    let c =
      set_when (is_some s.node_pool_size.min || is_some s.node_pool_size.max) "nodePoolSize"
        (node_pool_size_block s) b in
    let d =
      set_if (λ ps. object (set_member "namespacePatterns" (strings ps) end))
        "systemWorkloadDetectors" s.system_workload_detectors.namespace_patterns c in
    let e =
      set_when
        (is_some s.exclusion_detectors.operator_controlled_workloads_patterns
          || is_some s.exclusion_detectors.operator_controlled_namespace_patterns)
        "exclusionDetectors" (exclusion_detectors_block s) d in
    let f =
      set_when
        (is_some s.daemon_pod_detectors.namespace_patterns
          || is_some s.daemon_pod_detectors.pod_name_patterns)
        "daemonPodDetectors" (daemon_pod_detectors_block s) e in
    let g =
      set_when
        (is_some s.discovery.chunk_send_delay_millis || is_some s.discovery.num_objects_per_chunk)
        "discovery" (discovery_block s) f in
    set_wiremock s.wiremock.enabled s.wiremock.url g

unfoldable pub build_kubeturbo_dynamic_config : KubeturboSpec → Outcome String
build_kubeturbo_dynamic_config s = ok (marshal_indent (object (dynamic_config s)))

unfoldable pub get_kubeturbo_config_hash : KubeturboSpec → Outcome String
get_kubeturbo_config_hash s =
    and_then (build_kubeturbo_config s) λ c_byte_string. ok (format_nat (fnv64 c_byte_string))
