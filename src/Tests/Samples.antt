-- ===== src/Tests/Samples.antt =====
-- A resource, and the clusters that the tests start from.
use kubeturbo_deploy.Prelude.{
  String, Bool, true, false, none, some, List, [], ◌∷◌, ◌++◌, ◌==◌, ◌||◌, if◌then◌else◌,
}
use kubeturbo_deploy.Outcome.{ok}
use kubeturbo_deploy.Config.{get_kubeturbo_config_hash}
use kubeturbo_deploy.Finalizers.{ControllerUtil}
use kubeturbo_deploy.Prelude.Decimal.{pos}
use kubeturbo_deploy.Types.{Kubeturbo, KubeturboSpec, ObjectMeta, role_type_admin}
use kubeturbo_deploy.Types.Reflect.{end}
use kubeturbo_deploy.Types.Defaults.{Surroundings}
use kubeturbo_deploy.Objects.{kubeturbo, Key}
use kubeturbo_deploy.Tests.Memory.{Tables, no_objects, put_object}

abbrev pub spec : KubeturboSpec
spec = record {
  daemon_pod_detectors = record {
    pod_name_patterns = some (".*ccp.*" ∷ []);
    namespace_patterns = none;
  };
  annotation_whitelist = record {
    container_spec = some "spec.*";
    namespace = none;
    workload_controller = none;
  };
  annotations = ("kubeturbo.io/controllable", "false") ∷ [];
  role_name = role_type_admin;
  role_binding = "turbo-all-binding";
  service_account_name = "turbo-user";
  replica_count = some (pos 1);
  image = record {
    repository = "icr.io/cpopen/turbonomic/kubeturbo";
    tag = some "8.14.3";
    busybox_repository = none;
    cpufreqgetter_repository = none;
    pull_policy = some "IfNotPresent";
    image_pull_secret = none;
  };
  server_meta = record {
    version = some "8.14.3";
    turbo_server = "https://turbo.example";
    proxy = none;
  };
  rest_api_config = record {
    turbonomic_credentials_secret_name = "turbonomic-credentials";
    ops_manager_user_name = some "admin";
    ops_manager_password = none;
  };
  sdk_protocol_config = record {
    registration_timeout_sec = some (pos 300);
    restart_on_registration_timeout = some true;
  };
  feature_gates = ("GoMemLimit", true) ∷ [];
  ha_node_config = record { node_roles = "\"master\",\"infra\"" };
  target_config = record { target_name = some "cluster-1" };
  args = record {
    logginglevel = some (pos 2);
    kubelethttps = some true;
    kubeletport = some (pos 10250);
    sccsupport = none;
    readiness_retry_threshold = none;
    fail_volume_pod_moves = none;
    busybox_exclude_node_labels = none;
    stitchuuid = none;
    pre16_k8s_version = none;
    cleanup_scc_impersonation_resources = none;
    skip_creating_scc_impersonation_resources = none;
    git_email = none;
    git_username = none;
    git_secret_name = none;
    git_secret_namespace = none;
    git_commit_mode = none;
    satellite_location_provider = none;
    discovery_interval_sec = none;
    discovery_sample_interval_sec = none;
    discovery_samples = none;
    discovery_timeout_sec = none;
    garbage_collection_interval_min = none;
    discovery_workers = none;
  };
  resources = none;
  logging = record { level = some (pos 2) };
  node_pool_size = record { min = some (pos 1); max = some (pos 1000) };
  orm_owners = record { api_group = none; resources = none };
  system_workload_detectors = record { namespace_patterns = some ("kube-.*" ∷ []) };
  exclusion_detectors = record {
    operator_controlled_workloads_patterns = some ("turbo-.*" ∷ []);
    operator_controlled_namespace_patterns = none;
  };
  wiremock = record { enabled = some true; url = some "http://mock" };
  discovery = record {
    chunk_send_delay_millis = some (pos 0);
    num_objects_per_chunk = some (pos 5000);
  };
  kubeturbo_pod_scheduling = record { node_selector = []; affinity = none; tolerations = [] };
}

abbrev pub named : String → String → ObjectMeta
named n ns = record {
  name = n;
  namespace = ns;
  uid = "";
  labels = [];
  annotations = [];
  finalizers = [];
  owner = none;
  deletion_timestamp = none;
}

abbrev pub kt : Kubeturbo
kt = record {
  metadata = record (named "kubeturbo-release" "turbo") {
    uid = "6f2a-01";
    finalizers = "helm.k8s.io/finalizer" ∷ [];
  };
  spec = spec;
  status = record { last_updated_timestamp = ""; config_hash = "" };
}

abbrev pub request : Key
request = record { name = "kubeturbo-release"; namespace = "turbo" }

-- The resource after an earlier configuration.
abbrev pub outdated : Kubeturbo
outdated = record kt { status = record { last_updated_timestamp = "then"; config_hash = "1" } }

-- Another resource in the same namespace.
abbrev pub kt_b : Kubeturbo
kt_b = record kt { metadata = record (named "other" "turbo") { uid = "6f2a-02" } }

abbrev pub cluster_of : Kubeturbo → Tables
cluster_of k = put_object kubeturbo request k no_objects

abbrev pub env : Surroundings
env = record { lookup_env = λ k. some "8.14.3"; type_meta = end; object_meta = end }

-- controllerutil, with a remove that leaves the array alone.
abbrev without : String → List String → List String
without f [] = []
without f (g ∷ fs) = if g == f then without f fs else g ∷ without f fs

abbrev any_eq : String → List String → Bool
any_eq f [] = false
any_eq f (g ∷ fs) = g == f || any_eq f fs

abbrev pub util : ControllerUtil
util = record {
  remove_finalizer = λ f ranged fs. (ranged, without f fs);
  contains_finalizer = λ fs f. any_eq f fs;
  add_finalizer = λ fs f. fs ++ (f ∷ []);
}

-- The hash of the sample's configuration.
unfoldable pub hash : String
hash = elim (get_kubeturbo_config_hash spec) [ ok h ↦ h | _ ↦ "" ]
