-- ===== src/Types/Reflect.antt =====
-- What reflect.ValueOf shows of the custom resource in Kubeturbo.VerifySubfields: the fields of each
-- struct in the order of their declaration in api/v1/kubeturbo_types.go. TypeMeta and ObjectMeta are
-- structs of k8s.io/apimachinery, and their fields are parameters.
use kubeturbo_deploy.Prelude.{String, Bool, true, Option, List, [], ◌∷◌, is_some, not}
use kubeturbo_deploy.Types.{Kubeturbo, KubeturboSpec}

-- A value by its reflect.Kind: a pointer (`true` if it is nil), a string, a struct, or another kind.
mutual
  pub data Value : Type 0 where
    pointer : Bool → Value
    text : String → Value
    struct : Fields → Value
    other : Value

  -- Each field with its name and whether it is exported.
  pub data Fields : Type 0 where
    end : Fields
    field : String → Bool → Value → Fields → Fields

-- Exported fields.
abbrev fields : List (String × Value) → Fields
fields [] = end
fields ((name, v) ∷ rest) = field name true v (fields rest)

abbrev ptr : {A : Type 0} → Option A → Value
ptr p = pointer (not (is_some p))

abbrev image_fields : KubeturboSpec → Fields
image_fields s = fields (
    ("Repository", text s.image.repository)
    ∷ ("Tag", ptr s.image.tag)
    ∷ ("BusyboxRepository", ptr s.image.busybox_repository)
    ∷ ("CpufreqgetterRepository", ptr s.image.cpufreqgetter_repository)
    ∷ ("PullPolicy", ptr s.image.pull_policy)
    ∷ ("ImagePullSecret", ptr s.image.image_pull_secret)
    ∷ [])

abbrev server_meta_fields : KubeturboSpec → Fields
server_meta_fields s = fields (
    ("Version", ptr s.server_meta.version)
    ∷ ("TurboServer", text s.server_meta.turbo_server)
    ∷ ("Proxy", ptr s.server_meta.proxy)
    ∷ [])

abbrev rest_api_config_fields : KubeturboSpec → Fields
rest_api_config_fields s = fields (
    ("TurbonomicCredentialsSecretName", text s.rest_api_config.turbonomic_credentials_secret_name)
    ∷ ("OpsManagerUserName", ptr s.rest_api_config.ops_manager_user_name)
    ∷ ("OpsManagerPassword", ptr s.rest_api_config.ops_manager_password)
    ∷ [])

abbrev args_fields : KubeturboSpec → Fields
args_fields s = fields (
    ("Logginglevel", ptr s.args.logginglevel)
    ∷ ("Kubelethttps", ptr s.args.kubelethttps)
    ∷ ("Kubeletport", ptr s.args.kubeletport)
    ∷ ("Sccsupport", ptr s.args.sccsupport)
    ∷ ("ReadinessRetryThreshold", ptr s.args.readiness_retry_threshold)
    ∷ ("FailVolumePodMoves", ptr s.args.fail_volume_pod_moves)
    ∷ ("BusyboxExcludeNodeLabels", ptr s.args.busybox_exclude_node_labels)
    ∷ ("Stitchuuid", ptr s.args.stitchuuid)
    ∷ ("Pre16K8sVersion", ptr s.args.pre16_k8s_version)
    ∷ ("CleanupSccImpersonationResources", ptr s.args.cleanup_scc_impersonation_resources)
    ∷ (
      "SkipCreatingSccImpersonationResources",
      ptr s.args.skip_creating_scc_impersonation_resources,
    )
    ∷ ("GitEmail", ptr s.args.git_email)
    ∷ ("GitUsername", ptr s.args.git_username)
    ∷ ("GitSecretName", ptr s.args.git_secret_name)
    ∷ ("GitSecretNamespace", ptr s.args.git_secret_namespace)
    ∷ ("GitCommitMode", ptr s.args.git_commit_mode)
    ∷ ("SatelliteLocationProvider", ptr s.args.satellite_location_provider)
    ∷ ("DiscoveryIntervalSec", ptr s.args.discovery_interval_sec)
    ∷ ("DiscoverySampleIntervalSec", ptr s.args.discovery_sample_interval_sec)
    ∷ ("DiscoverySamples", ptr s.args.discovery_samples)
    ∷ ("DiscoveryTimeoutSec", ptr s.args.discovery_timeout_sec)
    ∷ ("GarbageCollectionIntervalMin", ptr s.args.garbage_collection_interval_min)
    ∷ ("DiscoveryWorkers", ptr s.args.discovery_workers)
    ∷ [])

abbrev spec_fields : KubeturboSpec → Fields
spec_fields s = fields (
    (
      "DaemonPodDetectors",
      struct (fields (("PodNamePatterns", other) ∷ ("NamespacePatterns", other) ∷ [])),
    )
    ∷ (
      "AnnotationWhitelist",
      struct (
          fields (
            ("ContainerSpec", ptr s.annotation_whitelist.container_spec)
            ∷ ("Namespace", ptr s.annotation_whitelist.namespace)
            ∷ ("WorkloadController", ptr s.annotation_whitelist.workload_controller)
            ∷ [])),
    )
    ∷ ("Annotations", other)
    ∷ ("RoleName", text s.role_name)
    ∷ ("RoleBinding", text s.role_binding)
    ∷ ("ServiceAccountName", text s.service_account_name)
    ∷ ("ReplicaCount", ptr s.replica_count)
    ∷ ("Image", struct (image_fields s))
    ∷ ("ServerMeta", struct (server_meta_fields s))
    ∷ ("RestAPIConfig", struct (rest_api_config_fields s))
    ∷ (
      "SdkProtocolConfig",
      struct (
          fields (
            ("RegistrationTimeoutSec", ptr s.sdk_protocol_config.registration_timeout_sec)
            ∷ (
              "RestartOnRegistrationTimeout",
              ptr s.sdk_protocol_config.restart_on_registration_timeout,
            )
            ∷ [])),
    )
    ∷ ("FeatureGates", other)
    ∷ ("HANodeConfig", struct (fields (("NodeRoles", text s.ha_node_config.node_roles) ∷ [])))
    ∷ ("TargetConfig", struct (fields (("TargetName", ptr s.target_config.target_name) ∷ [])))
    ∷ ("Args", struct (args_fields s))
    ∷ ("Resources", ptr s.resources)
    ∷ ("Logging", struct (fields (("Level", ptr s.logging.level) ∷ [])))
    ∷ (
      "NodePoolSize",
      struct (fields (("Min", ptr s.node_pool_size.min) ∷ ("Max", ptr s.node_pool_size.max) ∷ [])),
    )
    ∷ ("OrmOwners", struct (fields (("ApiGroup", other) ∷ ("Resources", other) ∷ [])))
    ∷ ("SystemWorkloadDetectors", struct (fields (("NamespacePatterns", other) ∷ [])))
    ∷ (
      "ExclusionDetectors",
      struct (
          fields (
            ("OperatorControlledWorkloadsPatterns", other)
            ∷ ("OperatorControlledNamespacePatterns", other)
            ∷ [])),
    )
    ∷ (
      "Wiremock",
      struct (fields (("Enabled", ptr s.wiremock.enabled) ∷ ("URL", ptr s.wiremock.url) ∷ [])),
    )
    ∷ (
      "Discovery",
      struct (
          fields (
            ("ChunkSendDelayMillis", ptr s.discovery.chunk_send_delay_millis)
            ∷ ("NumObjectsPerChunk", ptr s.discovery.num_objects_per_chunk)
            ∷ [])),
    )
    ∷ (
      "KubeturboPodScheduling",
      struct (
          fields (
            ("NodeSelector", other)
            ∷ ("Affinity", ptr s.kubeturbo_pod_scheduling.affinity)
            ∷ ("Tolerations", other)
            ∷ [])),
    )
    ∷ [])

-- The whole resource. `type_meta` and `object_meta` are the fields of the two embedded structs.
unfoldable pub kubeturbo_fields : Fields → Fields → Kubeturbo → Fields
kubeturbo_fields type_meta object_meta kt = fields (
    ("TypeMeta", struct type_meta)
    ∷ ("ObjectMeta", struct object_meta)
    ∷ ("Spec", struct (spec_fields kt.spec))
    ∷ (
      "Status",
      struct (
          fields (
            ("LastUpdatedTimestamp", text kt.status.last_updated_timestamp)
            ∷ ("ConfigHash", text kt.status.config_hash)
            ∷ [])),
    )
    ∷ [])
