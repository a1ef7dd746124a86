-- ===== src/Types/Args.antt =====
-- api/v1/kubeturbo_types.go: KubeturboArgs, the command line arguments of kubeturbo.
use kubeturbo_deploy.Prelude.{String, Bool, Option}
use kubeturbo_deploy.Prelude.Decimal.{ℤ}

pub record KubeturboArgs : Type 0 where
  pub logginglevel : Option ℤ
  pub kubelethttps : Option Bool
  pub kubeletport : Option ℤ
  pub sccsupport : Option String
  pub readiness_retry_threshold : Option ℤ
  pub fail_volume_pod_moves : Option Bool
  pub busybox_exclude_node_labels : Option String
  pub stitchuuid : Option Bool
  pub pre16_k8s_version : Option Bool
  pub cleanup_scc_impersonation_resources : Option Bool
  pub skip_creating_scc_impersonation_resources : Option Bool
  pub git_email : Option String
  pub git_username : Option String
  pub git_secret_name : Option String
  pub git_secret_namespace : Option String
  pub git_commit_mode : Option String
  pub satellite_location_provider : Option String
  pub discovery_interval_sec : Option ℤ
  pub discovery_sample_interval_sec : Option ℤ
  pub discovery_samples : Option ℤ
  pub discovery_timeout_sec : Option ℤ
  pub garbage_collection_interval_min : Option ℤ
  pub discovery_workers : Option ℤ
