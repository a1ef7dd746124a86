-- ===== src/DeepCopy/Views/Args.antt =====
-- The command line arguments: what they show in memory, and the addresses that are
-- reached from them.
use kubeturbo_deploy.Prelude.{ℕ, none, some, List, ◌++◌}
use kubeturbo_deploy.Types.Args.{KubeturboArgs}
use kubeturbo_deploy.Heap.{Store, refers, shows}
use kubeturbo_deploy.DeepCopy.Layout.{KubeturboArgsLayout}
use kubeturbo_deploy.DeepCopy.Cells.{Cell}
use kubeturbo_deploy.DeepCopy.Cells.Instances.{stored_text, stored_number, stored_flag}

abbrev pub kubeturbo_args_view : Store Cell → KubeturboArgsLayout → KubeturboArgs
kubeturbo_args_view σ m = record {
  logginglevel = shows some none σ m.logginglevel;
  kubelethttps = shows some none σ m.kubelethttps;
  kubeletport = shows some none σ m.kubeletport;
  sccsupport = shows some none σ m.sccsupport;
  readiness_retry_threshold = shows some none σ m.readiness_retry_threshold;
  fail_volume_pod_moves = shows some none σ m.fail_volume_pod_moves;
  busybox_exclude_node_labels = shows some none σ m.busybox_exclude_node_labels;
  stitchuuid = shows some none σ m.stitchuuid;
  pre16_k8s_version = shows some none σ m.pre16_k8s_version;
  cleanup_scc_impersonation_resources = shows some none σ m.cleanup_scc_impersonation_resources;
  skip_creating_scc_impersonation_resources =
      shows some none σ m.skip_creating_scc_impersonation_resources;
  git_email = shows some none σ m.git_email;
  git_username = shows some none σ m.git_username;
  git_secret_name = shows some none σ m.git_secret_name;
  git_secret_namespace = shows some none σ m.git_secret_namespace;
  git_commit_mode = shows some none σ m.git_commit_mode;
  satellite_location_provider = shows some none σ m.satellite_location_provider;
  discovery_interval_sec = shows some none σ m.discovery_interval_sec;
  discovery_sample_interval_sec = shows some none σ m.discovery_sample_interval_sec;
  discovery_samples = shows some none σ m.discovery_samples;
  discovery_timeout_sec = shows some none σ m.discovery_timeout_sec;
  garbage_collection_interval_min = shows some none σ m.garbage_collection_interval_min;
  discovery_workers = shows some none σ m.discovery_workers;
}

abbrev pub kubeturbo_args_reach : Store Cell → KubeturboArgsLayout → List ℕ
kubeturbo_args_reach σ m =
    (refers m.logginglevel
      ++ refers m.kubelethttps
      ++ refers m.kubeletport
      ++ refers m.sccsupport
      ++ refers m.readiness_retry_threshold
      ++ refers m.fail_volume_pod_moves)
    ++ (refers m.busybox_exclude_node_labels
        ++ refers m.stitchuuid
        ++ refers m.pre16_k8s_version
        ++ refers m.cleanup_scc_impersonation_resources
        ++ refers m.skip_creating_scc_impersonation_resources
        ++ refers m.git_email)
    ++ (refers m.git_username
        ++ refers m.git_secret_name
        ++ refers m.git_secret_namespace
        ++ refers m.git_commit_mode
        ++ refers m.satellite_location_provider
        ++ refers m.discovery_interval_sec)
    ++ (refers m.discovery_sample_interval_sec
        ++ refers m.discovery_samples
        ++ refers m.discovery_timeout_sec
        ++ refers m.garbage_collection_interval_min
        ++ refers m.discovery_workers)
