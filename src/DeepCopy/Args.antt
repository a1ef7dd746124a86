-- ===== src/DeepCopy/Args.antt =====
-- api/v1/zz_generated.deepcopy.go: the command line arguments.
-- `*out = *in` is the record that the copied fields update. A method fills `*out`, which is the value that
-- it gives back here.
use kubeturbo_deploy.Prelude.{Option}
use kubeturbo_deploy.Heap.{Pointer, Alloc, pure, ◌>>=◌, copy_pointer, copy_struct}
use kubeturbo_deploy.DeepCopy.Layout.{KubeturboArgsLayout}
use kubeturbo_deploy.DeepCopy.Cells.{Cell}
use kubeturbo_deploy.DeepCopy.Cells.Instances.{
  stored_text, stored_number, stored_flag, stored_kubeturbo_args,
}

unfoldable pub kubeturbo_args_deep_copy_into : KubeturboArgsLayout → Alloc Cell KubeturboArgsLayout
kubeturbo_args_deep_copy_into obj = do
  logginglevel ← copy_pointer obj.logginglevel
  kubelethttps ← copy_pointer obj.kubelethttps
  kubeletport ← copy_pointer obj.kubeletport
  sccsupport ← copy_pointer obj.sccsupport
  readiness_retry_threshold ← copy_pointer obj.readiness_retry_threshold
  fail_volume_pod_moves ← copy_pointer obj.fail_volume_pod_moves
  busybox_exclude_node_labels ← copy_pointer obj.busybox_exclude_node_labels
  stitchuuid ← copy_pointer obj.stitchuuid
  pre16_k8s_version ← copy_pointer obj.pre16_k8s_version
  cleanup_scc_impersonation_resources ← copy_pointer obj.cleanup_scc_impersonation_resources
  skip_creating_scc_impersonation_resources ←
      copy_pointer obj.skip_creating_scc_impersonation_resources
  git_email ← copy_pointer obj.git_email
  git_username ← copy_pointer obj.git_username
  git_secret_name ← copy_pointer obj.git_secret_name
  git_secret_namespace ← copy_pointer obj.git_secret_namespace
  git_commit_mode ← copy_pointer obj.git_commit_mode
  satellite_location_provider ← copy_pointer obj.satellite_location_provider
  discovery_interval_sec ← copy_pointer obj.discovery_interval_sec
  discovery_sample_interval_sec ← copy_pointer obj.discovery_sample_interval_sec
  discovery_samples ← copy_pointer obj.discovery_samples
  discovery_timeout_sec ← copy_pointer obj.discovery_timeout_sec
  garbage_collection_interval_min ← copy_pointer obj.garbage_collection_interval_min
  discovery_workers ← copy_pointer obj.discovery_workers
  pure (record obj {
    logginglevel = logginglevel;
    kubelethttps = kubelethttps;
    kubeletport = kubeletport;
    sccsupport = sccsupport;
    readiness_retry_threshold = readiness_retry_threshold;
    fail_volume_pod_moves = fail_volume_pod_moves;
    busybox_exclude_node_labels = busybox_exclude_node_labels;
    stitchuuid = stitchuuid;
    pre16_k8s_version = pre16_k8s_version;
    cleanup_scc_impersonation_resources = cleanup_scc_impersonation_resources;
    skip_creating_scc_impersonation_resources = skip_creating_scc_impersonation_resources;
    git_email = git_email;
    git_username = git_username;
    git_secret_name = git_secret_name;
    git_secret_namespace = git_secret_namespace;
    git_commit_mode = git_commit_mode;
    satellite_location_provider = satellite_location_provider;
    discovery_interval_sec = discovery_interval_sec;
    discovery_sample_interval_sec = discovery_sample_interval_sec;
    discovery_samples = discovery_samples;
    discovery_timeout_sec = discovery_timeout_sec;
    garbage_collection_interval_min = garbage_collection_interval_min;
    discovery_workers = discovery_workers;
  })

unfoldable pub kubeturbo_args_deep_copy :
    Option (Pointer KubeturboArgsLayout) → Alloc Cell (Option (Pointer KubeturboArgsLayout))
kubeturbo_args_deep_copy = copy_struct kubeturbo_args_deep_copy_into
