-- ===== src/ContainerArgs.antt =====
-- internal/api/kubeturbo/reconciler.go: containerArgs. A value is rendered as fmt does: `%d` and
-- `%t`, and Sprint of a string, a bool or an int32.
pub mod Flags
use kubeturbo_deploy.Prelude.{
  String, ◌<>◌, Bool, true, false, Option, none, some, List, [], ◌∷◌, ◌++◌,
}
use kubeturbo_deploy.Prelude.Decimal.{ℤ, format_int}
use kubeturbo_deploy.Types.{KubeturboSpec}

abbrev pub format_bool : Bool → String
format_bool true = "true"
format_bool false = "false"

abbrev pub of_int : Option ℤ → Option String
of_int none = none
of_int (some n) = some (format_int n)

abbrev pub of_bool : Option Bool → Option String
of_bool none = none
of_bool (some b) = some (format_bool b)

-- `if p != nil { args = append(args, flag + *p) }`
pub add : String → Option String → List String
add flag none = []
add flag (some v) = (flag <> v) ∷ []

-- `if p != nil && *p { args = append(args, arg) }`
pub add_if : String → Option Bool → List String
add_if arg (some true) = arg ∷ []
add_if arg _ = []

-- Appending one list after the other.
pub concat : List (List String) → List String
concat [] = []
concat (l ∷ ls) = l ++ concat ls

unfoldable pub container_args : KubeturboSpec → List String
unfolding add add_if concat format_int
container_args s = concat (
    ("--turboconfig=/etc/kubeturbo/turbo.config" ∷ [])
    ∷ add "--v=" (of_int s.args.logginglevel)
    ∷ add "--kubelet-https=" (of_bool s.args.kubelethttps)
    ∷ add "--kubelet-port=" (of_int s.args.kubeletport)
    ∷ add "--scc-support=" s.args.sccsupport
    ∷ add "--readiness-retry-threshold=" (of_int s.args.readiness_retry_threshold)
    ∷ add "--fail-volume-pod-moves=" (of_bool s.args.fail_volume_pod_moves)
    ∷ add "--busybox-image=" s.image.busybox_repository
    ∷ add "--busybox-image-pull-secret=" s.image.image_pull_secret
    ∷ add "--cpufreqgetter-image-pull-secret=" s.image.image_pull_secret
    ∷ add "--cpufreqgetter-image=" s.image.cpufreqgetter_repository
    ∷ add "--cpufreq-job-exclude-node-labels=" s.args.busybox_exclude_node_labels
    ∷ add "--stitch-uuid=" (of_bool s.args.stitchuuid)
    ∷ add_if "--k8sVersion=1.5" s.args.pre16_k8s_version
    ∷ add "--cleanup-scc-impersonation-resources="
        (of_bool s.args.cleanup_scc_impersonation_resources)
    ∷ add "--skip-creating-scc-impersonation-resources="
        (of_bool s.args.skip_creating_scc_impersonation_resources)
    ∷ add "--git-email=" s.args.git_email
    ∷ add "--git-username=" s.args.git_username
    ∷ add "--git-secret-name=" s.args.git_secret_name
    ∷ add "--git-secret-namespace=" s.args.git_secret_namespace
    ∷ add "--git-commit-mode=" s.args.git_commit_mode
    ∷ add "--satellite-location-provider=" s.args.satellite_location_provider
    ∷ add "--discovery-interval-sec=" (of_int s.args.discovery_interval_sec)
    ∷ add "--discovery-sample-interval=" (of_int s.args.discovery_sample_interval_sec)
    ∷ add "--discovery-samples=" (of_int s.args.discovery_samples)
    ∷ add "--discovery-timeout-sec=" (of_int s.args.discovery_timeout_sec)
    ∷ add "--garbage-collection-interval=" (of_int s.args.garbage_collection_interval_min)
    ∷ add "--discovery-workers=" (of_int s.args.discovery_workers)
    ∷ [])
