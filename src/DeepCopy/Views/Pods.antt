-- ===== src/DeepCopy/Views/Pods.antt =====
-- The blocks on the pods of kubeturbo: what they show in memory, and the addresses that are
-- reached from them.
use kubeturbo_deploy.Prelude.{ℕ, none, some, List, [], ◌++◌}
use kubeturbo_deploy.Types.Blocks.{KubeturboImage, KubeturboPodScheduling, ResourceRequirements}
use kubeturbo_deploy.Heap.{Store, refers, shows}
use kubeturbo_deploy.DeepCopy.Layout.{
  KubeturboImageLayout, KubeturboPodSchedulingLayout, ResourceRequirementsLayout,
}
use kubeturbo_deploy.DeepCopy.Cells.{Cell}
use kubeturbo_deploy.DeepCopy.Cells.Instances.{stored_text, stored_texts, stored_text_map}

abbrev pub kubeturbo_image_view : Store Cell → KubeturboImageLayout → KubeturboImage
kubeturbo_image_view σ m = record {
  repository = m.repository;
  tag = shows some none σ m.tag;
  busybox_repository = shows some none σ m.busybox_repository;
  cpufreqgetter_repository = shows some none σ m.cpufreqgetter_repository;
  pull_policy = shows some none σ m.pull_policy;
  image_pull_secret = shows some none σ m.image_pull_secret;
}

abbrev pub kubeturbo_image_reach : Store Cell → KubeturboImageLayout → List ℕ
kubeturbo_image_reach σ m =
    refers m.tag
    ++ refers m.busybox_repository
    ++ refers m.cpufreqgetter_repository
    ++ refers m.pull_policy
    ++ refers m.image_pull_secret

abbrev pub kubeturbo_pod_scheduling_view :
    Store Cell → KubeturboPodSchedulingLayout → KubeturboPodScheduling
kubeturbo_pod_scheduling_view σ m = record {
  node_selector = shows (λ g. g.entries) [] σ m.node_selector;
  affinity = shows some none σ m.affinity;
  tolerations = shows (λ ts. ts) [] σ m.tolerations;
}

abbrev pub kubeturbo_pod_scheduling_reach : Store Cell → KubeturboPodSchedulingLayout → List ℕ
kubeturbo_pod_scheduling_reach σ m =
    refers m.node_selector ++ refers m.affinity ++ refers m.tolerations

abbrev pub resource_requirements_view :
    Store Cell → ResourceRequirementsLayout → ResourceRequirements
resource_requirements_view σ m = record {
  limits = shows (λ g. g.entries) [] σ m.limits;
  requests = shows (λ g. g.entries) [] σ m.requests;
}

abbrev pub resource_requirements_reach : Store Cell → ResourceRequirementsLayout → List ℕ
resource_requirements_reach σ m = refers m.limits ++ refers m.requests
