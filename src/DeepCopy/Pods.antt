-- ===== src/DeepCopy/Pods.antt =====
-- api/v1/zz_generated.deepcopy.go: the blocks on the pods of kubeturbo.
-- `*out = *in` is the record that the copied fields update. A method fills `*out`, which is the value that
-- it gives back here.
use kubeturbo_deploy.Prelude.{Option, map}
use kubeturbo_deploy.Types.Blocks.{KubeturboHaNodeConfig}
use kubeturbo_deploy.Types.{KubeturboStatus}
use kubeturbo_deploy.Heap.{Pointer, Alloc, pure, ◌>>=◌, copy_with, copy_pointer, copy_struct}
use kubeturbo_deploy.Heap.Maps.{copy_map}
use kubeturbo_deploy.DeepCopy.Layout.{
  KubeturboImageLayout, KubeturboPodSchedulingLayout, ResourceRequirementsLayout,
}
use kubeturbo_deploy.DeepCopy.Cells.{Cell}
use kubeturbo_deploy.DeepCopy.Cells.Instances.{
  stored_text, stored_texts, stored_text_map, stored_kubeturbo_image,
  stored_kubeturbo_pod_scheduling, stored_resource_requirements, stored_kubeturbo_ha_node_config,
  stored_kubeturbo_status,
}
use kubeturbo_deploy.DeepCopy.Foreign.{Library}

unfoldable pub kubeturbo_image_deep_copy_into :
    KubeturboImageLayout → Alloc Cell KubeturboImageLayout
kubeturbo_image_deep_copy_into obj = do
  tag ← copy_pointer obj.tag
  busybox_repository ← copy_pointer obj.busybox_repository
  cpufreqgetter_repository ← copy_pointer obj.cpufreqgetter_repository
  pull_policy ← copy_pointer obj.pull_policy
  image_pull_secret ← copy_pointer obj.image_pull_secret
  pure (record obj {
    tag = tag;
    busybox_repository = busybox_repository;
    cpufreqgetter_repository = cpufreqgetter_repository;
    pull_policy = pull_policy;
    image_pull_secret = image_pull_secret;
  })

unfoldable pub kubeturbo_image_deep_copy :
    Option (Pointer KubeturboImageLayout) → Alloc Cell (Option (Pointer KubeturboImageLayout))
kubeturbo_image_deep_copy = copy_struct kubeturbo_image_deep_copy_into

unfoldable pub kubeturbo_pod_scheduling_deep_copy_into :
    Library → KubeturboPodSchedulingLayout → Alloc Cell KubeturboPodSchedulingLayout
kubeturbo_pod_scheduling_deep_copy_into lib obj = do
  node_selector ← copy_with (copy_map (λ v. v)) obj.node_selector
  affinity ← copy_with lib.affinity obj.affinity
  tolerations ← copy_with (map lib.toleration) obj.tolerations
  pure
      (record obj { node_selector = node_selector; affinity = affinity; tolerations = tolerations })

unfoldable pub kubeturbo_pod_scheduling_deep_copy :
    Library
    → Option (Pointer KubeturboPodSchedulingLayout)
    → Alloc Cell (Option (Pointer KubeturboPodSchedulingLayout))
kubeturbo_pod_scheduling_deep_copy lib = copy_struct (kubeturbo_pod_scheduling_deep_copy_into lib)

unfoldable pub resource_requirements_deep_copy_into :
    Library → ResourceRequirementsLayout → Alloc Cell ResourceRequirementsLayout
resource_requirements_deep_copy_into lib obj = do
  limits ← copy_with (copy_map lib.quantity) obj.limits
  requests ← copy_with (copy_map lib.quantity) obj.requests
  pure (record obj { limits = limits; requests = requests })

unfoldable pub resource_requirements_deep_copy :
    Library
    → Option (Pointer ResourceRequirementsLayout)
    → Alloc Cell (Option (Pointer ResourceRequirementsLayout))
resource_requirements_deep_copy lib = copy_struct (resource_requirements_deep_copy_into lib)

unfoldable pub kubeturbo_ha_node_config_deep_copy_into :
    KubeturboHaNodeConfig → Alloc Cell KubeturboHaNodeConfig
kubeturbo_ha_node_config_deep_copy_into obj = pure obj

unfoldable pub kubeturbo_ha_node_config_deep_copy :
    Option (Pointer KubeturboHaNodeConfig) → Alloc Cell (Option (Pointer KubeturboHaNodeConfig))
kubeturbo_ha_node_config_deep_copy = copy_struct kubeturbo_ha_node_config_deep_copy_into

unfoldable pub kubeturbo_status_deep_copy_into : KubeturboStatus → Alloc Cell KubeturboStatus
kubeturbo_status_deep_copy_into obj = pure obj

unfoldable pub kubeturbo_status_deep_copy :
    Option (Pointer KubeturboStatus) → Alloc Cell (Option (Pointer KubeturboStatus))
kubeturbo_status_deep_copy = copy_struct kubeturbo_status_deep_copy_into
