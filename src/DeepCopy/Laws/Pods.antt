-- ===== src/DeepCopy/Laws/Pods.antt =====
-- The blocks on the pods of kubeturbo: their copies are deep.
use kubeturbo_deploy.Prelude.{none, some, [], map, refl, ap}
use kubeturbo_deploy.Types.Blocks.{KubeturboImage, KubeturboPodScheduling, ResourceRequirements}
use kubeturbo_deploy.DeepCopy.Layout.{
  KubeturboImageLayout, KubeturboPodSchedulingLayout, ResourceRequirementsLayout,
}
use kubeturbo_deploy.DeepCopy.Cells.Instances.{stored_text, stored_texts, stored_text_map}
use kubeturbo_deploy.DeepCopy.Foreign.{Library, IsLawful}
use kubeturbo_deploy.DeepCopy.Pods.{
  kubeturbo_image_deep_copy_into, kubeturbo_pod_scheduling_deep_copy_into,
  resource_requirements_deep_copy_into,
}
use kubeturbo_deploy.DeepCopy.Views.Pods.{
  kubeturbo_image_view, kubeturbo_image_reach, kubeturbo_pod_scheduling_view,
  kubeturbo_pod_scheduling_reach, resource_requirements_view, resource_requirements_reach,
}
use kubeturbo_deploy.Heap.Copies.{IsDeepCopy, copy_with-IsDeepCopy, ◌⊗◌}
use kubeturbo_deploy.Heap.Slices.{◌&◌, fields-IsDeepCopy}
use kubeturbo_deploy.DeepCopy.Laws.Fields.{pointer_law, map_law, map_same}

pub kubeturbo_image_deep_copy_into-IsDeepCopy :
    IsDeepCopy kubeturbo_image_view kubeturbo_image_reach kubeturbo_image_deep_copy_into
unfolding kubeturbo_image_deep_copy_into
kubeturbo_image_deep_copy_into-IsDeepCopy =
    fields-IsDeepCopy {M = KubeturboImageLayout} {V = KubeturboImage}
      (λ m.
        m.tag & m.busybox_repository & m.cpufreqgetter_repository & m.pull_policy
        & m.image_pull_secret)
      (λ m n. record m {
        tag = n.0.0.0.0;
        busybox_repository = n.0.0.0.1;
        cpufreqgetter_repository = n.0.0.1;
        pull_policy = n.0.1;
        image_pull_secret = n.1;
      })
      (λ m w. record {
        repository = m.repository;
        tag = w.0.0.0.0;
        busybox_repository = w.0.0.0.1;
        cpufreqgetter_repository = w.0.0.1;
        pull_policy = w.0.1;
        image_pull_secret = w.1;
      })
      (pointer_law ⊗ pointer_law ⊗ pointer_law ⊗ pointer_law ⊗ pointer_law) (λ m n. refl)
      (λ m n w. refl)

pub kubeturbo_pod_scheduling_deep_copy_into-IsDeepCopy :
    (lib : Library) (ok : IsLawful lib)
    → IsDeepCopy kubeturbo_pod_scheduling_view kubeturbo_pod_scheduling_reach
        (kubeturbo_pod_scheduling_deep_copy_into lib)
unfolding kubeturbo_pod_scheduling_deep_copy_into
kubeturbo_pod_scheduling_deep_copy_into-IsDeepCopy lib ok =
    fields-IsDeepCopy {M = KubeturboPodSchedulingLayout} {V = KubeturboPodScheduling}
      (λ m. m.node_selector & m.affinity & m.tolerations)
      (λ m n. record m { node_selector = n.0.0; affinity = n.0.1; tolerations = n.1 })
      (λ m w. record { node_selector = w.0.0; affinity = w.0.1; tolerations = w.1 })
      ((map_law (λ v. v) (λ v. refl))
        ⊗ (copy_with-IsDeepCopy some none lib.affinity (λ a. ap some (ok.affinity a)))
        ⊗ (copy_with-IsDeepCopy (λ ts. ts) [] (map lib.toleration)
            (map_same lib.toleration ok.toleration)))
      (λ m n. refl) (λ m n w. refl)

pub resource_requirements_deep_copy_into-IsDeepCopy :
    (lib : Library) (ok : IsLawful lib)
    → IsDeepCopy resource_requirements_view resource_requirements_reach
        (resource_requirements_deep_copy_into lib)
unfolding resource_requirements_deep_copy_into
resource_requirements_deep_copy_into-IsDeepCopy lib ok =
    fields-IsDeepCopy {M = ResourceRequirementsLayout} {V = ResourceRequirements}
      (λ m. m.limits & m.requests) (λ m n. record m { limits = n.0; requests = n.1 })
      (λ m w. record { limits = w.0; requests = w.1 })
      ((map_law lib.quantity ok.quantity) ⊗ (map_law lib.quantity ok.quantity)) (λ m n. refl)
      (λ m n w. refl)
