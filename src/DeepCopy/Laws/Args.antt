-- ===== src/DeepCopy/Laws/Args.antt =====
-- The command line arguments: their copies are deep.
use kubeturbo_deploy.Prelude.{refl}
use kubeturbo_deploy.Types.Args.{KubeturboArgs}
use kubeturbo_deploy.DeepCopy.Layout.{KubeturboArgsLayout}
use kubeturbo_deploy.DeepCopy.Cells.Instances.{stored_text, stored_number, stored_flag}
use kubeturbo_deploy.DeepCopy.Args.{kubeturbo_args_deep_copy_into}
use kubeturbo_deploy.DeepCopy.Views.Args.{kubeturbo_args_view, kubeturbo_args_reach}
use kubeturbo_deploy.Heap.Copies.{IsDeepCopy, ◌⊗◌}
use kubeturbo_deploy.Heap.Slices.{◌&◌, fields-IsDeepCopy}
use kubeturbo_deploy.DeepCopy.Laws.Fields.{pointer_law}

pub kubeturbo_args_deep_copy_into-IsDeepCopy :
    IsDeepCopy kubeturbo_args_view kubeturbo_args_reach kubeturbo_args_deep_copy_into
unfolding kubeturbo_args_deep_copy_into
kubeturbo_args_deep_copy_into-IsDeepCopy =
    fields-IsDeepCopy {M = KubeturboArgsLayout} {V = KubeturboArgs}
      (λ m.
        (m.logginglevel & m.kubelethttps & m.kubeletport & m.sccsupport
          & m.readiness_retry_threshold & m.fail_volume_pod_moves)
        & (m.busybox_exclude_node_labels & m.stitchuuid & m.pre16_k8s_version
            & m.cleanup_scc_impersonation_resources & m.skip_creating_scc_impersonation_resources
            & m.git_email)
        & (m.git_username & m.git_secret_name & m.git_secret_namespace & m.git_commit_mode
            & m.satellite_location_provider & m.discovery_interval_sec)
        & (m.discovery_sample_interval_sec & m.discovery_samples & m.discovery_timeout_sec
            & m.garbage_collection_interval_min & m.discovery_workers))
      (λ m n. record m {
        logginglevel = n.0.0.0.0.0.0.0.0;
        kubelethttps = n.0.0.0.0.0.0.0.1;
        kubeletport = n.0.0.0.0.0.0.1;
        sccsupport = n.0.0.0.0.0.1;
        readiness_retry_threshold = n.0.0.0.0.1;
        fail_volume_pod_moves = n.0.0.0.1;
        busybox_exclude_node_labels = n.0.0.1.0.0.0.0.0;
        stitchuuid = n.0.0.1.0.0.0.0.1;
        pre16_k8s_version = n.0.0.1.0.0.0.1;
        cleanup_scc_impersonation_resources = n.0.0.1.0.0.1;
        skip_creating_scc_impersonation_resources = n.0.0.1.0.1;
        git_email = n.0.0.1.1;
        git_username = n.0.1.0.0.0.0.0;
        git_secret_name = n.0.1.0.0.0.0.1;
        git_secret_namespace = n.0.1.0.0.0.1;
        git_commit_mode = n.0.1.0.0.1;
        satellite_location_provider = n.0.1.0.1;
        discovery_interval_sec = n.0.1.1;
        discovery_sample_interval_sec = n.1.0.0.0.0;
        discovery_samples = n.1.0.0.0.1;
        discovery_timeout_sec = n.1.0.0.1;
        garbage_collection_interval_min = n.1.0.1;
        discovery_workers = n.1.1;
      })
      (λ m w. record {
        logginglevel = w.0.0.0.0.0.0.0.0;
        kubelethttps = w.0.0.0.0.0.0.0.1;
        kubeletport = w.0.0.0.0.0.0.1;
        sccsupport = w.0.0.0.0.0.1;
        readiness_retry_threshold = w.0.0.0.0.1;
        fail_volume_pod_moves = w.0.0.0.1;
        busybox_exclude_node_labels = w.0.0.1.0.0.0.0.0;
        stitchuuid = w.0.0.1.0.0.0.0.1;
        pre16_k8s_version = w.0.0.1.0.0.0.1;
        cleanup_scc_impersonation_resources = w.0.0.1.0.0.1;
        skip_creating_scc_impersonation_resources = w.0.0.1.0.1;
        git_email = w.0.0.1.1;
        git_username = w.0.1.0.0.0.0.0;
        git_secret_name = w.0.1.0.0.0.0.1;
        git_secret_namespace = w.0.1.0.0.0.1;
        git_commit_mode = w.0.1.0.0.1;
        satellite_location_provider = w.0.1.0.1;
        discovery_interval_sec = w.0.1.1;
        discovery_sample_interval_sec = w.1.0.0.0.0;
        discovery_samples = w.1.0.0.0.1;
        discovery_timeout_sec = w.1.0.0.1;
        garbage_collection_interval_min = w.1.0.1;
        discovery_workers = w.1.1;
      })
      ((pointer_law ⊗ pointer_law ⊗ pointer_law ⊗ pointer_law ⊗ pointer_law ⊗ pointer_law)
        ⊗ (pointer_law ⊗ pointer_law ⊗ pointer_law ⊗ pointer_law ⊗ pointer_law ⊗ pointer_law)
        ⊗ (pointer_law ⊗ pointer_law ⊗ pointer_law ⊗ pointer_law ⊗ pointer_law ⊗ pointer_law)
        ⊗ (pointer_law ⊗ pointer_law ⊗ pointer_law ⊗ pointer_law ⊗ pointer_law))
      (λ m n. refl) (λ m n w. refl)
