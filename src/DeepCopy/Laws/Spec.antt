-- ===== src/DeepCopy/Laws/Spec.antt =====
-- The copy of the specification is deep.
use kubeturbo_deploy.Prelude.{none, some, refl}
use kubeturbo_deploy.Types.{KubeturboSpec}
use kubeturbo_deploy.DeepCopy.Layout.{KubeturboSpecLayout}
use kubeturbo_deploy.DeepCopy.Cells.Instances.{
  stored_number, stored_text_map, stored_flag_map, stored_resource_requirements,
}
use kubeturbo_deploy.DeepCopy.Foreign.{Library, IsLawful}
use kubeturbo_deploy.DeepCopy.Laws.Fields.{pointer_law, map_law}
use kubeturbo_deploy.DeepCopy.Laws.Settings.{
  annotation_whitelist_deep_copy_into-IsDeepCopy, daemon_pod_detectors_deep_copy_into-IsDeepCopy,
  exclusion_detectors_deep_copy_into-IsDeepCopy,
  system_workload_detectors_deep_copy_into-IsDeepCopy, orm_owners_deep_copy_into-IsDeepCopy,
  discovery_deep_copy_into-IsDeepCopy, wiremock_deep_copy_into-IsDeepCopy,
  logging_deep_copy_into-IsDeepCopy, node_pool_size_deep_copy_into-IsDeepCopy,
}
use kubeturbo_deploy.DeepCopy.Laws.Connection.{
  kubeturbo_server_meta_deep_copy_into-IsDeepCopy,
  kubeturbo_rest_api_config_deep_copy_into-IsDeepCopy,
  kubeturbo_sdk_protocol_config_deep_copy_into-IsDeepCopy,
  kubeturbo_target_config_deep_copy_into-IsDeepCopy,
}
use kubeturbo_deploy.DeepCopy.Laws.Pods.{
  kubeturbo_image_deep_copy_into-IsDeepCopy, kubeturbo_pod_scheduling_deep_copy_into-IsDeepCopy,
  resource_requirements_deep_copy_into-IsDeepCopy,
}
use kubeturbo_deploy.DeepCopy.Laws.Args.{kubeturbo_args_deep_copy_into-IsDeepCopy}
use kubeturbo_deploy.DeepCopy.{kubeturbo_spec_deep_copy_into}
use kubeturbo_deploy.DeepCopy.Views.{kubeturbo_spec_view, kubeturbo_spec_reach}
use kubeturbo_deploy.Heap.Copies.{IsDeepCopy, ◌⊗◌}
use kubeturbo_deploy.Heap.Slices.{◌&◌, fields-IsDeepCopy}
use kubeturbo_deploy.Heap.Filled.{struct-IsDeepCopy}

pub kubeturbo_spec_deep_copy_into-IsDeepCopy :
    (lib : Library) (ok : IsLawful lib)
    → IsDeepCopy kubeturbo_spec_view kubeturbo_spec_reach (kubeturbo_spec_deep_copy_into lib)
unfolding kubeturbo_spec_deep_copy_into
kubeturbo_spec_deep_copy_into-IsDeepCopy lib ok =
    fields-IsDeepCopy {M = KubeturboSpecLayout} {V = KubeturboSpec}
      (λ m.
        (m.daemon_pod_detectors & m.annotation_whitelist & m.annotations & m.replica_count
          & m.image)
        & (m.server_meta & m.rest_api_config & m.sdk_protocol_config & m.feature_gates
            & m.target_config)
        & (m.args & m.resources & m.logging & m.node_pool_size & m.orm_owners)
        & (m.system_workload_detectors & m.exclusion_detectors & m.wiremock & m.discovery
            & m.kubeturbo_pod_scheduling))
      (λ m n. record m {
        daemon_pod_detectors = n.0.0.0.0.0.0.0;
        annotation_whitelist = n.0.0.0.0.0.0.1;
        annotations = n.0.0.0.0.0.1;
        replica_count = n.0.0.0.0.1;
        image = n.0.0.0.1;
        server_meta = n.0.0.1.0.0.0.0;
        rest_api_config = n.0.0.1.0.0.0.1;
        sdk_protocol_config = n.0.0.1.0.0.1;
        feature_gates = n.0.0.1.0.1;
        target_config = n.0.0.1.1;
        args = n.0.1.0.0.0.0;
        resources = n.0.1.0.0.0.1;
        logging = n.0.1.0.0.1;
        node_pool_size = n.0.1.0.1;
        orm_owners = n.0.1.1;
        system_workload_detectors = n.1.0.0.0.0;
        exclusion_detectors = n.1.0.0.0.1;
        wiremock = n.1.0.0.1;
        discovery = n.1.0.1;
        kubeturbo_pod_scheduling = n.1.1;
      })
      (λ m w. record {
        daemon_pod_detectors = w.0.0.0.0.0.0.0;
        annotation_whitelist = w.0.0.0.0.0.0.1;
        annotations = w.0.0.0.0.0.1;
        role_name = m.role_name;
        role_binding = m.role_binding;
        service_account_name = m.service_account_name;
        replica_count = w.0.0.0.0.1;
        image = w.0.0.0.1;
        server_meta = w.0.0.1.0.0.0.0;
        rest_api_config = w.0.0.1.0.0.0.1;
        sdk_protocol_config = w.0.0.1.0.0.1;
        feature_gates = w.0.0.1.0.1;
        ha_node_config = m.ha_node_config;
        target_config = w.0.0.1.1;
        args = w.0.1.0.0.0.0;
        resources = w.0.1.0.0.0.1;
        logging = w.0.1.0.0.1;
        node_pool_size = w.0.1.0.1;
        orm_owners = w.0.1.1;
        system_workload_detectors = w.1.0.0.0.0;
        exclusion_detectors = w.1.0.0.0.1;
        wiremock = w.1.0.0.1;
        discovery = w.1.0.1;
        kubeturbo_pod_scheduling = w.1.1;
      })
      ((daemon_pod_detectors_deep_copy_into-IsDeepCopy
          ⊗ annotation_whitelist_deep_copy_into-IsDeepCopy
          ⊗ (map_law (λ v. v) (λ v. refl))
          ⊗ pointer_law
          ⊗ kubeturbo_image_deep_copy_into-IsDeepCopy)
        ⊗ (kubeturbo_server_meta_deep_copy_into-IsDeepCopy
            ⊗ kubeturbo_rest_api_config_deep_copy_into-IsDeepCopy
            ⊗ kubeturbo_sdk_protocol_config_deep_copy_into-IsDeepCopy
            ⊗ (map_law (λ v. v) (λ v. refl))
            ⊗ kubeturbo_target_config_deep_copy_into-IsDeepCopy)
        ⊗ (kubeturbo_args_deep_copy_into-IsDeepCopy
            ⊗ (struct-IsDeepCopy (resource_requirements_deep_copy_into-IsDeepCopy lib ok) some none)
            ⊗ logging_deep_copy_into-IsDeepCopy
            ⊗ node_pool_size_deep_copy_into-IsDeepCopy
            ⊗ orm_owners_deep_copy_into-IsDeepCopy)
        ⊗ (system_workload_detectors_deep_copy_into-IsDeepCopy
            ⊗ exclusion_detectors_deep_copy_into-IsDeepCopy
            ⊗ wiremock_deep_copy_into-IsDeepCopy
            ⊗ discovery_deep_copy_into-IsDeepCopy
            ⊗ (kubeturbo_pod_scheduling_deep_copy_into-IsDeepCopy lib ok)))
      (λ m n. refl) (λ m n w. refl)
