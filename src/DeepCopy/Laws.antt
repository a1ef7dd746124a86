-- ===== src/DeepCopy/Laws.antt =====
-- The copies of the resource and of its list are deep, and share nothing with what was copied.
pub mod Fields
pub mod Settings
pub mod Connection
pub mod Pods
pub mod Args
pub mod Spec
pub mod Blocks
use mathlib.Core.Path.{fun_ext}
use kubeturbo_deploy.Prelude.{
  ℕ, String, Bool, false, Option, none, some, List, [], ◌++◌, map, ◌≡◌, ◌≢◌, ◌<◌, refl, sym, ap,
  subst, All,
}
use kubeturbo_deploy.Prelude.Decimal.{ℤ, pos}
use kubeturbo_deploy.Prelude.Maps.{Map}
use kubeturbo_deploy.Types.Blocks.{
  AnnotationWhitelist, DaemonPodDetectors, Discovery, ExclusionDetectors, KubeturboImage,
  KubeturboPodScheduling, KubeturboRestApiConfig, KubeturboSdkProtocolConfig, KubeturboServerMeta,
  KubeturboTargetConfig, Logging, NodePoolSize, OrmOwners, ResourceRequirements,
  SystemWorkloadDetectors, Wiremock, KubeturboHaNodeConfig,
}
use kubeturbo_deploy.Types.Args.{KubeturboArgs}
use kubeturbo_deploy.Types.{KubeturboSpec, KubeturboStatus, Kubeturbo, ObjectMeta}
use kubeturbo_deploy.Heap.{
  Pointer, Store, Stored, Alloc, refers, shows, pure, ◌>>=◌, copy_with, copy_pointer, copy_struct,
  copy_slice,
}
use kubeturbo_deploy.Heap.Maps.{GoMap, empty, copy_map, copy_map-entries}
use kubeturbo_deploy.DeepCopy.Layout.{
  AnnotationWhitelistLayout, DaemonPodDetectorsLayout, DiscoveryLayout, ExclusionDetectorsLayout,
  KubeturboImageLayout, KubeturboPodSchedulingLayout, KubeturboRestApiConfigLayout,
  KubeturboSdkProtocolConfigLayout, KubeturboServerMetaLayout, KubeturboTargetConfigLayout,
  LoggingLayout, NodePoolSizeLayout, OrmOwnersLayout, ResourceRequirementsLayout,
  SystemWorkloadDetectorsLayout, WiremockLayout, KubeturboArgsLayout, KubeturboSpecLayout,
  KubeturboLayout, KubeturboListLayout, TypeMeta,
}
use kubeturbo_deploy.DeepCopy.Cells.{Cell}
use kubeturbo_deploy.DeepCopy.Cells.Instances.{
  stored_kubeturbo, stored_kubeturbos, stored_kubeturbo_list,
}
use kubeturbo_deploy.DeepCopy.Foreign.{Library, IsLawful}
use kubeturbo_deploy.DeepCopy.Laws.Fields.{pointer_law, map_law, map_same}
use kubeturbo_deploy.DeepCopy.Laws.Settings.{
  annotation_whitelist_deep_copy_into-IsDeepCopy, daemon_pod_detectors_deep_copy_into-IsDeepCopy,
  exclusion_detectors_deep_copy_into-IsDeepCopy,
  system_workload_detectors_deep_copy_into-IsDeepCopy, orm_owners_deep_copy_into-IsDeepCopy,
  discovery_deep_copy_into-IsDeepCopy, wiremock_deep_copy_into-IsDeepCopy,
  logging_deep_copy_into-IsDeepCopy, node_pool_size_deep_copy_into-IsDeepCopy,
}
use kubeturbo_deploy.DeepCopy.Laws.Connection.{
  kubeturbo_server_meta_deep_copy_into-IsDeepCopy,
  kubeturbo_rest_api_config_deep_copy_into-IsDeepCopy,
  kubeturbo_sdk_protocol_config_deep_copy_into-IsDeepCopy,
  kubeturbo_target_config_deep_copy_into-IsDeepCopy,
}
use kubeturbo_deploy.DeepCopy.Laws.Pods.{
  kubeturbo_image_deep_copy_into-IsDeepCopy, kubeturbo_pod_scheduling_deep_copy_into-IsDeepCopy,
  resource_requirements_deep_copy_into-IsDeepCopy,
}
use kubeturbo_deploy.DeepCopy.Laws.Args.{kubeturbo_args_deep_copy_into-IsDeepCopy}
use kubeturbo_deploy.DeepCopy.Laws.Spec.{kubeturbo_spec_deep_copy_into-IsDeepCopy}
use kubeturbo_deploy.DeepCopy.{
  kubeturbo_spec_deep_copy_into, kubeturbo_spec_deep_copy, kubeturbo_deep_copy_into,
  kubeturbo_deep_copy, kubeturbo_list_deep_copy_into, kubeturbo_list_deep_copy,
}
use kubeturbo_deploy.DeepCopy.Settings.{
  annotation_whitelist_deep_copy_into, annotation_whitelist_deep_copy,
  daemon_pod_detectors_deep_copy_into, daemon_pod_detectors_deep_copy,
  exclusion_detectors_deep_copy_into, exclusion_detectors_deep_copy,
  system_workload_detectors_deep_copy_into, system_workload_detectors_deep_copy,
  orm_owners_deep_copy_into, orm_owners_deep_copy, discovery_deep_copy_into, discovery_deep_copy,
  wiremock_deep_copy_into, wiremock_deep_copy, logging_deep_copy_into, logging_deep_copy,
  node_pool_size_deep_copy_into, node_pool_size_deep_copy,
}
use kubeturbo_deploy.DeepCopy.Connection.{
  kubeturbo_server_meta_deep_copy_into, kubeturbo_server_meta_deep_copy,
  kubeturbo_rest_api_config_deep_copy_into, kubeturbo_rest_api_config_deep_copy,
  kubeturbo_sdk_protocol_config_deep_copy_into, kubeturbo_sdk_protocol_config_deep_copy,
  kubeturbo_target_config_deep_copy_into, kubeturbo_target_config_deep_copy,
}
use kubeturbo_deploy.DeepCopy.Pods.{
  kubeturbo_image_deep_copy_into, kubeturbo_image_deep_copy,
  kubeturbo_pod_scheduling_deep_copy_into, kubeturbo_pod_scheduling_deep_copy,
  resource_requirements_deep_copy_into, resource_requirements_deep_copy,
  kubeturbo_ha_node_config_deep_copy_into, kubeturbo_ha_node_config_deep_copy,
  kubeturbo_status_deep_copy_into, kubeturbo_status_deep_copy,
}
use kubeturbo_deploy.DeepCopy.Args.{kubeturbo_args_deep_copy_into, kubeturbo_args_deep_copy}
use kubeturbo_deploy.DeepCopy.Views.Settings.{
  annotation_whitelist_view, annotation_whitelist_reach, daemon_pod_detectors_view,
  daemon_pod_detectors_reach, exclusion_detectors_view, exclusion_detectors_reach,
  system_workload_detectors_view, system_workload_detectors_reach, orm_owners_view,
  orm_owners_reach, discovery_view, discovery_reach, wiremock_view, wiremock_reach, logging_view,
  logging_reach, node_pool_size_view, node_pool_size_reach,
}
use kubeturbo_deploy.DeepCopy.Views.Connection.{
  kubeturbo_server_meta_view, kubeturbo_server_meta_reach, kubeturbo_rest_api_config_view,
  kubeturbo_rest_api_config_reach, kubeturbo_sdk_protocol_config_view,
  kubeturbo_sdk_protocol_config_reach, kubeturbo_target_config_view, kubeturbo_target_config_reach,
}
use kubeturbo_deploy.DeepCopy.Views.Pods.{
  kubeturbo_image_view, kubeturbo_image_reach, kubeturbo_pod_scheduling_view,
  kubeturbo_pod_scheduling_reach, resource_requirements_view, resource_requirements_reach,
}
use kubeturbo_deploy.DeepCopy.Views.Args.{kubeturbo_args_view, kubeturbo_args_reach}
use kubeturbo_deploy.DeepCopy.Views.{
  kubeturbo_spec_view, kubeturbo_spec_reach, kubeturbo_view, kubeturbo_reach, kubeturbo_list_view,
  kubeturbo_list_reach,
}
use kubeturbo_deploy.Heap.Copies.{
  Same, IsCopy, IsDeepCopy, plain-IsDeepCopy, copies_apart, copy_with-IsDeepCopy, ◌⊗◌,
}
use kubeturbo_deploy.Heap.Slices.{◌&◌, fields-IsDeepCopy}
use kubeturbo_deploy.Heap.Filled.{struct-IsDeepCopy, slice-IsDeepCopy, view_at, reach_at}

pub kubeturbo_deep_copy_into-IsDeepCopy :
    (lib : Library) (ok : IsLawful lib)
    → IsDeepCopy kubeturbo_view kubeturbo_reach (kubeturbo_deep_copy_into lib)
unfolding kubeturbo_deep_copy_into
kubeturbo_deep_copy_into-IsDeepCopy lib ok =
    subst
      (λ f. IsDeepCopy kubeturbo_view kubeturbo_reach (λ m.
        kubeturbo_spec_deep_copy_into lib m.spec >>= λ spec.
        pure (record m { metadata = f m.metadata; spec = spec })))
      (sym (fun_ext ok.object_meta))
      (fields-IsDeepCopy {M = KubeturboLayout} (λ m. m.spec) (λ m spec. record m { spec = spec })
        (λ m spec. (m.type_meta, record { metadata = m.metadata; spec = spec; status = m.status }))
        (kubeturbo_spec_deep_copy_into-IsDeepCopy lib ok) (λ m n. refl) (λ m n w. refl))

pub kubeturbo_list_deep_copy_into-IsDeepCopy :
    (lib : Library) (ok : IsLawful lib)
    → IsDeepCopy kubeturbo_list_view kubeturbo_list_reach (kubeturbo_list_deep_copy_into lib)
unfolding kubeturbo_list_deep_copy_into
kubeturbo_list_deep_copy_into-IsDeepCopy lib ok =
    subst
      (λ f. IsDeepCopy kubeturbo_list_view kubeturbo_list_reach (λ m.
        copy_slice (kubeturbo_deep_copy_into lib) m.items >>= λ items.
        pure (record m { metadata = f m.metadata; items = items })))
      (sym (fun_ext ok.list_meta))
      (fields-IsDeepCopy {M = KubeturboListLayout} (λ m. m.items)
        (λ m items. record m { items = items }) (λ m items. (m.type_meta, (m.metadata, items)))
        (slice-IsDeepCopy (kubeturbo_deep_copy_into-IsDeepCopy lib ok)) (λ m n. refl)
        (λ m n w. refl))

-- What the pointers to a resource and to a list show, and what is reached from them.
abbrev pub shown : Store Cell → Option (Pointer KubeturboLayout) → Option (TypeMeta × Kubeturbo)
shown = view_at kubeturbo_view some none

abbrev pub reached : Store Cell → Option (Pointer KubeturboLayout) → List ℕ
reached = reach_at kubeturbo_reach

pub kubeturbo_deep_copy-IsDeepCopy :
    (lib : Library) → IsLawful lib → IsDeepCopy shown reached (kubeturbo_deep_copy lib)
unfolding kubeturbo_deep_copy
kubeturbo_deep_copy-IsDeepCopy lib ok =
    struct-IsDeepCopy (kubeturbo_deep_copy_into-IsDeepCopy lib ok) some none

-- Kubeturbo.DeepCopy in a memory in which the addresses that the receiver reaches are in use: no cell in
-- use changes, the copy shows the same type, metadata, specification and status (and is nil for nil),
-- and all that is reached from the copy, its own address included, is newly allocated. The deep copies
-- of k8s.io are taken to give equal values.
pub kubeturbo_deep_copy-IsCopy :
    (lib : Library) (obj : Option (Pointer KubeturboLayout)) (σ : Store Cell)
    → IsLawful lib
    → All (λ a. a < σ.next) (reached σ obj)
    → IsCopy shown reached σ obj (kubeturbo_deep_copy lib obj σ).1 (kubeturbo_deep_copy lib obj σ).0
kubeturbo_deep_copy-IsCopy lib obj σ ok h = (kubeturbo_deep_copy-IsDeepCopy lib ok).copied obj σ h

-- Nothing is shared: after Kubeturbo.DeepCopy, in a memory υ in which, of the cells in use, only those
-- that are reached from the copy have changed, the receiver shows what it showed before; in one in which
-- only those that are reached from the receiver have changed, the copy shows what the receiver showed
-- when it was copied. The addresses that the receiver reaches are in use, and the deep copies of k8s.io are taken to give
-- equal values.
pub kubeturbo_deep_copy_apart :
    (lib : Library) (obj : Option (Pointer KubeturboLayout)) (σ υ : Store Cell)
    → IsLawful lib
    → All (λ a. a < σ.next) (reached σ obj)
    → let c = kubeturbo_deep_copy lib obj σ in
      (((a : ℕ) → a < c.1.next → All (λ b. a ≢ b) (reached c.1 c.0) → Same c.1 υ a)
        → shown υ obj ≡ shown σ obj)
      × (((a : ℕ) → a < c.1.next → All (λ b. a ≢ b) (reached σ obj) → Same c.1 υ a)
          → shown υ c.0 ≡ shown σ obj)
kubeturbo_deep_copy_apart lib obj σ υ ok h =
    copies_apart (kubeturbo_deep_copy-IsDeepCopy lib ok) obj σ υ h

pub kubeturbo_list_deep_copy-IsDeepCopy :
    (lib : Library)
    → IsLawful lib
    → IsDeepCopy
        (view_at kubeturbo_list_view some none)
        (reach_at kubeturbo_list_reach)
        (kubeturbo_list_deep_copy lib)
unfolding kubeturbo_list_deep_copy
kubeturbo_list_deep_copy-IsDeepCopy lib ok =
    struct-IsDeepCopy (kubeturbo_list_deep_copy_into-IsDeepCopy lib ok) some none
