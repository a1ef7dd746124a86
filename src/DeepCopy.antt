-- ===== src/DeepCopy.antt =====
-- api/v1/zz_generated.deepcopy.go: the resource and its list. The blocks are in the child modules.
-- `*out = *in` is the record that the copied fields update. A method fills `*out`, which is the value that
-- it gives back here.
pub mod Layout
pub mod Zero
pub mod Cells
pub mod Foreign
pub mod Settings
pub mod Connection
pub mod Pods
pub mod Args
pub mod Views
pub mod Laws
use mathlib.Core.Option
use kubeturbo_deploy.Prelude.{
  ℕ, String, Bool, false, Option, none, some, List, [], ◌++◌, map, ◌≡◌, ◌≢◌, ◌<◌, refl, sym, ap,
  subst, All,
}
use kubeturbo_deploy.Prelude.Decimal.{ℤ, pos}
use kubeturbo_deploy.Prelude.Maps.{Map}
use kubeturbo_deploy.Types.Blocks.{
  AnnotationWhitelist, DaemonPodDetectors, Discovery, ExclusionDetectors, KubeturboImage,
  KubeturboPodScheduling, KubeturboRestApiConfig, KubeturboSdkProtocolConfig, KubeturboServerMeta,
  KubeturboTargetConfig, Logging, NodePoolSize, OrmOwners, ResourceRequirements,
  SystemWorkloadDetectors, Wiremock, KubeturboHaNodeConfig,
}
use kubeturbo_deploy.Types.Args.{KubeturboArgs}
use kubeturbo_deploy.Types.{KubeturboSpec, KubeturboStatus, Kubeturbo, ObjectMeta}
use kubeturbo_deploy.Heap.{
  Pointer, Store, Stored, Alloc, refers, shows, pure, ◌>>=◌, copy_with, copy_pointer, copy_struct,
  copy_slice,
}
use kubeturbo_deploy.Heap.Maps.{GoMap, empty, copy_map, copy_map-entries}
use kubeturbo_deploy.DeepCopy.Layout.{
  AnnotationWhitelistLayout, DaemonPodDetectorsLayout, DiscoveryLayout, ExclusionDetectorsLayout,
  KubeturboImageLayout, KubeturboPodSchedulingLayout, KubeturboRestApiConfigLayout,
  KubeturboSdkProtocolConfigLayout, KubeturboServerMetaLayout, KubeturboTargetConfigLayout,
  LoggingLayout, NodePoolSizeLayout, OrmOwnersLayout, ResourceRequirementsLayout,
  SystemWorkloadDetectorsLayout, WiremockLayout, KubeturboArgsLayout, KubeturboSpecLayout,
  KubeturboLayout, KubeturboListLayout, TypeMeta,
}
use kubeturbo_deploy.DeepCopy.Cells.{Cell}
use kubeturbo_deploy.DeepCopy.Cells.Instances.{
  stored_number, stored_text_map, stored_flag_map, stored_resource_requirements,
  stored_kubeturbo_spec, stored_kubeturbo, stored_kubeturbos, stored_kubeturbo_list,
}
use kubeturbo_deploy.DeepCopy.Foreign.{Library, IsLawful}
use kubeturbo_deploy.DeepCopy.Settings.{
  annotation_whitelist_deep_copy_into, daemon_pod_detectors_deep_copy_into,
  exclusion_detectors_deep_copy_into, system_workload_detectors_deep_copy_into,
  orm_owners_deep_copy_into, discovery_deep_copy_into, wiremock_deep_copy_into,
  logging_deep_copy_into, node_pool_size_deep_copy_into,
}
use kubeturbo_deploy.DeepCopy.Connection.{
  kubeturbo_server_meta_deep_copy_into, kubeturbo_rest_api_config_deep_copy_into,
  kubeturbo_sdk_protocol_config_deep_copy_into, kubeturbo_target_config_deep_copy_into,
}
use kubeturbo_deploy.DeepCopy.Pods.{
  kubeturbo_image_deep_copy_into, kubeturbo_pod_scheduling_deep_copy_into,
  resource_requirements_deep_copy_into,
}
use kubeturbo_deploy.DeepCopy.Args.{kubeturbo_args_deep_copy_into}

unfoldable pub kubeturbo_spec_deep_copy_into :
    Library → KubeturboSpecLayout → Alloc Cell KubeturboSpecLayout
kubeturbo_spec_deep_copy_into lib obj = do
  daemon_pod_detectors ← daemon_pod_detectors_deep_copy_into obj.daemon_pod_detectors
  annotation_whitelist ← annotation_whitelist_deep_copy_into obj.annotation_whitelist
  annotations ← copy_with (copy_map (λ v. v)) obj.annotations
  replica_count ← copy_pointer obj.replica_count
  image ← kubeturbo_image_deep_copy_into obj.image
  server_meta ← kubeturbo_server_meta_deep_copy_into obj.server_meta
  rest_api_config ← kubeturbo_rest_api_config_deep_copy_into obj.rest_api_config
  sdk_protocol_config ← kubeturbo_sdk_protocol_config_deep_copy_into obj.sdk_protocol_config
  feature_gates ← copy_with (copy_map (λ v. v)) obj.feature_gates
  target_config ← kubeturbo_target_config_deep_copy_into obj.target_config
  args ← kubeturbo_args_deep_copy_into obj.args
  resources ← copy_struct (resource_requirements_deep_copy_into lib) obj.resources
  logging ← logging_deep_copy_into obj.logging
  node_pool_size ← node_pool_size_deep_copy_into obj.node_pool_size
  orm_owners ← orm_owners_deep_copy_into obj.orm_owners
  system_workload_detectors ← system_workload_detectors_deep_copy_into obj.system_workload_detectors
  exclusion_detectors ← exclusion_detectors_deep_copy_into obj.exclusion_detectors
  wiremock ← wiremock_deep_copy_into obj.wiremock
  discovery ← discovery_deep_copy_into obj.discovery
  kubeturbo_pod_scheduling ←
      kubeturbo_pod_scheduling_deep_copy_into lib obj.kubeturbo_pod_scheduling
  pure (record obj {
    daemon_pod_detectors = daemon_pod_detectors;
    annotation_whitelist = annotation_whitelist;
    annotations = annotations;
    replica_count = replica_count;
    image = image;
    server_meta = server_meta;
    rest_api_config = rest_api_config;
    sdk_protocol_config = sdk_protocol_config;
    feature_gates = feature_gates;
    target_config = target_config;
    args = args;
    resources = resources;
    logging = logging;
    node_pool_size = node_pool_size;
    orm_owners = orm_owners;
    system_workload_detectors = system_workload_detectors;
    exclusion_detectors = exclusion_detectors;
    wiremock = wiremock;
    discovery = discovery;
    kubeturbo_pod_scheduling = kubeturbo_pod_scheduling;
  })

unfoldable pub kubeturbo_spec_deep_copy :
    Library
    → Option (Pointer KubeturboSpecLayout)
    → Alloc Cell (Option (Pointer KubeturboSpecLayout))
kubeturbo_spec_deep_copy lib = copy_struct (kubeturbo_spec_deep_copy_into lib)

unfoldable pub kubeturbo_deep_copy_into : Library → KubeturboLayout → Alloc Cell KubeturboLayout
kubeturbo_deep_copy_into lib obj = do
  let metadata = lib.object_meta obj.metadata
  spec ← kubeturbo_spec_deep_copy_into lib obj.spec
  pure (record obj {
    type_meta = obj.type_meta;
    metadata = metadata;
    spec = spec;
    status = obj.status;
  })

unfoldable pub kubeturbo_deep_copy :
    Library → Option (Pointer KubeturboLayout) → Alloc Cell (Option (Pointer KubeturboLayout))
kubeturbo_deep_copy lib = copy_struct (kubeturbo_deep_copy_into lib)

unfoldable pub kubeturbo_list_deep_copy_into :
    Library → KubeturboListLayout → Alloc Cell KubeturboListLayout
kubeturbo_list_deep_copy_into lib obj = do
  let metadata = lib.list_meta obj.metadata
  items ← copy_slice (kubeturbo_deep_copy_into lib) obj.items
  pure (record obj { type_meta = obj.type_meta; metadata = metadata; items = items })

unfoldable pub kubeturbo_list_deep_copy :
    Library
    → Option (Pointer KubeturboListLayout)
    → Alloc Cell (Option (Pointer KubeturboListLayout))
kubeturbo_list_deep_copy lib = copy_struct (kubeturbo_list_deep_copy_into lib)

-- runtime.Object: a nil interface is `none`, so a nil pointer never stands in one.
pub data Object : Type 0 where
  kubeturbo_object : Pointer KubeturboLayout → Object
  kubeturbo_list_object : Pointer KubeturboListLayout → Object

unfoldable pub kubeturbo_deep_copy_object :
    Library → Option (Pointer KubeturboLayout) → Alloc Cell (Option Object)
kubeturbo_deep_copy_object lib obj = do
  c ← kubeturbo_deep_copy lib obj
  pure (Option.map kubeturbo_object c)

unfoldable pub kubeturbo_list_deep_copy_object :
    Library → Option (Pointer KubeturboListLayout) → Alloc Cell (Option Object)
kubeturbo_list_deep_copy_object lib obj = do
  c ← kubeturbo_list_deep_copy lib obj
  pure (Option.map kubeturbo_list_object c)
