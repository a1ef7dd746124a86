-- ===== src/Workload.antt =====
-- internal/api/kubeturbo/reconciler.go: what the operator writes into its objects (mutateConfigMap,
-- mutateServiceAccount, mutateClusterRoleBinding, mutateDeployment).
pub mod Pod
pub mod Laws
use kubeturbo_deploy.Prelude.{
  ℕ, String, ◌<>◌, Bool, true, false, not, Option, none, some, List, [], ◌∷◌, ◌==◌, ◌||◌, ◌&&◌,
  if◌then◌else◌, length, nat_eq,
}
use kubeturbo_deploy.Prelude.Maps.{Map, lookup}
use kubeturbo_deploy.Outcome.{
  Outcome, ok, err, and_then, requeue_on_deletion, Exec, pure, lift, fail, ◌>>=◌, ◌>>◌,
}
use kubeturbo_deploy.Utils.{string_in_slice}
use kubeturbo_deploy.Request.{name, namespace, labels}
use kubeturbo_deploy.Types.{Kubeturbo, ObjectMeta}
use kubeturbo_deploy.Config.{build_kubeturbo_config, build_kubeturbo_dynamic_config}
use kubeturbo_deploy.Objects.{
  ConfigMap, ServiceAccount, ClusterRoleBinding, RoleRef, Deployment, DeploymentSpec,
  cluster_role_binding, deployment, Key,
}
use kubeturbo_deploy.Client.{Client}
use kubeturbo_deploy.Calls.{delete_if_exists}
use kubeturbo_deploy.Roles.{cluster_role_name, cluster_role_binding_name}
use kubeturbo_deploy.Workload.Pod.{config_map_name, deployment_spec}

unfoldable pub mutate_config_map : Kubeturbo → ConfigMap → Outcome ConfigMap
mutate_config_map kt cm = and_then (build_kubeturbo_config kt.spec) λ c_byte_string.
    and_then (build_kubeturbo_dynamic_config kt.spec) λ dc_byte_string. and_then (labels kt) λ ls.
      ok (record {
        metadata = record cm.metadata { labels = ls };
        contents =
            ("turbo.config", c_byte_string) ∷ ("turbo-autoreload.config", dc_byte_string) ∷ [];
      })

abbrev pub service_account_finalizer : String
service_account_finalizer = "helm.k8s.io/finalizer"

unfoldable pub mutate_service_account : Kubeturbo → Bool → ServiceAccount → Outcome ServiceAccount
mutate_service_account kt add_finalizer sa = and_then (labels kt) λ ls.
    let finalizers =
      if not add_finalizer
      then []
      else if not (string_in_slice service_account_finalizer sa.metadata.finalizers)
      then service_account_finalizer ∷ []
      else sa.metadata.finalizers in
    ok (record { metadata = record sa.metadata { labels = ls; finalizers = finalizers } })

abbrev same_entry : Option String → String → Bool
same_entry none v = false
same_entry (some w) v = w == v

abbrev has_entries : Map String → Map String → Bool
has_entries [] m = true
has_entries ((k, v) ∷ entries) m = same_entry (lookup k m) v && has_entries entries m

-- reflect.DeepEqual on maps: as many entries, and the same value under each key.
unfoldable pub maps_equal : Map String → Map String → Bool
maps_equal a b = nat_eq (length a) (length b) && has_entries a b

-- `Selector != nil && !reflect.DeepEqual(labels, Selector.MatchLabels)`
unfoldable pub selector_differs : Map String → Option (Map String) → Bool
selector_differs ls none = false
selector_differs ls (some match_labels) = not (maps_equal ls match_labels)

module _ (c : Client) (kt : Kubeturbo) where
  abbrev pub binding_key : Key
  binding_key = record { name = cluster_role_binding_name kt; namespace = "" }

  abbrev pub deployment_key : Key
  deployment_key = record { name = name kt; namespace = namespace kt }

  abbrev pub bind : Map String → ClusterRoleBinding → ClusterRoleBinding
  bind ls crb = record {
    metadata = record crb.metadata { labels = ls };
    subjects =
        record {
          kind = "ServiceAccount";
          name = kt.spec.service_account_name;
          namespace = namespace kt;
        }
        ∷ [];
    role_ref = record {
      kind = "ClusterRole";
      name = cluster_role_name kt;
      api_group = "rbac.authorization.k8s.io";
    };
  }

  -- A role reference cannot be changed: a binding to another role is deleted.
  unfoldable pub mutate_cluster_role_binding : ClusterRoleBinding → Exec c.World ClusterRoleBinding
  mutate_cluster_role_binding crb =
      if not (crb.role_ref.name == "") && not (crb.role_ref.name == cluster_role_name kt)
      then (do
        delete_if_exists c ((cluster_role_binding, binding_key) ∷ [])
        fail requeue_on_deletion)
      else (do ls ← lift (labels kt); pure (bind ls crb))

  -- A selector cannot be changed: a deployment with another one is deleted.
  unfoldable pub mutate_deployment : Deployment → Exec c.World Deployment
  mutate_deployment dep = do
    ls ← lift (labels kt)
    if selector_differs ls dep.spec.selector
        then (do delete_if_exists c ((deployment, deployment_key) ∷ []); fail requeue_on_deletion)
        else (do
          spec ← lift (deployment_spec kt ls)
          pure (record { metadata = record dep.metadata { labels = ls }; spec = spec }))
