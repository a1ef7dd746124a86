-- ===== src/Reconciler/Retry/Renders.antt =====
-- What the operator's own functions need in order not to fail on a resource: an image tag, a version,
-- node roles and a UID that leaves room for the labels.
use kubeturbo_deploy.Prelude.{
  String, ◌≡◌, refl, true, false, not, some, [], ◌∷◌, ◌++◌, arith, if◌then◌else◌, ◌==◌, ◌&&◌,
}
use kubeturbo_deploy.Prelude.Decimal.{format_nat}
use kubeturbo_deploy.Prelude.Maps.{Map}
use kubeturbo_deploy.Outcome.{ok, err, requeue_on_deletion}
use kubeturbo_deploy.Types.{Kubeturbo}
use kubeturbo_deploy.Request.{labels}
use kubeturbo_deploy.Utils.{string_in_slice}
use kubeturbo_deploy.Config.{
  build_kubeturbo_config, build_kubeturbo_dynamic_config, get_kubeturbo_config_hash,
}
use kubeturbo_deploy.Config.Hash.{fnv64}
use kubeturbo_deploy.Objects.{
  key_of, config_map, service_account, cluster_role, cluster_role_binding, deployment, ConfigMap,
  ServiceAccount, ClusterRole, ClusterRoleBinding, Deployment, DeploymentSpec,
}
use kubeturbo_deploy.Client.{Client, IsLawful}
use kubeturbo_deploy.Client.Responsive.{IsResponsive}
use kubeturbo_deploy.Calls.{delete_if_exists}
use kubeturbo_deploy.Roles.{mutate_cluster_role, rules_for, orm_rules}
use kubeturbo_deploy.Workload.Pod.{deployment_spec}
use kubeturbo_deploy.Workload.{
  mutate_config_map, mutate_service_account, mutate_cluster_role_binding, mutate_deployment, bind,
  service_account_finalizer, binding_key, deployment_key,
}
use kubeturbo_deploy.Reconciler.Retry.{binding_fits, deployment_fits, hash_fits}

pub record Renders (kt : Kubeturbo) : Type 0 where
  pub ls : Map String
  pub labels_ok : labels kt ≡ ok ls
  pub text : String
  pub config_ok : build_kubeturbo_config kt.spec ≡ ok text
  pub dynamic : String
  pub dynamic_ok : build_kubeturbo_dynamic_config kt.spec ≡ ok dynamic
  pub pod : DeploymentSpec
  pub pod_ok : deployment_spec kt ls ≡ ok pod

module _ (kt : Kubeturbo) (ren : Renders kt) where
  abbrev pub hash : String
  hash = format_nat (fnv64 ren.text)

  pub hash_ok : get_kubeturbo_config_hash kt.spec ≡ ok hash
  unfolding get_kubeturbo_config_hash
  hash_ok = rw ren.config_ok refl

  pub hash_fits-shape :
      (old : String) → hash_fits kt old ≡ not (not (old == "") && not (old == hash))
  hash_fits-shape old = rw (hash_fits, hash_ok) refl

  pub config_map_renders :
      (cm : ConfigMap)
      → (cm' : ConfigMap) × (mutate_config_map kt cm ≡ ok cm')
        × (key_of config_map cm' ≡ key_of config_map cm)
  unfolding mutate_config_map
  config_map_renders cm = (
    record {
      metadata = record cm.metadata { labels = ren.ls };
      contents = ("turbo.config", ren.text) ∷ ("turbo-autoreload.config", ren.dynamic) ∷ [];
    },
    rw (ren.config_ok, ren.dynamic_ok, ren.labels_ok) refl,
    refl,
  )

  pub service_account_renders :
      (sa : ServiceAccount)
      → (sa' : ServiceAccount) × (mutate_service_account kt true sa ≡ ok sa')
        × (key_of service_account sa' ≡ key_of service_account sa)
  unfolding mutate_service_account
  service_account_renders sa = (
    record {
      metadata = record sa.metadata {
        labels = ren.ls;
        finalizers =
            if not (string_in_slice service_account_finalizer sa.metadata.finalizers)
            then service_account_finalizer ∷ []
            else sa.metadata.finalizers;
      };
    },
    rw ren.labels_ok refl,
    refl,
  )

  pub cluster_role_renders :
      (cr : ClusterRole)
      → (cr' : ClusterRole) × (mutate_cluster_role kt cr ≡ ok cr')
        × (key_of cluster_role cr' ≡ key_of cluster_role cr)
  unfolding mutate_cluster_role
  cluster_role_renders cr = (
    record {
      metadata = record cr.metadata { labels = ren.ls };
      rules =
          rules_for kt.spec.role_name cr.rules
          ++ orm_rules kt.spec.orm_owners.api_group kt.spec.orm_owners.resources;
    },
    rw ren.labels_ok refl,
    refl,
  )

  module _ (c : Client) where
    pub binding_renders :
        (crb : ClusterRoleBinding) (w : c.World)
        → binding_fits kt (some crb) ≡ true
        → mutate_cluster_role_binding c kt crb w ≡ (ok (bind c kt ren.ls crb), w)
    unfolding mutate_cluster_role_binding
    binding_renders crb w fits = ground (arith, ren.labels_ok)

    pub deployment_renders :
        (dep : Deployment) (w : c.World)
        → deployment_fits kt (some dep) ≡ true
        → mutate_deployment c kt dep w
          ≡ (ok (record { metadata = record dep.metadata { labels = ren.ls }; spec = ren.pod }), w)
    unfolding mutate_deployment
    deployment_renders dep w fits = ground (arith, ren.labels_ok, ren.pod_ok)

    module _ (lawful : IsLawful c) (responsive : IsResponsive c) where
      -- What does not fit is deleted.
      pub binding_refuses :
          (crb : ClusterRoleBinding) (w v : c.World)
          → binding_fits kt (some crb) ≡ false
          → delete_if_exists c ((cluster_role_binding, binding_key c kt) ∷ []) w ≡ (ok tt, v)
          → mutate_cluster_role_binding c kt crb w ≡ (err requeue_on_deletion, v)
      unfolding mutate_cluster_role_binding
      binding_refuses crb w v misfit run = ground arith

      pub deployment_refuses :
          (dep : Deployment) (w v : c.World)
          → deployment_fits kt (some dep) ≡ false
          → delete_if_exists c ((deployment, deployment_key c kt) ∷ []) w ≡ (ok tt, v)
          → mutate_deployment c kt dep w ≡ (err requeue_on_deletion, v)
      unfolding mutate_deployment
      deployment_refuses dep w v misfit run = ground (arith, ren.labels_ok)
