-- ===== src/Workload/Laws.antt =====
-- What the operator writes, it accepts: a second application changes nothing and deletes nothing.
use kubeturbo_deploy.Prelude.{String, ◌≡◌, ap, Bool, true, false, not, some, arith, eq_refl}
use kubeturbo_deploy.Prelude.Maps.{Map, lookup}
use kubeturbo_deploy.Outcome.{ok}
use kubeturbo_deploy.Utils.{string_in_slice}
use kubeturbo_deploy.Request.{labels, name}
use kubeturbo_deploy.Request.Labels.{six_labels, labels-ok}
use kubeturbo_deploy.Types.{Kubeturbo}
use kubeturbo_deploy.Objects.{
  ConfigMap, ServiceAccount, ClusterRoleBinding, Deployment, DeploymentSpec,
}
use kubeturbo_deploy.Client.{Client}
use kubeturbo_deploy.Roles.{cluster_role_name}
use kubeturbo_deploy.Workload.Pod.{deployment_spec}
use kubeturbo_deploy.Workload.{
  mutate_config_map, mutate_service_account, mutate_cluster_role_binding, mutate_deployment,
  maps_equal, selector_differs, service_account_finalizer, bind,
}

pub mutate_config_map_idem :
    (kt : Kubeturbo) (old new : ConfigMap)
    → mutate_config_map kt old ≡ ok new
    → mutate_config_map kt new ≡ ok new
unfolding mutate_config_map
mutate_config_map_idem kt old new h = ground arith

pub mutate_service_account_idem :
    (kt : Kubeturbo) (add : Bool) (old new : ServiceAccount)
    → mutate_service_account kt add old ≡ ok new
    → mutate_service_account kt add new ≡ ok new
unfolding mutate_service_account string_in_slice
mutate_service_account_idem kt add old new h = ground (arith, eq_refl service_account_finalizer)

-- Labels are equal to themselves.
maps_equal-six_labels : (n i : String) → maps_equal (six_labels n i) (six_labels n i) ≡ true
unfolding maps_equal lookup
maps_equal-six_labels n i = ground (arith, eq_refl n, eq_refl i)

pub maps_equal-labels :
    (kt : Kubeturbo) (ls : Map String) → labels kt ≡ ok ls → maps_equal ls ls ≡ true
maps_equal-labels kt ls h =
    let (i, e, shape) = labels-ok kt ls h in rw shape (maps_equal-six_labels (name kt) i)

deployment_spec-selector :
    (kt : Kubeturbo) (ls : Map String) (spec : DeploymentSpec)
    → deployment_spec kt ls ≡ ok spec
    → (spec.selector ≡ some ls) × (spec.template.labels ≡ ls)
unfolding deployment_spec
deployment_spec-selector kt ls spec h = (ground arith, ground arith)

module _ (c : Client) (kt : Kubeturbo) where
  binding_inversion :
      (old new : ClusterRoleBinding) (w u : c.World)
      → mutate_cluster_role_binding c kt old w ≡ (ok new, u)
      → (u ≡ w) × (ls : Map String) × (labels kt ≡ ok ls) × (new ≡ bind c kt ls old)
  unfolding mutate_cluster_role_binding
  binding_inversion old new w u h = ground arith

  binding_accepted :
      (ls : Map String)
      → labels kt ≡ ok ls
      → (old : ClusterRoleBinding) (x : c.World)
      → mutate_cluster_role_binding c kt (bind c kt ls old) x ≡ (ok (bind c kt ls old), x)
  unfolding mutate_cluster_role_binding
  binding_accepted ls e old x = ground (arith, e, eq_refl (cluster_role_name kt))

  -- A binding that the operator wrote refers to its role, and is accepted without a deletion.
  pub binding_written :
      (old new : ClusterRoleBinding) (w u : c.World)
      → mutate_cluster_role_binding c kt old w ≡ (ok new, u)
      → (u ≡ w)
        × (new.role_ref.name ≡ cluster_role_name kt)
        × ((x : c.World) → mutate_cluster_role_binding c kt new x ≡ (ok new, x))
  binding_written old new w u h =
      let (same, ls, e, shape) = binding_inversion old new w u h in
      (
        same,
        ap (λ (b : ClusterRoleBinding). b.role_ref.name) shape,
        λ x. rw shape (binding_accepted ls e old x),
      )

  selector_differs-own :
      (ls : Map String) (spec : DeploymentSpec)
      → labels kt ≡ ok ls
      → deployment_spec kt ls ≡ ok spec
      → selector_differs ls spec.selector ≡ false
  unfolding selector_differs
  selector_differs-own ls spec e se =
      rw (deployment_spec-selector kt ls spec se).0 (ap not (maps_equal-labels kt ls e))

  deployment_inversion :
      (old new : Deployment) (w u : c.World)
      → mutate_deployment c kt old w ≡ (ok new, u)
      → (u ≡ w)
        × (ls : Map String) × (spec : DeploymentSpec) × (labels kt ≡ ok ls)
        × (deployment_spec kt ls ≡ ok spec)
        × (new ≡ record { metadata = record old.metadata { labels = ls }; spec = spec })
  unfolding mutate_deployment
  deployment_inversion old new w u h = ground arith

  deployment_accepted :
      (ls : Map String) (spec : DeploymentSpec)
      → labels kt ≡ ok ls
      → deployment_spec kt ls ≡ ok spec
      → (old : Deployment) (x : c.World)
      → let new : Deployment = record {
        metadata = record old.metadata { labels = ls };
        spec = spec;
      } in
        mutate_deployment c kt new x ≡ (ok new, x)
  unfolding mutate_deployment
  deployment_accepted ls spec e se old x = ground (arith, e, se, selector_differs-own ls spec e se)

  -- A deployment that the operator wrote is accepted without a deletion.
  pub deployment_written :
      (old new : Deployment) (w u : c.World)
      → mutate_deployment c kt old w ≡ (ok new, u)
      → (u ≡ w) × ((x : c.World) → mutate_deployment c kt new x ≡ (ok new, x))
  deployment_written old new w u h =
      let (same, ls, spec, e, se, shape) = deployment_inversion old new w u h in
      (same, λ x. rw shape (deployment_accepted ls spec e se old x))
