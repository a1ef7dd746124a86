-- ===== src/Reconciler.antt =====
-- internal/api/kubeturbo/reconciler.go: Reconcile over one resource, `kt`, whose specification is
-- `kt.spec`.
pub mod Steps
pub mod Restart
pub mod Stages
pub mod Desired
pub mod Spared
pub mod Retry
use kubeturbo_deploy.Prelude.{
  String, Bool, true, false, not, none, List, [], ◌∷◌, ◌==◌, ◌&&◌, if◌then◌else◌,
}
use kubeturbo_deploy.Outcome.{
  requeue_on_deletion, Exec, pure, lift, fail, gets, modify, attempt, ◌>>=◌, ◌>>◌,
}
use kubeturbo_deploy.Utils.{return_on_error}
use kubeturbo_deploy.Request.{name, namespace}
use kubeturbo_deploy.Types.{Kubeturbo, ObjectMeta}
use kubeturbo_deploy.Config.{get_kubeturbo_config_hash}
use kubeturbo_deploy.Objects.{
  config_map, service_account, cluster_role, cluster_role_binding, deployment, ConfigMap,
  ServiceAccount, ClusterRole, ClusterRoleBinding, Deployment, DeploymentSpec,
}
use kubeturbo_deploy.Client.{Client}
use kubeturbo_deploy.Calls.{delete_if_exists}
use kubeturbo_deploy.Cycle.{Cycle, on_world, new_meta}
use kubeturbo_deploy.Roles.{
  cluster_role_name, cluster_role_binding_name, keeps_out, mutate_cluster_role,
}
use kubeturbo_deploy.Workload.Pod.{config_map_name}
use kubeturbo_deploy.Workload.{
  mutate_config_map, mutate_service_account, mutate_cluster_role_binding, mutate_deployment,
  deployment_key,
}

abbrev pub unset_spec : DeploymentSpec
unset_spec = record {
  replicas = none;
  strategy = "";
  selector = none;
  template = record {
    annotations = [];
    labels = [];
    spec = record {
      service_account_name = "";
      image_pull_secrets = [];
      restart_policy = "";
      node_selector = [];
      affinity = none;
      tolerations = [];
      run_as_non_root = none;
      containers = [];
      volumes = [];
    };
  };
}

module _ (c : Client) (kt : Kubeturbo) where
  -- SetControllerReference on a new object.
  abbrev owned : ObjectMeta → ObjectMeta
  owned m = c.set_controller_reference kt m

  abbrev pub new_config_map : ConfigMap
  new_config_map = record {
    metadata = owned (new_meta (config_map_name kt) (namespace kt));
    contents = [];
  }

  abbrev pub new_service_account : ServiceAccount
  new_service_account = record {
    metadata = owned (new_meta kt.spec.service_account_name (namespace kt));
  }

  abbrev pub new_cluster_role : ClusterRole
  new_cluster_role = record { metadata = new_meta (cluster_role_name kt) ""; rules = [] }

  abbrev pub new_cluster_role_binding : ClusterRoleBinding
  new_cluster_role_binding = record {
    metadata = new_meta (cluster_role_binding_name kt) "";
    subjects = [];
    role_ref = record { kind = ""; name = ""; api_group = "" };
  }

  abbrev pub new_deployment : Deployment
  new_deployment = record {
    metadata = owned (new_meta (name kt) (namespace kt));
    spec = unset_spec;
  }

  unfoldable pub create_or_update_config_map : Exec (Cycle c) (Unit {0})
  create_or_update_config_map =
      on_world c
        (c.create_or_update config_map new_config_map (λ cm. lift (mutate_config_map kt cm)))

  unfoldable pub create_or_update_service_account : Exec (Cycle c) (Unit {0})
  create_or_update_service_account = on_world c (
      c.create_or_update service_account new_service_account
        (λ sa. lift (mutate_service_account kt true sa)))

  unfoldable pub create_or_update_cluster_role : Exec (Cycle c) (Unit {0})
  create_or_update_cluster_role =
      if keeps_out kt.spec.role_name
      then pure tt
      else on_world c (
          c.create_or_update cluster_role new_cluster_role (λ cr. lift (mutate_cluster_role kt cr)))

  unfoldable pub create_or_update_cluster_role_binding : Exec (Cycle c) (Unit {0})
  create_or_update_cluster_role_binding = on_world c (
      c.create_or_update cluster_role_binding new_cluster_role_binding
        (mutate_cluster_role_binding c kt))

  -- UpdateStatus sends the resource with the status of the cycle.
  unfoldable pub update_status : Exec (Cycle c) (Unit {0})
  update_status s = on_world c (c.update_status (record kt { status = s.status })) s

  abbrev pub with_hash : String → Cycle c → Cycle c
  with_hash hash s = record s {
    status = record { last_updated_timestamp = c.now s.world; config_hash = hash };
  }

  unfoldable pub update_cluster_resource : Exec (Cycle c) (Unit {0})
  update_cluster_resource = do
    new_config_map_hash ← lift (get_kubeturbo_config_hash kt.spec)
    old_config_hash ← gets (λ s. s.status.config_hash)
    if not (new_config_map_hash == old_config_hash)
        then (do modify (λ s. with_hash new_config_map_hash s); update_status)
        else pure tt

  -- The error of the status update is dropped.
  unfoldable pub restart : Exec (Cycle c) (Unit {0})
  restart = do
    attempt update_cluster_resource
    on_world c (delete_if_exists c ((deployment, deployment_key c kt) ∷ []))
    fail requeue_on_deletion

  unfoldable pub apply_deployment : Exec (Cycle c) (Unit {0})
  apply_deployment =
      on_world c (c.create_or_update deployment new_deployment (mutate_deployment c kt))

  unfoldable pub create_or_update_deployment : Exec (Cycle c) (Unit {0})
  create_or_update_deployment = do
    old_config_map_hash ← gets (λ s. s.status.config_hash)
    new_config_map_hash ← lift (get_kubeturbo_config_hash kt.spec)
    if not (old_config_map_hash == "") && not (old_config_map_hash == new_config_map_hash)
        then restart
        else apply_deployment

  unfoldable pub reconcile_kube_turbo : Exec (Cycle c) (Unit {0})
  reconcile_kube_turbo = return_on_error (
      create_or_update_config_map ∷ create_or_update_service_account ∷ create_or_update_cluster_role
      ∷ create_or_update_cluster_role_binding ∷ create_or_update_deployment
      ∷ update_cluster_resource ∷ [])

  -- The status of the resource is the cycle's.
  unfoldable pub reconcile : Exec c.World (Unit {0})
  reconcile w =
      let (r, s) = reconcile_kube_turbo (record { status = kt.status; world = w }) in (r, s.world)
