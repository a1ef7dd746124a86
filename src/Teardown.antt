-- ===== src/Teardown.antt =====
-- internal/api/kubeturbo/reconciler.go: Teardown, which cleans up after a deleted resource.
pub mod CleanUp
pub mod Laws
use kubeturbo_deploy.Prelude.{String, Bool, true, false, List, [], ◌∷◌}
use kubeturbo_deploy.Outcome.{Exec, pure, lift, ◌>>=◌, ◌>>◌}
use kubeturbo_deploy.Utils.{return_on_error}
use kubeturbo_deploy.Request.{namespace, labels}
use kubeturbo_deploy.Types.{Kubeturbo}
use kubeturbo_deploy.Objects.{
  Kind, service_account, cluster_role, cluster_role_binding, Object, key_of,
}
use kubeturbo_deploy.Client.{Client}
use kubeturbo_deploy.Calls.{delete_if_exists}
use kubeturbo_deploy.Cycle.{Cycle, on_world, new_meta}
use kubeturbo_deploy.Workload.{mutate_service_account}

module _ (c : Client) (kt : Kubeturbo) where
  -- The loops of cleanUpClusterRole and cleanUpClusterRolebinding.
  unfoldable pub delete_all : (k : Kind) → List (Object k) → Exec (Cycle c) (Unit {0})
  delete_all k [] = pure tt
  delete_all k (o ∷ items) =
      on_world c (delete_if_exists c ((k, key_of k o) ∷ [])) >> delete_all k items

  unfoldable pub clean_up_kind : Kind → Exec (Cycle c) (Unit {0})
  clean_up_kind k = do ls ← lift (labels kt); items ← on_world c (c.list k ls); delete_all k items

  unfoldable pub remove_finalizer_step : Exec (Cycle c) (Unit {0})
  remove_finalizer_step = on_world c (
      c.create_or_update service_account
        (record { metadata = new_meta kt.spec.service_account_name (namespace kt) })
        (λ sa. lift (mutate_service_account kt false sa)))

  unfoldable pub clean_up_cluster_resources : Exec (Cycle c) (Unit {0})
  clean_up_cluster_resources = do
    remove_finalizer_step
    return_on_error (clean_up_kind cluster_role ∷ clean_up_kind cluster_role_binding ∷ [])

  unfoldable pub teardown : Exec c.World (Unit {0})
  teardown w =
      let (r, s) = clean_up_cluster_resources (record { status = kt.status; world = w }) in
      (r, s.world)
