-- ===== src/Reconciler/Retry.antt =====
-- The cycles that follow one another while they end with ErrRequeueOnDeletion, each on the resource as it
-- is read again. The controller starts the next one a second later (internal/controller,
-- internal/reconcile); nothing else happens in between.
pub mod Renders
pub mod Steps
pub mod Deletions
pub mod Status
pub mod Ended
pub mod OneCycle
pub mod Bound
use kubeturbo_deploy.Prelude.{
  ℕ, zero, suc, String, Bool, true, false, not, Option, none, some, ◌==◌, ◌||◌, ◌&&◌,
}
use kubeturbo_deploy.Outcome.{
  Outcome, ok, err, panic, requeue_on_deletion, is_requeue_on_deletion, Exec,
}
use kubeturbo_deploy.Types.{Kubeturbo, KubeturboStatus}
use kubeturbo_deploy.Objects.{
  kubeturbo, cluster_role_binding, deployment, key_of, ClusterRoleBinding, Deployment,
}
use kubeturbo_deploy.Request.{labels}
use kubeturbo_deploy.Config.{get_kubeturbo_config_hash}
use kubeturbo_deploy.Roles.{cluster_role_name}
use kubeturbo_deploy.Workload.{selector_differs, binding_key, deployment_key}
use kubeturbo_deploy.Client.{Client}
use kubeturbo_deploy.Reconciler.{reconcile}

-- The resource with its stored status.
abbrev pub with_stored : Kubeturbo → Option Kubeturbo → Kubeturbo
with_stored kt none = kt
with_stored kt (some old) = record kt { status = old.status }

module _ (c : Client) (kt : Kubeturbo) where
  abbrev pub reread : c.World → Kubeturbo
  reread w = with_stored kt (c.find w kubeturbo (key_of kubeturbo kt))

  -- ErrRequeueOnDeletion brings the next cycle.
  abbrev pub go_on :
      Exec c.World (Unit {0}) → Outcome (Unit {0}) × c.World → Outcome (Unit {0}) × c.World
  go_on more (ok u, v) = (ok u, v)
  go_on more (err e, v) = elim (is_requeue_on_deletion e) [ true ↦ more v | false ↦ (err e, v) ]
  go_on more (panic, v) = (panic, v)

  -- At most so many cycles.
  unfoldable pub cycles : ℕ → Exec c.World (Unit {0})
  cycles zero w = (err requeue_on_deletion, w)
  cycles (suc fuel) w = go_on (cycles fuel) (reconcile c (reread w) w)

-- A binding that need not be deleted, and a deployment.
abbrev pub binding_fits : Kubeturbo → Option ClusterRoleBinding → Bool
binding_fits kt none = true
binding_fits kt (some crb) =
    not (not (crb.role_ref.name == "") && not (crb.role_ref.name == cluster_role_name kt))

abbrev pub deployment_fits : Kubeturbo → Option Deployment → Bool
deployment_fits kt none = true
deployment_fits kt (some dep) = elim (labels kt) [
  | ok ls ↦ not (selector_differs ls dep.spec.selector)
  | _ ↦ true
]

-- A recorded hash that asks for no restart.
abbrev pub hash_fits : Kubeturbo → String → Bool
hash_fits kt old = elim (get_kubeturbo_config_hash kt.spec) [
  | ok new ↦ not (not (old == "") && not (old == new))
  | _ ↦ true
]

module _ (c : Client) (kt : Kubeturbo) where
  abbrev pub bound : c.World → Bool
  bound w = binding_fits kt (c.find w cluster_role_binding (binding_key c kt))

  abbrev pub deployed : c.World → Bool
  deployed w =
      hash_fits kt (reread c kt w).status.config_hash
      && deployment_fits kt (c.find w deployment (deployment_key c kt))
