-- ===== src/Controller.antt =====
-- internal/controller/kubeturbo_controller.go: one cycle of the controller (Reconcile), with
-- waitForPodDeletion and GetPodByDeployment. The wait for the post-checks at its start is in Startup.
pub mod Laws
pub mod Deletion
pub mod Again
use kubeturbo_deploy.Prelude.{
  ℕ, String, Bool, true, false, not, Option, none, some, List, [], ◌∷◌, if◌then◌else◌, is_some,
  ◌||◌,
}
use kubeturbo_deploy.Prelude.Maps.{Map}
use kubeturbo_deploy.Outcome.{
  Outcome, ok, err, panic, Error, is_not_found, is_conflict, is_requeue_on_deletion, Exec, pure,
  attempt, handle, ◌>>=◌, ◌>>◌,
}
use kubeturbo_deploy.Constants.{
  kubeturbo_finalizer, requeue_delay_seconds, timeout_in_seconds, name_label_key,
}
use kubeturbo_deploy.Types.{Kubeturbo}
use kubeturbo_deploy.Types.Defaults.{Surroundings, set_spec_default}
use kubeturbo_deploy.Request.{name}
use kubeturbo_deploy.Objects.{kubeturbo, Key, key_of}
use kubeturbo_deploy.Client.{Client}
use kubeturbo_deploy.Reconciler.{reconcile}
use kubeturbo_deploy.Teardown.{teardown}
use kubeturbo_deploy.ReconcileResult.{
  CtrlResult, do_not_requeue, requeue_on_error, requeue_after, get,
}
use kubeturbo_deploy.Finalizers.{ControllerUtil, ensure_finalizer}

-- What Reconcile returns.
abbrev pub Answer : Type 0
Answer = CtrlResult × Option Error

-- How an error of kubeturbo.Reconcile is answered.
unfoldable pub answer_of : Error → Answer
answer_of e =
    if is_conflict e || is_requeue_on_deletion e
    then get (requeue_after requeue_delay_seconds)
    else get (requeue_on_error e)

abbrev pub is_true : Option Bool → Bool
is_true (some b) = b
is_true none = false

abbrev pub with_finalizers : Kubeturbo → List String → Kubeturbo
with_finalizers kt fs = record kt { metadata = record kt.metadata { finalizers = fs } }

module _ (c : Client) (env : Surroundings) (util : ControllerUtil) where
  -- The cluster, and the package variable of api/v1.
  pub record Process : Type 0 where
    pub default_kt_version : String
    pub world : c.World

  abbrev pub on_cluster : {A : Type 0} → Exec c.World A → Exec Process A
  on_cluster m s = let (r, w) = m s.world in (r, record s { world = w })

  -- `kt.SetSpecDefault()`: the resource after it.
  abbrev pub defaulted : Kubeturbo → Exec Process Kubeturbo
  defaulted kt s =
      let (r, d) =
        set_spec_default env (record { default_kt_version = s.default_kt_version; kt = kt }) in
      (
        elim r [ ok u ↦ ok d.kt | err e ↦ err e | panic ↦ panic ],
        record s { default_kt_version = d.default_kt_version },
      )

  abbrev no_pods : List String → Bool
  no_pods [] = true
  no_pods (p ∷ pods) = false

  -- An error of the list is logged, and the list is empty then.
  unfoldable pub get_pod_by_deployment : String → String → Exec c.World (List String)
  get_pod_by_deployment deploy_name namespace =
      handle (c.list_pods namespace ((name_label_key, deploy_name) ∷ [])) (λ e. pure []) pure

  -- A timeout is logged.
  unfoldable pub wait_for_pod_deletion : Key → Kubeturbo → Exec c.World (Option Error)
  wait_for_pod_deletion req kt = attempt (
      c.poll_until 1 timeout_in_seconds false
        (get_pod_by_deployment (name kt) req.namespace >>= λ pods. pure (no_pods pods)))

  -- `isKubeturboMarkedToBeDeleted`
  unfoldable pub delete_kubeturbo : Key → Kubeturbo → Exec c.World Answer
  delete_kubeturbo req kt =
      if util.contains_finalizer kt.metadata.finalizers kubeturbo_finalizer
      then (let (_, fs) =
            util.remove_finalizer kubeturbo_finalizer kt.metadata.finalizers
              kt.metadata.finalizers in
          let kt = with_finalizers kt fs in
          handle (c.update kubeturbo kt) (λ e. pure (get (requeue_on_error e)))
            (λ _.
              (if is_true kt.spec.args.cleanup_scc_impersonation_resources
                then wait_for_pod_deletion req kt
                else pure none)
              >> handle (teardown c kt) (λ e. pure (get (requeue_on_error e)))
                  (λ _. pure (get do_not_requeue))))
      else pure (get do_not_requeue)

  unfoldable pub patch_kubeturbo : Kubeturbo → Exec c.World Answer
  patch_kubeturbo kt =
      handle (c.patch_finalizers (key_of kubeturbo kt) kt.metadata.finalizers)
        (λ e. pure (get (requeue_on_error e))) (λ _. pure (get do_not_requeue))

  unfoldable pub run_reconcile : Kubeturbo → Exec c.World Answer
  run_reconcile kt =
      handle (reconcile c kt) (λ e. pure (answer_of e)) (λ _. pure (get do_not_requeue))

  -- From the finalizers on.
  unfoldable pub process : Key → Kubeturbo → Exec c.World Answer
  process req kt =
      let fin = ensure_finalizer util kt.metadata.finalizers in
      let kt = with_finalizers kt fin.finalizers in
      if is_some kt.metadata.deletion_timestamp
      then delete_kubeturbo req kt
      else if fin.need_to_update_cr
      then patch_kubeturbo kt
      else run_reconcile kt

  unfoldable pub reconcile_request : Key → Exec Process Answer
  reconcile_request req =
      handle (on_cluster (c.get kubeturbo req))
        (λ e. pure (get (if is_not_found e then do_not_requeue else requeue_on_error e)))
        (λ kt.
          handle (defaulted kt) (λ e. pure (get do_not_requeue))
            (λ kt. on_cluster (process req kt)))
