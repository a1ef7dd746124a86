-- ===== src/Controller/Deletion.antt =====
-- The deletion branch of Reconcile: the finalizer goes first, the objects after it.
pub mod Removed
use kubeturbo_deploy.Prelude.{◌≡◌, ◌∙◌, refl, true, none, some, if◌then◌else◌, is_some}
use kubeturbo_deploy.Outcome.{Outcome, ok, err, Error, Exec, pure, handle, ◌>>◌}
use kubeturbo_deploy.Outcome.Laws.{handle-err}
use kubeturbo_deploy.Constants.{kubeturbo_finalizer}
use kubeturbo_deploy.Types.{Kubeturbo}
use kubeturbo_deploy.Types.Defaults.{Surroundings}
use kubeturbo_deploy.Objects.{kubeturbo, Key}
use kubeturbo_deploy.Client.{Client}
use kubeturbo_deploy.Teardown.{teardown}
use kubeturbo_deploy.ReconcileResult.{do_not_requeue, requeue_on_error, get}
use kubeturbo_deploy.Finalizers.{ControllerUtil, ensure_finalizer}
use kubeturbo_deploy.Controller.{
  Answer, with_finalizers, is_true, delete_kubeturbo, wait_for_pod_deletion, process,
}

module _ (c : Client) (env : Surroundings) (util : ControllerUtil) where
  -- The resource as the finalizer loop leaves it, and as it is then sent, without its finalizer.
  abbrev pub ensured : Kubeturbo → Kubeturbo
  ensured kt = with_finalizers kt (ensure_finalizer util kt.metadata.finalizers).finalizers

  abbrev pub released : Kubeturbo → Kubeturbo
  released kt =
      with_finalizers kt
        (util.remove_finalizer kubeturbo_finalizer kt.metadata.finalizers kt.metadata.finalizers).1

  -- What follows the update.
  abbrev pub clean_up : Key → Kubeturbo → Exec c.World Answer
  clean_up req kt =
      (if is_true kt.spec.args.cleanup_scc_impersonation_resources
        then wait_for_pod_deletion c env util req kt
        else pure none)
      >> handle (teardown c kt) (λ e. pure (get (requeue_on_error e)))
          (λ _. pure (get do_not_requeue))

  pub deletes :
      (req : Key) (kt : Kubeturbo) (w : c.World)
      → is_some kt.metadata.deletion_timestamp ≡ true
      → util.contains_finalizer (ensured kt).metadata.finalizers kubeturbo_finalizer ≡ true
      → process c env util req kt w
        ≡ handle
            (c.update kubeturbo (released (ensured kt)))
            (λ e. pure (get (requeue_on_error e)))
            (λ _. clean_up req (released (ensured kt)))
            w
  unfolding process delete_kubeturbo
  deletes req kt w marked own = rw marked (rw own refl)

  -- For a resource that is marked for deletion and has the operator's finalizer: if the update
  -- without the finalizer fails, its error is returned, and the cluster is as the update left it.
  pub process-unreleased :
      (req : Key) (kt : Kubeturbo) (w v : c.World) (e : Error)
      → is_some kt.metadata.deletion_timestamp ≡ true
      → util.contains_finalizer (ensured kt).metadata.finalizers kubeturbo_finalizer ≡ true
      → c.update kubeturbo (released (ensured kt)) w ≡ (err e, v)
      → process c env util req kt w ≡ (ok (record { requeue_after = 0 }, some e), v)
  process-unreleased req kt w v e marked own failed =
      deletes req kt w marked own
      ∙ handle-err (c.update kubeturbo (released (ensured kt)))
          (λ e. pure (get (requeue_on_error e))) (λ _. clean_up req (released (ensured kt))) failed
