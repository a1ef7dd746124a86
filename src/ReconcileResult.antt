-- ===== src/ReconcileResult.antt =====
-- internal/reconcile/reconcile.go: what a cycle answers to the queue of controller-runtime.
use kubeturbo_deploy.Prelude.{ℕ, Bool, true, Option, none, some}
use kubeturbo_deploy.Outcome.{Error}

-- ctrl.Result, with its duration in seconds; 0 asks for nothing.
pub record CtrlResult : Type 0 where
  pub requeue_after : ℕ

pub record ReconcileResult : Type 0 where
  pub result : CtrlResult
  pub error : Option Error
  pub done : Bool

abbrev pub empty_result : CtrlResult
empty_result = record { requeue_after = 0 }

abbrev pub reconcile_result : CtrlResult → Option Error → ReconcileResult
reconcile_result r e = record { result = r; error = e; done = true }

abbrev pub do_not_requeue : ReconcileResult
do_not_requeue = reconcile_result empty_result none

abbrev pub requeue_on_error : Error → ReconcileResult
requeue_on_error e = reconcile_result empty_result (some e)

abbrev pub requeue_after : ℕ → ReconcileResult
requeue_after duration = reconcile_result (record { requeue_after = duration }) none

abbrev pub is_done : ReconcileResult → Bool
is_done r = r.done

abbrev pub get : ReconcileResult → CtrlResult × Option Error
get r = (r.result, r.error)
