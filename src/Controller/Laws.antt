-- ===== src/Controller/Laws.antt =====
-- What the answers of the controller mean.
use kubeturbo_deploy.Prelude.{
  ◌≡◌, ◌∙◌, refl, sym, ap, Bool, true, false, not, none, some, if◌then◌else◌, is_some, ◌||◌, ◌&&◌,
  arith, all,
}
use kubeturbo_deploy.Outcome.{
  Outcome, ok, err, panic, is_not_found, is_conflict, is_requeue_on_deletion, pure, resume, handle,
}
use kubeturbo_deploy.Outcome.Laws.{handle-ok}
use kubeturbo_deploy.Constants.{kubeturbo_finalizer}
use kubeturbo_deploy.Types.{Kubeturbo, ObjectMeta}
use kubeturbo_deploy.Types.Defaults.{Surroundings, Defaulting, set_spec_default}
use kubeturbo_deploy.Types.Defaults.Laws.{set_spec_default-frame}
use kubeturbo_deploy.Objects.{kubeturbo, Key}
use kubeturbo_deploy.Client.{Client}
use kubeturbo_deploy.Reconciler.{reconcile}
use kubeturbo_deploy.ReconcileResult.{do_not_requeue, requeue_on_error, get}
use kubeturbo_deploy.Finalizers.{ControllerUtil, ensure_finalizer}
use kubeturbo_deploy.Finalizers.Laws.{is_own, ensure_finalizer-need, ensure_finalizer-keeps}
use kubeturbo_deploy.Controller.{
  Answer, Process, with_finalizers, on_cluster, defaulted, answer_of, run_reconcile, process,
  reconcile_request,
}

-- The answer that ends the cycles until something changes.
abbrev pub settled : Answer
settled = get do_not_requeue

-- A resource that is not being deleted, with the operator's finalizer and no other.
abbrev pub is_active : ControllerUtil → Kubeturbo → Bool
is_active util kt =
    not (is_some kt.metadata.deletion_timestamp)
    && (all is_own kt.metadata.finalizers
        && util.contains_finalizer kt.metadata.finalizers kubeturbo_finalizer)

-- The answer to the end of a reconciliation.
abbrev pub read : Outcome (Unit {0}) → Outcome Answer
read (ok u) = ok (record { requeue_after = 0 }, none)
read (err e) =
    if is_conflict e || is_requeue_on_deletion e
    then ok (record { requeue_after = 1 }, none)
    else ok (record { requeue_after = 0 }, some e)
read panic = panic

resume-read :
    {S : Type 0} (r : Outcome (Unit {0})) (s : S)
    → resume r (λ e. pure (answer_of e)) (λ _. pure settled) s ≡ (read r, s)
unfolding answer_of
resume-read (ok u) s = refl
resume-read (err e) s = ground arith
resume-read panic s = refl

module _ (c : Client) (env : Surroundings) (util : ControllerUtil) where
  run_reconcile-read :
      (kt : Kubeturbo) (w : c.World)
      → run_reconcile c env util kt w ≡ (read (reconcile c kt w).0, (reconcile c kt w).1)
  unfolding run_reconcile
  run_reconcile-read kt w = resume-read (reconcile c kt w).0 (reconcile c kt w).1

  process-active :
      (req : Key) (kt : Kubeturbo) (w : c.World)
      → is_active util kt ≡ true
      → process c env util req kt w ≡ run_reconcile c env util kt w
  unfolding process
  process-active req kt w active =
      let live : is_some kt.metadata.deletion_timestamp ≡ false = ground arith in
      let own : all is_own kt.metadata.finalizers
            && util.contains_finalizer kt.metadata.finalizers kubeturbo_finalizer
          ≡ true =
        ground arith in
      let need : (ensure_finalizer util kt.metadata.finalizers).need_to_update_cr ≡ false =
        ensure_finalizer-need util kt.metadata.finalizers ∙ ap not own in
      rw live (
        rw need (
          ap (λ fs. run_reconcile c env util (with_finalizers kt fs) w)
            (ensure_finalizer-keeps util kt.metadata.finalizers need)))

  -- How the reconciliation of an active resource ends is how the answer reads: success ends the
  -- cycles; a conflict or a deletion is tried again after a second, without an error; any other error
  -- is returned; a panic goes through.
  pub process-answers :
      (req : Key) (kt : Kubeturbo) (w : c.World)
      → is_active util kt ≡ true
      → process c env util req kt w ≡ (read (reconcile c kt w).0, (reconcile c kt w).1)
  process-answers req kt w active = process-active req kt w active ∙ run_reconcile-read kt w

  -- A request whose resource is read and gets its defaults goes on with it.
  pub request-process :
      (req : Key) (s u : Process c env util) (stored kt : Kubeturbo) (w : c.World)
      → c.get kubeturbo req s.world ≡ (ok stored, w)
      → defaulted c env util stored (record s { world = w }) ≡ (ok kt, u)
      → reconcile_request c env util req s ≡ on_cluster c env util (process c env util req kt) u
  unfolding reconcile_request
  request-process req s u stored kt w got filled =
      handle-ok (on_cluster c env util (c.get kubeturbo req))
        (λ e. pure (get (if is_not_found e then do_not_requeue else requeue_on_error e)))
        (λ kt.
          handle (defaulted c env util kt) (λ e. pure settled)
            (λ kt. on_cluster c env util (process c env util req kt)))
        (ap (λ (p : Outcome Kubeturbo × c.World). (p.0, record s { world = p.1 })) got)
      ∙ handle-ok (defaulted c env util stored) (λ e. pure settled)
          (λ kt. on_cluster c env util (process c env util req kt)) filled

  -- The defaults change the specification only, and not the cluster.
  pub defaulted-ok :
      (s u : Process c env util) (stored kt : Kubeturbo)
      → defaulted c env util stored s ≡ (ok kt, u)
      → (kt.metadata ≡ stored.metadata) × (kt.status ≡ stored.status) × (u.world ≡ s.world)
  defaulted-ok s u stored kt h =
      let start : Defaulting = record { default_kt_version = s.default_kt_version; kt = stored } in
      let (r, d) = set_spec_default env start in
      let (good, same) = shown r d s h in
      let (m, st) = set_spec_default-frame env start d (λ i. (good i, d)) in
      (
        ap (λ (k : Kubeturbo). k.metadata) (sym same.0) ∙ m,
        ap (λ (k : Kubeturbo). k.status) (sym same.0) ∙ st,
        sym same.1,
      )
    where
      shown :
          (r : Outcome (Unit {0})) (d : Defaulting) (s : Process c env util)
          → ◌≡◌ {A = Outcome Kubeturbo × Process c env util}
              (
                elim r [ ok v ↦ ok d.kt | err e ↦ err e | panic ↦ panic ],
                record s { default_kt_version = d.default_kt_version },
              )
              (ok kt, u)
          → (r ≡ ok tt) × ((d.kt ≡ kt) × (s.world ≡ u.world))
      shown (ok v) d s e = (refl, (ground arith, ground arith))
      shown (err x) d s e = ground arith
      shown panic d s e = ground arith

abbrev pub key_at : ObjectMeta → Key
key_at m = record { name = m.name; namespace = m.namespace }
