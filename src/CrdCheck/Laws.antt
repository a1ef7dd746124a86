-- ===== src/CrdCheck/Laws.antt =====
-- The check opens the gate exactly when it passes.
use kubeturbo_deploy.Prelude.{
  String, ◌≡◌, refl, Bool, true, false, Option, none, some, List, [], ◌∷◌, if◌then◌else◌, arith,
  is_some, eq_refl,
}
use kubeturbo_deploy.Prelude.Maps.{Map, lookup}
use kubeturbo_deploy.Outcome.{Outcome, ok, err, failure}
use kubeturbo_deploy.Constants.{kubeturbo_crd_name, control_gen_annotation}
use kubeturbo_deploy.Objects.{Deployment}
use kubeturbo_deploy.CrdCheck.{
  Reader, Check, Event, has_annotation, is_crd_up_to_date, get_operator_deployment, start,
  outdated_message,
}

has_annotation-lookup :
    (key : String) (m : Map String) → has_annotation key m ≡ is_some (lookup key m)
unfolding has_annotation lookup
has_annotation-lookup key [] = refl
has_annotation-lookup key ((k, v) ∷ m) = ground (arith, has_annotation-lookup key m)

abbrev pub is_ok {ℓ} : {A : Type ℓ} → Outcome A → Bool
is_ok (ok a) = true
is_ok _ = false

module _ (r : Reader) where
  -- When kubeturbo's definition is read, it is accepted exactly if it has controller-gen's
  -- annotation; otherwise the error asks to install the latest definition.
  pub is_crd_up_to_date-annotation :
      (w v : r.World) (annotations : Map String)
      → r.get_crd kubeturbo_crd_name w ≡ (ok annotations, v)
      → is_crd_up_to_date r kubeturbo_crd_name w ≡ (
        (if is_some (lookup control_gen_annotation annotations)
            then ok tt
            else err (failure outdated_message)),
        v,
      )
  unfolding is_crd_up_to_date
  is_crd_up_to_date-annotation w v annotations got =
      ground (
        arith,
        has_annotation-lookup control_gen_annotation annotations,
        eq_refl kubeturbo_crd_name,
      )

  -- A check that begins with its channel open closes it exactly if it returns no error.
  pub start-closes :
      (s : Check r)
      → s.crd_check_done_closed ≡ false
      → (start r s).1.crd_check_done_closed ≡ is_ok (start r s).0
  unfolding start
  start-closes s unclosed = ground arith

  abbrev pub reported : Option Deployment → Outcome (Unit {0}) → List Event → List Event
  reported (some d) (err e) events =
      record { object = d; event_type = "Warning"; reason = "CRDIssue"; message = r.error_text e }
      ∷ events
  reported _ _ events = events

  -- A check that begins with its channel open, and whose search for the operator's deployment ends,
  -- adds an event exactly when it fails and the deployment was found: one warning on that
  -- deployment, with the text of the error that the check returns.
  pub start-reported :
      (s : Check r) (deployment : Option Deployment)
      → s.crd_check_done_closed ≡ false
      → (get_operator_deployment r s.world).0 ≡ ok deployment
      → (start r s).1.events ≡ reported deployment (start r s).0 s.events
  unfolding start
  start-reported s none unclosed found = ground arith
  start-reported s (some d) unclosed found = ground arith
