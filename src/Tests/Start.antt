-- ===== src/Tests/Start.antt =====
-- The check of the definition, and an operator that starts with it.
use kubeturbo_deploy.Prelude.{String, ◌≡◌, refl, false, some, [], ◌∷◌, ◌==◌, if◌then◌else◌}
use kubeturbo_deploy.Prelude.Maps.{Map}
use kubeturbo_deploy.Outcome.{ok}
use kubeturbo_deploy.Objects.{Deployment}
use kubeturbo_deploy.Tests.Samples.{request, named}
use kubeturbo_deploy.Constants.{kubeturbo_crd_name, control_gen_annotation}
use kubeturbo_deploy.Reconciler.{unset_spec}
use kubeturbo_deploy.CrdCheck.{
  Reader, Check, OwnerReference, deployment_name_of, has_annotation, find_deployment_name,
  get_operator_deployment, is_crd_exists, is_crd_up_to_date, start,
}
use kubeturbo_deploy.CrdCheck.Laws.{is_ok, start-closes, start-reported, reported}
use kubeturbo_deploy.Startup.{Operator, Reaches, started}
use kubeturbo_deploy.Startup.Laws.{processed-passed, passed-processed}

abbrev owner : String → String → OwnerReference
owner k n = record { kind = k; name = n }

-- An operator that runs in a pod, where the definition has some annotations.
abbrev reader : Map String → Reader
reader annotations = record {
  World = Unit {0};
  lookup_env = λ k. if k == "POD_NAME" then some "pod-1" else some "turbo";
  get_pod = λ key w. (ok (owner "Node" "n" ∷ owner "ReplicaSet" "rs" ∷ []), w);
  get_replica_set = λ key w. (ok (owner "Deployment" "operator" ∷ []), w);
  get_deployment =
      λ key w. (ok (record { metadata = named key.name key.namespace; spec = unset_spec }), w);
  get_unstructured = λ n w. (ok tt, w);
  get_crd = λ n w. (ok annotations, w);
  error_text = λ e. "failed";
}

abbrev good : Reader
good = reader ((control_gen_annotation, "v0.13.0") ∷ [])

abbrev old : Reader
old = reader (("other", "1") ∷ [])

abbrev fresh : (r : Reader) → r.World → Check r
fresh r w = record {
  world = w;
  crd_name = kubeturbo_crd_name;
  events = [];
  crd_check_done_closed = false;
}

start-closes_example :
    (start good (fresh good tt)).1.crd_check_done_closed ≡ is_ok (start good (fresh good tt)).0
start-closes_example = start-closes good (fresh good tt) refl

abbrev operator : Deployment
operator = record { metadata = named "operator" "turbo"; spec = unset_spec }

operator_found : (get_operator_deployment old (fresh old tt).world).0 ≡ ok (some operator)
unfolding get_operator_deployment find_deployment_name deployment_name_of
operator_found = refl

start-reported_example :
    (start old (fresh old tt)).1.events
    ≡ reported old (some operator) (start old (fresh old tt)).0 []
start-reported_example = start-reported old (fresh old tt) (some operator) refl operator_found

-- The outdated definition is reported.
one_event : is_ok (start old (fresh old tt)).0 ≡ false
unfolding start get_operator_deployment find_deployment_name deployment_name_of is_crd_exists
    is_crd_up_to_date has_annotation
one_event = refl

good_passes : (start good (fresh good tt)).0 ≡ ok tt
unfolding start get_operator_deployment find_deployment_name deployment_name_of is_crd_exists
    is_crd_up_to_date has_annotation
good_passes = refl

passed-processed_example :
    (o : Operator good) × Reaches good (start good) (started good (fresh good tt)) o
    × (o.processed ≡ request ∷ [])
passed-processed_example = passed-processed good (fresh good tt) request refl good_passes

abbrev a_run :
    (o : Operator good) × Reaches good (start good) (started good (fresh good tt)) o
    × (o.processed ≡ request ∷ [])
a_run = passed-processed good (fresh good tt) request refl good_passes

processed-passed_example : a_run.0.checked ≡ some (ok tt)
processed-passed_example =
    processed-passed good (fresh good tt) a_run.0 request [] refl a_run.1 a_run.2
