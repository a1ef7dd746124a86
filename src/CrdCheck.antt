-- ===== src/CrdCheck.antt =====
-- internal/runnable/CRDCheck.go: the check of the custom resource definition after the start of the
-- manager. The API reads are parameters; what the check does to the rest of the process, its events
-- and the channel, is its state.
pub mod Laws
use kubeturbo_deploy.Prelude.{
  String, Bool, true, false, not, Option, none, some, List, [], ◌∷◌, ◌++◌, ◌==◌, ◌||◌,
  if◌then◌else◌,
}
use kubeturbo_deploy.Prelude.Maps.{Map}
use kubeturbo_deploy.Outcome.{
  Outcome, ok, err, panic, Error, failure, Exec, pure, lift, fail, gets, modify, handle, ◌>>=◌,
  ◌>>◌,
}
use kubeturbo_deploy.Constants.{kubeturbo_crd_name, control_gen_annotation}
use kubeturbo_deploy.Objects.{Deployment, Key}

-- metav1.OwnerReference
pub record OwnerReference : Type 0 where
  pub kind : String
  pub name : String

pub record Event : Type 0 where
  pub object : Deployment
  pub event_type : String
  pub reason : String
  pub message : String

pub record Reader : Type 1 where
  pub World : Type 0
  pub lookup_env : String → Option String
  -- The owners of a pod and of a replica set.
  pub get_pod : Key → Exec World (List OwnerReference)
  pub get_replica_set : Key → Exec World (List OwnerReference)
  pub get_deployment : Key → Exec World Deployment
  pub get_unstructured : String → Exec World (Unit {0})
  -- The annotations of a definition.
  pub get_crd : String → Exec World (Map String)
  -- err.Error()
  pub error_text : Error → String

abbrev pub outdated_message : String
outdated_message =
    "since 8.14.3, kubeturbo operator has moved from helm operator to go based operator. Please refer to https://ibm.biz/KubeturboCRD to install and upgrade to the latest CRD"

-- `for _, owner := range rs.OwnerReferences`: the first that is a deployment.
unfoldable pub deployment_name_of : List OwnerReference → String
deployment_name_of [] = ""
deployment_name_of (owner ∷ owners) =
    if owner.kind == "Deployment" then owner.name else deployment_name_of owners

-- `for k := range crd.Annotations`
unfoldable pub has_annotation : String → Map String → Bool
has_annotation key [] = false
has_annotation key ((k, v) ∷ annotations) =
    if k == key then true else has_annotation key annotations

module _ (r : Reader) where
  -- The fields CRDName and CRDCheckDone, and the events.
  pub record Check : Type 0 where
    pub world : r.World
    pub crd_name : String
    pub events : List Event
    pub crd_check_done_closed : Bool

  abbrev get_os_env : String → Option String
  get_os_env field = r.lookup_env field

  abbrev key_in : String → String → Key
  key_in n ns = record { name = n; namespace = ns }

  abbrev nothing : {A : Type 0} → Error → Exec r.World (Option A)
  nothing e = pure none

  -- The loop over the owners of the pod; `none` where the function returns nil in the loop.
  unfoldable pub find_deployment_name : String → List OwnerReference → Exec r.World (Option String)
  find_deployment_name ns [] = pure (some "")
  find_deployment_name ns (owner ∷ owners) =
      let rest = find_deployment_name ns owners in
      if owner.kind == "ReplicaSet"
      then handle (r.get_replica_set (key_in owner.name ns)) nothing (λ rs_owners.
        if not (deployment_name_of rs_owners == "")
        then pure (some (deployment_name_of rs_owners))
        else rest)
      else rest

  abbrev fetch_deployment : String → Option String → Exec r.World (Option Deployment)
  fetch_deployment ns none = pure none
  fetch_deployment ns (some n) =
      if n == ""
      then pure none
      else handle (r.get_deployment (key_in n ns)) nothing (λ d. pure (some d))

  abbrev find_for : Option String → Option String → Exec r.World (Option Deployment)
  find_for (some pod) (some ns) =
      handle (r.get_pod (key_in pod ns)) nothing
        (λ owners. find_deployment_name ns owners >>= fetch_deployment ns)
  find_for _ _ = pure none

  unfoldable pub get_operator_deployment : Exec r.World (Option Deployment)
  get_operator_deployment = find_for (get_os_env "POD_NAME") (get_os_env "WATCH_NAMESPACE")

  unfoldable pub is_crd_exists : String → Exec r.World (Unit {0})
  is_crd_exists crd_name = r.get_unstructured crd_name

  unfoldable pub is_crd_up_to_date : String → Exec r.World (Unit {0})
  is_crd_up_to_date crd_name = r.get_crd crd_name >>= λ annotations.
      if crd_name == kubeturbo_crd_name
      then (if not (has_annotation control_gen_annotation annotations)
          then fail (failure outdated_message)
          else pure tt)
      else pure tt

  abbrev pub on_api : {A : Type 0} → Exec r.World A → Exec Check A
  on_api m s = let (o, w) = m s.world in (o, record s { world = w })

  -- `r.Recorder.Event(deployment, "Warning", "CRDIssue", err.Error())`, if there is a deployment.
  abbrev record_event : Option Deployment → Error → Exec Check (Unit {0})
  record_event none e = pure tt
  record_event (some d) e = modify λ s. record s {
    events =
        record { object = d; event_type = "Warning"; reason = "CRDIssue"; message = r.error_text e }
        ∷ s.events;
  }

  abbrev report : Option Deployment → Error → Exec Check (Unit {0})
  report d e = record_event d e >> fail e

  -- `close(*r.CRDCheckDone)`: a second close panics.
  abbrev close_done : Exec Check (Unit {0})
  close_done s =
      if s.crd_check_done_closed
      then (panic, s)
      else (ok tt, record s { crd_check_done_closed = true })

  unfoldable pub start : Exec Check (Unit {0})
  start = do
    deployment ← on_api get_operator_deployment
    crd_name ← gets (λ (s : Check). s.crd_name)
    handle (on_api (is_crd_exists crd_name)) (report deployment)
        (λ _. handle (on_api (is_crd_up_to_date crd_name)) (report deployment) (λ _. close_done))
