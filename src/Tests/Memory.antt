-- ===== src/Tests/Memory.antt =====
-- A cluster in memory: a client on which the operator runs, and which keeps the laws of clients.
pub mod Store
pub mod Selection
pub mod Laws
pub mod Responsive
use kubeturbo_deploy.Prelude.{
  ℕ, String, ◌≡◌, ◌≢◌, refl, Bool, true, false, not, Option, none, some, List, [], ◌∷◌, ◌==◌, ◌&&◌,
  if◌then◌else◌,
}
use kubeturbo_deploy.Prelude.Maps.{Map}
use kubeturbo_deploy.Outcome.{Outcome, ok, err, panic, Error, not_found, failure, Exec}
use kubeturbo_deploy.Types.{Kubeturbo, ObjectMeta}
use kubeturbo_deploy.Objects.{
  Kind, config_map, service_account, cluster_role, cluster_role_binding, deployment, kubeturbo,
  Object, meta, Key, key_of,
}
use kubeturbo_deploy.Client.{Client, matches}

abbrev pub key_eq : Key → Key → Bool
key_eq a b = (a.name == b.name) && (a.namespace == b.namespace)

abbrev pub Tables : Type 0
Tables = (k : Kind) → List (Object k)

abbrev pub no_objects : Tables
no_objects config_map = []
no_objects service_account = []
no_objects cluster_role = []
no_objects cluster_role_binding = []
no_objects deployment = []
no_objects kubeturbo = []

-- The tables with another one for a kind.
unfoldable pub set_table : (k : Kind) → List (Object k) → Tables → Tables
set_table config_map items w config_map = items
set_table config_map items w j = w j
set_table service_account items w service_account = items
set_table service_account items w j = w j
set_table cluster_role items w cluster_role = items
set_table cluster_role items w j = w j
set_table cluster_role_binding items w cluster_role_binding = items
set_table cluster_role_binding items w j = w j
set_table deployment items w deployment = items
set_table deployment items w j = w j
set_table kubeturbo items w kubeturbo = items
set_table kubeturbo items w j = w j

module _ (k : Kind) where
  unfoldable pub search : List (Object k) → Key → Option (Object k)
  search [] key = none
  search (o ∷ items) key = if key_eq (key_of k o) key then some o else search items key

  unfoldable pub remove : Key → List (Object k) → List (Object k)
  remove key [] = []
  remove key (o ∷ items) =
      if key_eq (key_of k o) key then remove key items else o ∷ remove key items

  abbrev pub keep : Map String → Option (Object k) → List (Object k) → List (Object k)
  keep selector none rest = rest
  keep selector (some o) rest = if matches selector (meta k o).labels then o ∷ rest else rest

  -- The objects that a search finds and that match.
  unfoldable pub select : Map String → List (Object k) → List (Object k) → List (Object k)
  select selector [] all = []
  select selector (o ∷ items) all =
      keep selector (search all (key_of k o)) (select selector items all)

  abbrev pub put_object : Key → Object k → Tables → Tables
  put_object key o w = set_table k (o ∷ remove key (w k)) w

  abbrev pub store : Key → Outcome (Object k) × Tables → Outcome (Unit {0}) × Tables
  store key (ok o, w) =
      if key_eq (key_of k o) key
      then (ok tt, put_object key o w)
      else (err (failure "the function changed the name"), w)
  store key (err e, w) = (err e, w)
  store key (panic, w) = (panic, w)

  abbrev pub or_else : Object k → Option (Object k) → Object k
  or_else o none = o
  or_else o (some found) = found

  abbrev pub get_object : Key → Exec Tables (Object k)
  get_object key w = elim (search (w k) key) [ none ↦ (err not_found, w) | some o ↦ (ok o, w) ]

  abbrev pub delete_object : Key → Exec Tables (Unit {0})
  delete_object key w = elim (search (w k) key) [
    | none ↦ (err not_found, w)
    | some o ↦ (ok tt, set_table k (remove key (w k)) w)
  ]

abbrev pub write_status : Kubeturbo → Exec Tables (Unit {0})
write_status kt w = elim (search kubeturbo (w kubeturbo) (key_of kubeturbo kt)) [
  | none ↦ (err not_found, w)
  | some old ↦
      (ok tt, put_object kubeturbo (key_of kubeturbo kt) (record old { status = kt.status }) w)
]

abbrev pub memory : Client
memory = record {
  World = Tables;
  find = λ w k key. search k (w k) key;
  get = get_object;
  create_or_update =
      λ k o f w. store k (key_of k o) (f (or_else k o (search k (w k) (key_of k o))) w);
  delete = delete_object;
  list = λ k selector w. (ok (select k selector (w k) (w k)), w);
  update = λ k o w. (ok tt, put_object k (key_of k o) o w);
  update_status = write_status;
  patch_finalizers = λ key fs w. (ok tt, w);
  list_pods = λ ns selector w. (ok [], w);
  poll_until = λ interval timeout immediate condition w. (ok tt, (condition w).1);
  set_controller_reference = λ kt m. record m { owner = some kt.metadata.uid };
  now = λ w. "2024-01-01T00:00:00Z";
}
