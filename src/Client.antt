-- ===== src/Client.antt =====
-- The API server as the operator calls it: client.Client and controllerutil of controller-runtime,
-- which are not part of the repository. `Client` has the calls, over an unknown state of the world;
-- `IsLawful` has what their documentation promises.
pub mod Laws
pub mod Responsive
use kubeturbo_deploy.Prelude.{
  String, ℕ, ◌≡◌, ◌≢◌, Bool, true, false, Option, none, some, List, [], ◌∷◌, ◌⊎◌, ◌&&◌, ◌==◌, Any,
  if◌then◌else◌,
}
use kubeturbo_deploy.Prelude.Maps.{Map, lookup}
use kubeturbo_deploy.Outcome.{Outcome, ok, err, panic, Error, not_found, Exec}
use kubeturbo_deploy.Types.{Kubeturbo, ObjectMeta}
use kubeturbo_deploy.Objects.{Kind, kubeturbo, Object, Key, meta, key_of}

pub record Client : Type 1 where
  pub World : Type 0
  -- What the cluster holds.
  pub find : World → (k : Kind) → Key → Option (Object k)
  pub get : (k : Kind) → Key → Exec World (Object k)
  pub create_or_update :
      (k : Kind) → Object k → (Object k → Exec World (Object k)) → Exec World (Unit {0})
  pub delete : (k : Kind) → Key → Exec World (Unit {0})
  pub list : (k : Kind) → Map String → Exec World (List (Object k))
  pub update : (k : Kind) → Object k → Exec World (Unit {0})
  pub update_status : Kubeturbo → Exec World (Unit {0})
  -- A JSON patch that replaces /metadata/finalizers.
  pub patch_finalizers : Key → List String → Exec World (Unit {0})
  -- The names of the pods in a namespace that have some labels.
  pub list_pods : String → Map String → Exec World (List String)
  -- wait.PollUntilContextTimeout with its interval and timeout in seconds, and `immediate`.
  pub poll_until : ℕ → ℕ → Bool → Exec World Bool → Exec World (Unit {0})
  -- ctrl.SetControllerReference; the error that it may return is dropped by the program.
  pub set_controller_reference : Kubeturbo → ObjectMeta → ObjectMeta
  -- time.Now().Format(time.RFC3339)
  pub now : World → String

-- client.MatchingLabels: the object has every label of the selector.
abbrev pub matches : Map String → Map String → Bool
matches [] labels = true
matches ((k, v) ∷ selector) labels =
    (elim (lookup k labels) [ none ↦ false | some w ↦ w == v ]) && matches selector labels

module _ (c : Client) where
  open c use {World, find}

  -- The object that CreateOrUpdate hands to its function: the cluster's, or the one given.
  abbrev pub current : (k : Kind) → Object k → World → Object k
  current k o w = elim (find w k (key_of k o)) [ none ↦ o | some found ↦ found ]

  -- Everything but one object is as it was.
  abbrev pub SameBut : Kind → Key → World → World → Type 0
  SameBut k key w w' =
      (j : Kind) (other : Key) → ((j ≡ k) × (other ≡ key) → ⊥) → find w' j other ≡ find w j other

  -- How CreateOrUpdate may end.
  pub data Written (k : Kind) (o : Object k) (f : Object k → Exec World (Object k)) (w : World)
      (r : Outcome (Unit {0}) × World) : Type 0 where
    -- The object could not be read.
    unread : (e : Error) → r ≡ (err e, w) → Written k o f w r
    -- The function failed; its own calls stay done.
    refused :
        (e : Error) (u : World)
        → f (current k o w) w ≡ (err e, u)
        → r ≡ (err e, u)
        → Written k o f w r
    panicked : (u : World) → f (current k o w) w ≡ (panic, u) → r ≡ (panic, u) → Written k o f w r
    -- The object could not be written.
    unwritten :
        (e : Error) (o' : Object k) (u : World)
        → f (current k o w) w ≡ (ok o', u)
        → r ≡ (err e, u)
        → Written k o f w r
    written :
        (o' : Object k) (u v : World)
        → f (current k o w) w ≡ (ok o', u)
        → find v k (key_of k o) ≡ some o'
        → SameBut k (key_of k o) u v
        → r ≡ (ok tt, v)
        → Written k o f w r

  pub record IsLawful : Type 0 where
    pub create_or_update-Written :
        (k : Kind) (o : Object k) (f : Object k → Exec World (Object k)) (w : World)
        → Written k o f w (c.create_or_update k o f w)
    -- A successful read finds what the cluster holds, and changes nothing.
    pub get_ok :
        (k : Kind) (key : Key) (w v : World) (o : Object k)
        → c.get k key w ≡ (ok o, v)
        → (v ≡ w) × (find w k key ≡ some o) × (key_of k o ≡ key)
    -- A successful deletion removes the object and no other.
    pub delete_ok :
        (k : Kind) (key : Key) (w v : World)
        → c.delete k key w ≡ (ok tt, v)
        → (find v k key ≡ none) × SameBut k key w v
    -- Deleting what is not there changes nothing.
    pub delete_not_found :
        (k : Kind) (key : Key) (w v : World)
        → c.delete k key w ≡ (err not_found, v)
        → (find v k key ≡ none) × (v ≡ w)
    -- A list is of the objects that the cluster holds and that match, and of all of those.
    pub list_ok :
        (k : Kind) (selector : Map String) (w v : World) (items : List (Object k))
        → c.list k selector w ≡ (ok items, v)
        → (v ≡ w)
          × ((key : Key) (o : Object k)
              → find w k key ≡ some o
              → matches selector (meta k o).labels ≡ true
              → Any (λ i. key_of k i ≡ key) items)
          × ((key : Key) (o : Object k)
              → find w k key ≡ some o
              → Any (λ i. key_of k i ≡ key) items
              → matches selector (meta k o).labels ≡ true)
    -- A status update writes the status of the resource and nothing else.
    pub update_status_ok :
        (kt : Kubeturbo) (w v : World)
        → c.update_status kt w ≡ (ok tt, v)
        → SameBut kubeturbo (key_of kubeturbo kt) w v
          × ((old : Kubeturbo)
              → find w kubeturbo (key_of kubeturbo kt) ≡ some old
              → find v kubeturbo (key_of kubeturbo kt) ≡ some (record old { status = kt.status }))
    -- A controller reference changes the owner and nothing else.
    pub set_controller_reference-owner :
        (kt : Kubeturbo) (m : ObjectMeta)
        → (o : Option String) × (c.set_controller_reference kt m ≡ record m { owner = o })
