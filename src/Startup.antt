-- ===== src/Startup.antt =====
-- cmd/main.go: the manager with its post-start check, the goroutine that waits for the check, and the
-- cycles of the controller, which wait for that goroutine. Each channel is only ever closed, so it is
-- whether it is closed; a receive goes through exactly then.
pub mod Laws
pub mod Main
use kubeturbo_deploy.Prelude.{
  String, ◌<>◌, ◌≡◌, Bool, true, false, Option, none, some, List, [], ◌∷◌, if◌then◌else◌, ◌==◌,
}
use kubeturbo_deploy.Outcome.{Outcome, ok, err, failure, Exec}
use kubeturbo_deploy.Objects.{Key}
use kubeturbo_deploy.CrdCheck.{Reader, Check}

abbrev pub watch_namespace_env_var : String
watch_namespace_env_var = "WATCH_NAMESPACE"

-- getWatchNamespace; `lookup_env` is os.LookupEnv.
unfoldable pub get_watch_namespace : (String → Option String) → Outcome String
get_watch_namespace lookup_env = elim (lookup_env watch_namespace_env_var) [
  | none ↦ err (failure (watch_namespace_env_var <> " must be set"))
  | some ns ↦ ok ns
]

-- main ignores the error: the namespace is empty then, and the cache is of all namespaces.
unfoldable pub cached_namespaces : (String → Option String) → List String
cached_namespaces lookup_env = elim (get_watch_namespace lookup_env) [
  | ok ns ↦ if ns == "" then [] else ns ∷ []
  | _ ↦ []
]

-- How far the goroutine is.
pub data Waiter : Type 0 where
  waiting awake finished : Waiter

module _ (r : Reader) where
  pub record Operator : Type 0 where
    -- The check, with the channel crdCheckDone.
    pub check : Check r
    -- What the runnable returned, once it ran.
    pub checked : Option (Outcome (Unit {0}))
    pub post_check_done_closed : Bool
    pub waiter : Waiter
    -- The requests whose processing began.
    pub processed : List Key

  abbrev pub started : Check r → Operator
  started check = record {
    check = check;
    checked = none;
    post_check_done_closed = false;
    waiter = waiting;
    processed = [];
  }

  -- What may happen next. The world of the reads may have changed before the check runs.
  pub data Step (run : Exec (Check r) (Unit {0})) : Operator → Operator → Type 0 where
    check_runs :
        (o : Operator) (w : r.World)
        → o.checked ≡ none
        → Step run o (
            let (result, check) = run (record o.check { world = w }) in
            record o { check = check; checked = some result })
    -- `<-crdCheckDone`
    waiter_wakes :
        (o : Operator)
        → o.waiter ≡ waiting
        → o.check.crd_check_done_closed ≡ true
        → Step run o (record o { waiter = awake })
    -- `close(postCheckDone)`
    waiter_closes :
        (o : Operator)
        → o.waiter ≡ awake
        → Step run o (record o { waiter = finished; post_check_done_closed = true })
    -- `<-*r.PostCheckDone` at the start of Reconcile.
    reconcile_enters :
        (o : Operator) (req : Key)
        → o.post_check_done_closed ≡ true
        → Step run o (record o { processed = req ∷ o.processed })

  -- The states that a run from `o` may come to.
  pub data Reaches (run : Exec (Check r) (Unit {0})) (o : Operator) : Operator → Type 0 where
    here : Reaches run o o
    after : {p q : Operator} → Reaches run o p → Step run p q → Reaches run o q
