-- ===== src/Calls.antt =====
-- internal/request/request.go, DeleteIfExists, and internal/api/kubeturbo/request.go,
-- RestartDeployment, over a client.
pub mod Laws
use kubeturbo_deploy.Prelude.{
  String, Bool, true, false, Option, none, some, List, [], ◌∷◌, if◌then◌else◌,
}
use kubeturbo_deploy.Prelude.Maps.{Map, insert}
use kubeturbo_deploy.Outcome.{
  Outcome, ok, err, panic, Error, not_found, Exec, pure, lift, gets, ◌>>=◌, ◌>>◌,
}
use kubeturbo_deploy.Objects.{Kind, deployment, Deployment, Key, key_of}
use kubeturbo_deploy.Client.{Client}

-- client.IgnoreNotFound
abbrev pub ignore_not_found : Outcome (Unit {0}) → Outcome (Unit {0})
ignore_not_found (err not_found) = ok tt
ignore_not_found r = r

abbrev pub restarted_at : String
restarted_at = "kubectl.kubernetes.io/restartedAt"

-- `podAnnotations[restartedAt] = now`: a nil map is replaced by a new one that the deployment does not
-- refer to, so that only annotations that are there already are written.
abbrev pub stamp : String → Map String → Map String
stamp now [] = []
stamp now (a ∷ m) = insert restarted_at now (a ∷ m)

abbrev pub stamp_deployment : String → Deployment → Deployment
stamp_deployment now dep = record dep {
  spec = record dep.spec {
    template = record dep.spec.template { annotations = stamp now dep.spec.template.annotations };
  };
}

module _ (c : Client) where
  abbrev delete_one : Kind → Key → Exec c.World (Unit {0})
  delete_one k key w = let (r, v) = c.delete k key w in (ignore_not_found r, v)

  unfoldable pub delete_if_exists : List (Kind × Key) → Exec c.World (Unit {0})
  delete_if_exists [] = pure tt
  delete_if_exists ((k, key) ∷ objs) = delete_one k key >> delete_if_exists objs

  unfoldable pub restart_deployment : Deployment → Exec c.World (Unit {0})
  restart_deployment dep = do
    found ← c.get deployment (key_of deployment dep)
    now ← gets c.now
    c.update deployment (stamp_deployment now found)
