-- ===== src/Cycle.antt =====
-- The state of one cycle over a resource: the status in `kt.Cr`, which the cycle may update, and the
-- cluster. The rest of the resource does not change during a cycle.
use kubeturbo_deploy.Prelude.{String, none, []}
use kubeturbo_deploy.Outcome.{Exec}
use kubeturbo_deploy.Types.{KubeturboStatus, ObjectMeta}
use kubeturbo_deploy.Client.{Client}

-- An object with nothing but its name and namespace.
abbrev pub new_meta : String → String → ObjectMeta
new_meta n ns = record {
  name = n;
  namespace = ns;
  uid = "";
  labels = [];
  annotations = [];
  finalizers = [];
  owner = none;
  deletion_timestamp = none;
}

module _ (c : Client) where
  pub record Cycle : Type 0 where
    pub status : KubeturboStatus
    pub world : c.World

  -- A call of the cluster.
  abbrev pub on_world : {A : Type 0} → Exec c.World A → Exec Cycle A
  on_world m s = let (r, w) = m s.world in (r, record s { world = w })
