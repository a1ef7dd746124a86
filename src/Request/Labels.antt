-- ===== src/Request/Labels.antt =====
-- What the labels of an object say.
use kubeturbo_deploy.Prelude.{String, ◌≡◌, [], ◌∷◌, arith}
use kubeturbo_deploy.Prelude.Maps.{Map, insert}
use kubeturbo_deploy.Outcome.{ok}
use kubeturbo_deploy.Types.{Kubeturbo}
use kubeturbo_deploy.Request.{instance_of, name, labels}

-- The six labels of a resource by its name and its instance label.
abbrev pub six_labels : String → String → Map String
six_labels n i =
    ("app.kubernetes.io/instance", i)
    ∷ ("app.kubernetes.io/part-of", n)
    ∷ ("app.kubernetes.io/managed-by", "kubeturbo-operator")
    ∷ ("app.kubernetes.io/created-by", "kubeturbo-operator")
    ∷ ("app.kubernetes.io/name", n)
    ∷ ("app.kubernetes.io/component", "kubeturbo")
    ∷ []

pub labels-six_labels :
    (cr : Kubeturbo) (i : String) → instance_of cr ≡ ok i → labels cr ≡ ok (six_labels (name cr) i)
unfolding labels insert
labels-six_labels cr i e = rw (e, labels)

-- The labels exist where the instance label does, and no key stands twice.
pub labels-ok :
    (cr : Kubeturbo) (m : Map String)
    → labels cr ≡ ok m
    → (i : String) × (instance_of cr ≡ ok i) × (m ≡ six_labels (name cr) i)
unfolding labels insert
labels-ok cr m h = ground arith
