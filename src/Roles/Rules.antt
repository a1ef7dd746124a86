-- ===== src/Roles/Rules.antt =====
-- internal/api/kubeturbo/reconciler.go, mutateClusterRole: the rules of the two roles.
use kubeturbo_deploy.Prelude.{String, List, [], ◌∷◌}
use kubeturbo_deploy.Objects.{PolicyRule}

abbrev rule : List String → List String → List String → PolicyRule
rule api_groups resources verbs = record {
  api_groups = api_groups;
  resources = resources;
  verbs = verbs;
}

-- turbo-cluster-reader
unfoldable pub reader_rules : List PolicyRule
reader_rules =
    rule
      ("" ∷ "apps" ∷ "app.k8s.io" ∷ "apps.openshift.io" ∷ "batch" ∷ "extensions" ∷ "turbonomic.com"
        ∷ "devops.turbonomic.io" ∷ "config.openshift.io" ∷ [])
      ("endpoints" ∷ "limitranges" ∷ "namespaces" ∷ "nodes" ∷ "persistentvolumeclaims"
        ∷ "persistentvolumes" ∷ "pods" ∷ "replicationcontrollers" ∷ "resourcequotas" ∷ "services"
        ∷ "daemonsets" ∷ "deployments" ∷ "replicasets" ∷ "statefulsets" ∷ "applications"
        ∷ "deploymentconfigs" ∷ "jobs" ∷ "cronjobs" ∷ "operatorresourcemappings" ∷ "clusterversions"
        ∷ [])
      ("get" ∷ "list" ∷ "watch" ∷ [])
    ∷ rule ("machine.openshift.io" ∷ []) ("machines" ∷ "machinesets" ∷ []) ("get" ∷ "list" ∷ [])
    ∷ rule ("" ∷ []) ("nodes/spec" ∷ "nodes/stats" ∷ "nodes/metrics" ∷ "nodes/proxy" ∷ [])
        ("get" ∷ [])
    ∷ rule ("policy.turbonomic.io" ∷ [])
        ("slohorizontalscales" ∷ "containerverticalscales" ∷ "policybindings" ∷ [])
        ("get" ∷ "list" ∷ "watch" ∷ [])
    ∷ []

-- turbo-cluster-admin
unfoldable pub admin_rules : List PolicyRule
admin_rules =
    rule ("" ∷ "batch" ∷ []) ("pods" ∷ "jobs" ∷ []) ("*" ∷ [])
    ∷ rule
        ("" ∷ "apps" ∷ "apps.openshift.io" ∷ "extensions" ∷ "turbonomic.com"
          ∷ "devops.turbonomic.io" ∷ "redis.redis.opstreelabs.in" ∷ "charts.helm.k8s.io" ∷ [])
        ("deployments" ∷ "replicasets" ∷ "replicationcontrollers" ∷ "statefulsets" ∷ "daemonsets"
          ∷ "deploymentconfigs" ∷ "resourcequotas" ∷ "operatorresourcemappings"
          ∷ "operatorresourcemappings/status" ∷ "redis" ∷ "xls" ∷ [])
        ("get" ∷ "list" ∷ "patch" ∷ "update" ∷ "watch" ∷ [])
    ∷ rule
        ("" ∷ "apps" ∷ "batch" ∷ "extensions" ∷ "policy" ∷ "app.k8s.io" ∷ "argoproj.io"
          ∷ "apiextensions.k8s.io" ∷ "config.openshift.io" ∷ [])
        ("nodes" ∷ "services" ∷ "endpoints" ∷ "namespaces" ∷ "limitranges" ∷ "persistentvolumes"
          ∷ "persistentvolumeclaims" ∷ "poddisruptionbudget" ∷ "cronjobs" ∷ "applications"
          ∷ "customresourcedefinitions" ∷ "clusterversions" ∷ [])
        ("get" ∷ "list" ∷ "watch" ∷ [])
    ∷ rule ("machine.openshift.io" ∷ []) ("machines" ∷ "machinesets" ∷ [])
        ("get" ∷ "list" ∷ "update" ∷ [])
    ∷ rule ("" ∷ [])
        ("nodes/spec" ∷ "nodes/stats" ∷ "nodes/metrics" ∷ "nodes/proxy" ∷ "pods/log" ∷ [])
        ("get" ∷ [])
    ∷ rule ("policy.turbonomic.io" ∷ [])
        ("slohorizontalscales" ∷ "containerverticalscales" ∷ "policybindings" ∷ [])
        ("get" ∷ "list" ∷ "watch" ∷ [])
    ∷ rule ("security.openshift.io" ∷ []) ("securitycontextconstraints" ∷ []) ("list" ∷ "use" ∷ [])
    ∷ rule ("" ∷ []) ("serviceaccounts" ∷ []) ("get" ∷ "create" ∷ "delete" ∷ "impersonate" ∷ [])
    ∷ rule ("rbac.authorization.k8s.io" ∷ [])
        ("roles" ∷ "rolebindings" ∷ "clusterroles" ∷ "clusterrolebindings" ∷ [])
        ("get" ∷ "create" ∷ "delete" ∷ "update" ∷ [])
    ∷ []
