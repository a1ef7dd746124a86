-- ===== src/Roles.antt =====
-- internal/api/kubeturbo/reconciler.go: clusterRoleName, mutateClusterRole, and the names of the
-- other objects.
pub mod Rules
pub mod Laws
use kubeturbo_deploy.Prelude.{
  String, ◌<>◌, Bool, true, false, not, Option, none, some, List, [], ◌∷◌, ◌++◌, ◌==◌, ◌||◌, ◌&&◌,
  if◌then◌else◌,
}
use kubeturbo_deploy.Outcome.{Outcome, ok, and_then}
use kubeturbo_deploy.Request.{name, namespace, labels}
use kubeturbo_deploy.Objects.{ClusterRole, PolicyRule}
use kubeturbo_deploy.Types.{
  Kubeturbo, role_type_admin, role_type_read_only, role_type_cluster_admin,
}
use kubeturbo_deploy.Types.Blocks.{OrmOwners}
use kubeturbo_deploy.Roles.Rules.{reader_rules, admin_rules}

-- `spec.RoleName` is one of the two roles that the operator defines.
abbrev pub is_defined_role : String → Bool
is_defined_role role = role == role_type_admin || role == role_type_read_only

unfoldable pub cluster_role_name : Kubeturbo → String
unfolding name namespace
cluster_role_name kt =
    if is_defined_role kt.spec.role_name
    then kt.spec.role_name <> "-" <> name kt <> "-" <> namespace kt
    else kt.spec.role_name

unfoldable pub cluster_role_binding_name : Kubeturbo → String
unfolding name namespace
cluster_role_binding_name kt = kt.spec.role_binding <> "-" <> name kt <> "-" <> namespace kt

-- The guard of createOrUpdateClusterRole.
unfoldable pub keeps_out : String → Bool
keeps_out role =
    role == role_type_cluster_admin
    || (not (role == role_type_admin) && not (role == role_type_read_only))

-- The rules of the role, and those of before for any other role.
unfoldable pub rules_for : String → List PolicyRule → List PolicyRule
rules_for role old =
    if role == role_type_read_only
    then reader_rules
    else if role == role_type_admin
    then admin_rules
    else old

unfoldable pub orm_rules : Option (List String) → Option (List String) → List PolicyRule
orm_rules (some api_groups) (some resources) =
    record {
      api_groups = api_groups;
      resources = resources;
      verbs = "get" ∷ "list" ∷ "patch" ∷ "update" ∷ "watch" ∷ [];
    }
    ∷ []
orm_rules _ _ = []

unfoldable pub mutate_cluster_role : Kubeturbo → ClusterRole → Outcome ClusterRole
unfolding rules_for orm_rules
mutate_cluster_role kt cr = and_then (labels kt) λ ls. ok (record {
  metadata = record cr.metadata { labels = ls };
  rules =
      rules_for kt.spec.role_name cr.rules
      ++ orm_rules kt.spec.orm_owners.api_group kt.spec.orm_owners.resources;
})
