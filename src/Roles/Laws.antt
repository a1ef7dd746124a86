-- ===== src/Roles/Laws.antt =====
-- What the operator's roles permit, and how its cluster-level names can meet.
use kubeturbo_deploy.Prelude.{
  String, ◌<>◌, ◌≡◌, refl, ap, ◌∙◌, Bool, true, false, not, Option, none, some, List, [], ◌∷◌, ◌++◌,
  ◌==◌, eq_iff, ◌||◌, ◌&&◌, arith, all, is_some, Bool-cases, inl, inr, <>_assoc, if◌then◌else◌,
}
use kubeturbo_deploy.Outcome.{ok}
use kubeturbo_deploy.Utils.{string_in_slice}
use kubeturbo_deploy.Objects.{ClusterRole, PolicyRule}
use kubeturbo_deploy.Types.{
  Kubeturbo, role_type_admin, role_type_read_only, role_type_cluster_admin,
}
use kubeturbo_deploy.Roles.{
  cluster_role_name, cluster_role_binding_name, keeps_out, is_defined_role, mutate_cluster_role,
  orm_rules, rules_for,
}
use kubeturbo_deploy.Roles.Rules.{reader_rules}

abbrev pub read_verbs : List String
read_verbs = "get" ∷ "list" ∷ "watch" ∷ []

-- Every verb of every rule only reads.
abbrev pub only_reads : List PolicyRule → Bool
only_reads = all (λ (r : PolicyRule). all (λ v. string_in_slice v read_verbs) r.verbs)

de_morgan : (a b : Bool) → (false || (not a && not b)) ≡ not (a || b)
de_morgan true b = refl
de_morgan false b = ground arith

-- The step for the cluster role is skipped exactly if the role name is neither of the two that the
-- operator defines.
pub keeps_out-is_defined_role : (role : String) → keeps_out role ≡ not (is_defined_role role)
unfolding keeps_out
keeps_out-is_defined_role role = elim (Bool-cases (role == role_type_cluster_admin)) [
  | inl e ↦ rw ((eq_iff role role_type_cluster_admin).0 e)
  | inr e ↦ rw e (de_morgan (role == role_type_admin) (role == role_type_read_only))
]

reader_rules-only :
    (g r : Option (List String)) (old : List PolicyRule)
    → only_reads (rules_for role_type_read_only old ++ orm_rules g r) ≡ not (is_some g && is_some r)
unfolding rules_for orm_rules reader_rules string_in_slice
reader_rules-only none r old = refl
reader_rules-only (some g) none old = refl
reader_rules-only (some g) (some r) old = refl

new_rules :
    (kt : Kubeturbo) (old new : ClusterRole)
    → mutate_cluster_role kt old ≡ ok new
    → new.rules
      ≡ rules_for kt.spec.role_name old.rules
        ++ orm_rules kt.spec.orm_owners.api_group kt.spec.orm_owners.resources
unfolding mutate_cluster_role
new_rules kt old new e = ground arith

-- Whatever rules the role had before, all verbs of the reader's role only read exactly if the API
-- groups and the resources of OrmOwners are not both given.
pub mutate_cluster_role_reads :
    (kt : Kubeturbo) (old new : ClusterRole)
    → kt.spec.role_name ≡ role_type_read_only
    → mutate_cluster_role kt old ≡ ok new
    → only_reads new.rules
      ≡ not (is_some kt.spec.orm_owners.api_group && is_some kt.spec.orm_owners.resources)
mutate_cluster_role_reads kt old new role e =
    ap only_reads (new_rules kt old new e)
    ∙ ap
        (λ r. only_reads (
          rules_for r old.rules
          ++ orm_rules kt.spec.orm_owners.api_group kt.spec.orm_owners.resources))
        role
    ∙ reader_rules-only kt.spec.orm_owners.api_group kt.spec.orm_owners.resources old.rules

pub mutate_cluster_role_idem :
    (kt : Kubeturbo) (old new : ClusterRole)
    → is_defined_role kt.spec.role_name ≡ true
    → mutate_cluster_role kt old ≡ ok new
    → mutate_cluster_role kt new ≡ ok new
unfolding mutate_cluster_role
mutate_cluster_role_idem kt old new role e = ground arith

-- The cluster-level names do not tell two resources apart: the dash that joins the name and the
-- namespace may stand in both.
abbrev pub named : Kubeturbo → String → String → Kubeturbo
named kt n ns = record kt { metadata = record kt.metadata { name = n; namespace = ns } }

-- The names of the cluster role and of its binding are the same for a resource x-y in the namespace
-- z and a resource x in the namespace y-z, when their specifications agree.
pub cluster_names_collide :
    (kt : Kubeturbo) (x y z : String)
    → let a = named kt (x <> "-" <> y) z in
      let b = named kt x (y <> "-" <> z) in
      (cluster_role_name a ≡ cluster_role_name b)
      × (cluster_role_binding_name a ≡ cluster_role_binding_name b)
unfolding cluster_role_name cluster_role_binding_name
cluster_names_collide kt x y z =
    let e : (x <> "-" <> y) <> "-" <> z ≡ x <> "-" <> y <> "-" <> z =
      <>_assoc x ("-" <> y) ("-" <> z) in
    (
      ap
          (λ t.
            if is_defined_role kt.spec.role_name
            then kt.spec.role_name <> "-" <> t
            else kt.spec.role_name)
          e,
      ap (λ t. kt.spec.role_binding <> "-" <> t) e,
    )
