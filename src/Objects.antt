-- ===== src/Objects.antt =====
-- The Kubernetes objects that the operator manages, with the fields that it reads or writes. The
-- types are those of k8s.io/api; a field left out is one that the operator leaves unset.
use kubeturbo_deploy.Prelude.{
  String, ℕ, Bool, true, false, Option, List, ◌≡◌, ◌≢◌, refl, sym, ap, ◌∙◌, nat_eq, true-ne-false,
  ◌==◌, ◌&&◌, arith, eq_refl,
}
use kubeturbo_deploy.Prelude.Decimal.{ℤ}
use kubeturbo_deploy.Prelude.Maps.{Map}
use kubeturbo_deploy.Types.{ObjectMeta, Kubeturbo}
use kubeturbo_deploy.Types.Blocks.{ResourceRequirements}

pub record ConfigMap : Type 0 where
  pub metadata : ObjectMeta
  pub contents : Map String

pub record ServiceAccount : Type 0 where
  pub metadata : ObjectMeta

pub record PolicyRule : Type 0 where
  pub api_groups : List String
  pub resources : List String
  pub verbs : List String

pub record ClusterRole : Type 0 where
  pub metadata : ObjectMeta
  pub rules : List PolicyRule

pub record Subject : Type 0 where
  pub kind : String
  pub name : String
  pub namespace : String

pub record RoleRef : Type 0 where
  pub kind : String
  pub name : String
  pub api_group : String

pub record ClusterRoleBinding : Type 0 where
  pub metadata : ObjectMeta
  pub subjects : List Subject
  pub role_ref : RoleRef

-- An environment variable that takes its value from a field of the pod.
pub record EnvVar : Type 0 where
  pub name : String
  pub field_path : String

pub record SecurityContext : Type 0 where
  pub privileged : Option Bool
  pub allow_privilege_escalation : Option Bool
  pub read_only_root_filesystem : Option Bool
  pub drop : List String

pub record VolumeMount : Type 0 where
  pub name : String
  pub mount_path : String
  pub read_only : Bool

pub record Container : Type 0 where
  pub name : String
  pub env : List EnvVar
  pub image : String
  pub image_pull_policy : String
  pub args : List String
  pub security_context : SecurityContext
  pub resources : ResourceRequirements
  pub volume_mounts : List VolumeMount

pub data VolumeSource : Type 0 where
  config_map_volume : String → VolumeSource
  secret_volume : String → Option Bool → Option ℤ → VolumeSource
  empty_dir : VolumeSource

pub record Volume : Type 0 where
  pub name : String
  pub source : VolumeSource

pub record PodSpec : Type 0 where
  pub service_account_name : String
  pub image_pull_secrets : List String
  pub restart_policy : String
  pub node_selector : Map String
  pub affinity : Option String
  pub tolerations : List String
  pub run_as_non_root : Option Bool
  pub containers : List Container
  pub volumes : List Volume

pub record PodTemplateSpec : Type 0 where
  pub annotations : Map String
  pub labels : Map String
  pub spec : PodSpec

pub record DeploymentSpec : Type 0 where
  pub replicas : Option ℤ
  pub strategy : String
  pub selector : Option (Map String)
  pub template : PodTemplateSpec

pub record Deployment : Type 0 where
  pub metadata : ObjectMeta
  pub spec : DeploymentSpec

pub data Kind : Type 0 where
  config_map service_account cluster_role cluster_role_binding deployment kubeturbo : Kind

abbrev pub Object : Kind → Type 0
Object config_map = ConfigMap
Object service_account = ServiceAccount
Object cluster_role = ClusterRole
Object cluster_role_binding = ClusterRoleBinding
Object deployment = Deployment
Object kubeturbo = Kubeturbo

abbrev pub meta : (k : Kind) → Object k → ObjectMeta
meta config_map o = o.metadata
meta service_account o = o.metadata
meta cluster_role o = o.metadata
meta cluster_role_binding o = o.metadata
meta deployment o = o.metadata
meta kubeturbo o = o.metadata

-- The name and namespace of an object; the namespace is empty for a cluster-level object.
pub record Key : Type 0 where
  pub name : String
  pub namespace : String

abbrev pub key_of : (k : Kind) → Object k → Key
key_of k o = record { name = (meta k o).name; namespace = (meta k o).namespace }

abbrev index : Kind → ℕ
index config_map = 0
index service_account = 1
index cluster_role = 2
index cluster_role_binding = 3
index deployment = 4
index kubeturbo = 5

abbrev pub same_kind : Kind → Kind → Bool
same_kind j k = nat_eq (index j) (index k)

same_kind_refl : (k : Kind) → same_kind k k ≡ true
same_kind_refl config_map = refl
same_kind_refl service_account = refl
same_kind_refl cluster_role = refl
same_kind_refl cluster_role_binding = refl
same_kind_refl deployment = refl
same_kind_refl kubeturbo = refl

-- Kinds that differ, by computation.
pub apart : {j k : Kind} → same_kind j k ≡ false → j ≢ k
apart {k} e p = true-ne-false (sym (same_kind_refl k) ∙ ap (λ x. same_kind x k) (sym p) ∙ e)

abbrev pub same_key : Key → Key → Bool
same_key a b = (a.name == b.name) && (a.namespace == b.namespace)

pub same_key_refl : (a : Key) → same_key a a ≡ true
same_key_refl a = ground (arith, eq_refl a.name, eq_refl a.namespace)
