-- ===== src/Request.antt =====
-- internal/request/request.go and internal/api/kubeturbo/request.go: the names and labels that a
-- request derives from its custom resource, and labels() of internal/api/kubeturbo/reconciler.go.
-- The calls of the cluster are in Client and Reconciler.
pub mod Instance
pub mod Labels
pub mod Patch
use Prim.Native.Char.{Char, code}
use Prim.Native.Nat.{min}
use kubeturbo_deploy.Prelude.{
  ℕ, ◌+◌, ◌-◌, String, ◌<>◌, Bool, true, false, List, [], ◌∷◌, ltb, nat_eq, ◌==◌, if◌then◌else◌,
  str_len, str_take,
}
use kubeturbo_deploy.Prelude.Maps.{Map}
use kubeturbo_deploy.Outcome.{Outcome, ok, panic, and_then}
use kubeturbo_deploy.Utils.{new_map_builder, put, put_all, build}
use kubeturbo_deploy.Constants.{
  operator_name, name_label_key, instance_label_key, part_of_label_key, component_label_key,
  managed_by_label_key, created_by_label_key, kubeturbo_component_type,
}
use kubeturbo_deploy.Types.{Kubeturbo}

unfoldable pub namespace : Kubeturbo → String
namespace cr = cr.metadata.namespace

unfoldable pub name : Kubeturbo → String
name cr = cr.metadata.name

-- validation.LabelValueMaxLength
abbrev pub label_value_max_length : ℕ
label_value_max_length = 63

abbrev is_empty : String → Bool
is_empty String.[] = true
is_empty (String.◌∷◌ c s) = false

-- strings.TrimRight(s, "-")
unfoldable pub trim_right_dashes : String → String
trim_right_dashes String.[] = ""
trim_right_dashes (String.◌∷◌ c s) =
    let rest = trim_right_dashes s in
    if nat_eq (code c) b'-'
    then (if is_empty rest then "" else String.◌∷◌ c rest)
    else String.◌∷◌ c rest

-- The slice bound is negative, and Go panics, where the UID leaves no room for the dash.
unfoldable pub instance_of : Kubeturbo → Outcome String
instance_of cr =
    let uid = cr.metadata.uid in
    if ltb label_value_max_length (str_len uid + str_len "-")
    then panic
    else let max_name_length = label_value_max_length - str_len uid - str_len "-" in
      let n = name cr in
      let cr_name = trim_right_dashes (str_take (min (str_len n) max_name_length) n) in
      ok (cr_name <> "-" <> uid)

unfoldable pub release_labels : Kubeturbo → Outcome (Map String)
unfolding instance_of
release_labels kr = and_then (instance_of kr) λ i. ok (
    (instance_label_key, i)
    ∷ (part_of_label_key, name kr)
    ∷ (managed_by_label_key, operator_name)
    ∷ (created_by_label_key, operator_name)
    ∷ [])

unfoldable pub labels : Kubeturbo → Outcome (Map String)
unfolding release_labels new_map_builder put put_all build
labels kt = and_then (release_labels kt) λ release. ok (
    build (
      put (put (put_all new_map_builder release) name_label_key (name kt)) component_label_key
        kubeturbo_component_type))
