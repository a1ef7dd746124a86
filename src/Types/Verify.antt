-- ===== src/Types/Verify.antt =====
-- api/v1/kubeturbo_types.go: VerifySubfields, which walks the resource by reflection.
pub mod Laws
use kubeturbo_deploy.Prelude.{
  String, ◌<>◌, Bool, true, false, List, [], ◌∷◌, ◌++◌, ◌==◌, if◌then◌else◌, join, ltb, length, not,
  ◌&&◌,
}
use kubeturbo_deploy.Outcome.{Outcome, ok, err, failure}
use kubeturbo_deploy.Utils.{string_in_slice}
use kubeturbo_deploy.Types.{Kubeturbo}
use kubeturbo_deploy.Types.Reflect.{
  Value, pointer, text, struct, other, Fields, end, field, kubeturbo_fields,
}

abbrev pub check_list : List String
check_list =
    "Spec.RoleName" ∷ "Spec.RoleBinding" ∷ "Spec.ServiceAccountName" ∷ "Spec.Image.Repository"
    ∷ "Spec.ServerMeta.TurboServer" ∷ "Spec.RestAPIConfig.TurbonomicCredentialsSecretName"
    ∷ "Spec.HANodeConfig.NodeRoles" ∷ []

-- The test of the loop's body: a nil pointer or an empty string.
abbrev pub is_missing : Value → Bool
is_missing (pointer is_nil) = is_nil
is_missing (text s) = s == ""
is_missing (struct fs) = false
is_missing other = false

abbrev pub full_name : String → String → String
full_name parent name = if not (parent == "") then parent <> "." <> name else name

abbrev pub report : String → Value → List String
report name v = if string_in_slice name check_list && is_missing v then name ∷ [] else []

-- The closure `scanFields`: what it appends to `errorMessages`.
unfoldable mutual
  pub scan_fields : Fields → String → List String
  scan_fields end parent = []
  scan_fields (field name exported v rest) parent =
      (if exported
        then report (full_name parent name) v ++ scan_nested v (full_name parent name)
        else [])
      ++ scan_fields rest parent

  pub scan_nested : Value → String → List String
  scan_nested (struct fs) name = scan_fields fs name
  scan_nested (pointer is_nil) name = []
  scan_nested (text s) name = []
  scan_nested other name = []

abbrev pub missing_fields_error : List String → Outcome (Unit {0})
missing_fields_error [] = ok tt
missing_fields_error (m ∷ ms) = err (
    failure (
      "stopping reconciliation for Kubeturbo CR due to missing critical field(s): "
      <> join ", " (m ∷ ms)
      <> ". Please review your CR and ensure the latest CRD is applied before proceeding"))

module _ (type_meta object_meta : Fields) where
  unfoldable pub verify_subfields : Kubeturbo → Outcome (Unit {0})
  verify_subfields kt =
      missing_fields_error (scan_fields (kubeturbo_fields type_meta object_meta kt) "")
