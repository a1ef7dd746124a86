-- ===== src/Types/Verify/Laws.antt =====
-- The walk by reflection finds the critical fields that are missing, and nothing else.
use mathlib.Core.List.{append-nil}
use kubeturbo_deploy.Prelude.{
  sym, ap, ◌∙◌, String, ◌<>◌, ◌≡◌, refl, ◌≢◌, false, List, [], ◌∷◌, ◌++◌, arith, ◌==◌,
  if◌then◌else◌, first_code, eq-false_of_first_code, cons-ne-nil_test,
}
use kubeturbo_deploy.Utils.{string_in_slice}
use kubeturbo_deploy.Types.{Kubeturbo}
use kubeturbo_deploy.Types.Reflect.{Value, struct, Fields, end, field, kubeturbo_fields}
use kubeturbo_deploy.Types.Verify.{
  check_list, scan_fields, scan_nested, verify_subfields, missing_fields_error, full_name,
}

-- The critical fields by name, with their values.
abbrev pub critical_fields : Kubeturbo → List (String × String)
critical_fields kt =
    ("Spec.RoleName", kt.spec.role_name)
    ∷ ("Spec.RoleBinding", kt.spec.role_binding)
    ∷ ("Spec.ServiceAccountName", kt.spec.service_account_name)
    ∷ ("Spec.Image.Repository", kt.spec.image.repository)
    ∷ ("Spec.ServerMeta.TurboServer", kt.spec.server_meta.turbo_server)
    ∷ (
      "Spec.RestAPIConfig.TurbonomicCredentialsSecretName",
      kt.spec.rest_api_config.turbonomic_credentials_secret_name,
    )
    ∷ ("Spec.HANodeConfig.NodeRoles", kt.spec.ha_node_config.node_roles)
    ∷ []

-- The names of the fields whose value is empty, in order.
abbrev pub missing : List (String × String) → List String
missing [] = []
missing ((name, value) ∷ rest) = (if value == "" then name ∷ [] else []) ++ missing rest

string_in_slice-false :
    (name : String) → first_code name ≢ first_code "S" → string_in_slice name check_list ≡ false
unfolding string_in_slice
string_in_slice-false name h =
    let differs : (item : String) → first_code item ≡ first_code "S" → (item == name) ≡ false =
      λ item e. eq-false_of_first_code item name (λ p. h (sym p ∙ e)) in
    simp (
      differs "Spec.RoleName" refl,
      differs "Spec.RoleBinding" refl,
      differs "Spec.ServiceAccountName" refl,
      differs "Spec.Image.Repository" refl,
      differs "Spec.ServerMeta.TurboServer" refl,
      differs "Spec.RestAPIConfig.TurbonomicCredentialsSecretName" refl,
      differs "Spec.HANodeConfig.NodeRoles" refl,
    )

-- A name below `parent` begins with the letter of `parent`.
full_name-first_code :
    (parent name : String)
    → (parent == "") ≡ false
    → (first_code (full_name parent name) ≡ first_code parent)
      × ((full_name parent name == "") ≡ false)
full_name-first_code String.[] name n = cc
full_name-first_code (String.◌∷◌ c parent) name n =
    rw n (refl, cons-ne-nil_test c (parent <> "." <> name))

-- Below a struct whose name begins otherwise nothing is critical.
mutual
  unfolding scan_fields scan_nested

  scan_fields-outside :
      (fs : Fields) (parent : String)
      → first_code parent ≢ first_code "S"
      → (parent == "") ≡ false
      → scan_fields fs parent ≡ []
  scan_fields-outside end parent h n = refl
  scan_fields-outside (field name e v rest) parent h n =
      let (starts, full) = full_name-first_code parent name n in
      let other_letter =
        λ (p : first_code (full_name parent name) ≡ first_code "S"). h (sym starts ∙ p) in
      ground (
        arith,
        string_in_slice-false (full_name parent name) other_letter,
        scan_nested-outside v (full_name parent name) other_letter full,
        scan_fields-outside rest parent h n,
      )

  scan_nested-outside :
      (v : Value) (parent : String)
      → first_code parent ≢ first_code "S"
      → (parent == "") ≡ false
      → scan_nested v parent ≡ []
  scan_nested-outside (struct fs) parent h n = scan_fields-outside fs parent h n
  scan_nested-outside _ parent h n = refl

scan_fields-kubeturbo :
    (type_meta object_meta : Fields) (kt : Kubeturbo)
    → scan_fields (kubeturbo_fields type_meta object_meta kt) "" ≡ missing (critical_fields kt)
unfolding kubeturbo_fields scan_fields string_in_slice
scan_fields-kubeturbo type_meta object_meta kt = simp (
  scan_fields-outside type_meta "TypeMeta" (omega arith) refl,
  scan_fields-outside object_meta "ObjectMeta" (omega arith) refl,
  append-nil,
)

-- The walk reports exactly the critical fields that are empty, in the order of their declaration,
-- whatever the fields of TypeMeta and ObjectMeta are.
pub verify_subfields-missing :
    (type_meta object_meta : Fields) (kt : Kubeturbo)
    → verify_subfields type_meta object_meta kt
      ≡ missing_fields_error (missing (critical_fields kt))
unfolding verify_subfields
verify_subfields-missing type_meta object_meta kt =
    ap missing_fields_error (scan_fields-kubeturbo type_meta object_meta kt)
