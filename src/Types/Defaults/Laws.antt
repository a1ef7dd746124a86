-- ===== src/Types/Defaults/Laws.antt =====
-- What a resource looks like once its defaults are filled.
use kubeturbo_deploy.Prelude.{
  String, ◌≡◌, refl, ◌≢◌, ◌∙◌, sym, ap, true, none, some, List, [], ◌∷◌, arith, ◌==◌, eq_iff,
  eq_refl, ◌⊎◌, inl, inr, is_some,
}
use kubeturbo_deploy.Prelude.Maps.{lookup}
use kubeturbo_deploy.Outcome.{Error, ok, err}
use kubeturbo_deploy.Utils.{get_default_kubeturbo_version}
use kubeturbo_deploy.Types.{Kubeturbo, KubeturboStatus}
use kubeturbo_deploy.Types.Verify.{verify_subfields, missing_fields_error}
use kubeturbo_deploy.Types.Verify.Laws.{missing, critical_fields, verify_subfields-missing}
use kubeturbo_deploy.Types.Defaults.{
  Defaulting, Surroundings, set_spec_default, default_annotation_key, patch_spec,
}

-- No pointer that the reconciler follows is nil, and no critical field is empty.
pub record IsComplete (kt : Kubeturbo) : Type 0 where
  pub has_tag : is_some kt.spec.image.tag ≡ true
  pub has_version : is_some kt.spec.server_meta.version ≡ true
  pub has_patterns : is_some kt.spec.system_workload_detectors.namespace_patterns ≡ true
  pub has_annotation : is_some (lookup default_annotation_key kt.spec.annotations) ≡ true
  pub has_critical : missing (critical_fields kt) ≡ []

missing_fields_error-ok : (ms : List String) → missing_fields_error ms ≡ ok tt → ms ≡ []
missing_fields_error-ok [] h = refl
missing_fields_error-ok (m ∷ ms) h = ground arith

verify_subfields-ok :
    (env : Surroundings) (kt : Kubeturbo)
    → verify_subfields env.type_meta env.object_meta kt ≡ ok tt
    → missing (critical_fields kt) ≡ []
verify_subfields-ok env kt h = missing_fields_error-ok _ (rw verify_subfields-missing at h)

-- The patched resource, with the package variable that the run leaves.
abbrev patched : Defaulting → Defaulting → Kubeturbo
patched s t = record s.kt { spec = patch_spec t.default_kt_version s.kt.spec }

set_spec_default-shape :
    (env : Surroundings) (s t : Defaulting)
    → set_spec_default env s ≡ (ok tt, t)
    → (t.kt ≡ patched s t) × (verify_subfields env.type_meta env.object_meta t.kt ≡ ok tt)
unfolding set_spec_default get_default_kubeturbo_version
set_spec_default-shape env s t h = (ground arith, ground arith)

-- The metadata and the status stay.
pub set_spec_default-frame :
    (env : Surroundings) (s t : Defaulting)
    → set_spec_default env s ≡ (ok tt, t)
    → (t.kt.metadata ≡ s.kt.metadata) × (t.kt.status ≡ s.kt.status)
set_spec_default-frame env s t h =
    let (shape, _) = set_spec_default-shape env s t h in
    (ap (λ (k : Kubeturbo). k.metadata) shape, ap (λ (k : Kubeturbo). k.status) shape)

-- If the function succeeds, every pointer that the reconciler follows is set, the annotations hold
-- the default key, and no critical field is empty.
pub set_spec_default-IsComplete :
    (env : Surroundings) (s t : Defaulting) → set_spec_default env s ≡ (ok tt, t) → IsComplete t.kt
unfolding patch_spec lookup
set_spec_default-IsComplete env s t h =
    let (shape, verified) = set_spec_default-shape env s t h in
    record {
      has_tag = rw shape (ground arith);
      has_version = rw shape (ground arith);
      has_patterns = rw shape (ground arith);
      has_annotation = rw shape (ground (arith, eq_refl default_annotation_key));
      has_critical = verify_subfields-ok env t.kt verified;
    }

-- Where the version is known, the run fills the defaults and verifies.
set_spec_default_known :
    (env : Surroundings) (t : Defaulting)
    → ((t.default_kt_version == "") ≡ true
        → env.lookup_env "DEFAULT_KUBETURBO_VERSION" ≡ some t.default_kt_version)
    → set_spec_default env t ≡ (
      verify_subfields env.type_meta env.object_meta (patched t t),
      record t { kt = patched t t },
    )
unfolding set_spec_default get_default_kubeturbo_version
set_spec_default_known env t known = ground arith

version_known :
    (env : Surroundings) (s t : Defaulting)
    → set_spec_default env s ≡ (ok tt, t)
    → (t.default_kt_version == "") ≡ true
    → env.lookup_env "DEFAULT_KUBETURBO_VERSION" ≡ some t.default_kt_version
unfolding set_spec_default get_default_kubeturbo_version
version_known env s t h = ground arith

-- Where the function succeeded, it gives the same specification to the resource with another status.
pub set_spec_default-again :
    (env : Surroundings) (s t : Defaulting) (st : KubeturboStatus)
    → set_spec_default env s ≡ (ok tt, t)
    → set_spec_default env (record t { kt = record s.kt { status = st } })
      ≡ (ok tt, record t { kt = record t.kt { status = st } })
set_spec_default-again env s t st h =
    let (shape, verified) = set_spec_default-shape env s t h in
    let again : Defaulting = record t { kt = record s.kt { status = st } } in
    let same : patched again again ≡ record t.kt { status = st } =
      ap (λ (k : Kubeturbo). record k { status = st }) (sym shape) in
    let checked : verify_subfields env.type_meta env.object_meta (record t.kt { status = st })
        ≡ ok tt =
      verify_subfields-missing env.type_meta env.object_meta (record t.kt { status = st })
      ∙ sym (verify_subfields-missing env.type_meta env.object_meta t.kt)
      ∙ verified in
    set_spec_default_known env again (version_known env s t h) ∙ rw (same, checked) refl

missing_fields_error-err :
    (ms : List String) (e : Error) → missing_fields_error ms ≡ err e → ms ≢ []
missing_fields_error-err [] e h = ground arith
missing_fields_error-err (m ∷ ms) e h = λ p. cc p

failed_step :
    (env : Surroundings) (s t : Defaulting) (e : Error)
    → set_spec_default env s ≡ (err e, t)
    → ((s.default_kt_version ≡ "") × (env.lookup_env "DEFAULT_KUBETURBO_VERSION" ≡ none) × (t ≡ s))
      ⊎ (verify_subfields env.type_meta env.object_meta t.kt ≡ err e)
unfolding set_spec_default get_default_kubeturbo_version
failed_step env s t e h = ground (arith, eq_iff s.default_kt_version "")

-- The function fails only if the version is nowhere to be had, and then it changes nothing, or if a
-- critical field is empty.
pub set_spec_default_fails :
    (env : Surroundings) (s t : Defaulting) (e : Error)
    → set_spec_default env s ≡ (err e, t)
    → ((s.default_kt_version ≡ "") × (env.lookup_env "DEFAULT_KUBETURBO_VERSION" ≡ none) × (t ≡ s))
      ⊎ (missing (critical_fields t.kt) ≢ [])
set_spec_default_fails env s t e h = elim (failed_step env s t e h) [
  | inl unknown ↦ inl unknown
  | inr refused ↦ inr (missing_fields_error-err _ e (rw verify_subfields-missing at refused))
]
