-- ===== src/Utils.antt =====
-- internal/utils: ReturnOnError (errors.go), the map builder (mapbuilder.go), StringInSlice and
-- GetDefaultKubeturboVersion (utils.go).
pub mod Laws
use kubeturbo_deploy.Prelude.{
  String, ◌<>◌, Bool, true, false, Option, none, some, List, [], ◌∷◌, ◌==◌, if◌then◌else◌,
}
use kubeturbo_deploy.Prelude.Maps.{Map, insert}
use kubeturbo_deploy.Outcome.{Outcome, ok, err, failure, Exec, pure, ◌>>◌}

abbrev pub ErrorFn : Type 0 → Type 0
ErrorFn S = Exec S (Unit {0})

-- The loop returns at the first error.
unfoldable pub return_on_error : {S : Type 0} → List (ErrorFn S) → ErrorFn S
return_on_error [] = pure tt
return_on_error (f ∷ fns) = f >> return_on_error fns

-- A builder is the map that it has built so far.
unfoldable pub new_map_builder {ℓ} : {V : Type ℓ} → Map V
new_map_builder = []

unfoldable pub put {ℓ} : {V : Type ℓ} → Map V → String → V → Map V
put mb key value = insert key value mb

-- The entries come in the order of the list: Go's order is any order.
unfoldable pub put_all {ℓ} : {V : Type ℓ} → Map V → Map V → Map V
put_all mb [] = mb
put_all mb ((key, value) ∷ m) = put_all (put mb key value) m

unfoldable pub build {ℓ} : {V : Type ℓ} → Map V → Map V
build mb = mb

unfoldable pub string_in_slice : String → List String → Bool
string_in_slice str [] = false
string_in_slice str (item ∷ list) = if item == str then true else string_in_slice str list

abbrev pub default_kubeturbo_version_env_var : String
default_kubeturbo_version_env_var = "DEFAULT_KUBETURBO_VERSION"

-- `lookup_env` is os.LookupEnv.
unfoldable pub get_default_kubeturbo_version : (String → Option String) → Outcome String
get_default_kubeturbo_version lookup_env = elim (lookup_env default_kubeturbo_version_env_var) [
  | none ↦ err (failure (default_kubeturbo_version_env_var <> " must be set"))
  | some version ↦ ok version
]
