-- ===== src/Config/NodeRoles.antt =====
-- internal/api/kubeturbo/reconciler.go, buildKubeturboConfig: HANodeConfig from a string to a slice,
-- with the quotation marks stripped.
pub mod Laws
use Prim.Native.Char.{Char, code}
use kubeturbo_deploy.Prelude.{
  String, ◌<>◌, Bool, true, false, List, [], ◌∷◌, nat_eq, ◌&&◌, if◌then◌else◌,
}
use kubeturbo_deploy.Outcome.{Outcome, ok, panic, and_then}

abbrev pub prepend : Char → List String → List String
prepend c [] = String.◌∷◌ c "" ∷ []
prepend c (s ∷ l) = String.◌∷◌ c s ∷ l

-- strings.Split(s, ",")
unfoldable pub split_commas : String → List String
split_commas String.[] = "" ∷ []
split_commas (String.◌∷◌ c s) =
    let rest = split_commas s in if nat_eq (code c) b',' then "" ∷ rest else prepend c rest

-- nr[len(nr)-1] == '"', for the non-empty text `c ∷ s`
abbrev pub ends_with_quote : Char → String → Bool
ends_with_quote c String.[] = nat_eq (code c) b'"'
ends_with_quote c (String.◌∷◌ d s) = ends_with_quote d s

-- s[:len(s)-1], for the non-empty text `c ∷ s`
abbrev pub without_last : Char → String → String
without_last c String.[] = ""
without_last c (String.◌∷◌ d s) = String.◌∷◌ c (without_last d s)

-- nr[1 : len(nr)-1], for the non-empty text `c ∷ s`: the bounds are out of order if `s` is empty
abbrev pub inner : String → Outcome String
inner String.[] = panic
inner (String.◌∷◌ d s) = ok (without_last d s)

-- nr[0] of an empty text panics.
unfoldable pub strip_quotes : String → Outcome String
strip_quotes String.[] = panic
strip_quotes (String.◌∷◌ c s) =
    if nat_eq (code c) b'"' && ends_with_quote c s then inner s else ok (String.◌∷◌ c s)

-- The loop over the segments.
unfoldable pub strip_all : List String → Outcome (List String)
strip_all [] = ok []
strip_all (nr ∷ rest) =
    and_then (strip_quotes nr) λ role. and_then (strip_all rest) λ roles. ok (role ∷ roles)

unfoldable pub node_roles : String → Outcome (List String)
unfolding split_commas strip_quotes strip_all
node_roles s = strip_all (split_commas s)
