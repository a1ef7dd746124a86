-- ===== src/Prelude/Text.antt =====
-- Go's strings as native texts. The functions walk the characters, so that they compute when only
-- the front of a text is known. The program's texts are names and labels: where Go counts bytes
-- the texts are ASCII, and characters are bytes.
use Prim.Native.Nat.{ℕ, zero, suc, ◌≤◌, ◌+◌}
use Prim.Native.Char.{Char, code}
use Prim.Native.String.{String}
use mathlib.Core.Path.{◌≡◌, refl, ap}
use mathlib.Core.Logic.{◌≢◌}
use mathlib.Core.Bool.{Bool, false}
use mathlib.Core.Option.{Option, none, some}
use mathlib.Core.List.{List, [], ◌∷◌}
use native.Mathlib.Omega.{arith}
use text.Mathlib.Text.{◌==◌}
use text.Mathlib.TextEquality.{eq_iff}
use text.Mathlib.TextLemmas.{cons≢nil}
use kubeturbo_deploy.Prelude.Tests.{nat_eq, if◌then◌else◌}

abbrev pub char_eq : Char → Char → Bool
char_eq c d = nat_eq (code c) (code d)

infixr 65 ◌<>◌
abbrev pub ◌<>◌ : String → String → String
String.[] <> t = t
String.◌∷◌ c s <> t = String.◌∷◌ c (s <> t)

-- len(s)
abbrev pub str_len : String → ℕ
str_len String.[] = 0
str_len (String.◌∷◌ c s) = suc (str_len s)

-- s[:n]
abbrev pub str_take : ℕ → String → String
str_take zero s = ""
str_take (suc n) String.[] = ""
str_take (suc n) (String.◌∷◌ c s) = String.◌∷◌ c (str_take n s)

-- What follows the prefix, where the text begins with it.
abbrev pub strip_prefix : String → String → Option String
strip_prefix String.[] s = some s
strip_prefix (String.◌∷◌ c p) String.[] = none
strip_prefix (String.◌∷◌ c p) (String.◌∷◌ d s) =
    let rest = strip_prefix p s in if char_eq c d then rest else none

-- The first character's code, and 0 for the empty text.
abbrev pub first_code : String → ℕ
first_code String.[] = 0
first_code (String.◌∷◌ c s) = code c

pub eq-false_of_first_code : (s t : String) → first_code s ≢ first_code t → (s == t) ≡ false
eq-false_of_first_code s t h = ground (arith, eq_iff s t, λ (e : s ≡ t). h (ap first_code e))

pub cons-ne-nil_test : (c : Char) (s : String) → (String.◌∷◌ c s == "") ≡ false
cons-ne-nil_test c s =
    ground (arith, eq_iff (String.◌∷◌ c s) "", λ (e : String.◌∷◌ c s ≡ ""). cons≢nil e)

pub <>_assoc : (s t u : String) → (s <> t) <> u ≡ s <> t <> u
<>_assoc String.[] t u = refl
<>_assoc (String.◌∷◌ c s) t u = ap (String.◌∷◌ c) (<>_assoc s t u)

pub str_len-append : (s t : String) → str_len (s <> t) ≡ str_len s + str_len t
str_len-append String.[] t = omega arith
str_len-append (String.◌∷◌ c s) t = omega (arith, str_len-append s t)

pub str_len-take : (n : ℕ) (s : String) → str_len (str_take n s) ≤ n
str_len-take zero s = omega arith
str_len-take (suc n) String.[] = omega arith
str_len-take (suc n) (String.◌∷◌ c s) = omega (arith, str_len-take n s)

-- strings.Join(texts, sep)
abbrev pub join : String → List String → String
join sep [] = ""
join sep (s ∷ []) = s
join sep (s ∷ t ∷ rest) = s <> sep <> join sep (t ∷ rest)
