-- ===== src/Config/NodeRoles/Laws.antt =====
-- Splitting and stripping the node roles: the way back, and when the code panics.
use Prim.Native.Char.{Char, code}
use text.Mathlib.TextEquality.{Char-path}
use kubeturbo_deploy.Prelude.{
  String, ◌<>◌, ◌≡◌, refl, sym, ap, ◌∙◌, ◌≢◌, ◌↔◌, ◌⊎◌, inl, inr, true, false, List, [], ◌∷◌, map,
  arith, nat_eq, join, All, Any, Bool-cases, str_len, first_code,
}
use kubeturbo_deploy.Outcome.{Outcome, ok, err, panic, Error}
use kubeturbo_deploy.Config.NodeRoles.{
  split_commas, prepend, strip_quotes, strip_all, node_roles, ends_with_quote, without_last, inner,
}

abbrev pub NoComma : String → Type 0
NoComma String.[] = Unit
NoComma (String.◌∷◌ c s) = (nat_eq (code c) b',' ≡ false) × NoComma s

prepend-ne-nil : (c : Char) (l : List String) → prepend c l ≢ []
prepend-ne-nil c [] = λ p. cc p
prepend-ne-nil c (s ∷ l) = λ p. cc p

join-cons_nil : (l : List String) → l ≢ [] → join "," ("" ∷ l) ≡ "," <> join "," l
join-cons_nil [] h = absurd (h refl)
join-cons_nil (s ∷ l) h = refl

prepend-join :
    (c : Char) (l : List String) → l ≢ [] → join "," (prepend c l) ≡ String.◌∷◌ c (join "," l)
prepend-join c [] h = absurd (h refl)
prepend-join c (s ∷ []) h = refl
prepend-join c (s ∷ t ∷ l) h = refl

split_commas-ne-nil : (s : String) → split_commas s ≢ []
unfolding split_commas
split_commas-ne-nil String.[] = λ p. cc p
split_commas-ne-nil (String.◌∷◌ c s) = elim (Bool-cases (nat_eq (code c) b',')) [
  | inl at ↦ rw at (λ p. cc p)
  | inr at ↦ rw at (prepend-ne-nil c (split_commas s))
]

-- Joining the segments again gives the text.
pub join-split_commas : (s : String) → join "," (split_commas s) ≡ s
unfolding split_commas
join-split_commas String.[] = refl
join-split_commas (String.◌∷◌ c s) = elim (Bool-cases (nat_eq (code c) b',')) [
  | inl at ↦
      let comma : Char = "," in
      let same : c ≡ comma = Char-path c comma (ground arith) in
      rw at (
        join-cons_nil (split_commas s) (split_commas-ne-nil s)
        ∙ rw (join-split_commas s) (ap (λ (d : Char). String.◌∷◌ d s) (sym same)))
  | inr at ↦ rw at (
      prepend-join c (split_commas s) (split_commas-ne-nil s)
      ∙ ap (String.◌∷◌ c) (join-split_commas s))
]

prepend-NoComma :
    (c : Char) (l : List String)
    → nat_eq (code c) b',' ≡ false
    → All NoComma l
    → All NoComma (prepend c l)
prepend-NoComma c [] n h = ((n, tt), tt)
prepend-NoComma c (s ∷ l) n (h, hs) = ((n, h), hs)

-- No segment has a comma.
pub split_commas-NoComma : (s : String) → All NoComma (split_commas s)
unfolding split_commas
split_commas-NoComma String.[] = (tt, tt)
split_commas-NoComma (String.◌∷◌ c s) = elim (Bool-cases (nat_eq (code c) b',')) [
  | inl at ↦ rw at (tt, split_commas-NoComma s)
  | inr at ↦ rw at (prepend-NoComma c (split_commas s) at (split_commas-NoComma s))
]

split_commas_one : (w : String) → NoComma w → split_commas w ≡ w ∷ []
unfolding split_commas
split_commas_one String.[] h = refl
split_commas_one (String.◌∷◌ c w) (n, h) = rw (n, split_commas_one w h)

split_commas_more :
    (w rest : String) → NoComma w → split_commas (w <> "," <> rest) ≡ w ∷ split_commas rest
unfolding split_commas
split_commas_more String.[] rest h = refl
split_commas_more (String.◌∷◌ c w) rest (n, h) = rw (n, split_commas_more w rest h)

split_commas-join :
    (w : String) (ws : List String)
    → All NoComma (w ∷ ws)
    → split_commas (join "," (w ∷ ws)) ≡ w ∷ ws
split_commas-join w [] (h, _) = split_commas_one w h
split_commas-join w (v ∷ ws) (h, hs) =
    split_commas_more w (join "," (v ∷ ws)) h ∙ ap (λ l. w ∷ l) (split_commas-join v ws hs)

-- The segments that the loop cannot take: nothing, and a lone quotation mark.
abbrev pub IsBad : String → Type 0
IsBad nr = (nr ≡ "") ⊎ (nr ≡ "\"")

quote_of_code : (c : Char) → nat_eq (code c) b'"' ≡ true → String.◌∷◌ c "" ≡ "\""
quote_of_code c h =
    let q : Char = "\"" in ap (λ (d : Char). String.◌∷◌ d "") (Char-path c q (ground arith))

IsBad-one : (c : Char) → IsBad (String.◌∷◌ c "") → nat_eq (code c) b'"' ≡ true
IsBad-one c (inl e) = absurd (omega (arith, ap str_len e))
IsBad-one c (inr e) = ground (arith, ap first_code e)

not-IsBad-more : (c d : Char) (s : String) → ¬ IsBad (String.◌∷◌ c (String.◌∷◌ d s))
not-IsBad-more c d s (inl e) = omega (arith, ap str_len e)
not-IsBad-more c d s (inr e) = omega (arith, ap str_len e)

-- The code takes a segment exactly if it is not a bad one.
strip_quotes-panic : (nr : String) → (strip_quotes nr ≡ panic) ↔ IsBad nr
unfolding strip_quotes
strip_quotes-panic String.[] = (λ _. inl refl, λ _. refl)
strip_quotes-panic (String.◌∷◌ c String.[]) =
    (λ h. inr (quote_of_code c (ground arith)), λ b. rw (IsBad-one c b))
strip_quotes-panic (String.◌∷◌ c (String.◌∷◌ d s)) =
    (λ h. absurd (ground arith), λ b. absurd (not-IsBad-more c d s b))

strip_quotes-ne-err : (nr : String) (e : Error) → strip_quotes nr ≢ err e
unfolding strip_quotes
strip_quotes-ne-err String.[] e = λ p. cc p
strip_quotes-ne-err (String.◌∷◌ c String.[]) e = λ p. ground arith
strip_quotes-ne-err (String.◌∷◌ c (String.◌∷◌ d s)) e = λ p. ground arith

strip_all-ne-err : (l : List String) (e : Error) → strip_all l ≢ err e
unfolding strip_all
strip_all-ne-err [] e = λ p. cc p
strip_all-ne-err (nr ∷ l) e = λ p. ground (arith, strip_quotes-ne-err nr e, strip_all-ne-err l e)

panic_cases :
    (nr : String) (l : List String)
    → strip_all (nr ∷ l) ≡ panic
    → (strip_quotes nr ≡ panic) ⊎ (strip_all l ≡ panic)
unfolding strip_all
panic_cases nr l h = ground arith

panic_rest : (nr : String) (l : List String) → strip_all l ≡ panic → strip_all (nr ∷ l) ≡ panic
unfolding strip_all
panic_rest nr l h = go (strip_quotes nr) refl
  where
    go : (r : Outcome String) → strip_quotes nr ≡ r → strip_all (nr ∷ l) ≡ panic
    go (ok w) e = rw (e, h)
    go (err x) e = absurd (strip_quotes-ne-err nr x e)
    go panic e = rw e

strip_all-panic : (l : List String) → (strip_all l ≡ panic) ↔ Any IsBad l
unfolding strip_all
strip_all-panic [] = (λ h. absurd (ground arith), λ h. absurd h)
strip_all-panic (nr ∷ l) = (
  λ h. elim (panic_cases nr l h) [
    | inl p ↦ inl ((strip_quotes-panic nr).0 p)
    | inr p ↦ inr ((strip_all-panic l).0 p)
  ],
  elim [
    | inl b ↦ rw ((strip_quotes-panic nr).1 b)
    | inr b ↦ panic_rest nr l ((strip_all-panic l).1 b)
  ],
)

ends_with_quote-append : (c : Char) (w : String) → ends_with_quote c (w <> "\"") ≡ true
ends_with_quote-append c String.[] = refl
ends_with_quote-append c (String.◌∷◌ d w) = ends_with_quote-append d w

without_last-append :
    (c : Char) (w : String) (q : Char) → without_last c (w <> String.◌∷◌ q "") ≡ String.◌∷◌ c w
without_last-append c String.[] q = refl
without_last-append c (String.◌∷◌ d w) q = ap (String.◌∷◌ c) (without_last-append d w q)

inner-append : (w : String) (q : Char) → inner (w <> String.◌∷◌ q "") ≡ ok w
inner-append String.[] q = refl
inner-append (String.◌∷◌ d w) q = ap ok (without_last-append d w q)

-- A quoted role comes out without its quotation marks.
strip_quotes-quoted : (w : String) → strip_quotes ("\"" <> w <> "\"") ≡ ok w
unfolding strip_quotes
strip_quotes-quoted w = let q : Char = "\"" in rw (ends_with_quote-append q w) (inner-append w q)

abbrev pub quoted : String → String
quoted w = "\"" <> w <> "\""

strip_all-quoted : (ws : List String) → strip_all (map quoted ws) ≡ ok ws
unfolding strip_all
strip_all-quoted [] = refl
strip_all-quoted (w ∷ ws) = rw (strip_quotes-quoted w, strip_all-quoted ws)

NoComma-quoted : (w : String) → NoComma w → NoComma (quoted w)
NoComma-quoted w h = (refl, go w h)
  where
    go : (v : String) → NoComma v → NoComma (v <> "\"")
    go String.[] _ = (refl, tt)
    go (String.◌∷◌ c v) (n, k) = (n, go v k)

All-NoComma-quoted : (ws : List String) → All NoComma ws → All NoComma (map quoted ws)
All-NoComma-quoted [] h = tt
All-NoComma-quoted (w ∷ ws) (h, hs) = (NoComma-quoted w h, All-NoComma-quoted ws hs)

-- A list of one or more roles without commas, each in quotation marks, is read back as it is.
pub node_roles-join :
    (w : String) (ws : List String)
    → All NoComma (w ∷ ws)
    → node_roles (join "," (map quoted (w ∷ ws))) ≡ ok (w ∷ ws)
unfolding node_roles
node_roles-join w ws h =
    rw (split_commas-join (quoted w) (map quoted ws) (All-NoComma-quoted (w ∷ ws) h))
      (strip_all-quoted (w ∷ ws))

-- The roles cannot be read, and the operator panics, exactly if some segment between commas is
-- empty or a lone quotation mark.
pub node_roles-panic : (s : String) → (node_roles s ≡ panic) ↔ Any IsBad (split_commas s)
unfolding node_roles
node_roles-panic s = strip_all-panic (split_commas s)
