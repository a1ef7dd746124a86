-- ===== src/Request/Instance.antt =====
-- The instance label: it fits, and it tells the resources apart.
use Prim.Native.Nat.{min}
use text.Mathlib.TextLemmas.{tail-eq_of_cons-eq}
use kubeturbo_deploy.Prelude.{
  ◌≤◌, String, ◌<>◌, ◌≡◌, ◌-◌, sym, ◌∙◌, ap, arith, str_len, str_take, str_len-append, str_len-take,
}
use kubeturbo_deploy.Outcome.{ok}
use kubeturbo_deploy.Types.{Kubeturbo}
use kubeturbo_deploy.Request.{instance_of, name, trim_right_dashes, label_value_max_length}

trim_right_dashes-le : (s : String) → str_len (trim_right_dashes s) ≤ str_len s
unfolding trim_right_dashes
trim_right_dashes-le String.[] = omega arith
trim_right_dashes-le (String.◌∷◌ c s) = ground (arith, trim_right_dashes-le s)

-- The part before the dash.
abbrev front : Kubeturbo → String
front cr = trim_right_dashes (
    str_take
      (min (str_len (name cr)) (label_value_max_length - str_len cr.metadata.uid - str_len "-"))
      (name cr))

front-le : (cr : Kubeturbo) → str_len (front cr) ≤ 62 - str_len cr.metadata.uid
front-le cr = omega (
  arith,
  trim_right_dashes-le (
      str_take
        (min (str_len (name cr)) (label_value_max_length - str_len cr.metadata.uid - str_len "-"))
        (name cr)),
  str_len-take
      (min (str_len (name cr)) (label_value_max_length - str_len cr.metadata.uid - str_len "-"))
      (name cr),
)

-- With a UID of 62 bytes or fewer the label exists and is a legal length.
pub instance_of_fits :
    (cr : Kubeturbo)
    → str_len cr.metadata.uid ≤ 62
    → (i : String) × (instance_of cr ≡ ok i) × (str_len i ≤ label_value_max_length)
unfolding instance_of
instance_of_fits cr h = (
  front cr <> "-" <> cr.metadata.uid,
  ground arith,
  omega (arith, front-le cr, str_len-append (front cr) ("-" <> cr.metadata.uid)),
)

-- Texts that end alike in as many bytes end in the same text.
append_cancel_right : (a b u v : String) → str_len u ≡ str_len v → a <> u ≡ b <> v → u ≡ v
append_cancel_right String.[] String.[] u v l e = e
append_cancel_right String.[] (String.◌∷◌ d b) u v l e =
    absurd (omega (arith, ap str_len e, str_len-append b v))
append_cancel_right (String.◌∷◌ c a) String.[] u v l e =
    absurd (omega (arith, ap str_len e, str_len-append a u))
append_cancel_right (String.◌∷◌ c a) (String.◌∷◌ d b) u v l e =
    append_cancel_right a b u v l (tail-eq_of_cons-eq e)

instance_of-eq :
    (cr : Kubeturbo) (i : String) → instance_of cr ≡ ok i → i ≡ front cr <> "-" <> cr.metadata.uid
unfolding instance_of
instance_of-eq cr i h = ground arith

-- Two resources whose UIDs are equally long, as all UIDs of a cluster are, share the label only if
-- they have one UID.
pub instance_of-injective :
    (a b : Kubeturbo) (i : String)
    → str_len a.metadata.uid ≡ str_len b.metadata.uid
    → instance_of a ≡ ok i
    → instance_of b ≡ ok i
    → a.metadata.uid ≡ b.metadata.uid
instance_of-injective a b i l ea eb = tail-eq_of_cons-eq (
    append_cancel_right (front a) (front b) ("-" <> a.metadata.uid) ("-" <> b.metadata.uid)
      (omega arith) (sym (instance_of-eq a i ea) ∙ instance_of-eq b i eb))
