-- ===== src/Config/Contents.antt =====
-- What the two configurations hold, path by path.
pub mod Static
pub mod Dynamic
use kubeturbo_deploy.Prelude.{
  String, ◌≡◌, refl, ap, ◌∙◌, sym, Bool, true, false, Option, none, some, List, [], ◌∷◌, arith,
  ◌==◌, ◌&&◌, if◌then◌else◌,
}
use kubeturbo_deploy.Json.{Json, text, boolean, object, Block, end, set_member}
use kubeturbo_deploy.Json.Lookup.{member_of, member_of-set_member, member_of-end, read}
use kubeturbo_deploy.Config.{set_if, set_when, set_wiremock}

abbrev pub map_json : {A : Type 0} → (A → Json) → Option A → Option Json
map_json f none = none
map_json f (some a) = some (f a)

abbrev pub or_else : Option Json → Option Json → Option Json
or_else none o = o
or_else (some j) o = some j

pub member_of-set_if :
    {A : Type 0} (f : A → Json) (k j : String) (o : Option A) (b : Block)
    → member_of j (set_if f k o b)
      ≡ (if k == j then or_else (map_json f o) (member_of j b) else member_of j b)
unfolding set_if
member_of-set_if f k j none b = ground arith
member_of-set_if f k j (some a) b = ground (arith, member_of-set_member k j (f a) b)

pub member_of-set_when :
    (c : Bool) (k j : String) (inner b : Block)
    → member_of j (set_when c k inner b)
      ≡ (if k == j then (if c then some (object inner) else member_of j b) else member_of j b)
unfolding set_when
member_of-set_when true k j inner b = member_of-set_member k j (object inner) b
member_of-set_when false k j inner b = ground arith

-- A value in an inner block that is there whenever the value is.
read_inner :
    (c : Bool) (inner : Block) (k : String) (o : Option Json)
    → (c ≡ false → o ≡ none)
    → member_of k inner ≡ o
    → read (k ∷ []) (if c then some (object inner) else none) ≡ o
read_inner true inner k o absent e = e
read_inner false inner k o absent e = sym (absent refl)

-- An inner block that is written under a condition.
abbrev pub inner_if : Bool → Block → Option Json
inner_if c b = if c then some (object b) else none

pub read_at :
    (b : Block) (k j : String) (c : Bool) (inner : Block) (o : Option Json)
    → member_of k b ≡ inner_if c inner
    → (c ≡ false → o ≡ none)
    → member_of j inner ≡ o
    → read (k ∷ j ∷ []) (some (object b)) ≡ o
read_at b k j c inner o e absent there = ap (read (j ∷ [])) e ∙ read_inner c inner j o absent there

pub ruleset reading = (member_of-set_member, member_of-end, member_of-set_if, member_of-set_when)
