-- ===== src/Json/Lookup.antt =====
-- Reading a block.
use kubeturbo_deploy.Prelude.{
  String, ◌≡◌, refl, Option, none, some, List, [], ◌∷◌, arith, ◌==◌, eq_iff, if◌then◌else◌,
}
use kubeturbo_deploy.Json.{Json, object, Block, end, member, set_member}

-- block[k]
pub member_of : String → Block → Option Json
member_of k end = none
member_of k (member j v b) = if j == k then some v else member_of k b

pub member_of-set_member :
    (k j : String) (v : Json) (b : Block)
    → member_of j (set_member k v b) ≡ (if k == j then some v else member_of j b)
unfolding member_of set_member
member_of-set_member k j v end = refl
member_of-set_member k j v (member i w b) =
    ground (arith, eq_iff k j, eq_iff i k, eq_iff i j, member_of-set_member k j v b)

pub member_of-end : (k : String) → member_of k end ≡ none
unfolding member_of
member_of-end k = refl

-- The value at a path of keys.
abbrev pub read : List String → Option Json → Option Json
read [] j = j
read (k ∷ path) (some (object b)) = read path (member_of k b)
read (k ∷ path) _ = none
