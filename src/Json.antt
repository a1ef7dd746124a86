-- ===== src/Json.antt =====
-- utils.Block (internal/utils/json.go) with the values that the code puts in one, and
-- encoding/json's MarshalIndent(config, "", "  "), which sorts the keys.
pub mod Quote
pub mod Lookup
use Prim.Native.Nat.{Ordering}
use Prim.Native.String.{compare}
use kubeturbo_deploy.Prelude.{
  String, ◌<>◌, Bool, true, false, List, [], ◌∷◌, map, ◌==◌, if◌then◌else◌, ℕ, suc, zero,
}
use kubeturbo_deploy.Prelude.Decimal.{ℤ, format_int}
use kubeturbo_deploy.Prelude.Maps.{Map}
use kubeturbo_deploy.Json.Quote.{quote}

mutual
  pub data Json : Type 0 where
    text : String → Json
    number : ℤ → Json
    boolean : Bool → Json
    strings : List String → Json
    object : Block → Json

  pub data Block : Type 0 where
    end : Block
    member : String → Json → Block → Block

-- block[k] = v
unfoldable pub set_member : String → Json → Block → Block
set_member k v end = member k v end
set_member k v (member j w b) = if j == k then member k v b else member j w (set_member k v b)

-- A map[string]bool as an object.
unfoldable pub of_bools : Map Bool → Block
of_bools [] = end
of_bools ((k, b) ∷ m) = set_member k (boolean b) (of_bools m)

abbrev comes_before : String → String → Bool
comes_before s t = elim (compare s t) [ Ordering.gt ↦ false | _ ↦ true ]

insert_sorted : String → Json → Block → Block
insert_sorted k v end = member k v end
insert_sorted k v (member j w b) =
    if comes_before k j then member k v (member j w b) else member j w (insert_sorted k v b)

-- The members of every object by their keys, in the order of the bytes.
mutual
  sort_json : Json → Json
  sort_json (object b) = object (sort_block b)
  sort_json (text s) = text s
  sort_json (number n) = number n
  sort_json (boolean b) = boolean b
  sort_json (strings l) = strings l

  sort_block : Block → Block
  sort_block end = end
  sort_block (member k v b) = insert_sorted k (sort_json v) (sort_block b)

-- A line break, and the indentation of the level.
abbrev line : ℕ → String
line zero = "\n"
line (suc n) = line n <> "  "

abbrev items : ℕ → List String → String
items n [] = ""
items n (s ∷ []) = line (suc n) <> quote s
items n (s ∷ t ∷ rest) = line (suc n) <> quote s <> "," <> items n (t ∷ rest)

abbrev bool_text : Bool → String
bool_text true = "true"
bool_text false = "false"

abbrev comma : Block → String
comma end = ""
comma (member k v b) = ","

mutual
  print_json : ℕ → Json → String
  print_json n (text s) = quote s
  print_json n (number i) = format_int i
  print_json n (boolean b) = bool_text b
  print_json n (strings []) = "[]"
  print_json n (strings (s ∷ l)) = "[" <> items n (s ∷ l) <> line n <> "]"
  print_json n (object end) = "{}"
  print_json n (object (member k v b)) =
      "{" <> print_members (suc n) (member k v b) <> line n <> "}"

  -- The members of an object at a level, each on its line.
  print_members : ℕ → Block → String
  print_members n end = ""
  print_members n (member k v b) =
      line n <> quote k <> ": " <> print_json n v <> comma b <> print_members n b

unfoldable pub marshal_indent : Json → String
unfolding sort_json insert_sorted print_json format_int
marshal_indent j = print_json 0 (sort_json j)
