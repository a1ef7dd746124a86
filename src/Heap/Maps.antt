-- ===== src/Heap/Maps.antt =====
-- Go's map[string]V as a value of a cell, and the loop that copies it.
use kubeturbo_deploy.Prelude.{String, ◌≡◌, refl, sym, ap, ◌∙◌, subst, none, [], ◌∷◌, ◌++◌}
use kubeturbo_deploy.Prelude.Maps.{Map, NodupKeys, insert, insert-NodupKeys, lookup}
use kubeturbo_deploy.Prelude.{◌==◌, arith, eq_iff, false}
use mathlib.Core.List.{append_assoc, append-nil}

pub record GoMap (V : Type 0) : Type 0 where
  pub entries : Map V
  pub nodup : NodupKeys entries

module _ {V : Type 0} where
  -- make(map[string]V)
  abbrev pub empty : GoMap V
  empty = record { entries = []; nodup = tt }

  -- m[k] = v
  abbrev pub assign : String → V → GoMap V → GoMap V
  assign k v m = record {
    entries = insert k v m.entries;
    nodup = insert-NodupKeys k v m.entries m.nodup;
  }

  -- `for key, val := range *in { (*out)[key] = f(val) }`
  abbrev pub range_into : (V → V) → Map V → GoMap V → GoMap V
  range_into f [] out = out
  range_into f ((key, val) ∷ rest) out = range_into f rest (assign key (f val) out)

  -- `*out = make(map[string]V, len(*in))`, and the loop.
  abbrev pub copy_map : (V → V) → GoMap V → GoMap V
  copy_map f m = range_into f m.entries empty

  insert_fresh :
      (k : String) (v : V) (m : Map V) → lookup k m ≡ none → insert k v m ≡ m ++ ((k, v) ∷ [])
  unfolding insert lookup
  insert_fresh k v [] h = refl
  insert_fresh k v ((j, w) ∷ m) h = ground (arith, insert_fresh k v m)

  other_key :
      (j k : String) (v : V) (m rest : Map V)
      → lookup j (m ++ (k, v) ∷ rest) ≡ none
      → (k == j) ≡ false
  unfolding lookup
  other_key j k v [] rest h = ground arith
  other_key j k v ((i, w) ∷ m) rest h = ground (arith, other_key j k v m rest)

  fresh_key :
      (k : String) (v : V) (m rest : Map V) → NodupKeys (m ++ (k, v) ∷ rest) → lookup k m ≡ none
  unfolding lookup
  fresh_key k v [] rest h = refl
  fresh_key k v ((j, w) ∷ m) rest (fresh, h) =
      ground (arith, eq_iff j k, eq_iff k j, other_key j k v m rest fresh, fresh_key k v m rest h)

  -- The loop appends, since no key is there yet.
  range_into-append :
      (f : V → V) (rest : Map V) (out : GoMap V)
      → ((v : V) → f v ≡ v)
      → NodupKeys (out.entries ++ rest)
      → (range_into f rest out).entries ≡ out.entries ++ rest
  range_into-append f [] out same h = sym (append-nil out.entries)
  range_into-append f ((k, v) ∷ rest) out same h =
      range_into-append f rest (assign k (f v) out) same (subst NodupKeys (sym grown) h) ∙ grown
    where
      grown : insert k (f v) out.entries ++ rest ≡ out.entries ++ (k, v) ∷ rest
      grown =
          ap (λ m. m ++ rest) (insert_fresh k (f v) out.entries (fresh_key k v out.entries rest h))
          ∙ append_assoc out.entries _ rest
          ∙ ap (λ w. out.entries ++ (k, w) ∷ rest) (same v)

  -- The copied map has the same entries.
  pub copy_map-entries :
      (f : V → V) (m : GoMap V) → ((v : V) → f v ≡ v) → (copy_map f m).entries ≡ m.entries
  copy_map-entries f m same = range_into-append f m.entries empty same m.nodup
