-- ===== src/Tests/Copies.antt =====
-- The deep copies at a small memory, and Patch with a closure that writes to it.
use kubeturbo_deploy.Prelude.{
  ℕ, zero, suc, ◌≡◌, ◌≢◌, ◌<◌, refl, sym, none, some, List, [], ◌∷◌, All, arith, String,
}
use kubeturbo_deploy.Prelude.Maps.{NodupKeys, lookup}
use kubeturbo_deploy.Outcome.{ok, Exec}
use kubeturbo_deploy.Heap.{Pointer, Store, write, read}
use kubeturbo_deploy.Heap.Maps.{GoMap}
use kubeturbo_deploy.Heap.Copies.{Same, put_other, IsCopy}
use kubeturbo_deploy.DeepCopy.{
  kubeturbo_deep_copy_object, kubeturbo_deep_copy_into, kubeturbo_deep_copy,
  kubeturbo_list_deep_copy,
}
use kubeturbo_deploy.DeepCopy.Layout.{KubeturboLayout}
use kubeturbo_deploy.DeepCopy.Zero.{
  zero_kubeturbo, zero_kubeturbo_spec, zero_kubeturbo_image, zero_kubeturbo_list,
}
use kubeturbo_deploy.DeepCopy.Cells.{
  Cell, text_cell, text_map_cell, resource_requirements_cell, kubeturbo_cell, kubeturbo_list_cell,
  kubeturbos_cell,
}
use kubeturbo_deploy.DeepCopy.Cells.Instances.{stored_text, stored_kubeturbo, stored_kubeturbo_list}
use kubeturbo_deploy.DeepCopy.Foreign.{Library, IsLawful}
use kubeturbo_deploy.DeepCopy.Laws.{
  shown, reached, kubeturbo_deep_copy-IsCopy, kubeturbo_deep_copy_apart,
}
use kubeturbo_deploy.DeepCopy.Laws.Blocks.{AreDeep, blocks-AreDeep}
use kubeturbo_deploy.Request.Patch.{Shown, MutateFn, patch, patch-sends}

abbrev library : Library
library = record {
  affinity = λ a. a;
  toleration = λ t. t;
  quantity = λ q. q;
  object_meta = λ m. m;
  list_meta = λ m. m;
}

library-IsLawful : IsLawful library
library-IsLawful = record {
  affinity = λ a. refl;
  toleration = λ t. refl;
  quantity = λ q. refl;
  object_meta = λ m. refl;
  list_meta = λ m. refl;
}

abbrev at : {A : Type 0} → ℕ → Pointer A
at a = record { address = a }

abbrev memory_of : List Cell → ℕ → Cell
memory_of [] a = text_cell ""
memory_of (c ∷ cs) zero = c
memory_of (c ∷ cs) (suc a) = memory_of cs a

one-NodupKeys : (k v : String) → NodupKeys ((k, v) ∷ [])
unfolding lookup
one-NodupKeys k v = (refl, tt)

abbrev one_entry : String → String → GoMap String
one_entry k v = record { entries = (k, v) ∷ []; nodup = one-NodupKeys k v }

-- A resource with a tag at 1, annotations at 2 and resources at 3, whose limits are at 4.
abbrev resource : KubeturboLayout
resource = record zero_kubeturbo {
  spec = record zero_kubeturbo_spec {
    image = record zero_kubeturbo_image { tag = some (at 1) };
    annotations = some (at 2);
    resources = some (at 3);
  };
}

abbrev memory : Store Cell
memory = record {
  next = 7;
  cells = memory_of (
      kubeturbo_cell resource
      ∷ text_cell "8.14"
      ∷ text_map_cell (one_entry "team" "turbo")
      ∷ resource_requirements_cell (record { limits = some (at 4); requests = none })
      ∷ text_map_cell (one_entry "cpu" "2")
      ∷ kubeturbo_list_cell (record zero_kubeturbo_list { items = some (at 6) })
      ∷ kubeturbos_cell (resource ∷ resource ∷ [])
      ∷ []);
}

resource-used : All (λ a. a < 7) (reached memory (some (at 0)))
resource-used = (omega arith, (omega arith, (omega arith, (omega arith, (omega arith, tt)))))

-- The list at 5 is copied item by item: its copy is at 7, and the items at 8.
list_copied : (kubeturbo_list_deep_copy library (some (at 5)) memory).0 ≡ some (at 7)
unfolding kubeturbo_list_deep_copy
list_copied = refl

-- The copy stands at the next address, and its tag at another than the original's.
copied : (kubeturbo_deep_copy library (some (at 0)) memory).0 ≡ some (at 7)
unfolding kubeturbo_deep_copy
copied = refl

kubeturbo_deep_copy-IsCopy_example :
    IsCopy shown reached memory
      (some (at 0))
      (kubeturbo_deep_copy library (some (at 0)) memory).1
      (kubeturbo_deep_copy library (some (at 0)) memory).0
kubeturbo_deep_copy-IsCopy_example =
    kubeturbo_deep_copy-IsCopy library (some (at 0)) memory library-IsLawful resource-used

-- Another memory in which the tag of the original has changed.
abbrev retagged : Store Cell
retagged = (write {A = String} (at 1) "8.15" (kubeturbo_deep_copy library (some (at 0)) memory).1).1

kubeturbo_deep_copy_apart_example :
    let c = kubeturbo_deep_copy library (some (at 0)) memory in
    (((a : ℕ) → a < c.1.next → All (λ b. a ≢ b) (reached c.1 c.0) → Same c.1 retagged a)
      → shown retagged (some (at 0)) ≡ shown memory (some (at 0)))
    × (((a : ℕ)
          → a < c.1.next
          → All (λ b. a ≢ b) (reached memory (some (at 0)))
          → Same c.1 retagged a)
        → shown retagged c.0 ≡ shown memory (some (at 0)))
kubeturbo_deep_copy_apart_example =
    kubeturbo_deep_copy_apart library (some (at 0)) memory retagged library-IsLawful resource-used

blocks-AreDeep_example : AreDeep library
blocks-AreDeep_example = blocks-AreDeep library library-IsLawful

-- A closure that drops the finalizers of the resource at address 0.
abbrev drop_finalizers : MutateFn
drop_finalizers σ =
    let v : KubeturboLayout = read σ (at 0) in
    (ok tt, (write (at 0) (record v { metadata = record v.metadata { finalizers = [] } }) σ).1)

-- A server that keeps the finalizers before and after each patch.
abbrev send : Shown → Shown → Exec (List (List String × List String)) (Unit {0})
send before after w = (ok tt, (before.1.metadata.finalizers, after.1.metadata.finalizers) ∷ w)

abbrev finalized : Store Cell
finalized =
    (write (at 0)
      (record resource { metadata = record resource.metadata { finalizers = "a" ∷ [] } }) memory).1

finalized-used : All (λ a. a < 7) (reached finalized (some (at 0)))
finalized-used = (omega arith, (omega arith, (omega arith, (omega arith, (omega arith, tt)))))

patched : (patch library send (at 0) drop_finalizers (finalized, [])).1.1 ≡ ("a" ∷ [], []) ∷ []
unfolding patch kubeturbo_deep_copy_object kubeturbo_deep_copy kubeturbo_deep_copy_into
patched = refl

patch-sends_example : patch library send (at 0) drop_finalizers (finalized, []) ≡ (
  ok tt,
  (
    (drop_finalizers (kubeturbo_deep_copy library (some (at 0)) finalized).1).1,
    ("a" ∷ [], []) ∷ [],
  ),
)
patch-sends_example =
    patch-sends library send (at 0) drop_finalizers finalized [] library-IsLawful finalized-used
      (λ τ a lt other. put_other 0 a _ τ (λ e. other.0 (sym e))) refl
