-- ===== src/DeepCopy/Laws/Fields.antt =====
-- The copies of single fields are deep.
use kubeturbo_deploy.Prelude.{none, some, List, [], ◌∷◌, map, ◌≡◌, refl}
use kubeturbo_deploy.Heap.{Stored, refers, shows, copy_with, copy_pointer}
use kubeturbo_deploy.Heap.Maps.{GoMap, copy_map, copy_map-entries}
use kubeturbo_deploy.DeepCopy.Cells.{Cell}
use kubeturbo_deploy.Heap.Copies.{IsDeepCopy, copy_with-IsDeepCopy}

module _ {A : Type 0} ⦃s : Stored Cell A⦄ where
  pub pointer_law :
      IsDeepCopy {Cell = Cell} (shows {A = A} some none) (λ σ m. refers m) copy_pointer
  pointer_law = copy_with-IsDeepCopy some none (λ v. v) (λ a. refl)

module _ {V : Type 0} ⦃s : Stored Cell (GoMap V)⦄ where
  pub map_law :
      (f : V → V)
      → ((v : V) → f v ≡ v)
      → IsDeepCopy {Cell = Cell}
          (shows {A = GoMap V} (λ g. g.entries) [])
          (λ σ m. refers m)
          (copy_with (copy_map f))
  map_law f same =
      copy_with-IsDeepCopy (λ g. g.entries) [] (copy_map f) (λ g. copy_map-entries f g same)

pub map_same : {A : Type 0} (f : A → A) → ((a : A) → f a ≡ a) → (xs : List A) → map f xs ≡ xs
map_same f same [] = refl
map_same f same (x ∷ xs) = λ i. same x i ∷ map_same f same xs i
