-- ===== src/Finalizers.antt =====
-- internal/controller/kubeturbo_controller.go: the finalizers of the resource, in Reconcile.
-- controllerutil's functions are not part of the repository. RemoveFinalizer may write to the array
-- that the loop ranges over, so that it is given that array and returns it.
pub mod Laws
use kubeturbo_deploy.Prelude.{
  ℕ, zero, suc, String, ◌≡◌, Bool, true, false, not, Option, none, some, List, [], ◌∷◌, ◌==◌, ◌+◌,
  ◌||◌, if◌then◌else◌, get_elem?, length,
}
use kubeturbo_deploy.Utils.{string_in_slice}
use kubeturbo_deploy.Constants.{kubeturbo_finalizer}

pub record ControllerUtil : Type 0 where
  -- The array that is ranged over and the finalizers, without the finalizer.
  pub remove_finalizer : String → List String → List String → List String × List String
  pub contains_finalizer : List String → String → Bool
  pub add_finalizer : List String → String → List String

module _ (util : ControllerUtil) where
  pub record Finalizing : Type 0 where
    -- The array under the slice of the range clause.
    pub ranged : List String
    pub finalizers : List String
    pub need_to_update_cr : Bool

  -- The body of the loop, on the element at index `i`.
  abbrev pub visit : ℕ → Finalizing → Finalizing
  visit i s = elim (get_elem? s.ranged i) [
    | none ↦ s
    | some f ↦
        if not (f == kubeturbo_finalizer)
        then (let (ranged, finalizers) = util.remove_finalizer f s.ranged s.finalizers in
            record { ranged = ranged; finalizers = finalizers; need_to_update_cr = true })
        else s
  ]

  -- `for _, f := range kt.GetFinalizers()`: `n` elements from index `i` on.
  unfoldable pub remove_foreign : (n i : ℕ) → Finalizing → Finalizing
  remove_foreign zero i s = s
  remove_foreign (suc n) i s = remove_foreign n (suc i) (visit i s)

  -- Both steps: foreign finalizers go, and the operator's is added.
  unfoldable pub ensure_finalizer : List String → Finalizing
  ensure_finalizer fs =
      let start : Finalizing = record { ranged = fs; finalizers = fs; need_to_update_cr = false } in
      let s = remove_foreign (length fs) 0 start in
      if not (util.contains_finalizer s.finalizers kubeturbo_finalizer)
      then record s {
        finalizers = util.add_finalizer s.finalizers kubeturbo_finalizer;
        need_to_update_cr = true;
      }
      else s
