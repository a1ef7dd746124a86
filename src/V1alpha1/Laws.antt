-- ===== src/V1alpha1/Laws.antt =====
-- The deep copies of api/v1alpha1 are deep.
use kubeturbo_deploy.Prelude.{ℕ, String, Option, none, some, List, []}
use kubeturbo_deploy.Heap.{Pointer, Store}
use kubeturbo_deploy.Heap.Copies.{IsDeepCopy}
use kubeturbo_deploy.Heap.Slices.{view_each, reach_each}
use kubeturbo_deploy.Heap.Filled.{view_at, reach_at}
use kubeturbo_deploy.DeepCopy.Layout.{TypeMeta}
use kubeturbo_deploy.DeepCopy.Foreign.{Library}
use kubeturbo_deploy.V1alpha1.{
  AlphaSpec, AlphaStatus, AlphaKubeturbo, AlphaKubeturboList, AlphaCell, stored_alpha_spec,
  stored_alpha_status, stored_alpha, stored_alphas, stored_alpha_list, alpha_spec_deep_copy,
  alpha_status_deep_copy, alpha_deep_copy, alpha_list_deep_copy,
}

-- A struct without references shows itself, and reaches nothing.
abbrev plain_view : {M : Type 0} → Store AlphaCell → M → M
plain_view σ m = m

abbrev plain_reach : {M : Type 0} → Store AlphaCell → M → List ℕ
plain_reach σ m = []

abbrev alpha_list_view :
    Store AlphaCell → AlphaKubeturboList → TypeMeta × (String × List AlphaKubeturbo)
alpha_list_view σ m =
    (m.type_meta, (m.metadata, view_at (view_each plain_view) (λ ks. ks) [] σ m.items))

abbrev alpha_list_reach : Store AlphaCell → AlphaKubeturboList → List ℕ
alpha_list_reach σ m = reach_at (reach_each plain_reach) σ m.items

-- The four DeepCopy methods.
pub record AlphaAreDeep (lib : Library) : Type 0 where
  spec :
      IsDeepCopy {M = Option (Pointer AlphaSpec)}
        (view_at plain_view some none)
        (reach_at plain_reach)
        alpha_spec_deep_copy
  status :
      IsDeepCopy {M = Option (Pointer AlphaStatus)}
        (view_at plain_view some none)
        (reach_at plain_reach)
        alpha_status_deep_copy
  kubeturbo :
      IsDeepCopy {M = Option (Pointer AlphaKubeturbo)}
        (view_at plain_view some none)
        (reach_at plain_reach)
        (alpha_deep_copy lib)
  list :
      IsDeepCopy
        (view_at alpha_list_view some none)
        (reach_at alpha_list_reach)
        (alpha_list_deep_copy lib)
