-- ===== src/V1alpha1.antt =====
-- api/v1alpha1: the older version of the resource (kubeturbo_types.go), whose specification and status
-- have no fields, and its deep copies (zz_generated.deepcopy.go), written as those of DeepCopy are.
pub mod Laws
use mathlib.Core.Option
use kubeturbo_deploy.Prelude.{String, ◌≡◌, refl, Option, none, some, List, [], ◌∷◌}
use kubeturbo_deploy.Types.{ObjectMeta}
use kubeturbo_deploy.Heap.{Pointer, Stored, Alloc, pure, ◌>>=◌, copy_struct, copy_slice}
use kubeturbo_deploy.DeepCopy.Layout.{TypeMeta}
use kubeturbo_deploy.DeepCopy.Zero.{zero_type_meta, zero_object_meta}
use kubeturbo_deploy.DeepCopy.Foreign.{Library}

pub data AlphaSpec : Type 0 where
  no_spec : AlphaSpec

pub data AlphaStatus : Type 0 where
  no_status : AlphaStatus

pub record AlphaKubeturbo : Type 0 where
  pub type_meta : TypeMeta
  pub metadata : ObjectMeta
  pub spec : AlphaSpec
  pub status : AlphaStatus

-- `metadata` is an encoded metav1.ListMeta.
pub record AlphaKubeturboList : Type 0 where
  pub type_meta : TypeMeta
  pub metadata : String
  pub items : Option (Pointer (List AlphaKubeturbo))

abbrev zero_alpha : AlphaKubeturbo
zero_alpha = record {
  type_meta = zero_type_meta;
  metadata = zero_object_meta;
  spec = no_spec;
  status = no_status;
}

abbrev zero_alpha_list : AlphaKubeturboList
zero_alpha_list = record { type_meta = zero_type_meta; metadata = ""; items = none }

pub data AlphaCell : Type 0 where
  spec_cell : AlphaSpec → AlphaCell
  status_cell : AlphaStatus → AlphaCell
  kubeturbo_cell : AlphaKubeturbo → AlphaCell
  kubeturbos_cell : List AlphaKubeturbo → AlphaCell
  list_cell : AlphaKubeturboList → AlphaCell

abbrev kubeturbo_of : AlphaCell → AlphaKubeturbo
kubeturbo_of (kubeturbo_cell k) = k
kubeturbo_of _ = zero_alpha

abbrev kubeturbos_of : AlphaCell → List AlphaKubeturbo
kubeturbos_of (kubeturbos_cell ks) = ks
kubeturbos_of _ = []

abbrev list_of : AlphaCell → AlphaKubeturboList
list_of (list_cell l) = l
list_of _ = zero_alpha_list

pub spec-eta : (s : AlphaSpec) → no_spec ≡ s
spec-eta no_spec = refl

pub status-eta : (s : AlphaStatus) → no_status ≡ s
status-eta no_status = refl

instance abbrev pub stored_alpha_spec : Stored AlphaCell AlphaSpec
stored_alpha_spec = record {
  default = no_spec;
  encode = spec_cell;
  decode = λ c. no_spec;
  decode-encode = spec-eta;
}

instance abbrev pub stored_alpha_status : Stored AlphaCell AlphaStatus
stored_alpha_status = record {
  default = no_status;
  encode = status_cell;
  decode = λ c. no_status;
  decode-encode = status-eta;
}

instance abbrev pub stored_alpha : Stored AlphaCell AlphaKubeturbo
stored_alpha = record {
  default = zero_alpha;
  encode = kubeturbo_cell;
  decode = kubeturbo_of;
  decode-encode = λ k. refl;
}

instance abbrev pub stored_alphas : Stored AlphaCell (List AlphaKubeturbo)
stored_alphas = record {
  default = [];
  encode = kubeturbos_cell;
  decode = kubeturbos_of;
  decode-encode = λ ks. refl;
}

instance abbrev pub stored_alpha_list : Stored AlphaCell AlphaKubeturboList
stored_alpha_list = record {
  default = zero_alpha_list;
  encode = list_cell;
  decode = list_of;
  decode-encode = λ l. refl;
}

unfoldable pub alpha_spec_deep_copy_into : AlphaSpec → Alloc AlphaCell AlphaSpec
alpha_spec_deep_copy_into obj = pure obj

unfoldable pub alpha_spec_deep_copy :
    Option (Pointer AlphaSpec) → Alloc AlphaCell (Option (Pointer AlphaSpec))
alpha_spec_deep_copy = copy_struct alpha_spec_deep_copy_into

unfoldable pub alpha_status_deep_copy_into : AlphaStatus → Alloc AlphaCell AlphaStatus
alpha_status_deep_copy_into obj = pure obj

unfoldable pub alpha_status_deep_copy :
    Option (Pointer AlphaStatus) → Alloc AlphaCell (Option (Pointer AlphaStatus))
alpha_status_deep_copy = copy_struct alpha_status_deep_copy_into

unfoldable pub alpha_deep_copy_into : Library → AlphaKubeturbo → Alloc AlphaCell AlphaKubeturbo
alpha_deep_copy_into lib obj = pure (record obj {
  type_meta = obj.type_meta;
  metadata = lib.object_meta obj.metadata;
  spec = obj.spec;
  status = obj.status;
})

unfoldable pub alpha_deep_copy :
    Library → Option (Pointer AlphaKubeturbo) → Alloc AlphaCell (Option (Pointer AlphaKubeturbo))
alpha_deep_copy lib = copy_struct (alpha_deep_copy_into lib)

unfoldable pub alpha_list_deep_copy_into :
    Library → AlphaKubeturboList → Alloc AlphaCell AlphaKubeturboList
alpha_list_deep_copy_into lib obj = do
  let metadata = lib.list_meta obj.metadata
  items ← copy_slice (alpha_deep_copy_into lib) obj.items
  pure (record obj { type_meta = obj.type_meta; metadata = metadata; items = items })

unfoldable pub alpha_list_deep_copy :
    Library
    → Option (Pointer AlphaKubeturboList)
    → Alloc AlphaCell (Option (Pointer AlphaKubeturboList))
alpha_list_deep_copy lib = copy_struct (alpha_list_deep_copy_into lib)

-- runtime.Object, with nil as `none`.
pub data AlphaObject : Type 0 where
  alpha_object : Pointer AlphaKubeturbo → AlphaObject
  alpha_list_object : Pointer AlphaKubeturboList → AlphaObject

unfoldable pub alpha_deep_copy_object :
    Library → Option (Pointer AlphaKubeturbo) → Alloc AlphaCell (Option AlphaObject)
alpha_deep_copy_object lib obj = do c ← alpha_deep_copy lib obj; pure (Option.map alpha_object c)

unfoldable pub alpha_list_deep_copy_object :
    Library → Option (Pointer AlphaKubeturboList) → Alloc AlphaCell (Option AlphaObject)
alpha_list_deep_copy_object lib obj = do
  c ← alpha_list_deep_copy lib obj
  pure (Option.map alpha_list_object c)
