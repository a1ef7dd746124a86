-- ===== src/DeepCopy/Foreign.antt =====
-- k8s.io/api and k8s.io/apimachinery, as the generated deep copies call them.
use kubeturbo_deploy.Prelude.{String, ◌≡◌}
use kubeturbo_deploy.Types.{ObjectMeta}

-- The deep copies of k8s.io's own types, whose values stand as encoded text.
pub record Library : Type 0 where
  pub affinity : String → String
  pub toleration : String → String
  pub quantity : String → String
  pub object_meta : ObjectMeta → ObjectMeta
  pub list_meta : String → String

-- Their documentation: the copy equals the value.
pub record IsLawful (lib : Library) : Type 0 where
  pub affinity : (a : String) → lib.affinity a ≡ a
  pub toleration : (t : String) → lib.toleration t ≡ t
  pub quantity : (q : String) → lib.quantity q ≡ q
  pub object_meta : (m : ObjectMeta) → lib.object_meta m ≡ m
  pub list_meta : (m : String) → lib.list_meta m ≡ m
