-- ===== src/Heap/Filled.antt =====
-- What is behind a pointer: the deep copy of a struct or of a slice is allocated, and then filled.
use kubeturbo_deploy.Prelude.{
  ℕ, suc, ◌≡◌, ◌≤◌, ◌<◌, refl, sym, ap, ◌∙◌, subst, Option, none, some, List, [], ◌∷◌, arith, All,
  map,
}
use kubeturbo_deploy.Heap.{
  Pointer, Store, Stored, Alloc, put, read, new, copy_filled, copy_struct, copy_slice,
}
use kubeturbo_deploy.Heap.Slices.{view_each, reach_each, each-IsDeepCopy}
use kubeturbo_deploy.Heap.Copies.{
  Between, All-mono, Same, IsCopy, IsDeepCopy, put_other, put_same, copied_after,
}

module _ {Cell : Type 0} where
  -- What a pointer to a struct shows, and what is reached from it, with `z` shown if it is nil.
  module _ {A : Type 0} ⦃s : Stored Cell A⦄ where
    abbrev pub view_at :
        {V W : Type 0} → (Store Cell → A → V) → (V → W) → W → Store Cell → Option (Pointer A) → W
    view_at view w z σ none = z
    view_at view w z σ (some p) = w (view σ (read σ p))

    abbrev pub reach_at : (Store Cell → A → List ℕ) → Store Cell → Option (Pointer A) → List ℕ
    reach_at reach σ none = []
    reach_at reach σ (some p) = p.address ∷ reach σ (read σ p)

  -- What is allocated and then filled by the copy of a struct or of the elements of a slice.
  module _ {A V : Type 0} ⦃s : Stored Cell A⦄ {view : Store Cell → A → V}
      {reach : Store Cell → A → List ℕ} {into : A → Alloc Cell A}
      (d : IsDeepCopy view reach into) where
    module _ {W : Type 0} (w : V → W) (z : W) where
      pub frame_at :
          (m : Option (Pointer A)) (σ τ : Store Cell)
          → All (Same σ τ) (reach_at reach σ m)
          → (view_at view w z τ m ≡ view_at view w z σ m)
            × (reach_at reach τ m ≡ reach_at reach σ m)
      frame_at none σ τ h = (refl, refl)
      frame_at (some p) σ τ (e, h) =
          let (v, r) = d.frame (read σ p) σ τ h in
          let at : read τ p ≡ read σ p = ap s.decode e in
          (
            ap (λ m. w (view τ m)) at ∙ ap w v,
            ap (λ m. p.address ∷ reach τ m) at ∙ ap (λ xs. p.address ∷ xs) r,
          )

      pub copied_filled :
          (blank : A) (p : Pointer A) (σ : Store Cell)
          → All (λ a. a < σ.next) (reach_at reach σ (some p))
          → IsCopy
              (view_at view w z)
              (reach_at reach)
              σ
              (some p)
              (copy_filled into blank (read σ p) σ).1
              (copy_filled into blank (read σ p) σ).0
      copied_filled blank p σ (lt, h) =
          let m = read σ p in
          let q = σ.next in
          let σ' = (new blank σ).1 in
          let kept_by_new : (a : ℕ) → a < σ.next → Same σ σ' a =
            λ a lt. put_other q a (s.encode blank) (record σ { next = suc q }) (omega arith) in
          let (c, shown) = copied_after d m σ σ' (omega arith) kept_by_new h in
          let m' = (into m σ').0 in
          let τ' = (into m σ').1 in
          let τ = put q (s.encode m') τ' in
          let grows : suc q ≤ τ'.next = c.grows in
          let kept = d.frame m' τ' τ (
            All-mono (λ a between. put_other q a (s.encode m') τ' (omega (arith, between.0))) _
              c.fresh) in
          let at : read τ (record { address = q }) ≡ m' =
            ap s.decode (put_same q (s.encode m') τ') ∙ s.decode-encode m' in
          record {
            grows = omega arith;
            keeps = λ a lt.
                put_other q a (s.encode m') τ' (omega arith)
                ∙ c.keeps a (omega arith)
                ∙ kept_by_new a lt;
            same = ap (λ m. w (view τ m)) at ∙ ap w (kept.0 ∙ c.same ∙ shown);
            fresh = (
              (omega arith, omega arith),
              subst (All (Between q τ'.next)) (sym (ap (reach τ) at ∙ kept.1))
                  (All-mono (λ a between. (omega (arith, between.0), between.1)) _ c.fresh),
            );
          }

    pub struct-IsDeepCopy :
        {W : Type 0} (w : V → W) (z : W)
        → IsDeepCopy (view_at view w z) (reach_at reach) (copy_struct into)
    struct-IsDeepCopy w z = record { frame = frame_at w z; copied = copied }
      where
        copied :
            (m : Option (Pointer A)) (σ : Store Cell)
            → All (λ a. a < σ.next) (reach_at reach σ m)
            → IsCopy
                (view_at view w z)
                (reach_at reach)
                σ
                m
                (copy_struct into m σ).1
                (copy_struct into m σ).0
        copied none σ h = record {
          grows = omega arith;
          keeps = λ a lt. refl;
          same = refl;
          fresh = tt;
        }
        copied (some p) σ h = copied_filled w z s.default p σ h

  -- A slice of structs.
  module _ {A V : Type 0} ⦃s : Stored Cell A⦄ ⦃t : Stored Cell (List A)⦄ {view : Store Cell → A → V}
      {reach : Store Cell → A → List ℕ} {into : A → Alloc Cell A}
      (d : IsDeepCopy view reach into) where
    pub slice-IsDeepCopy :
        IsDeepCopy
          (view_at (view_each view) (λ vs. vs) [])
          (reach_at (reach_each reach))
          (copy_slice into)
    slice-IsDeepCopy = record {
      frame = frame_at (each-IsDeepCopy d) (λ vs. vs) [];
      copied = copied;
    }
      where
        copied :
            (m : Option (Pointer (List A))) (σ : Store Cell)
            → All (λ a. a < σ.next) (reach_at (reach_each reach) σ m)
            → IsCopy
                (view_at (view_each view) (λ vs. vs) [])
                (reach_at (reach_each reach))
                σ
                m
                (copy_slice into m σ).1
                (copy_slice into m σ).0
        copied none σ h = record {
          grows = omega arith;
          keeps = λ a lt. refl;
          same = refl;
          fresh = tt;
        }
        copied (some p) σ h =
            copied_filled (each-IsDeepCopy d) (λ vs. vs) [] (map (λ _. s.default) (read σ p)) p σ h
