-- ===== src/Heap/Slices.antt =====
-- Deep copies compose: over the fields of a struct, and over the elements of a slice.
use kubeturbo_deploy.Prelude.{
  ℕ, ◌≡◌, ◌≤◌, ◌<◌, refl, sym, ap, ◌∙◌, subst, List, [], ◌∷◌, ◌++◌, arith, All, map,
}
use kubeturbo_deploy.Heap.{Store, Alloc, pure, ◌>>=◌, each}
use kubeturbo_deploy.Heap.Copies.{
  Between, All-mono, All-left, All-right, Same, IsCopy, IsDeepCopy, IsCopy-both,
}

-- The fields of a struct as one value.
infixl 5 ◌&◌
abbrev pub ◌&◌ : {A B : Type 0} → A → B → A × B
a & b = (a, b)

module _ {Cell : Type 0} where
  -- What the elements of a slice show, and what they reach.
  abbrev pub view_each : {M V : Type 0} → (Store Cell → M → V) → Store Cell → List M → List V
  view_each view σ xs = map (view σ) xs

  abbrev pub reach_each : {M : Type 0} → (Store Cell → M → List ℕ) → Store Cell → List M → List ℕ
  reach_each reach σ [] = []
  reach_each reach σ (x ∷ xs) = reach σ x ++ reach_each reach σ xs

  -- A struct that is copied field by field: `out` is what the copies of the fields make of it, and `show`
  -- what its fields make of the view.
  module _ {M N V W : Type 0} {view : Store Cell → N → W} {reach : Store Cell → N → List ℕ}
      {copy : N → Alloc Cell N} (fields : M → N) (out : M → N → M) (show : M → W → V)
      (d : IsDeepCopy view reach copy) (fields-out : (m : M) (n : N) → fields (out m n) ≡ n)
      (show-out : (m : M) (n : N) (w : W) → show (out m n) w ≡ show m w) where
    abbrev view_fields : Store Cell → M → V
    view_fields σ m = show m (view σ (fields m))

    abbrev reach_fields : Store Cell → M → List ℕ
    reach_fields σ m = reach σ (fields m)

    abbrev copy_fields : M → Alloc Cell M
    copy_fields m = do n ← copy (fields m); pure (out m n)

    pub fields-IsDeepCopy : IsDeepCopy view_fields reach_fields copy_fields
    fields-IsDeepCopy = record {
      frame = λ m σ τ h. let (v, r) = d.frame (fields m) σ τ h in (ap (show m) v, r);
      copied = λ m σ h.
          let c = d.copied (fields m) σ h in
          let e : fields (out m (copy (fields m) σ).0) ≡ (copy (fields m) σ).0 = fields-out m _ in
          record {
            grows = c.grows;
            keeps = c.keeps;
            same =
                show-out m _ _
                ∙ ap (λ n. show m (view (copy (fields m) σ).1 n)) e
                ∙ ap (show m) c.same;
            fresh =
                subst
                  (λ n.
                    All (Between σ.next (copy (fields m) σ).1.next) (reach (copy (fields m) σ).1 n))
                  (sym e) c.fresh;
          };
    }

  -- A loop of copies over the elements of a slice.
  module _ {M V : Type 0} {view : Store Cell → M → V} {reach : Store Cell → M → List ℕ}
      {copy : M → Alloc Cell M} (d : IsDeepCopy view reach copy) where
    frame_each :
        (xs : List M) (σ τ : Store Cell)
        → All (Same σ τ) (reach_each reach σ xs)
        → (view_each view τ xs ≡ view_each view σ xs)
          × (reach_each reach τ xs ≡ reach_each reach σ xs)
    frame_each [] σ τ h = (refl, refl)
    frame_each (x ∷ xs) σ τ h =
        let (v, r) = d.frame x σ τ (All-left (Same σ τ) _ _ h) in
        let (v', r') = frame_each xs σ τ (All-right (Same σ τ) (reach σ x) _ h) in
        (λ i. v i ∷ v' i, λ i. r i ++ r' i)

    copied_each :
        (xs : List M) (σ : Store Cell)
        → All (λ a. a < σ.next) (reach_each reach σ xs)
        → IsCopy (view_each view) (reach_each reach) σ xs (each copy xs σ).1 (each copy xs σ).0
    copied_each [] σ h = record {
      grows = omega arith;
      keeps = λ a lt. refl;
      same = refl;
      fresh = tt;
    }
    copied_each (x ∷ xs) σ h =
        let σ' = (copy x σ).1 in
        let h' = All-right (λ a. a < σ.next) (reach σ x) _ h in
        let one = d.copied x σ (All-left (λ a. a < σ.next) _ _ h) in
        let kept = frame_each xs σ σ' (All-mono one.keeps (reach_each reach σ xs) h') in
        let grew : σ.next ≤ σ'.next = one.grows in
        let two = copied_each xs σ' (
          subst (All (λ a. a < σ'.next)) (sym kept.1)
            (All-mono (λ a lt. omega arith) (reach_each reach σ xs) h')) in
        let both = IsCopy-both d one two kept.0 in
        record {
          grows = both.grows;
          keeps = both.keeps;
          same = ap (λ p. p.0 ∷ p.1) both.same;
          fresh = both.fresh;
        }

    pub each-IsDeepCopy : IsDeepCopy (view_each view) (reach_each reach) (each copy)
    each-IsDeepCopy = record { frame = frame_each; copied = copied_each }
