-- ===== src/Heap/Copies.antt =====
-- What a deep copy promises, and that the copies of pointers, maps, slices and structs compose.
use kubeturbo_deploy.Prelude.{
  ℕ, suc, ◌≡◌, ◌≢◌, ◌≤◌, ◌<◌, refl, sym, ap, ◌∙◌, subst, Option, none, some, List, [], ◌∷◌, ◌++◌,
  arith, All, All-append,
}
use kubeturbo_deploy.Heap.{
  Pointer, Store, Stored, Alloc, refers, pure, ◌>>=◌, put, read, shows, copy_with,
}

abbrev pub Between : ℕ → ℕ → ℕ → Type 0
Between low high a = (low ≤ a) × (a < high)

pub All-mono : {P Q : ℕ → Type 0} → ((a : ℕ) → P a → Q a) → (xs : List ℕ) → All P xs → All Q xs
All-mono h [] p = tt
All-mono h (x ∷ xs) (p, ps) = (h x p, All-mono h xs ps)

module _ (P : ℕ → Type 0) where
  pub All-left : (xs ys : List ℕ) → All P (xs ++ ys) → All P xs
  All-left [] ys h = tt
  All-left (x ∷ xs) ys (p, h) = (p, All-left xs ys h)

  pub All-right : (xs ys : List ℕ) → All P (xs ++ ys) → All P ys
  All-right [] ys h = h
  All-right (x ∷ xs) ys (p, h) = All-right xs ys h

module _ {Cell : Type 0} where
  -- The addresses at which two memories agree.
  abbrev pub Same : Store Cell → Store Cell → ℕ → Type 0
  Same σ τ a = τ.cells a ≡ σ.cells a

  module _ {M V : Type 0} (view : Store Cell → M → V) (reach : Store Cell → M → List ℕ) where
    -- What has become of the memory σ and of the value m once m' is a copy of m in τ: the cells of σ are
    -- as they were, m' shows what m shows, and all that is reached from m' is new.
    pub record IsCopy (σ : Store Cell) (m : M) (τ : Store Cell) (m' : M) : Type 0 where
      pub grows : σ.next ≤ τ.next
      pub keeps : (a : ℕ) → a < σ.next → Same σ τ a
      pub same : view τ m' ≡ view σ m
      pub fresh : All (Between σ.next τ.next) (reach τ m')

    -- The view and the reach of a value stand on the cells that it reaches, and a copy is one.
    pub record IsDeepCopy (copy : M → Alloc Cell M) : Type 0 where
      pub frame :
          (m : M) (σ τ : Store Cell)
          → All (Same σ τ) (reach σ m)
          → (view τ m ≡ view σ m) × (reach τ m ≡ reach σ m)
      pub copied :
          (m : M) (σ : Store Cell)
          → All (λ a. a < σ.next) (reach σ m)
          → IsCopy σ m (copy m σ).1 (copy m σ).0

  -- A struct without references.
  pub plain-IsDeepCopy : {M : Type 0} → IsDeepCopy {M = M} (λ σ m. m) (λ σ m. []) pure
  plain-IsDeepCopy = record {
    frame = λ m σ τ h. (refl, refl);
    copied = λ m σ h. record { grows = omega arith; keeps = λ a lt. refl; same = refl; fresh = tt };
  }

  pub put_other :
      (a b : ℕ) (c : Cell) (σ : Store Cell) → (a ≡ b → ⊥) → (put a c σ).cells b ≡ σ.cells b
  put_other a b c σ ne = ground arith

  pub put_same : (a : ℕ) (c : Cell) (σ : Store Cell) → (put a c σ).cells a ≡ c
  put_same a c σ = ground arith

  -- A pointer to a value without references, a map or a slice of such values.
  module _ {A V : Type 0} ⦃s : Stored Cell A⦄ (w : A → V) (z : V) (g : A → A) where
    pub copy_with-IsDeepCopy :
        ((a : A) → w (g a) ≡ w a) → IsDeepCopy (shows w z) (λ σ m. refers m) (copy_with g)
    copy_with-IsDeepCopy same = record { frame = framed; copied = copy }
      where
        framed :
            (m : Option (Pointer A)) (σ τ : Store Cell)
            → All (Same σ τ) (refers m)
            → (shows w z τ m ≡ shows w z σ m) × (refers m ≡ refers m)
        framed none σ τ h = (refl, refl)
        framed (some p) σ τ (h, _) = (ap (λ c. w (s.decode c)) h, refl)

        copy :
            (m : Option (Pointer A)) (σ : Store Cell)
            → All (λ a. a < σ.next) (refers m)
            → IsCopy (shows w z) (λ σ m. refers m) σ m (copy_with g m σ).1 (copy_with g m σ).0
        copy none σ h = record {
          grows = omega arith;
          keeps = λ a lt. refl;
          same = refl;
          fresh = tt;
        }
        copy (some p) σ h = record {
          grows = omega arith;
          keeps = λ a lt. put_other σ.next a _ σ (omega arith);
          same =
              ap (λ c. w (s.decode c)) (put_same σ.next _ (record σ { next = suc σ.next }))
              ∙ ap w (s.decode-encode (g (read σ p)))
              ∙ same (read σ p);
          fresh = ((omega arith, omega arith), tt);
        }

  module _ {M V : Type 0} {view : Store Cell → M → V} {reach : Store Cell → M → List ℕ}
      {copy : M → Alloc Cell M} (d : IsDeepCopy view reach copy) where
    -- A memory that keeps the cells in use keeps what a value shows and reaches.
    pub frame_kept :
        (m : M) (σ τ : Store Cell)
        → ((a : ℕ) → a < σ.next → Same σ τ a)
        → All (λ a. a < σ.next) (reach σ m)
        → (view τ m ≡ view σ m) × (reach τ m ≡ reach σ m)
    frame_kept m σ τ keeps h = d.frame m σ τ (All-mono keeps (reach σ m) h)

    -- Once a copy is made, a change of cells that are reached from it, or not in use, leaves what was
    -- copied as it was, and a change of cells that are reached from what was copied, or not in use, leaves
    -- the copy.
    pub copies_apart :
        (m : M) (σ υ : Store Cell)
        → All (λ a. a < σ.next) (reach σ m)
        → let m' : M = (copy m σ).0 in
          let τ : Store Cell = (copy m σ).1 in
          (((a : ℕ) → a < τ.next → All (λ b. a ≢ b) (reach τ m') → Same τ υ a)
            → view υ m ≡ view σ m)
          × (((a : ℕ) → a < τ.next → All (λ b. a ≢ b) (reach σ m) → Same τ υ a)
              → view υ m' ≡ view σ m)
    copies_apart m σ υ h =
        let c = d.copied m σ h in
        let grows : σ.next ≤ (copy m σ).1.next = c.grows in
        (
          λ changed.
              (d.frame m σ υ (
                All-mono
                  (λ a lt.
                    changed a (omega arith)
                      (All-mono (λ b between. omega (arith, between.0)) _ c.fresh)
                    ∙ c.keeps a lt)
                  _ h)).0,
          λ changed.
              (d.frame _ _ υ (
                All-mono
                  (λ a between.
                    changed a between.1 (All-mono (λ b lt. omega (arith, between.0)) _ h))
                  _ c.fresh)).0
              ∙ c.same,
        )

    -- Two copies, one after the other, are a copy of both.
    pub IsCopy-both :
        {N W : Type 0} {view' : Store Cell → N → W} {reach' : Store Cell → N → List ℕ} {a a' : M}
        {b b' : N} {σ σ' τ : Store Cell}
        → IsCopy view reach σ a σ' a'
        → IsCopy view' reach' σ' b τ b'
        → view' σ' b ≡ view' σ b
        → IsCopy {M = M × N} {V = V × W}
            (λ σ m. (view σ m.0, view' σ m.1))
            (λ σ m. reach σ m.0 ++ reach' σ m.1)
            σ
            (a, b)
            τ
            (a', b')
    IsCopy-both {a'} {σ} {σ'} {τ} one two shown =
        let back = frame_kept a' σ' τ two.keeps (All-mono (λ a p. p.1) _ one.fresh) in
        let grows : σ'.next ≤ τ.next = two.grows in
        let grew : σ.next ≤ σ'.next = one.grows in
        record {
          grows = omega arith;
          keeps = λ a lt. two.keeps a (omega arith) ∙ one.keeps a lt;
          same = λ i. ((back.0 ∙ one.same) i, (two.same ∙ shown) i);
          fresh =
              All-append (Between σ.next τ.next) _ _
                (subst (All (Between σ.next τ.next)) (sym back.1)
                  (All-mono (λ a p. (p.0, omega arith)) _ one.fresh))
                (All-mono (λ a p. (omega arith, p.1)) _ two.fresh);
        }

    -- A copy of `m` that is made after other steps is one of `m` as it was.
    pub copied_after :
        (m : M) (σ τ : Store Cell)
        → σ.next ≤ τ.next
        → ((a : ℕ) → a < σ.next → Same σ τ a)
        → All (λ a. a < σ.next) (reach σ m)
        → IsCopy view reach τ m (copy m τ).1 (copy m τ).0 × (view τ m ≡ view σ m)
    copied_after m σ τ grows keeps h =
        let kept = frame_kept m σ τ keeps h in
        (
          d.copied m τ (
              subst (All (λ a. a < τ.next)) (sym kept.1)
                (All-mono (λ a lt. omega arith) (reach σ m) h)),
          kept.0,
        )

  -- Two fields, one after the other.
  module _ {M N V W : Type 0} {view : Store Cell → M → V} {reach : Store Cell → M → List ℕ}
      {copy : M → Alloc Cell M} {view' : Store Cell → N → W} {reach' : Store Cell → N → List ℕ}
      {copy' : N → Alloc Cell N} (first : IsDeepCopy view reach copy)
      (second : IsDeepCopy view' reach' copy') where
    abbrev view_both : Store Cell → M × N → V × W
    view_both σ m = (view σ m.0, view' σ m.1)

    abbrev reach_both : Store Cell → M × N → List ℕ
    reach_both σ m = reach σ m.0 ++ reach' σ m.1

    abbrev copy_both : M × N → Alloc Cell (M × N)
    copy_both m = do a ← copy m.0; b ← copy' m.1; pure (a, b)

    frame_both :
        (m : M × N) (σ τ : Store Cell)
        → All (Same σ τ) (reach_both σ m)
        → (view_both τ m ≡ view_both σ m) × (reach_both τ m ≡ reach_both σ m)
    frame_both (a, b) σ τ h =
        let (v, r) = first.frame a σ τ (All-left (Same σ τ) _ _ h) in
        let (v', r') = second.frame b σ τ (All-right (Same σ τ) (reach σ a) _ h) in
        (λ i. (v i, v' i), λ i. r i ++ r' i)

    copied_both :
        (m : M × N) (σ : Store Cell)
        → All (λ a. a < σ.next) (reach_both σ m)
        → IsCopy view_both reach_both σ m (copy_both m σ).1 (copy_both m σ).0
    copied_both (a, b) σ h =
        let one = first.copied a σ (All-left (λ a. a < σ.next) _ _ h) in
        let (two, shown) =
          copied_after second b σ (copy a σ).1 one.grows one.keeps
            (All-right (λ a. a < σ.next) (reach σ a) _ h) in
        IsCopy-both first one two shown

    infixl 5 ◌⊗◌
    pub ◌⊗◌ : IsDeepCopy view_both reach_both copy_both
    ◌⊗◌ = record { frame = frame_both; copied = copied_both }
