-- ===== src/Finalizers/Laws.antt =====
-- When the resource is written back for its finalizers.
use kubeturbo_deploy.Prelude.{
  ℕ, zero, suc, String, ◌≡◌, ◌∙◌, refl, sym, ap, Bool, true, false, not, Option, none, some, List,
  [], ◌∷◌, ◌==◌, ◌&&◌, if◌then◌else◌, get_elem?, length, all, arith, inl, inr, Bool-cases,
  true-ne-false,
}
use kubeturbo_deploy.Constants.{kubeturbo_finalizer}
use kubeturbo_deploy.Finalizers.{
  ControllerUtil, Finalizing, visit, remove_foreign, ensure_finalizer,
}

abbrev pub is_own : String → Bool
is_own f = f == kubeturbo_finalizer

abbrev own_at : Option String → Bool
own_at none = true
own_at (some f) = is_own f

-- The `n` elements from `i` on are the operator's.
own_from : (n i : ℕ) → List String → Bool
own_from zero i fs = true
own_from (suc n) i fs = own_at (get_elem? fs i) && own_from n (suc i) fs

own_from-cons :
    (n i : ℕ) (f : String) (fs : List String) → own_from n (suc i) (f ∷ fs) ≡ own_from n i fs
unfolding own_from
own_from-cons zero i f fs = refl
own_from-cons (suc n) i f fs = ap (own_at (get_elem? fs i) &&◌) (own_from-cons n (suc i) f fs)

own_from-all : (fs : List String) → own_from (length fs) 0 fs ≡ all is_own fs
unfolding own_from
own_from-all [] = refl
own_from-all (f ∷ fs) = ap (is_own f &&◌) (own_from-cons (length fs) 0 f fs ∙ own_from-all fs)

module _ (util : ControllerUtil) where
  start : List String → Finalizing util
  start fs = record { ranged = fs; finalizers = fs; need_to_update_cr = false }

  visit-own :
      (i : ℕ) (fs : List String)
      → own_at (get_elem? fs i) ≡ true
      → visit util i (start fs) ≡ start fs
  unfolding start
  visit-own i fs e = ground arith

  visit-foreign :
      (i : ℕ) (fs : List String)
      → own_at (get_elem? fs i) ≡ false
      → (visit util i (start fs)).need_to_update_cr ≡ true
  unfolding start
  visit-foreign i fs e = ground arith

  visit-sticky :
      (i : ℕ) (s : Finalizing util)
      → s.need_to_update_cr ≡ true
      → (visit util i s).need_to_update_cr ≡ true
  visit-sticky i s e = ground arith

  sticky :
      (n i : ℕ) (s : Finalizing util)
      → s.need_to_update_cr ≡ true
      → (remove_foreign util n i s).need_to_update_cr ≡ true
  unfolding remove_foreign
  sticky zero i s e = e
  sticky (suc n) i s e = sticky n (suc i) (visit util i s) (visit-sticky i s e)

  -- Up to the first foreign finalizer the loop changes nothing, so that it does not miss it.
  remove_foreign-own :
      (n i : ℕ) (fs : List String)
      → own_from n i fs ≡ true
      → remove_foreign util n i (start fs) ≡ start fs
  unfolding remove_foreign own_from
  remove_foreign-own zero i fs e = refl
  remove_foreign-own (suc n) i fs e =
      ap (remove_foreign util n (suc i)) (visit-own i fs (ground arith))
      ∙ remove_foreign-own n (suc i) fs (ground arith)

  remove_foreign-foreign :
      (n i : ℕ) (fs : List String)
      → own_from n i fs ≡ false
      → (remove_foreign util n i (start fs)).need_to_update_cr ≡ true
  unfolding remove_foreign own_from
  remove_foreign-foreign zero i fs e = absurd (true-ne-false e)
  remove_foreign-foreign (suc n) i fs e = elim (Bool-cases (own_at (get_elem? fs i))) [
    | inl own ↦
        ap (λ s. (remove_foreign util n (suc i) s).need_to_update_cr) (visit-own i fs own)
        ∙ remove_foreign-foreign n (suc i) fs (ground arith)
    | inr foreign ↦ sticky n (suc i) (visit util i (start fs)) (visit-foreign i fs foreign)
  ]

  loop : List String → Finalizing util
  loop fs = remove_foreign util (length fs) 0 (start fs)

  loop-own : (fs : List String) → all is_own fs ≡ true → loop fs ≡ start fs
  unfolding loop
  loop-own fs e = remove_foreign-own (length fs) 0 fs (own_from-all fs ∙ e)

  loop-foreign : (fs : List String) → all is_own fs ≡ false → (loop fs).need_to_update_cr ≡ true
  unfolding loop
  loop-foreign fs e = remove_foreign-foreign (length fs) 0 fs (own_from-all fs ∙ e)

  abbrev add_own : Finalizing util → Finalizing util
  add_own s =
      if not (util.contains_finalizer s.finalizers kubeturbo_finalizer)
      then record s {
        finalizers = util.add_finalizer s.finalizers kubeturbo_finalizer;
        need_to_update_cr = true;
      }
      else s

  ensure_finalizer-add_own : (fs : List String) → ensure_finalizer util fs ≡ add_own (loop fs)
  unfolding ensure_finalizer start loop
  ensure_finalizer-add_own fs = refl

  add_own-start :
      (fs : List String)
      → (add_own (start fs)).need_to_update_cr
        ≡ not (util.contains_finalizer fs kubeturbo_finalizer)
  unfolding start
  add_own-start fs = ground arith

  add_own-sticky :
      (s : Finalizing util) → s.need_to_update_cr ≡ true → (add_own s).need_to_update_cr ≡ true
  add_own-sticky s e = ground arith

  add_own-keeps : (s : Finalizing util) → (add_own s).need_to_update_cr ≡ false → add_own s ≡ s
  add_own-keeps s e = ground arith

  -- Whatever controllerutil's functions do, also to the array that is ranged over: the resource is to
  -- be written back unless every finalizer is the operator's and the operator's is there.
  pub ensure_finalizer-need :
      (fs : List String)
      → (ensure_finalizer util fs).need_to_update_cr
        ≡ not (all is_own fs && util.contains_finalizer fs kubeturbo_finalizer)
  ensure_finalizer-need fs =
      ap (λ (s : Finalizing util). s.need_to_update_cr) (ensure_finalizer-add_own fs)
      ∙ elim (Bool-cases (all is_own fs)) [
        | inl e ↦ rw e (ap (λ s. (add_own s).need_to_update_cr) (loop-own fs e) ∙ add_own-start fs)
        | inr e ↦ rw e (add_own-sticky (loop fs) (loop-foreign fs e))
      ]

  -- A resource that is not to be written back has the finalizers that it had.
  pub ensure_finalizer-keeps :
      (fs : List String)
      → (ensure_finalizer util fs).need_to_update_cr ≡ false
      → (ensure_finalizer util fs).finalizers ≡ fs
  unfolding start
  ensure_finalizer-keeps fs h =
      let e = ensure_finalizer-add_own fs in
      let kept =
        add_own-keeps (loop fs) (ap (λ (s : Finalizing util). s.need_to_update_cr) (sym e) ∙ h) in
      elim (Bool-cases (all is_own fs)) [
        | inl own ↦ ap (λ (s : Finalizing util). s.finalizers) (e ∙ kept ∙ loop-own fs own)
        | inr foreign ↦ absurd (
            true-ne-false (
              sym (loop-foreign fs foreign)
              ∙ ap (λ (s : Finalizing util). s.need_to_update_cr) (sym kept ∙ sym e)
              ∙ h))
      ]
