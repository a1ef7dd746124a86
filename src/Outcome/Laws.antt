-- ===== src/Outcome/Laws.antt =====
-- Inversion of a successful sequence.
use kubeturbo_deploy.Prelude.{◌≡◌, refl, ap, arith}
use kubeturbo_deploy.Outcome.{Outcome, ok, err, panic, Error, Exec, continue, resume, handle, ◌>>=◌}

module _ {S A B : Type 0} where
  continue-eq-ok :
      (r : Outcome A) (s : S) (f : A → Exec S B) {b : B} {t : S}
      → continue r f s ≡ (ok b, t)
      → (a : A) × (r ≡ ok a) × (f a s ≡ (ok b, t))
  continue-eq-ok (ok a) s f h = (a, refl, h)
  continue-eq-ok (err e) s f h = ground arith
  continue-eq-ok panic s f h = ground arith

  -- A sequence that succeeds ran both parts, and both succeeded.
  pub bind-eq-ok :
      (m : Exec S A) (f : A → Exec S B) (s : S) {b : B} {t : S}
      → (m >>= f) s ≡ (ok b, t)
      → (a : A) × (u : S) × (m s ≡ (ok a, u)) × (f a u ≡ (ok b, t))
  bind-eq-ok m f s h =
      let (a, e, k) = continue-eq-ok (m s).0 (m s).1 f h in (a, (m s).1, λ i. (e i, (m s).1), k)

  -- A computation whose error is handled.
  pub handle-ok :
      (m : Exec S A) (g : Error → Exec S B) (f : A → Exec S B) {s t : S} {a : A}
      → m s ≡ (ok a, t)
      → handle m g f s ≡ f a t
  handle-ok m g f h = ap (λ (p : Outcome A × S). resume p.0 g f p.1) h

  pub handle-err :
      (m : Exec S A) (g : Error → Exec S B) (f : A → Exec S B) {s t : S} {e : Error}
      → m s ≡ (err e, t)
      → handle m g f s ≡ g e t
  handle-err m g f h = ap (λ (p : Outcome A × S). resume p.0 g f p.1) h
