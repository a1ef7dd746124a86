-- ===== src/Outcome.antt =====
-- Go's errors and panics as values, and stateful code that may fail: what was done before a failure
-- stays done, so the state comes back beside the error too. `Error` has the errors that the code
-- tells apart: constants.ErrRequeueOnDeletion (internal/constants/constants.go), the API server's
-- "not found" and "conflict", and all others by their text.
pub mod Laws
use kubeturbo_deploy.Prelude.{String, Bool, true, false, Option, none, some, if◌then◌else◌}

pub data Error : Type 0 where
  requeue_on_deletion : Error
  not_found : Error
  conflict : Error
  failure : String → Error

-- errors.IsConflict(err), errors.IsNotFound(err) and err == constants.ErrRequeueOnDeletion
abbrev pub is_conflict : Error → Bool
is_conflict conflict = true
is_conflict _ = false

abbrev pub is_not_found : Error → Bool
is_not_found not_found = true
is_not_found _ = false

abbrev pub is_requeue_on_deletion : Error → Bool
is_requeue_on_deletion requeue_on_deletion = true
is_requeue_on_deletion _ = false

pub data Outcome {ℓ} (A : Type ℓ) : Type ℓ where
  ok : A → Outcome A
  err : Error → Outcome A
  panic : Outcome A

abbrev pub and_then {ℓ κ} : {A : Type ℓ} {B : Type κ} → Outcome A → (A → Outcome B) → Outcome B
and_then (ok a) f = f a
and_then (err e) f = err e
and_then panic f = panic

abbrev pub Exec : Type 0 → Type 0 → Type 0
Exec S A = S → Outcome A × S

abbrev pub caught {ℓ} : {A : Type ℓ} → Outcome A → Outcome (Option Error)
caught (ok a) = ok none
caught (err e) = ok (some e)
caught panic = panic

module _ {S A : Type 0} where
  abbrev pub pure : A → Exec S A
  pure a s = (ok a, s)

  abbrev pub fail : Error → Exec S A
  fail e s = (err e, s)

  -- A computation that does not touch the state.
  abbrev pub lift : Outcome A → Exec S A
  lift r s = (r, s)

  abbrev pub gets : (S → A) → Exec S A
  gets f s = (ok (f s), s)

  -- The error as a value: `if err := m(); err != nil { … }`. A panic goes through.
  abbrev pub attempt : Exec S A → Exec S (Option Error)
  attempt m s = let (r, s') = m s in (caught r, s')

abbrev pub modify : {S : Type 0} → (S → S) → Exec S (Unit {0})
modify f s = (ok tt, f s)

module _ {S A B : Type 0} where
  abbrev pub continue : Outcome A → (A → Exec S B) → Exec S B
  continue (ok a) f s = f a s
  continue (err e) f s = (err e, s)
  continue panic f s = (panic, s)

  infixl 5 ◌>>=◌ ◌>>◌
  abbrev pub ◌>>=◌ : Exec S A → (A → Exec S B) → Exec S B
  ◌>>=◌ m f s = let (r, s') = m s in continue r f s'

  abbrev pub ◌>>◌ : Exec S A → Exec S B → Exec S B
  m >> n = m >>= λ _. n

  abbrev pub resume : Outcome A → (Error → Exec S B) → (A → Exec S B) → Exec S B
  resume (ok a) on_error f s = f a s
  resume (err e) on_error f s = on_error e s
  resume panic on_error f s = (panic, s)

  -- `v, err := m(); if err != nil { return on_error(err) }; …`
  abbrev pub handle : Exec S A → (Error → Exec S B) → (A → Exec S B) → Exec S B
  handle m on_error f s = let (r, s') = m s in resume r on_error f s'
