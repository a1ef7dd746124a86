-- ===== src/Utils/Laws.antt =====
-- What the helpers of internal/utils promise.
use kubeturbo_deploy.Prelude.{
  String, ◌≡◌, refl, ap, ◌↔◌, true, none, some, List, [], ◌∷◌, ◌++◌, arith, eq_iff, Any,
}
use kubeturbo_deploy.Prelude.Maps.{Map, lookup, lookup-insert, NodupKeys}
use kubeturbo_deploy.Outcome.{Error, Outcome, ok, err, ◌>>◌}
use kubeturbo_deploy.Outcome.Laws.{bind-eq-ok}
use kubeturbo_deploy.Utils.{ErrorFn, return_on_error, put, put_all, string_in_slice}

-- Appending a list of functions runs them after the first list, and only if that succeeds.
pub return_on_error-append :
    {S : Type 0} (fs gs : List (ErrorFn S)) (s : S)
    → return_on_error (fs ++ gs) s ≡ (return_on_error fs >> return_on_error gs) s
unfolding return_on_error
return_on_error-append [] gs s = refl
return_on_error-append (f ∷ fs) gs s = ground (arith, return_on_error-append fs gs (f s).1)

lookup-put_all_fresh :
    {V : Type 0} (k : String) (mb m : Map V)
    → lookup k m ≡ none
    → lookup k (put_all mb m) ≡ lookup k mb
unfolding put_all put lookup
lookup-put_all_fresh k mb [] h = refl
lookup-put_all_fresh k mb ((j, v) ∷ m) h =
    ground (arith, eq_iff j k, lookup-insert j k v mb, lookup-put_all_fresh k (put mb j v) m)

pub lookup-put_all :
    {V : Type 0} (k : String) (mb m : Map V)
    → NodupKeys m
    → lookup k (put_all mb m) ≡ (elim (lookup k m) [ none ↦ lookup k mb | some v ↦ some v ])
unfolding put_all put lookup
lookup-put_all k mb [] u = refl
lookup-put_all k mb ((j, v) ∷ m) (fresh, u) = ground (
  arith,
  eq_iff j k,
  lookup-insert j k v mb,
  lookup-put_all k (put mb j v) m u,
  lookup-put_all_fresh k (put mb j v) m,
)

-- Two maps with the same entries, in whatever order their entries come, fill a builder alike.
pub lookup-put_all_order :
    {V : Type 0} (k : String) (mb m n : Map V)
    → NodupKeys m
    → NodupKeys n
    → ((j : String) → lookup j m ≡ lookup j n)
    → lookup k (put_all mb m) ≡ lookup k (put_all mb n)
lookup-put_all_order k mb m n u v same =
    ground (arith, lookup-put_all k mb m u, lookup-put_all k mb n v, same k)

-- The first error ends the run: the functions before it have run, those after it have not.
pub return_on_error_stops :
    {S : Type 0} (before after : List (ErrorFn S)) (f : ErrorFn S) (s u v : S) (e : Error)
    → return_on_error before s ≡ (ok tt, u)
    → f u ≡ (err e, v)
    → return_on_error (before ++ (f ∷ after)) s ≡ (err e, v)
unfolding return_on_error
return_on_error_stops before after f s u v e ran failed =
    ground (arith, return_on_error-append before (f ∷ after) s)

pub string_in_slice_iff :
    (str : String) (list : List String)
    → (string_in_slice str list ≡ true) ↔ Any (λ i. i ≡ str) list
unfolding string_in_slice
string_in_slice_iff str [] = (λ h. cc, λ h. absurd h)
string_in_slice_iff str (item ∷ list) =
    ground (arith, eq_iff item str, string_in_slice_iff str list)

-- Functions that succeed together succeeded one by one.
pub return_on_error-cons :
    {S : Type 0} (f : ErrorFn S) (fns : List (ErrorFn S)) (s t : S)
    → return_on_error (f ∷ fns) s ≡ (ok tt, t)
    → (u : S) × (f s ≡ (ok tt, u)) × (return_on_error fns u ≡ (ok tt, t))
unfolding return_on_error
return_on_error-cons f fns s t h =
    let (tt, u, first, rest) = bind-eq-ok f (λ _. return_on_error fns) s h in (u, first, rest)

pub return_on_error-nil : {S : Type 0} (s t : S) → return_on_error [] s ≡ (ok tt, t) → s ≡ t
unfolding return_on_error
return_on_error-nil {S} s t h = ap (λ (p : Outcome (Unit {0}) × S). p.1) h

-- One function that succeeds hands on to the others; one that fails ends the run.
pub return_on_error-runs :
    {S : Type 0} (f : ErrorFn S) (fns : List (ErrorFn S)) {s t : S}
    → f s ≡ (ok tt, t)
    → return_on_error (f ∷ fns) s ≡ return_on_error fns t
unfolding return_on_error
return_on_error-runs f fns h = ground arith

pub return_on_error-ends :
    {S : Type 0} (f : ErrorFn S) (fns : List (ErrorFn S)) {s t : S} {e : Error}
    → f s ≡ (err e, t)
    → return_on_error (f ∷ fns) s ≡ (err e, t)
unfolding return_on_error
return_on_error-ends f fns h = ground arith

pub return_on_error_done : {S : Type 0} (s : S) → return_on_error [] s ≡ (ok tt, s)
unfolding return_on_error
return_on_error_done s = refl
