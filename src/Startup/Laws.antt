-- ===== src/Startup/Laws.antt =====
-- No resource is processed before the check of the definition has passed.
use kubeturbo_deploy.Prelude.{
  ◌≡◌, ◌∙◌, refl, sym, ap, Bool, true, false, not, Option, none, some, List, [], ◌∷◌, ◌⊎◌, inl, inr,
  true-ne-false,
}
use kubeturbo_deploy.Outcome.{Outcome, ok, err, panic}
use kubeturbo_deploy.Objects.{Key}
use kubeturbo_deploy.CrdCheck.{Reader, Check, start}
use kubeturbo_deploy.CrdCheck.Laws.{start-closes, is_ok}
use kubeturbo_deploy.Startup.{
  Operator, Waiter, waiting, awake, finished, started, Step, check_runs, waiter_wakes,
  waiter_closes, reconcile_enters, Reaches, here, after,
}

abbrev passed : Option (Outcome (Unit {0})) → Bool
passed none = false
passed (some o) = is_ok o

abbrev is_empty {ℓ} : {A : Type ℓ} → List A → Bool
is_empty [] = true
is_empty (x ∷ xs) = false

-- `a` only if `b`, and so on down the chain of signals.
abbrev OnlyIf : Bool → Bool → Type 0
OnlyIf a b = (a ≡ false) ⊎ (b ≡ true)

abbrev is_waiting : Waiter → Bool
is_waiting waiting = true
is_waiting _ = false

module _ (r : Reader) where
  -- Each signal was given only after the one before it.
  record Ordered (o : Operator r) : Type 0 where
    check_gate : o.check.crd_check_done_closed ≡ passed o.checked
    waiter_gate : OnlyIf (not (is_waiting o.waiter)) (passed o.checked)
    post_gate : OnlyIf o.post_check_done_closed (passed o.checked)
    process_gate : OnlyIf (not (is_empty o.processed)) (passed o.checked)

  started-Ordered :
      (check : Check r) → check.crd_check_done_closed ≡ false → Ordered (started r check)
  started-Ordered check unclosed = record {
    check_gate = unclosed;
    waiter_gate = inl refl;
    post_gate = inl refl;
    process_gate = inl refl;
  }

  unpassed :
      {a : Bool} {c : Option (Outcome (Unit {0}))} → OnlyIf a (passed c) → c ≡ none → a ≡ false
  unpassed (inl e) n = e
  unpassed (inr e) n = absurd (true-ne-false (sym e ∙ ap passed n))

  given : {a b : Bool} → OnlyIf a b → a ≡ true → b ≡ true
  given (inl e) h = absurd (true-ne-false (sym h ∙ e))
  given (inr e) h = e

  next-Ordered : {p q : Operator r} → Ordered p → Step r (start r) p q → Ordered q
  next-Ordered ordered (check_runs o w unrun) = record {
    check_gate =
        start-closes r (record o.check { world = w }) (ordered.check_gate ∙ ap passed unrun);
    waiter_gate = inl (unpassed ordered.waiter_gate unrun);
    post_gate = inl (unpassed ordered.post_gate unrun);
    process_gate = inl (unpassed ordered.process_gate unrun);
  }
  next-Ordered ordered (waiter_wakes o e closed) = record {
    check_gate = ordered.check_gate;
    waiter_gate = inr (sym ordered.check_gate ∙ closed);
    post_gate = ordered.post_gate;
    process_gate = ordered.process_gate;
  }
  next-Ordered ordered (waiter_closes o e) =
      let done : passed o.checked ≡ true =
        given ordered.waiter_gate (ap (λ x. not (is_waiting x)) e) in
      record {
        check_gate = ordered.check_gate;
        waiter_gate = inr done;
        post_gate = inr done;
        process_gate = ordered.process_gate;
      }
  next-Ordered ordered (reconcile_enters o req closed) = record {
    check_gate = ordered.check_gate;
    waiter_gate = ordered.waiter_gate;
    post_gate = ordered.post_gate;
    process_gate = inr (given ordered.post_gate closed);
  }

  reached-Ordered : {p q : Operator r} → Ordered p → Reaches r (start r) p q → Ordered q
  reached-Ordered ordered here = ordered
  reached-Ordered ordered (after {q = q} path step) =
      next-Ordered (reached-Ordered ordered path) step

  -- In every run of an operator that starts with its channel open, a request is processed only if the
  -- check has run and returned no error.
  pub processed-passed :
      (check : Check r) (o : Operator r) (req : Key) (earlier : List Key)
      → check.crd_check_done_closed ≡ false
      → Reaches r (start r) (started r check) o
      → o.processed ≡ req ∷ earlier
      → o.checked ≡ some (ok tt)
  processed-passed check o req earlier unclosed path e =
      let ordered = reached-Ordered (started-Ordered check unclosed) path in
      shown o.checked (given ordered.process_gate (ap (λ x. not (is_empty x)) e))
    where
      shown : (c : Option (Outcome (Unit {0}))) → passed c ≡ true → c ≡ some (ok tt)
      shown none h = absurd (true-ne-false (sym h))
      shown (some (ok v)) h = refl
      shown (some (err x)) h = absurd (true-ne-false (sym h))
      shown (some panic) h = absurd (true-ne-false (sym h))

  -- From a fresh operator whose channel is open and whose check passes, some run leads to the
  -- processing of any given request.
  pub passed-processed :
      (check : Check r) (req : Key)
      → check.crd_check_done_closed ≡ false
      → (start r check).0 ≡ ok tt
      → (o : Operator r) × Reaches r (start r) (started r check) o × (o.processed ≡ req ∷ [])
  passed-processed check req unclosed good =
      let closed : (start r check).1.crd_check_done_closed ≡ true =
        start-closes r check unclosed ∙ ap is_ok good in
      let o0 = started r check in
      let o1 : Operator r = record o0 {
        check = (start r check).1;
        checked = some (start r check).0;
      } in
      let o2 : Operator r = record o1 { waiter = awake } in
      let o3 : Operator r = record o2 { waiter = finished; post_check_done_closed = true } in
      (
        record o3 { processed = req ∷ [] },
        after
            (after
              (after (after here (check_runs o0 check.world refl)) (waiter_wakes o1 refl closed))
              (waiter_closes o2 refl))
            (reconcile_enters o3 req refl),
        refl,
      )
