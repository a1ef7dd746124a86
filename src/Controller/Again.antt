-- ===== src/Controller/Again.antt =====
-- A request that is asked for again. The work queue of controller-runtime brings it back after the delay
-- that the controller's answer gives (internal/reconcile); nothing else happens in between.
use kubeturbo_deploy.Prelude.{
  ℕ, zero, suc, String, ltb, ◌≡◌, ◌∙◌, refl, sym, ap, Bool, true, false, not, some, ◌&&◌, is_some,
  arith,
}
use kubeturbo_deploy.Outcome.{Outcome, ok, err, panic, Exec}
use kubeturbo_deploy.Constants.{requeue_delay_seconds}
use kubeturbo_deploy.Types.{Kubeturbo, KubeturboStatus}
use kubeturbo_deploy.Types.Defaults.{Surroundings, Defaulting, set_spec_default}
use kubeturbo_deploy.Types.Defaults.Laws.{set_spec_default-again}
use kubeturbo_deploy.Objects.{Key, kubeturbo, key_of}
use kubeturbo_deploy.Client.{Client, IsLawful}
use kubeturbo_deploy.Client.Responsive.{IsResponsive}
use kubeturbo_deploy.ReconcileResult.{requeue_after, get}
use kubeturbo_deploy.Finalizers.{ControllerUtil}
use kubeturbo_deploy.Reconciler.{reconcile}
use kubeturbo_deploy.Reconciler.Stages.{IsReconciled, HasHash}
use kubeturbo_deploy.Reconciler.Retry.{cycles, go_on, with_stored}
use kubeturbo_deploy.Reconciler.Retry.Renders.{Renders}
use kubeturbo_deploy.Reconciler.Retry.Ended.{Ended, finished, unbound, undeployed}
use kubeturbo_deploy.Reconciler.Retry.OneCycle.{reconcile-Ended}
use kubeturbo_deploy.Reconciler.Retry.Bound.{cycles-Converges}
use kubeturbo_deploy.Controller.{Answer, Process, defaulted, reconcile_request}
use kubeturbo_deploy.Controller.Laws.{
  settled, is_active, read, process-answers, request-process, defaulted-ok, key_at,
}

-- An answer without an error that asks for the request again.
abbrev pub asks_again : Outcome Answer → Bool
asks_again (ok a) = not (is_some a.1) && ltb 0 a.0.requeue_after
asks_again _ = false

module _ (c : Client) (env : Surroundings) (util : ControllerUtil) where
  abbrev pub again :
      Exec (Process c env util) Answer
      → Outcome Answer × Process c env util
      → Outcome Answer × Process c env util
  again more (r, s) = elim (asks_again r) [ true ↦ more s | false ↦ (r, s) ]

  -- A request, at most so many times.
  unfoldable pub requests : ℕ → Key → Exec (Process c env util) Answer
  requests zero req s = (ok (get (requeue_after requeue_delay_seconds)), s)
  requests (suc fuel) req s = again (requests fuel req) (reconcile_request c env util req s)

  abbrev with_version : String → c.World → Process c env util
  with_version v w = record { default_kt_version = v; world = w }

  -- What the defaults gave to a resource they give to it with another status.
  defaulted-again :
      (s u : Process c env util) (stored kt : Kubeturbo) (st : KubeturboStatus) (w : c.World)
      → defaulted c env util stored s ≡ (ok kt, u)
      → defaulted c env util (record stored { status = st }) (with_version u.default_kt_version w)
        ≡ (ok (record kt { status = st }), with_version u.default_kt_version w)
  defaulted-again s u stored kt st w h =
      let start : Defaulting = record { default_kt_version = s.default_kt_version; kt = stored } in
      let (r, d) = set_spec_default env start in
      let (good, (same, version)) = shown r d s h in
      let repeated = set_spec_default-again env start d st (λ i. (good i, d)) in
      ap (λ v. defaulted c env util (record stored { status = st }) (with_version v w))
        (sym version)
      ∙ ap
          (λ (p : Outcome (Unit {0}) × Defaulting). (
            elim p.0 [ ok e ↦ ok p.1.kt | err e ↦ err e | panic ↦ panic ],
            with_version p.1.default_kt_version w,
          ))
          repeated
      ∙ (λ i. (ok (record (same i) { status = st }), with_version (version i) w))
    where
      shown :
          (r : Outcome (Unit {0})) (d : Defaulting) (s : Process c env util)
          → ◌≡◌ {A = Outcome Kubeturbo × Process c env util}
              (
                elim r [ ok v ↦ ok d.kt | err e ↦ err e | panic ↦ panic ],
                record s { default_kt_version = d.default_kt_version },
              )
              (ok kt, u)
          → (r ≡ ok tt) × ((d.kt ≡ kt) × (d.default_kt_version ≡ u.default_kt_version))
      shown (ok v) d s e = (refl, (ground arith, ground arith))
      shown (err x) d s e = ground arith
      shown panic d s e = ground arith

  -- The requests come to a settled answer, with everything in place.
  pub record Settles (n : ℕ) (req : Key) (kt : Kubeturbo) (s : Process c env util) : Type 0 where
    pub end : Process c env util
    pub last : KubeturboStatus
    pub run : requests n req s ≡ (ok settled, end)
    pub in_place : IsReconciled c (record kt { status = last }) end.world
    pub recorded : HasHash c (record kt { status = last }) end.world

module _ (c : Client) (lawful : IsLawful c) (responsive : IsResponsive c) (env : Surroundings)
    (util : ControllerUtil) (req : Key) (stored kt : Kubeturbo) (v : String)
    (ren : (st : KubeturboStatus) → Renders (record kt { status = st }))
    (active : is_active util kt ≡ true) (at_key : key_of kubeturbo kt ≡ req) where
  -- The answer to a cycle's end, or to that of several.
  abbrev answered : Outcome (Unit {0}) × c.World → Outcome Answer × Process c env util
  answered (r, w) = (read r, with_version c env util v w)

  -- The resource is stored, with some status.
  abbrev Holds : c.World → KubeturboStatus → Type 0
  Holds w st = c.find w kubeturbo (key_of kubeturbo kt) ≡ some (record stored { status = st })

  abbrev Follows : ℕ → Type 0
  Follows n =
      (w : c.World) (st : KubeturboStatus)
      → Holds w st
      → requests c env util n req (with_version c env util v w) ≡ answered (cycles c kt n w)

  -- After a cycle, the request goes on as the cycles do.
  goes_on :
      (n : ℕ) (w : c.World) (st : KubeturboStatus) (r : Outcome (Unit {0}) × c.World)
      → Follows n
      → Holds w st
      → Ended c (record kt { status = st }) w r
      → again c env util (requests c env util n req) (answered r)
        ≡ answered (go_on c kt (cycles c kt n) r)
  goes_on n w st r follows found (finished x h) = rw h refl
  goes_on n w st r follows found (unbound x new h misfit kept fits restated) =
      rw h (follows x new.status (kept ∙ ap some (restated (record stored { status = st }) found)))
  goes_on n w st r follows found (undeployed x new h misfit kept fits good restated) =
      rw h (follows x new.status (kept ∙ ap some (restated (record stored { status = st }) found)))

  request-Follows :
      (n : ℕ) (s : Process c env util) (st : KubeturboStatus)
      → Follows n
      → Holds s.world st
      → defaulted c env util (record stored { status = st }) s
        ≡ (ok (record kt { status = st }), with_version c env util v s.world)
      → requests c env util (suc n) req s ≡ answered (cycles c kt (suc n) s.world)
  unfolding requests cycles
  request-Follows n s st follows found filled =
      let now : Kubeturbo = record kt { status = st } in
      let r = reconcile c now s.world in
      let got =
        responsive.get_answers kubeturbo req s.world (record stored { status = st })
          (ap (c.find s.world kubeturbo) (sym at_key) ∙ found) in
      let answer : reconcile_request c env util req s ≡ answered r =
        request-process c env util req s (with_version c env util v s.world)
          (record stored { status = st }) now s.world got filled
        ∙ ap answered_as (process-answers c env util req now s.world active) in
      let ends =
        reconcile-Ended c lawful responsive now (ren st) s.world (record stored { status = st })
          found refl in
      ap (again c env util (requests c env util n req)) answer
      ∙ goes_on n s.world st r follows found ends
      ∙ sym (
          ap (λ o. answered (go_on c kt (cycles c kt n) (reconcile c (with_stored kt o) s.world)))
            found)
    where
      answered_as : Outcome Answer × c.World → Outcome Answer × Process c env util
      answered_as p = (p.0, with_version c env util v p.1)

  -- The requests for a stored resource are answered as its cycles end.
  requests-Follows :
      (fits : (w : c.World) (st : KubeturboStatus)
        → defaulted c env util (record stored { status = st }) (with_version c env util v w)
          ≡ (ok (record kt { status = st }), with_version c env util v w))
      (n : ℕ)
      → Follows n
  unfolding requests cycles
  requests-Follows fits zero w st found = refl
  requests-Follows fits (suc n) w st found =
      request-Follows n (with_version c env util v w) st (requests-Follows fits n) found (fits w st)

module _ (c : Client) (lawful : IsLawful c) (responsive : IsResponsive c) (env : Surroundings)
    (util : ControllerUtil) where
  -- Over a lawful API server that refuses nothing, for a stored resource that gets its defaults and is
  -- active, and on which the operator's own functions do not fail whatever its status, a request that is
  -- brought back while its answer asks for that is brought back at most twice: it is then answered with
  -- neither an error nor another cycle, every object is in the cluster as the operator's functions leave
  -- it, and the stored status has the hash of the configuration.
  pub requests-Settles :
      (req : Key) (s u : Process c env util) (stored kt : Kubeturbo)
      → c.find s.world kubeturbo req ≡ some stored
      → defaulted c env util stored s ≡ (ok kt, u)
      → is_active util kt ≡ true
      → ((st : KubeturboStatus) → Renders (record kt { status = st }))
      → Settles c env util 3 req kt s
  requests-Settles req s u stored kt found filled active ren =
      let (m, st, still) = defaulted-ok c env util s u stored kt filled in
      let v = u.default_kt_version in
      let at_key : key_of kubeturbo kt ≡ req =
        ap key_at m ∙ responsive.find_key kubeturbo req s.world stored found in
      let holds : c.find s.world kubeturbo (key_of kubeturbo kt) ≡ some stored =
        ap (c.find s.world kubeturbo) at_key ∙ found in
      let done = cycles-Converges c lawful responsive kt ren s.world stored holds in
      let follows =
        requests-Follows c lawful responsive env util req stored kt v ren active at_key
          (λ w st. defaulted-again c env util s u stored kt st w filled) 2 in
      let run =
        request-Follows c lawful responsive env util req stored kt v ren active at_key 2 s
          stored.status follows holds
          (filled
            ∙ (λ i. (ok (record kt { status = st i }), with_version c env util v (still i)))) in
      record {
        end = with_version c env util v done.end;
        last = done.last;
        run =
            run
            ∙ ap (λ (p : Outcome (Unit {0}) × c.World). (read p.0, with_version c env util v p.1))
                done.run;
        in_place = done.in_place;
        recorded = done.recorded;
      }
