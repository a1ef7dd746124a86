-- ===== src/Reconciler/Retry/Ended.antt =====
-- How one cycle ends over an API server that refuses nothing: with everything in place, or with
-- ErrRequeueOnDeletion and one obstacle less.
use kubeturbo_deploy.Prelude.{◌≡◌, ◌∙◌, ap, true, false, some, List, ◌∷◌, arith, eq_iff}
use kubeturbo_deploy.Outcome.{Outcome, ok, err, requeue_on_deletion}
use kubeturbo_deploy.Utils.{ErrorFn, return_on_error}
use kubeturbo_deploy.Utils.Laws.{return_on_error-runs}
use kubeturbo_deploy.Types.{Kubeturbo}
use kubeturbo_deploy.Objects.{
  Kind, key_of, apart, same_kind, config_map, service_account, cluster_role, kubeturbo, Key,
  ClusterRoleBinding,
}
use kubeturbo_deploy.Client.{Client, IsLawful}
use kubeturbo_deploy.Client.Responsive.{IsResponsive}
use kubeturbo_deploy.Cycle.{Cycle}
use kubeturbo_deploy.Roles.{cluster_role_name}
use kubeturbo_deploy.Workload.Laws.{binding_written}
use kubeturbo_deploy.Reconciler.{
  create_or_update_config_map, create_or_update_service_account, create_or_update_cluster_role,
  create_or_update_cluster_role_binding,
}
use kubeturbo_deploy.Reconciler.Steps.{Settled, config_map_step, service_account_step, binding_step}
use kubeturbo_deploy.Reconciler.Stages.{role_step}
use kubeturbo_deploy.Reconciler.Retry.{binding_fits, bound, deployed}
use kubeturbo_deploy.Reconciler.Retry.Renders.{Renders}
use kubeturbo_deploy.Reconciler.Retry.Steps.{
  config_map_runs, service_account_runs, cluster_role_runs,
}

module _ (c : Client) (kt : Kubeturbo) where
  -- The state of a cycle still has the status and the objects that decide whether it goes on.
  pub record Carried (w : c.World) (s : Cycle c) : Type 0 where
    pub status : s.status ≡ kt.status
    pub found :
        (j : Kind) (key : Key)
        → same_kind j config_map ≡ false
        → same_kind j service_account ≡ false
        → same_kind j cluster_role ≡ false
        → c.find s.world j key ≡ c.find w j key

  -- The stored resource has at most another status.
  abbrev pub Restated : c.World → Kubeturbo → Type 0
  Restated w new =
      (old : Kubeturbo)
      → c.find w kubeturbo (key_of kubeturbo kt) ≡ some old
      → new ≡ record old { status = new.status }

  -- The end of a cycle from `w`.
  pub data Ended (w : c.World) (r : Outcome (Unit {0}) × c.World) : Type 0 where
    finished : (v : c.World) → r ≡ (ok tt, v) → Ended w r
    unbound :
        (v : c.World) (old : Kubeturbo)
        → r ≡ (err requeue_on_deletion, v)
        → bound c kt w ≡ false
        → c.find v kubeturbo (key_of kubeturbo kt) ≡ some old
        → bound c kt v ≡ true
        → Restated w old
        → Ended w r
    undeployed :
        (v : c.World) (old : Kubeturbo)
        → r ≡ (err requeue_on_deletion, v)
        → deployed c kt w ≡ false
        → c.find v kubeturbo (key_of kubeturbo kt) ≡ some old
        → bound c kt v ≡ true
        → deployed c kt v ≡ true
        → Restated w old
        → Ended w r

module _ (c : Client) (lawful : IsLawful c) (responsive : IsResponsive c) (kt : Kubeturbo)
    (ren : Renders kt) where
  -- The first three steps succeed.
  pub begun :
      (w : c.World)
      → (s : Cycle c) × ((fns : List (ErrorFn (Cycle c)))
          → return_on_error
              (create_or_update_config_map c kt
                ∷ create_or_update_service_account c kt
                ∷ create_or_update_cluster_role c kt
                ∷ fns)
              (record { status = kt.status; world = w })
            ≡ return_on_error fns s)
        × Carried c kt w s
  begun w =
      let s0 : Cycle c = record { status = kt.status; world = w } in
      let (s1, r1) = config_map_runs c responsive kt ren s0 in
      let (s2, r2) = service_account_runs c responsive kt ren s1 in
      let (s3, r3) = cluster_role_runs c responsive kt ren s2 in
      let (t1, _) = config_map_step c lawful kt s0 s1 r1 in
      let (t2, _) = service_account_step c lawful kt s1 s2 r2 in
      let (t3, _) = role_step c lawful kt s2 s3 r3 in
      (
        s3,
        λ fns.
            return_on_error-runs _ _ r1
            ∙ return_on_error-runs _ _ r2
            ∙ return_on_error-runs _ fns r3,
        record {
          status = t3.0 ∙ t2.0 ∙ t1.0;
          found = λ j key n1 n2 n3.
              t3.1 j key (λ p. apart n3 p.0)
              ∙ t2.1 j key (λ p. apart n2 p.0)
              ∙ t1.1 j key (λ p. apart n1 p.0);
        },
      )

  -- A binding that a step has written fits.
  pub settled-bound :
      (s t : Cycle c)
      → create_or_update_cluster_role_binding c kt s ≡ (ok tt, t)
      → bound c kt t.world ≡ true
  unfolding Settled
  settled-bound s t h =
      let (_, settled) = binding_step c lawful kt s t h in
      let (crb, found, again) = settled in
      let (_, named, _) = binding_written c kt crb crb t.world t.world (again t.world) in
      ap (binding_fits kt) found ∙ fits crb named
    where
      fits :
          (crb : ClusterRoleBinding)
          → crb.role_ref.name ≡ cluster_role_name kt
          → binding_fits kt (some crb) ≡ true
      fits crb e = ground (arith, eq_iff crb.role_ref.name (cluster_role_name kt))
