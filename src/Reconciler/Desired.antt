-- ===== src/Reconciler/Desired.antt =====
-- What a cycle that reports no error has brought about.
use kubeturbo_deploy.Prelude.{subst, ◌≡◌, ◌∙◌, refl, ap, true, false, some, ◌⊎◌, inl, inr}
use kubeturbo_deploy.Outcome.{Outcome, ok, lift}
use kubeturbo_deploy.Utils.Laws.{return_on_error-cons, return_on_error-nil}
use kubeturbo_deploy.Types.{Kubeturbo}
use kubeturbo_deploy.Objects.{
  Kind, Key, key_of, apart, same_kind, config_map, service_account, cluster_role,
  cluster_role_binding, deployment, kubeturbo,
}
use kubeturbo_deploy.Client.{Client, IsLawful, SameBut}
use kubeturbo_deploy.Cycle.{Cycle}
use kubeturbo_deploy.Roles.{keeps_out, mutate_cluster_role}
use kubeturbo_deploy.Workload.{
  mutate_config_map, mutate_service_account, mutate_cluster_role_binding, mutate_deployment,
}
use kubeturbo_deploy.Reconciler.{
  new_config_map, new_service_account, new_cluster_role, new_cluster_role_binding, new_deployment,
  update_cluster_resource, reconcile_kube_turbo, reconcile,
}
use kubeturbo_deploy.Reconciler.Steps.{
  Settled, Touches, config_map_step, service_account_step, binding_step, deployment_step,
}
use kubeturbo_deploy.Reconciler.Stages.{
  IsReconciled, HasHash, applied, status_frame, role_step, status_step, moved,
}

-- The states between the steps of a cycle from `s` to `t`, with what each step did.
pub record Staged (c : Client) (kt : Kubeturbo) (s t : Cycle c) : Type 0 where
  pub s1 : Cycle c
  pub s2 : Cycle c
  pub s3 : Cycle c
  pub s4 : Cycle c
  pub s5 : Cycle c
  pub touches1 : Touches c config_map (new_config_map c kt) s s1
  pub touches2 : Touches c service_account (new_service_account c kt) s1 s2
  pub touches3 : Touches c cluster_role (new_cluster_role c kt) s2 s3
  pub touches4 : Touches c cluster_role_binding (new_cluster_role_binding c kt) s3 s4
  pub touches5 : Touches c deployment (new_deployment c kt) s4 s5
  config_map_settled :
      Settled c config_map (new_config_map c kt) (λ cm. lift (mutate_config_map kt cm)) s1.world
  service_account_settled :
      Settled c service_account
        (new_service_account c kt)
        (λ sa. lift (mutate_service_account kt true sa))
        s2.world
  cluster_role_settled :
      (keeps_out kt.spec.role_name ≡ true)
      ⊎ Settled c cluster_role
          (new_cluster_role c kt)
          (λ cr. lift (mutate_cluster_role kt cr))
          s3.world
  binding_settled :
      Settled c cluster_role_binding
        (new_cluster_role_binding c kt)
        (mutate_cluster_role_binding c kt)
        s4.world
  deployment_settled : Settled c deployment (new_deployment c kt) (mutate_deployment c kt) s5.world
  pub status_run : update_cluster_resource c kt s5 ≡ (ok tt, t)

module _ (c : Client) (lawful : IsLawful c) (kt : Kubeturbo) where
  pub staged : (s t : Cycle c) → reconcile_kube_turbo c kt s ≡ (ok tt, t) → Staged c kt s t
  unfolding reconcile_kube_turbo
  staged s t h =
      let (s1, r1, h1) = return_on_error-cons _ _ s t h in
      let (s2, r2, h2) = return_on_error-cons _ _ s1 t h1 in
      let (s3, r3, h3) = return_on_error-cons _ _ s2 t h2 in
      let (s4, r4, h4) = return_on_error-cons _ _ s3 t h3 in
      let (s5, r5, h5) = return_on_error-cons _ _ s4 t h4 in
      let (s6, r6, h6) = return_on_error-cons _ _ s5 t h5 in
      let (t1, cm) = config_map_step c lawful kt s s1 r1 in
      let (t2, sa) = service_account_step c lawful kt s1 s2 r2 in
      let (t3, cr) = role_step c lawful kt s2 s3 r3 in
      let (t4, crb) = binding_step c lawful kt s3 s4 r4 in
      let (t5, dep) = deployment_step c lawful kt s4 s5 (applied c kt s4 s5 r5) in
      let last = return_on_error-nil s6 t h6 in
      record {
        s1 = s1;
        s2 = s2;
        s3 = s3;
        s4 = s4;
        s5 = s5;
        touches1 = t1;
        touches2 = t2;
        touches3 = t3;
        touches4 = t4;
        touches5 = t5;
        config_map_settled = cm;
        service_account_settled = sa;
        cluster_role_settled = cr;
        binding_settled = crb;
        deployment_settled = dep;
        status_run = r6 ∙ ap (λ (x : Cycle c). (ok tt, x)) last;
      }

module _ (c : Client) (kt : Kubeturbo) (s t : Cycle c) (st : Staged c kt s t)
    (end : SameBut c kubeturbo (key_of kubeturbo kt) st.s5.world t.world) where
  -- An object is at the end as it was after the last step that is about its kind.
  since5 :
      (j : Kind) (o : Key)
      → same_kind j kubeturbo ≡ false
      → c.find t.world j o ≡ c.find st.s5.world j o
  since5 j o n5 = end j o (λ p. apart n5 p.0)

  since4 :
      (j : Kind) (o : Key)
      → same_kind j kubeturbo ≡ false
      → same_kind j deployment ≡ false
      → c.find t.world j o ≡ c.find st.s4.world j o
  since4 j o n5 n4 = since5 j o n5 ∙ st.touches5.1 j o (λ p. apart n4 p.0)

  since3 :
      (j : Kind) (o : Key)
      → same_kind j kubeturbo ≡ false
      → same_kind j deployment ≡ false
      → same_kind j cluster_role_binding ≡ false
      → c.find t.world j o ≡ c.find st.s3.world j o
  since3 j o n5 n4 n3 = since4 j o n5 n4 ∙ st.touches4.1 j o (λ p. apart n3 p.0)

  since2 :
      (j : Kind) (o : Key)
      → same_kind j kubeturbo ≡ false
      → same_kind j deployment ≡ false
      → same_kind j cluster_role_binding ≡ false
      → same_kind j cluster_role ≡ false
      → c.find t.world j o ≡ c.find st.s2.world j o
  since2 j o n5 n4 n3 n2 = since3 j o n5 n4 n3 ∙ st.touches3.1 j o (λ p. apart n2 p.0)

  all_settled : IsReconciled c kt t.world
  unfolding IsReconciled
  all_settled =
      let cm = new_config_map c kt in
      let at_cm = key_of config_map cm in
      let sa = new_service_account c kt in
      let cr = new_cluster_role c kt in
      let crb = new_cluster_role_binding c kt in
      let dep = new_deployment c kt in
      (
        moved c config_map cm (λ x. lift (mutate_config_map kt x)) st.s1.world t.world
            (since2 config_map at_cm refl refl refl refl
              ∙ st.touches2.1 config_map at_cm (λ p. apart refl p.0))
            st.config_map_settled,
        moved c service_account sa (λ x. lift (mutate_service_account kt true x)) st.s2.world
            t.world (since2 service_account (key_of service_account sa) refl refl refl refl)
            st.service_account_settled,
        elim st.cluster_role_settled [
          | inl out ↦ inl out
          | inr role ↦ inr (
              moved c cluster_role cr (λ x. lift (mutate_cluster_role kt x)) st.s3.world t.world
                (since3 cluster_role (key_of cluster_role cr) refl refl refl) role)
        ],
        moved c cluster_role_binding crb (mutate_cluster_role_binding c kt) st.s4.world t.world
            (since4 cluster_role_binding (key_of cluster_role_binding crb) refl refl)
            st.binding_settled,
        moved c deployment dep (mutate_deployment c kt) st.s5.world t.world
            (since5 deployment (key_of deployment dep) refl) st.deployment_settled,
      )

module _ (c : Client) (lawful : IsLawful c) (kt : Kubeturbo) where
  reconcile_kube_turbo-IsReconciled :
      (s t : Cycle c)
      → (old : Kubeturbo) → c.find s.world kubeturbo (key_of kubeturbo kt) ≡ some old
      → s.status ≡ old.status
      → reconcile_kube_turbo c kt s ≡ (ok tt, t)
      → IsReconciled c kt t.world × HasHash c kt t.world
  reconcile_kube_turbo-IsReconciled s t old there start h =
      let st = staged c lawful kt s t h in
      let key = key_of kubeturbo kt in
      let hash =
        status_step c lawful kt st.s5 t old
          (st.touches5.1 kubeturbo key (λ p. apart refl p.0)
            ∙ st.touches4.1 kubeturbo key (λ p. apart refl p.0)
            ∙ st.touches3.1 kubeturbo key (λ p. apart refl p.0)
            ∙ st.touches2.1 kubeturbo key (λ p. apart refl p.0)
            ∙ st.touches1.1 kubeturbo key (λ p. apart refl p.0)
            ∙ there)
          (st.touches5.0 ∙ st.touches4.0 ∙ st.touches3.0 ∙ st.touches2.0 ∙ st.touches1.0 ∙ start)
          st.status_run in
      (all_settled c kt s t st (status_frame c lawful kt st.s5 t st.status_run), hash)

  pub reconcile-IsReconciled :
      (w v : c.World)
      → (old : Kubeturbo) → c.find w kubeturbo (key_of kubeturbo kt) ≡ some old
      → kt.status ≡ old.status
      → reconcile c kt w ≡ (ok tt, v)
      → IsReconciled c kt v × HasHash c kt v
  unfolding reconcile
  reconcile-IsReconciled w v old there start_status h =
      let start : Cycle c = record { status = kt.status; world = w } in
      let (r, t) = reconcile_kube_turbo c kt start in
      let end : t.world ≡ v = ap (λ (p : Outcome (Unit {0}) × c.World). p.1) h in
      let run : reconcile_kube_turbo c kt start ≡ (ok tt, t) = λ i. ((h i).0, t) in
      subst (λ x. IsReconciled c kt x × HasHash c kt x) end
        (reconcile_kube_turbo-IsReconciled start t old there start_status run)
