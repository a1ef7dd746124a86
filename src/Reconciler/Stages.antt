-- ===== src/Reconciler/Stages.antt =====
-- What the steps of a successful cycle bring about together, and what the later ones leave alone.
use kubeturbo_deploy.Prelude.{
  String, ◌≡◌, ◌∙◌, refl, sym, ap, true, some, [], ◌∷◌, ◌⊎◌, inl, inr, arith, ◌==◌, Bool-cases,
  eq_iff,
}
use kubeturbo_deploy.Outcome.{Outcome, ok, Exec, lift, attempt, fail, requeue_on_deletion, ◌>>◌}
use kubeturbo_deploy.Outcome.Laws.{bind-eq-ok}
use kubeturbo_deploy.Types.{Kubeturbo, KubeturboStatus}
use kubeturbo_deploy.Config.{get_kubeturbo_config_hash}
use kubeturbo_deploy.Objects.{
  Kind, Object, key_of, config_map, service_account, cluster_role, cluster_role_binding, deployment,
  kubeturbo,
}
use kubeturbo_deploy.Client.{Client, IsLawful, SameBut}
use kubeturbo_deploy.Calls.{delete_if_exists}
use kubeturbo_deploy.Cycle.{Cycle, on_world}
use kubeturbo_deploy.Roles.{keeps_out, mutate_cluster_role}
use kubeturbo_deploy.Workload.{
  mutate_config_map, mutate_service_account, mutate_cluster_role_binding, mutate_deployment,
  deployment_key,
}
use kubeturbo_deploy.Reconciler.{
  new_config_map, new_service_account, new_cluster_role, new_cluster_role_binding, new_deployment,
  create_or_update_cluster_role, apply_deployment, create_or_update_deployment, restart,
  update_cluster_resource, update_status, with_hash,
}
use kubeturbo_deploy.Reconciler.Steps.{Settled, Touches, on_world-ok, cluster_role_step}

module _ (c : Client) where
  -- An object that is as it was is settled as it was.
  pub moved :
      (j : Kind) (o : Object j) (f : Object j → Exec c.World (Object j)) (w v : c.World)
      → c.find v j (key_of j o) ≡ c.find w j (key_of j o)
      → Settled c j o f w
      → Settled c j o f v
  unfolding Settled
  moved j o f w v same (o', found, again) = (o', same ∙ found, again)

  Touches-refl : (k : Kind) (o : Object k) (s t : Cycle c) → s ≡ t → Touches c k o s t
  Touches-refl k o s t e = (
    ap (λ (x : Cycle c). x.status) (sym e),
    λ j key ne. ap (λ (x : Cycle c). c.find x.world j key) (sym e),
  )

module _ (c : Client) (kt : Kubeturbo) where
  -- The cluster has each object of the resource as the resource asks for it.
  unfoldable pub IsReconciled : c.World → Type 0
  IsReconciled v =
      Settled c config_map (new_config_map c kt) (λ cm. lift (mutate_config_map kt cm)) v
      × Settled c service_account (new_service_account c kt)
          (λ sa. lift (mutate_service_account kt true sa)) v
      × ((keeps_out kt.spec.role_name ≡ true)
          ⊎ Settled c cluster_role (new_cluster_role c kt) (λ cr. lift (mutate_cluster_role kt cr))
              v)
      × Settled c cluster_role_binding (new_cluster_role_binding c kt)
          (mutate_cluster_role_binding c kt) v
      × Settled c deployment (new_deployment c kt) (mutate_deployment c kt) v

  -- The cluster's copy of the resource has the hash of the configuration.
  pub HasHash : c.World → Type 0
  HasHash v =
      (stored : Kubeturbo) × (c.find v kubeturbo (key_of kubeturbo kt) ≡ some stored)
      × (get_kubeturbo_config_hash kt.spec ≡ ok stored.status.config_hash)

  never : (s t : Cycle c) → fail {A = Unit {0}} requeue_on_deletion s ≡ (ok tt, t) → ⊥
  never s t h = ground arith

  -- A restart always ends the cycle with an error.
  restart_fails : (s t : Cycle c) → restart c kt s ≡ (ok tt, t) → ⊥
  unfolding restart
  restart_fails s t h =
      let drop : Exec (Cycle c) (Unit {0}) =
        on_world c (delete_if_exists c ((deployment, deployment_key c kt) ∷ [])) in
      let (_, u, _, rest) =
        bind-eq-ok (attempt (update_cluster_resource c kt)) (λ _. drop >> fail requeue_on_deletion)
          s h in
      let (_, v, _, last) = bind-eq-ok drop (λ _. fail requeue_on_deletion) u rest in never v t last

  pub applied :
      (s t : Cycle c)
      → create_or_update_deployment c kt s ≡ (ok tt, t)
      → apply_deployment c kt s ≡ (ok tt, t)
  unfolding create_or_update_deployment
  applied s t h = ground (arith, restart_fails s t)

  -- The status is up to date, or sent.
  update_cluster_resource-cases :
      (s t : Cycle c)
      → update_cluster_resource c kt s ≡ (ok tt, t)
      → (hash : String) × (get_kubeturbo_config_hash kt.spec ≡ ok hash)
        × ((((hash == s.status.config_hash) ≡ true) × (s ≡ t))
            ⊎ (update_status c kt (with_hash c kt hash s) ≡ (ok tt, t)))
  unfolding update_cluster_resource
  update_cluster_resource-cases s t h = ground arith

module _ (c : Client) (lawful : IsLawful c) (kt : Kubeturbo) where
  kept_out :
      (s : Cycle c)
      → keeps_out kt.spec.role_name ≡ true
      → create_or_update_cluster_role c kt s ≡ (ok tt, s)
  unfolding create_or_update_cluster_role
  kept_out s e = rw e refl

  pub role_step :
      (s t : Cycle c)
      → create_or_update_cluster_role c kt s ≡ (ok tt, t)
      → Touches c cluster_role (new_cluster_role c kt) s t
        × ((keeps_out kt.spec.role_name ≡ true)
            ⊎ Settled c cluster_role
                (new_cluster_role c kt)
                (λ cr. lift (mutate_cluster_role kt cr))
                t.world)
  role_step s t h = elim (Bool-cases (keeps_out kt.spec.role_name)) [
    | inl e ↦ (
      Touches-refl c cluster_role (new_cluster_role c kt) s t
          (ap (λ (p : Outcome (Unit {0}) × Cycle c). p.1) (sym (kept_out s e) ∙ h)),
      inl e,
    )
    | inr e ↦
        let (touches, settled) = cluster_role_step c lawful kt s t e h in (touches, inr settled)
  ]

  HasHash-intro :
      (v : c.World) (hash : String) (stored : Kubeturbo)
      → get_kubeturbo_config_hash kt.spec ≡ ok hash
      → c.find v kubeturbo (key_of kubeturbo kt) ≡ some stored
      → hash ≡ stored.status.config_hash
      → HasHash c kt v
  unfolding HasHash
  HasHash-intro v hash stored e found same = (stored, found, e ∙ ap ok same)

  -- A sent status is stored, and nothing else is written.
  stored_status :
      (hash : String) (s t : Cycle c)
      → update_status c kt (with_hash c kt hash s) ≡ (ok tt, t)
      → SameBut c kubeturbo (key_of kubeturbo kt) s.world t.world
        × ((old : Kubeturbo)
            → c.find s.world kubeturbo (key_of kubeturbo kt) ≡ some old
            → c.find t.world kubeturbo (key_of kubeturbo kt)
              ≡ some (record old { status = (with_hash c kt hash s).status }))
  unfolding update_status
  stored_status hash s t sent =
      let new : Kubeturbo = record kt { status = (with_hash c kt hash s).status } in
      let (run, _) = on_world-ok c (c.update_status new) (with_hash c kt hash s) t sent in
      lawful.update_status_ok new s.world t.world run

  pub status_frame :
      (s t : Cycle c)
      → update_cluster_resource c kt s ≡ (ok tt, t)
      → SameBut c kubeturbo (key_of kubeturbo kt) s.world t.world
  status_frame s t h =
      let (hash, e, split) = update_cluster_resource-cases c kt s t h in
      elim split [
        | inl (test, same) ↦ λ j key ne. ap (λ (x : Cycle c). c.find x.world j key) (sym same)
        | inr sent ↦ (stored_status hash s t sent).0
      ]

  pub status_step :
      (s t : Cycle c)
      → (old : Kubeturbo) → c.find s.world kubeturbo (key_of kubeturbo kt) ≡ some old
      → s.status ≡ old.status
      → update_cluster_resource c kt s ≡ (ok tt, t)
      → HasHash c kt t.world
  status_step s t old there start h =
      let (hash, e, split) = update_cluster_resource-cases c kt s t h in
      elim split [
        | inl (test, same) ↦
            HasHash-intro t.world hash old e
              (ap (λ (x : Cycle c). c.find x.world kubeturbo (key_of kubeturbo kt)) (sym same)
                ∙ there)
              ((eq_iff hash s.status.config_hash).0 test
                ∙ ap (λ (x : KubeturboStatus). x.config_hash) start)
        | inr sent ↦
            HasHash-intro t.world hash (record old { status = (with_hash c kt hash s).status }) e
              ((stored_status hash s t sent).1 old there) refl
      ]
