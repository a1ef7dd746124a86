-- ===== src/Reconciler/Steps.antt =====
-- The steps of a cycle over a lawful client, one by one: what each leaves in the cluster, and what it
-- leaves alone.
use kubeturbo_deploy.Prelude.{◌≡◌, ◌∙◌, refl, sym, ap, Bool, true, false, not, some, arith}
use kubeturbo_deploy.Outcome.{Outcome, ok, Exec, lift}
use kubeturbo_deploy.Types.{Kubeturbo}
use kubeturbo_deploy.Objects.{
  Kind, Object, key_of, config_map, service_account, cluster_role, cluster_role_binding, deployment,
}
use kubeturbo_deploy.Client.{Client, IsLawful, SameBut, current}
use kubeturbo_deploy.Client.Laws.{create_or_update-ok}
use kubeturbo_deploy.Cycle.{Cycle, on_world}
use kubeturbo_deploy.Roles.{keeps_out, mutate_cluster_role, is_defined_role}
use kubeturbo_deploy.Roles.Laws.{mutate_cluster_role_idem, keeps_out-is_defined_role}
use kubeturbo_deploy.Workload.{
  mutate_config_map, mutate_service_account, mutate_cluster_role_binding, mutate_deployment,
}
use kubeturbo_deploy.Workload.Laws.{
  mutate_config_map_idem, mutate_service_account_idem, binding_written, deployment_written,
}
use kubeturbo_deploy.Reconciler.{
  new_config_map, new_service_account, new_cluster_role, new_cluster_role_binding, new_deployment,
  create_or_update_config_map, create_or_update_service_account, create_or_update_cluster_role,
  create_or_update_cluster_role_binding, apply_deployment,
}

not-eq-false : {b : Bool} → not b ≡ false → b ≡ true
not-eq-false {b} h = ground arith

module _ (c : Client) where
  -- The cluster has, under the key of `o`, an object that `f` accepts as it is.
  unfoldable pub Settled :
      (k : Kind) → Object k → (Object k → Exec c.World (Object k)) → c.World → Type 0
  Settled k o f v =
      (o' : Object k) × (c.find v k (key_of k o) ≡ some o') × ((x : c.World) → f o' x ≡ (ok o', x))

  -- A step that succeeds keeps the status, and changes one object only.
  abbrev pub Touches : (k : Kind) → Object k → Cycle c → Cycle c → Type 0
  Touches k o s t = (t.status ≡ s.status) × SameBut c k (key_of k o) s.world t.world

  pub on_world-ok :
      {A : Type 0} {a : A} (m : Exec c.World A) (s t : Cycle c)
      → on_world c m s ≡ (ok a, t)
      → (m s.world ≡ (ok a, t.world)) × (t.status ≡ s.status)
  on_world-ok m s t h = (ground arith, ground arith)

module _ (c : Client) (lawful : IsLawful c) where
  -- A create-or-update whose function calls nothing else when it succeeds, and accepts its own result.
  pub upsert-Settled :
      (k : Kind) (o : Object k) (f : Object k → Exec c.World (Object k))
      → ((old new : Object k) (w u : c.World)
          → f old w ≡ (ok new, u)
          → (u ≡ w) × ((x : c.World) → f new x ≡ (ok new, x)))
      → (s t : Cycle c) → on_world c (c.create_or_update k o f) s ≡ (ok tt, t)
      → Touches c k o s t × Settled c k o f t.world
  unfolding Settled
  upsert-Settled k o f accepts s t h =
      let (run, status) = on_world-ok c (c.create_or_update k o f) s t h in
      let (o', u, call, found, same) = create_or_update-ok c lawful k o f s.world t.world run in
      let (unchanged, again) = accepts (current c k o s.world) o' s.world u call in
      (
        (status, λ j other n. same j other n ∙ ap (λ (x : c.World). c.find x j other) unchanged),
        (o', found, again),
      )

  pub lifted :
      {A : Type 0} (f : A → Outcome A)
      → ((old new : A) → f old ≡ ok new → f new ≡ ok new)
      → (old new : A) (w u : c.World) → lift (f old) w ≡ (ok new, u)
      → (u ≡ w) × ((x : c.World) → lift (f new) x ≡ (ok new, x))
  lifted f idem old new w u h =
      let again = idem old new (ap (λ p. p.0) h) in (sym (ap (λ p. p.1) h), λ x i. (again i, x))

  module _ (kt : Kubeturbo) where
    pub config_map_step :
        (s t : Cycle c)
        → create_or_update_config_map c kt s ≡ (ok tt, t)
        → Touches c config_map (new_config_map c kt) s t
          × Settled c config_map
              (new_config_map c kt)
              (λ cm. lift (mutate_config_map kt cm))
              t.world
    unfolding create_or_update_config_map
    config_map_step s t h =
        upsert-Settled config_map (new_config_map c kt) (λ cm. lift (mutate_config_map kt cm))
          (lifted (mutate_config_map kt) (mutate_config_map_idem kt)) s t h

    pub service_account_step :
        (s t : Cycle c)
        → create_or_update_service_account c kt s ≡ (ok tt, t)
        → Touches c service_account (new_service_account c kt) s t
          × Settled c service_account
              (new_service_account c kt)
              (λ sa. lift (mutate_service_account kt true sa))
              t.world
    unfolding create_or_update_service_account
    service_account_step s t h =
        upsert-Settled service_account (new_service_account c kt)
          (λ sa. lift (mutate_service_account kt true sa))
          (lifted (mutate_service_account kt true) (mutate_service_account_idem kt true)) s t h

    -- The operator's own roles are written.
    skipped :
        keeps_out kt.spec.role_name ≡ false
        → (s : Cycle c)
        → create_or_update_cluster_role c kt s
          ≡ on_world c
              (c.create_or_update cluster_role
                (new_cluster_role c kt)
                (λ cr. lift (mutate_cluster_role kt cr)))
              s
    unfolding create_or_update_cluster_role
    skipped own s = rw own refl

    pub cluster_role_step :
        (s t : Cycle c)
        → keeps_out kt.spec.role_name ≡ false
        → create_or_update_cluster_role c kt s ≡ (ok tt, t)
        → Touches c cluster_role (new_cluster_role c kt) s t
          × Settled c cluster_role
              (new_cluster_role c kt)
              (λ cr. lift (mutate_cluster_role kt cr))
              t.world
    unfolding create_or_update_cluster_role
    cluster_role_step s t own h =
        let defined : is_defined_role kt.spec.role_name ≡ true =
          not-eq-false (sym (keeps_out-is_defined_role kt.spec.role_name) ∙ own) in
        upsert-Settled cluster_role (new_cluster_role c kt) (λ cr. lift (mutate_cluster_role kt cr))
          (lifted (mutate_cluster_role kt)
            (λ old new e. mutate_cluster_role_idem kt old new defined e))
          s t (sym (skipped own s) ∙ h)

    pub binding_step :
        (s t : Cycle c)
        → create_or_update_cluster_role_binding c kt s ≡ (ok tt, t)
        → Touches c cluster_role_binding (new_cluster_role_binding c kt) s t
          × Settled c cluster_role_binding
              (new_cluster_role_binding c kt)
              (mutate_cluster_role_binding c kt)
              t.world
    unfolding create_or_update_cluster_role_binding
    binding_step s t h =
        upsert-Settled cluster_role_binding (new_cluster_role_binding c kt)
          (mutate_cluster_role_binding c kt)
          (λ old new w u e.
            let (same, _, again) = binding_written c kt old new w u e in (same, again))
          s t h

    pub deployment_step :
        (s t : Cycle c)
        → apply_deployment c kt s ≡ (ok tt, t)
        → Touches c deployment (new_deployment c kt) s t
          × Settled c deployment (new_deployment c kt) (mutate_deployment c kt) t.world
    unfolding apply_deployment
    deployment_step s t h =
        upsert-Settled deployment (new_deployment c kt) (mutate_deployment c kt)
          (deployment_written c kt) s t h
