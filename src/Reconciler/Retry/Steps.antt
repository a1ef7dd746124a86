-- ===== src/Reconciler/Retry/Steps.antt =====
-- How each step of a cycle ends over an API server that refuses nothing.
use kubeturbo_deploy.Prelude.{◌≡◌, ◌∙◌, refl, true, some, inl, inr, Bool-cases, Option-cases}
use kubeturbo_deploy.Outcome.{ok, Exec, lift}
use kubeturbo_deploy.Types.{Kubeturbo}
use kubeturbo_deploy.Objects.{
  Kind, Object, key_of, config_map, service_account, cluster_role, cluster_role_binding,
}
use kubeturbo_deploy.Client.{Client, current}
use kubeturbo_deploy.Client.Responsive.{IsResponsive, key_of-current}
use kubeturbo_deploy.Cycle.{Cycle, on_world}
use kubeturbo_deploy.Roles.{keeps_out, mutate_cluster_role}
use kubeturbo_deploy.Workload.{
  mutate_config_map, mutate_service_account, mutate_cluster_role_binding, binding_key,
}
use kubeturbo_deploy.Reconciler.{
  new_config_map, new_service_account, new_cluster_role, new_cluster_role_binding,
  create_or_update_config_map, create_or_update_service_account, create_or_update_cluster_role,
  create_or_update_cluster_role_binding,
}
use kubeturbo_deploy.Reconciler.Retry.{binding_fits}
use kubeturbo_deploy.Reconciler.Retry.Renders.{
  Renders, config_map_renders, service_account_renders, cluster_role_renders, binding_renders,
}

module _ (c : Client) (responsive : IsResponsive c) where
  -- A create-or-update whose function succeeds.
  pub upsert_runs :
      (k : Kind) (o o' : Object k) (f : Object k → Exec c.World (Object k)) (s : Cycle c)
      → f (current c k o s.world) s.world ≡ (ok o', s.world)
      → key_of k o' ≡ key_of k (current c k o s.world)
      → (t : Cycle c) × (on_world c (c.create_or_update k o f) s ≡ (ok tt, t))
  upsert_runs k o o' f s call key =
      let (v, run) =
        responsive.upsert_ok k o o' f s.world s.world call
          (key ∙ key_of-current c responsive k o s.world) in
      (record s { world = v }, λ i. ((run i).0, record s { world = (run i).1 }))

  module _ (kt : Kubeturbo) (ren : Renders kt) where
    pub config_map_runs :
        (s : Cycle c) → (t : Cycle c) × (create_or_update_config_map c kt s ≡ (ok tt, t))
    unfolding create_or_update_config_map
    config_map_runs s =
        let o = new_config_map c kt in
        let (o', e, key) = config_map_renders kt ren (current c config_map o s.world) in
        upsert_runs config_map o o' (λ cm. lift (mutate_config_map kt cm)) s (λ i. (e i, s.world))
          key

    pub service_account_runs :
        (s : Cycle c) → (t : Cycle c) × (create_or_update_service_account c kt s ≡ (ok tt, t))
    unfolding create_or_update_service_account
    service_account_runs s =
        let o = new_service_account c kt in
        let (o', e, key) = service_account_renders kt ren (current c service_account o s.world) in
        upsert_runs service_account o o' (λ sa. lift (mutate_service_account kt true sa)) s
          (λ i. (e i, s.world)) key

    pub cluster_role_runs :
        (s : Cycle c) → (t : Cycle c) × (create_or_update_cluster_role c kt s ≡ (ok tt, t))
    unfolding create_or_update_cluster_role
    cluster_role_runs s =
        let o = new_cluster_role c kt in
        let (o', e, key) = cluster_role_renders kt ren (current c cluster_role o s.world) in
        let (t, run) =
          upsert_runs cluster_role o o' (λ cr. lift (mutate_cluster_role kt cr)) s
            (λ i. (e i, s.world)) key in
        elim (Bool-cases (keeps_out kt.spec.role_name)) [
          | inl out ↦ (s, rw out refl)
          | inr own ↦ (t, rw own run)
        ]

    pub binding_fits-current :
        (w : c.World)
        → binding_fits kt (some (current c cluster_role_binding (new_cluster_role_binding c kt) w))
          ≡ binding_fits kt (c.find w cluster_role_binding (binding_key c kt))
    binding_fits-current w =
        elim (Option-cases (c.find w cluster_role_binding (binding_key c kt))) [
          | inl e ↦ rw (e, current) refl
          | inr (crb, e) ↦ rw (e, current) refl
        ]

    pub binding_runs :
        (s : Cycle c)
        → binding_fits kt (c.find s.world cluster_role_binding (binding_key c kt)) ≡ true
        → (t : Cycle c) × (create_or_update_cluster_role_binding c kt s ≡ (ok tt, t))
    unfolding create_or_update_cluster_role_binding
    binding_runs s fits =
        let o = new_cluster_role_binding c kt in
        let run =
          binding_renders kt ren c (current c cluster_role_binding o s.world) s.world
            (binding_fits-current s.world ∙ fits) in
        upsert_runs cluster_role_binding o _ (mutate_cluster_role_binding c kt) s run refl
