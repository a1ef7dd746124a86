-- ===== src/Reconciler/Retry/Deletions.antt =====
-- The steps of a cycle that may end it with ErrRequeueOnDeletion, over an API server that refuses nothing:
-- the object in the way is deleted then.
use kubeturbo_deploy.Prelude.{
  String, ◌≡◌, ◌∙◌, refl, ap, true, false, not, none, some, inl, inr, arith, Option-cases,
}
use kubeturbo_deploy.Outcome.{Outcome, ok, err, requeue_on_deletion}
use kubeturbo_deploy.Types.{Kubeturbo}
use kubeturbo_deploy.Objects.{Kind, key_of, cluster_role_binding, deployment, Key}
use kubeturbo_deploy.Client.{Client, IsLawful, SameBut, current}
use kubeturbo_deploy.Client.Responsive.{IsResponsive, delete_if_exists-gone}
use kubeturbo_deploy.Cycle.{Cycle}
use kubeturbo_deploy.Workload.{
  mutate_cluster_role_binding, mutate_deployment, selector_differs, binding_key, deployment_key,
}
use kubeturbo_deploy.Reconciler.{
  new_cluster_role_binding, new_deployment, create_or_update_cluster_role_binding, apply_deployment,
  create_or_update_deployment,
}
use kubeturbo_deploy.Reconciler.Retry.{binding_fits, deployment_fits, hash_fits}
use kubeturbo_deploy.Reconciler.Retry.Renders.{
  Renders, hash_ok, hash_fits-shape, deployment_renders, binding_refuses, deployment_refuses,
}
use kubeturbo_deploy.Reconciler.Retry.Steps.{upsert_runs, binding_fits-current}
use kubeturbo_deploy.Prelude.Maps.{Map}

-- What a step has left that ends with ErrRequeueOnDeletion: the object is gone, and no other has changed.
pub record Dropped (c : Client) (k : Kind) (key : Key) (s t : Cycle c) : Type 0 where
  pub gone : c.find t.world k key ≡ none
  pub others : SameBut c k key s.world t.world

module _ (c : Client) (lawful : IsLawful c) (responsive : IsResponsive c) (kt : Kubeturbo)
    (ren : Renders kt) where
  pub binding_refused :
      (s : Cycle c)
      → binding_fits kt (c.find s.world cluster_role_binding (binding_key c kt)) ≡ false
      → (t : Cycle c) × (create_or_update_cluster_role_binding c kt s
          ≡ (err requeue_on_deletion, t))
        × (t.status ≡ s.status)
        × Dropped c cluster_role_binding (binding_key c kt) s t
  unfolding create_or_update_cluster_role_binding
  binding_refused s misfit =
      let o = new_cluster_role_binding c kt in
      let (v, run, gone, others) =
        delete_if_exists-gone c responsive lawful cluster_role_binding (binding_key c kt) s.world in
      let refuses =
        binding_refuses kt ren c lawful responsive (current c cluster_role_binding o s.world)
          s.world v (binding_fits-current c responsive kt ren s.world ∙ misfit) run in
      let ended =
        responsive.upsert_err cluster_role_binding o (mutate_cluster_role_binding c kt) s.world v
          requeue_on_deletion refuses in
      (
        record s { world = v },
        λ i. ((ended i).0, record s { world = (ended i).1 }),
        refl,
        record { gone = gone; others = others },
      )

  pub new_deployment-key : key_of deployment (new_deployment c kt) ≡ deployment_key c kt
  new_deployment-key =
      let (owner, e) = lawful.set_controller_reference-owner kt _ in
      ap (λ m. record { name = m.name; namespace = m.namespace }) e

  -- A new deployment has no selector.
  new_fits : deployment_fits kt (some (new_deployment c kt)) ≡ true
  unfolding selector_differs
  new_fits =
      ap
        (λ (r : Outcome (Map String)). elim r [ ok ls ↦ not (selector_differs ls none) | _ ↦ true ])
        ren.labels_ok

  deployment_fits-current :
      (w : c.World)
      → deployment_fits kt (some (current c deployment (new_deployment c kt) w))
        ≡ deployment_fits kt (c.find w deployment (deployment_key c kt))
  deployment_fits-current w = elim (Option-cases (c.find w deployment (deployment_key c kt))) [
    | inl e ↦ rw (current, new_deployment-key, e) new_fits
    | inr (dep, e) ↦ rw (current, new_deployment-key, e) refl
  ]

  pub apply_runs :
      (s : Cycle c)
      → deployment_fits kt (c.find s.world deployment (deployment_key c kt)) ≡ true
      → (t : Cycle c) × (apply_deployment c kt s ≡ (ok tt, t))
  unfolding apply_deployment
  apply_runs s fits =
      let o = new_deployment c kt in
      let run =
        deployment_renders kt ren c (current c deployment o s.world) s.world
          (deployment_fits-current s.world ∙ fits) in
      upsert_runs c responsive deployment o _ (mutate_deployment c kt) s run refl

  pub deployment_refused :
      (s : Cycle c)
      → deployment_fits kt (c.find s.world deployment (deployment_key c kt)) ≡ false
      → (t : Cycle c) × (apply_deployment c kt s ≡ (err requeue_on_deletion, t))
        × (t.status ≡ s.status)
        × Dropped c deployment (deployment_key c kt) s t
  unfolding apply_deployment
  deployment_refused s misfit =
      let o = new_deployment c kt in
      let (v, run, gone, others) =
        delete_if_exists-gone c responsive lawful deployment (deployment_key c kt) s.world in
      let refuses =
        deployment_refuses kt ren c lawful responsive (current c deployment o s.world) s.world v
          (deployment_fits-current s.world ∙ misfit) run in
      let ended =
        responsive.upsert_err deployment o (mutate_deployment c kt) s.world v requeue_on_deletion
          refuses in
      (
        record s { world = v },
        λ i. ((ended i).0, record s { world = (ended i).1 }),
        refl,
        record { gone = gone; others = others },
      )

  pub not_restarted :
      (s : Cycle c)
      → hash_fits kt s.status.config_hash ≡ true
      → create_or_update_deployment c kt s ≡ apply_deployment c kt s
  unfolding create_or_update_deployment
  not_restarted s fits = ground (arith, hash_fits-shape kt ren s.status.config_hash, hash_ok kt ren)
