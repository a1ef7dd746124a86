-- ===== src/Reconciler/Retry/Status.antt =====
-- The restart and the status update over an API server that refuses nothing.
use kubeturbo_deploy.Prelude.{
  String, ◌≡◌, ◌∙◌, refl, ap, false, none, some, ◌==◌, inl, inr, arith, Bool-cases,
}
use kubeturbo_deploy.Outcome.{Outcome, ok, err, requeue_on_deletion}
use kubeturbo_deploy.Types.{Kubeturbo}
use kubeturbo_deploy.Objects.{key_of, cluster_role_binding, deployment, kubeturbo, apart}
use kubeturbo_deploy.Client.{Client, IsLawful}
use kubeturbo_deploy.Client.Responsive.{IsResponsive, delete_if_exists-gone}
use kubeturbo_deploy.Cycle.{Cycle}
use kubeturbo_deploy.Workload.{binding_key, deployment_key}
use kubeturbo_deploy.Reconciler.{
  create_or_update_deployment, update_cluster_resource, update_status, with_hash,
}
use kubeturbo_deploy.Reconciler.Retry.{hash_fits}
use kubeturbo_deploy.Reconciler.Retry.Renders.{Renders, hash, hash_ok, hash_fits-shape}
use kubeturbo_deploy.Reconciler.Restart.{restart-ends, sent, is_panic}
use kubeturbo_deploy.Prelude.{◌≢◌, eq_iff}
use kubeturbo_deploy.Outcome.{and_then}

module _ (c : Client) (lawful : IsLawful c) (responsive : IsResponsive c) (kt : Kubeturbo)
    (ren : Renders kt) where
  -- A hash that does not fit is neither empty nor the new one.
  misfit-ne : (old : String) → hash_fits kt old ≡ false → (old ≢ "") × (old ≢ hash kt ren)
  misfit-ne old misfit =
      ground (arith, hash_fits-shape kt ren old, eq_iff old "", eq_iff old (hash kt ren))

  -- A restart records the new hash, deletes the deployment and ends the cycle.
  pub restart_ended :
      (s : Cycle c) (old : Kubeturbo)
      → c.find s.world kubeturbo (key_of kubeturbo kt) ≡ some old
      → hash_fits kt s.status.config_hash ≡ false
      → (t : Cycle c) × (create_or_update_deployment c kt s ≡ (err requeue_on_deletion, t))
        × (t.status.config_hash ≡ hash kt ren)
        × (c.find t.world kubeturbo (key_of kubeturbo kt) ≡ some (record old { status = t.status }))
        × (c.find t.world deployment (deployment_key c kt) ≡ none)
        × (c.find t.world cluster_role_binding (binding_key c kt)
            ≡ c.find s.world cluster_role_binding (binding_key c kt))
  restart_ended s old found misfit =
      let st = (with_hash c kt (hash kt ren) s).status in
      let key = key_of kubeturbo kt in
      let (v, run) = responsive.status_ok (record kt { status = st }) old s.world found in
      let (kept, stored) = lawful.update_status_ok (record kt { status = st }) s.world v run in
      let at : (sent c kt (hash kt ren) s).1 ≡ v =
        ap (λ (p : Outcome (Unit {0}) × c.World). p.1) run in
      let (u, del, gone, others) =
        delete_if_exists-gone c responsive lawful deployment (deployment_key c kt)
          (sent c kt (hash kt ren) s).1 in
      let (ne_empty, ne_hash) = misfit-ne s.status.config_hash misfit in
      (
        record { status = st; world = u },
        restart-ends c kt (hash kt ren) s (hash_ok kt ren) ne_empty ne_hash
              (ap (λ (p : Outcome (Unit {0}) × c.World). is_panic p.0) run)
            ∙ ap
                (λ (p : Outcome (Unit {0}) × c.World). (
                  and_then {B = Unit {0}} p.0 (λ _. err requeue_on_deletion),
                  record { status = st; world = p.1 },
                ))
                del,
        refl,
        others kubeturbo key (λ p. apart refl p.0)
            ∙ ap (λ x. c.find x kubeturbo key) at
            ∙ stored old found,
        gone,
        others cluster_role_binding (binding_key c kt) (λ p. apart refl p.0)
            ∙ ap (λ x. c.find x cluster_role_binding (binding_key c kt)) at
            ∙ kept cluster_role_binding (binding_key c kt) (λ p. apart refl p.0),
      )

  -- The status update succeeds.
  pub status_runs :
      (s : Cycle c) (old : Kubeturbo)
      → c.find s.world kubeturbo (key_of kubeturbo kt) ≡ some old
      → (t : Cycle c) × (update_cluster_resource c kt s ≡ (ok tt, t))
  unfolding update_cluster_resource update_status
  status_runs s old found =
      let h = hash kt ren in
      let (v, run) =
        responsive.status_ok (record kt { status = (with_hash c kt h s).status }) old s.world
          found in
      elim (Bool-cases (h == s.status.config_hash)) [
        | inl same ↦ (s, ground (arith, hash_ok kt ren))
        | inr differs ↦
            (record (with_hash c kt h s) { world = v }, ground (arith, hash_ok kt ren, run))
      ]
