-- ===== src/Reconciler/Restart.antt =====
-- createOrUpdateDeployment after a change of the configuration: the hash is recorded, the deployment
-- deleted, and the cycle ends with an error that brings the next one.
use kubeturbo_deploy.Prelude.{
  String, ◌≡◌, ◌≢◌, ◌∙◌, refl, sym, ap, Bool, true, false, none, [], ◌∷◌, inl, inr, arith, ◌==◌,
  Bool-cases, eq_iff,
}
use kubeturbo_deploy.Outcome.{Outcome, and_then, ok, err, panic, requeue_on_deletion}
use kubeturbo_deploy.Types.{Kubeturbo}
use kubeturbo_deploy.Config.{get_kubeturbo_config_hash}
use kubeturbo_deploy.Objects.{deployment}
use kubeturbo_deploy.Client.{Client, IsLawful}
use kubeturbo_deploy.Calls.{delete_if_exists}
use kubeturbo_deploy.Calls.Laws.{delete_if_exists-ok}
use kubeturbo_deploy.Cycle.{Cycle}
use kubeturbo_deploy.Workload.{deployment_key}
use kubeturbo_deploy.Reconciler.{
  create_or_update_deployment, restart, update_cluster_resource, update_status, with_hash,
}

abbrev pub is_panic {ℓ} : {A : Type ℓ} → Outcome A → Bool
is_panic panic = true
is_panic _ = false

eq-false_of_ne : {a b : String} → a ≢ b → (a == b) ≡ false
eq-false_of_ne {a} {b} ne = elim (Bool-cases (a == b)) [
  | inl e ↦ absurd (ne ((eq_iff a b).0 e))
  | inr e ↦ e
]

module _ (c : Client) (kt : Kubeturbo) where
  -- With an old hash that is not the new one, the deployment is not applied: it is restarted.
  restarts :
      (hash : String) (s : Cycle c)
      → get_kubeturbo_config_hash kt.spec ≡ ok hash
      → (s.status.config_hash == "") ≡ false
      → (s.status.config_hash == hash) ≡ false
      → create_or_update_deployment c kt s ≡ restart c kt s
  unfolding create_or_update_deployment
  restarts hash s e old differs = ground arith

  updates :
      (hash : String) (s : Cycle c)
      → get_kubeturbo_config_hash kt.spec ≡ ok hash
      → (hash == s.status.config_hash) ≡ false
      → update_cluster_resource c kt s ≡ update_status c kt (with_hash c kt hash s)
  unfolding update_cluster_resource
  updates hash s e differs = ground arith

  -- What the status update sends, with its result and the cluster after it.
  abbrev pub sent : String → Cycle c → Outcome (Unit {0}) × c.World
  sent hash s = c.update_status (record kt { status = (with_hash c kt hash s).status }) s.world

  -- What the deletion after it does.
  abbrev pub dropped : String → Cycle c → Outcome (Unit {0}) × c.World
  dropped hash s = delete_if_exists c ((deployment, deployment_key c kt) ∷ []) (sent hash s).1

  restarted :
      (hash : String) (s : Cycle c)
      → update_cluster_resource c kt s ≡ update_status c kt (with_hash c kt hash s)
      → is_panic (sent hash s).0 ≡ false
      → restart c kt s ≡ (
        and_then (dropped hash s).0 (λ _. err requeue_on_deletion),
        record { status = (with_hash c kt hash s).status; world = (dropped hash s).1 },
      )
  unfolding restart update_status
  restarted hash s e calm = ground arith

  pub restart-ends :
      (hash : String) (s : Cycle c)
      → get_kubeturbo_config_hash kt.spec ≡ ok hash
      → s.status.config_hash ≢ ""
      → s.status.config_hash ≢ hash
      → is_panic (sent hash s).0 ≡ false
      → create_or_update_deployment c kt s ≡ (
        and_then (dropped hash s).0 (λ _. err requeue_on_deletion),
        record { status = (with_hash c kt hash s).status; world = (dropped hash s).1 },
      )
  restart-ends hash s e old differs calm =
      restarts hash s e (eq-false_of_ne old) (eq-false_of_ne differs)
      ∙ restarted hash s (updates hash s e (eq-false_of_ne (λ p. differs (sym p)))) calm

module _ (c : Client) (lawful : IsLawful c) (kt : Kubeturbo) where
  -- Over a lawful client, when the recorded hash is not empty and not the configuration's, the
  -- status update does not panic (its error is dropped) and the deletion of the deployment
  -- succeeds, the step ends with ErrRequeueOnDeletion: the deployment is gone, and the status has
  -- the new hash.
  pub restart-requeues :
      (hash : String) (s : Cycle c)
      → get_kubeturbo_config_hash kt.spec ≡ ok hash
      → s.status.config_hash ≢ ""
      → s.status.config_hash ≢ hash
      → is_panic (sent c kt hash s).0 ≡ false
      → (dropped c kt hash s).0 ≡ ok tt
      → (t : Cycle c) × (create_or_update_deployment c kt s ≡ (err requeue_on_deletion, t))
        × (t.status.config_hash ≡ hash)
        × (c.find t.world deployment (deployment_key c kt) ≡ none)
  restart-requeues hash s e old differs calm deleted =
      let (gone, _) =
        delete_if_exists-ok c lawful deployment (deployment_key c kt) (sent c kt hash s).1
          (dropped c kt hash s).1 (λ i. (deleted i, (dropped c kt hash s).1)) in
      (
        record { status = (with_hash c kt hash s).status; world = (dropped c kt hash s).1 },
        restart-ends c kt hash s e old differs calm
            ∙ ap
                (λ (r : Outcome (Unit {0})). (
                  and_then {B = Unit {0}} r (λ _. err requeue_on_deletion),
                  record {
                    status = (with_hash c kt hash s).status;
                    world = (dropped c kt hash s).1;
                  },
                ))
                deleted,
        refl,
        gone,
      )
