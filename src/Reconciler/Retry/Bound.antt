-- ===== src/Reconciler/Retry/Bound.antt =====
-- Three cycles are enough.
use kubeturbo_deploy.Prelude.{ℕ, suc, ◌≡◌, ◌∙◌, refl, sym, ap, true, some, ◌&&◌, true-ne-false}
use kubeturbo_deploy.Outcome.{ok, err, requeue_on_deletion}
use kubeturbo_deploy.Types.{Kubeturbo, KubeturboStatus}
use kubeturbo_deploy.Objects.{kubeturbo, deployment, key_of}
use kubeturbo_deploy.Request.{name, namespace, labels, release_labels, instance_of}
use kubeturbo_deploy.Roles.{cluster_role_name, cluster_role_binding_name}
use kubeturbo_deploy.Workload.{deployment_key}
use kubeturbo_deploy.Client.{Client, IsLawful}
use kubeturbo_deploy.Client.Responsive.{IsResponsive}
use kubeturbo_deploy.Reconciler.{reconcile}
use kubeturbo_deploy.Reconciler.Stages.{IsReconciled, HasHash}
use kubeturbo_deploy.Reconciler.Desired.{reconcile-IsReconciled}
use kubeturbo_deploy.Reconciler.Retry.{
  cycles, go_on, with_stored, bound, deployed, hash_fits, deployment_fits,
}
use kubeturbo_deploy.Reconciler.Retry.Renders.{Renders}
use kubeturbo_deploy.Reconciler.Retry.Ended.{Ended, finished, unbound, undeployed}
use kubeturbo_deploy.Reconciler.Retry.OneCycle.{reconcile-Ended}

module _ (c : Client) (kt : Kubeturbo) where
  -- The resource with another status.
  abbrev pub at : KubeturboStatus → Kubeturbo
  at st = record kt { status = st }

  -- What is in the way does not depend on the status that the resource was read with.
  bound-at :
      (a b : KubeturboStatus) (w : c.World) → bound c (at a) w ≡ true → bound c (at b) w ≡ true
  unfolding cluster_role_name cluster_role_binding_name name namespace
  bound-at a b w h = h

  deployed-at :
      (a b : KubeturboStatus) (w : c.World) (old : Kubeturbo)
      → c.find w kubeturbo (key_of kubeturbo kt) ≡ some old
      → deployed c (at a) w ≡ true
      → deployed c (at b) w ≡ true
  unfolding labels release_labels instance_of name namespace
  deployed-at a b w old found h =
      ap
        (λ o.
          hash_fits (at b) (with_stored (at b) o).status.config_hash
          && deployment_fits (at b) (c.find w deployment (deployment_key c (at b))))
        found
      ∙ sym (
          ap
            (λ o.
              hash_fits (at a) (with_stored (at a) o).status.config_hash
              && deployment_fits (at a) (c.find w deployment (deployment_key c (at a))))
            found)
      ∙ h

  cycles-finished :
      (n : ℕ) (w v : c.World) (old : Kubeturbo)
      → c.find w kubeturbo (key_of kubeturbo kt) ≡ some old
      → reconcile c (at old.status) w ≡ (ok tt, v)
      → cycles c kt (suc n) w ≡ (ok tt, v)
  unfolding cycles
  cycles-finished n w v old found h =
      ap (λ o. go_on c kt (cycles c kt n) (reconcile c (with_stored kt o) w)) found
      ∙ ap (go_on c kt (cycles c kt n)) h

  cycles-again :
      (n : ℕ) (w v : c.World) (old : Kubeturbo)
      → c.find w kubeturbo (key_of kubeturbo kt) ≡ some old
      → reconcile c (at old.status) w ≡ (err requeue_on_deletion, v)
      → cycles c kt (suc n) w ≡ cycles c kt n v
  unfolding cycles
  cycles-again n w v old found h =
      ap (λ o. go_on c kt (cycles c kt n) (reconcile c (with_stored kt o) w)) found
      ∙ ap (go_on c kt (cycles c kt n)) h

  -- The cycles come to an end, with everything in place.
  pub record Converges (n : ℕ) (w : c.World) : Type 0 where
    pub end : c.World
    pub last : KubeturboStatus
    pub run : cycles c kt n w ≡ (ok tt, end)
    pub in_place : IsReconciled c (at last) end
    pub recorded : HasHash c (at last) end

  Converges-again :
      (n : ℕ) (w v : c.World)
      → cycles c kt (suc n) w ≡ cycles c kt n v
      → Converges n v
      → Converges (suc n) w
  Converges-again n w v e done = record {
    end = done.end;
    last = done.last;
    run = e ∙ done.run;
    in_place = done.in_place;
    recorded = done.recorded;
  }

module _ (c : Client) (lawful : IsLawful c) (responsive : IsResponsive c) (kt : Kubeturbo)
    (ren : (st : KubeturboStatus) → Renders (record kt { status = st })) where
  ends :
      (w : c.World) (old : Kubeturbo)
      → c.find w kubeturbo (key_of kubeturbo kt) ≡ some old
      → Ended c (at c kt old.status) w (reconcile c (at c kt old.status) w)
  ends w old found =
      reconcile-Ended c lawful responsive (at c kt old.status) (ren old.status) w old found refl

  done :
      (n : ℕ) (w v : c.World) (old : Kubeturbo)
      → c.find w kubeturbo (key_of kubeturbo kt) ≡ some old
      → reconcile c (at c kt old.status) w ≡ (ok tt, v)
      → Converges c kt (suc n) w
  done n w v old found h =
      let (in_place, recorded) =
        reconcile-IsReconciled c lawful (at c kt old.status) w v old found refl h in
      record {
        end = v;
        last = old.status;
        run = cycles-finished c kt n w v old found h;
        in_place = in_place;
        recorded = recorded;
      }

  -- With nothing in the way, one cycle is enough.
  one_cycle :
      (w : c.World) (old : Kubeturbo)
      → c.find w kubeturbo (key_of kubeturbo kt) ≡ some old
      → bound c (at c kt old.status) w ≡ true
      → deployed c (at c kt old.status) w ≡ true
      → Converges c kt 1 w
  one_cycle w old found b d = elim (ends w old found) [
    | finished v h ↦ done 0 w v old found h
    | unbound v new h misfit kept _ _ ↦ absurd (true-ne-false (sym b ∙ misfit))
    | undeployed v new h misfit kept _ _ _ ↦ absurd (true-ne-false (sym d ∙ misfit))
  ]

  -- With the binding in place, two.
  two_cycles :
      (w : c.World) (old : Kubeturbo)
      → c.find w kubeturbo (key_of kubeturbo kt) ≡ some old
      → bound c (at c kt old.status) w ≡ true
      → Converges c kt 2 w
  two_cycles w old found b = elim (ends w old found) [
    | finished v h ↦ done 1 w v old found h
    | unbound v new h misfit kept _ _ ↦ absurd (true-ne-false (sym b ∙ misfit))
    | undeployed v new h misfit kept b' d' _ ↦
        Converges-again c kt 1 w v (cycles-again c kt 1 w v old found h) (
          one_cycle v new kept (bound-at c kt old.status new.status v b')
            (deployed-at c kt old.status new.status v new kept d'))
  ]

  -- Over a lawful API server that refuses nothing, for a resource that the cluster holds and on which the
  -- operator's own functions do not fail whatever its status, three cycles at most come to an end: the
  -- cycles that end with ErrRequeueOnDeletion (a binding to another role, a changed configuration, another
  -- selector) are followed by one that succeeds, and then every object is in the cluster as the operator's
  -- functions leave it, and the stored status has the hash of the configuration.
  pub cycles-Converges :
      (w : c.World) (old : Kubeturbo)
      → c.find w kubeturbo (key_of kubeturbo kt) ≡ some old
      → Converges c kt 3 w
  cycles-Converges w old found = elim (ends w old found) [
    | finished v h ↦ done 2 w v old found h
    | unbound v new h misfit kept b' _ ↦
        Converges-again c kt 2 w v (cycles-again c kt 2 w v old found h)
          (two_cycles v new kept (bound-at c kt old.status new.status v b'))
    | undeployed v new h misfit kept b' d' _ ↦
        Converges-again c kt 2 w v (cycles-again c kt 2 w v old found h)
          (two_cycles v new kept (bound-at c kt old.status new.status v b'))
  ]
