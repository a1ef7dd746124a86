-- ===== src/Reconciler/Retry/OneCycle.antt =====
-- The rest of a cycle, and a cycle as a whole.
use kubeturbo_deploy.Prelude.{
  ◌≡◌, ◌∙◌, refl, sym, ap, true, false, some, List, [], ◌∷◌, ◌&&◌, inl, inr, arith, Bool-cases,
  eq_refl, subst,
}
use mathlib.Core.Option.{some-injective}
use kubeturbo_deploy.Outcome.{Outcome}
use kubeturbo_deploy.Utils.{ErrorFn, return_on_error}
use kubeturbo_deploy.Utils.Laws.{return_on_error-runs, return_on_error-ends, return_on_error_done}
use kubeturbo_deploy.Types.{Kubeturbo, KubeturboStatus}
use kubeturbo_deploy.Objects.{key_of, apart, cluster_role_binding, deployment, kubeturbo}
use kubeturbo_deploy.Client.{Client, IsLawful}
use kubeturbo_deploy.Client.Responsive.{IsResponsive}
use kubeturbo_deploy.Cycle.{Cycle}
use kubeturbo_deploy.Workload.{binding_key, deployment_key}
use kubeturbo_deploy.Reconciler.{
  create_or_update_cluster_role_binding, create_or_update_deployment, update_cluster_resource,
  reconcile_kube_turbo, reconcile,
}
use kubeturbo_deploy.Reconciler.Steps.{binding_step, deployment_step}
use kubeturbo_deploy.Reconciler.Retry.{
  binding_fits, deployment_fits, hash_fits, bound, deployed, with_stored,
}
use kubeturbo_deploy.Reconciler.Retry.Renders.{Renders, hash, hash_fits-shape}
use kubeturbo_deploy.Reconciler.Retry.Steps.{binding_runs}
use kubeturbo_deploy.Reconciler.Retry.Deletions.{
  binding_refused, deployment_refused, apply_runs, not_restarted,
}
use kubeturbo_deploy.Reconciler.Retry.Status.{restart_ended, status_runs}
use kubeturbo_deploy.Reconciler.Retry.Ended.{
  Restated, Ended, finished, unbound, undeployed, begun, settled-bound,
}

module _ (c : Client) (lawful : IsLawful c) (responsive : IsResponsive c) (kt : Kubeturbo)
    (ren : Renders kt) where
  deployed-shape :
      (w : c.World) (old : Kubeturbo)
      → c.find w kubeturbo (key_of kubeturbo kt) ≡ some old
      → deployed c kt w ≡ (
          hash_fits kt old.status.config_hash
          && deployment_fits kt (c.find w deployment (deployment_key c kt)))
  deployed-shape w old found =
      ap
        (λ o.
          hash_fits kt (with_stored kt o).status.config_hash
          && deployment_fits kt (c.find w deployment (deployment_key c kt)))
        found

  -- What that comes to, from its parts.
  module _ {w : c.World} {old : Kubeturbo}
      (found : c.find w kubeturbo (key_of kubeturbo kt) ≡ some old) where
    deployed-intro :
        hash_fits kt old.status.config_hash ≡ true
        → deployment_fits kt (c.find w deployment (deployment_key c kt)) ≡ true
        → deployed c kt w ≡ true
    deployed-intro h d = deployed-shape w old found ∙ ground arith

    hash_misfit : hash_fits kt old.status.config_hash ≡ false → deployed c kt w ≡ false
    hash_misfit h = deployed-shape w old found ∙ ground arith

    deployment_misfit :
        deployment_fits kt (c.find w deployment (deployment_key c kt)) ≡ false
        → deployed c kt w ≡ false
    deployment_misfit d = deployed-shape w old found ∙ ground arith

  hash_fits-own : hash_fits kt (hash kt ren) ≡ true
  hash_fits-own = hash_fits-shape kt ren (hash kt ren) ∙ ground (arith, eq_refl (hash kt ren))

  -- What is stored is what was stored, or that with another status.
  restated :
      (w : c.World) (old new : Kubeturbo)
      → c.find w kubeturbo (key_of kubeturbo kt) ≡ some old
      → new ≡ record old { status = new.status }
      → Restated c kt w new
  restated w old new found same prev stored =
      same
      ∙ ap (λ (o : Kubeturbo). record o { status = new.status })
          (some-injective old prev (sym found ∙ stored))

  -- The step of the deployment and the status update.
  abbrev rest : List (ErrorFn (Cycle c))
  rest = create_or_update_deployment c kt ∷ update_cluster_resource c kt ∷ []

  abbrev end_of : Cycle c → Outcome (Unit {0}) × c.World
  end_of s = ((return_on_error rest s).0, (return_on_error rest s).1.world)

  -- A hash that does not fit: the deployment is restarted.
  ends_by_restart :
      (w : c.World) (s : Cycle c) (old : Kubeturbo)
      → c.find w kubeturbo (key_of kubeturbo kt) ≡ some old
      → c.find s.world kubeturbo (key_of kubeturbo kt) ≡ some old
      → s.status ≡ old.status
      → bound c kt s.world ≡ true
      → hash_fits kt s.status.config_hash ≡ false
      → Ended c kt w (end_of s)
  ends_by_restart w s old stored found same fits misfit =
      let (t, ends, new_hash, kept, gone, binding) =
        restart_ended c lawful responsive kt ren s old found misfit in
      let run = return_on_error-ends _ (update_cluster_resource c kt ∷ []) ends in
      let unfit : hash_fits kt old.status.config_hash ≡ false =
        ap (λ (x : KubeturboStatus). hash_fits kt x.config_hash) (sym same) ∙ misfit in
      undeployed t.world (record old { status = t.status }) (λ i. ((run i).0, (run i).1.world))
        (hash_misfit stored unfit) kept (ap (binding_fits kt) binding ∙ fits)
        (deployed-intro kept (ap (hash_fits kt) new_hash ∙ hash_fits-own)
          (ap (deployment_fits kt) gone))
        (restated w old (record old { status = t.status }) stored refl)

  -- A selector that does not fit: the deployment is deleted.
  ends_by_deletion :
      (w : c.World) (s : Cycle c) (old : Kubeturbo)
      → c.find w kubeturbo (key_of kubeturbo kt) ≡ some old
      → c.find s.world kubeturbo (key_of kubeturbo kt) ≡ some old
      → s.status ≡ old.status
      → bound c kt s.world ≡ true
      → c.find s.world deployment (deployment_key c kt) ≡ c.find w deployment (deployment_key c kt)
      → hash_fits kt s.status.config_hash ≡ true
      → deployment_fits kt (c.find s.world deployment (deployment_key c kt)) ≡ false
      → Ended c kt w (end_of s)
  ends_by_deletion w s old stored found same fits carried current misfit =
      let (t, ends, _, dropped) = deployment_refused c lawful responsive kt ren s misfit in
      let run =
        return_on_error-ends (create_or_update_deployment c kt) (update_cluster_resource c kt ∷ [])
          (not_restarted c lawful responsive kt ren s current ∙ ends) in
      let kept = dropped.others kubeturbo (key_of kubeturbo kt) (λ p. apart refl p.0) ∙ found in
      undeployed t.world old (λ i. ((run i).0, (run i).1.world))
        (deployment_misfit stored (ap (deployment_fits kt) (sym carried) ∙ misfit)) kept
        (ap (binding_fits kt)
            (dropped.others cluster_role_binding (binding_key c kt) (λ p. apart refl p.0))
          ∙ fits)
        (deployed-intro kept
          (ap (λ (x : KubeturboStatus). hash_fits kt x.config_hash) (sym same) ∙ current)
          (ap (deployment_fits kt) dropped.gone))
        (restated w old old stored refl)

  ends_well :
      (w : c.World) (s : Cycle c) (old : Kubeturbo)
      → c.find s.world kubeturbo (key_of kubeturbo kt) ≡ some old
      → hash_fits kt s.status.config_hash ≡ true
      → deployment_fits kt (c.find s.world deployment (deployment_key c kt)) ≡ true
      → Ended c kt w (end_of s)
  ends_well w s old found current fits =
      let (u, applies) = apply_runs c lawful responsive kt ren s fits in
      let (touches, _) = deployment_step c lawful kt s u applies in
      let (v, updates) =
        status_runs c lawful responsive kt ren u old
          (touches.1 kubeturbo (key_of kubeturbo kt) (λ p. apart refl p.0) ∙ found) in
      let run =
        return_on_error-runs (create_or_update_deployment c kt) (update_cluster_resource c kt ∷ [])
          (not_restarted c lawful responsive kt ren s current ∙ applies)
        ∙ return_on_error-runs (update_cluster_resource c kt) [] updates
        ∙ return_on_error_done v in
      finished v.world (λ i. ((run i).0, (run i).1.world))

  -- The rest of a cycle whose binding is in place.
  ends_after_binding :
      (w : c.World) (s : Cycle c) (old : Kubeturbo)
      → c.find w kubeturbo (key_of kubeturbo kt) ≡ some old
      → c.find s.world kubeturbo (key_of kubeturbo kt) ≡ some old
      → s.status ≡ old.status
      → bound c kt s.world ≡ true
      → c.find s.world deployment (deployment_key c kt) ≡ c.find w deployment (deployment_key c kt)
      → Ended c kt w (end_of s)
  ends_after_binding w s old stored found same fits carried =
      elim (Bool-cases (hash_fits kt s.status.config_hash)) [
        | inr misfit ↦ ends_by_restart w s old stored found same fits misfit
        | inl current ↦
            elim (Bool-cases
              (deployment_fits kt (c.find s.world deployment (deployment_key c kt)))) [
                | inl fit ↦ ends_well w s old found current fit
                | inr misfit ↦
                    ends_by_deletion w s old stored found same fits carried current misfit
              ]
      ]

  -- A cycle that reads the stored status.
  pub reconcile-Ended :
      (w : c.World) (old : Kubeturbo)
      → c.find w kubeturbo (key_of kubeturbo kt) ≡ some old
      → kt.status ≡ old.status
      → Ended c kt w (reconcile c kt w)
  unfolding reconcile reconcile_kube_turbo
  reconcile-Ended w old stored same =
      let (s, begins, carried) = begun c lawful responsive kt ren w in
      let key = key_of kubeturbo kt in
      let at = binding_key c kt in
      let binding = carried.found cluster_role_binding at refl refl refl in
      elim (Bool-cases (bound c kt s.world)) [
        | inr misfit ↦
            let (t, ends, _, dropped) = binding_refused c lawful responsive kt ren s misfit in
            let run =
              begins (create_or_update_cluster_role_binding c kt ∷ rest)
              ∙ return_on_error-ends (create_or_update_cluster_role_binding c kt) rest ends in
            unbound t.world old (λ i. ((run i).0, (run i).1.world))
              (ap (binding_fits kt) (sym binding) ∙ misfit)
              (dropped.others kubeturbo key (λ p. apart refl p.0)
                ∙ carried.found kubeturbo key refl refl refl
                ∙ stored)
              (ap (binding_fits kt) dropped.gone) (restated w old old stored refl)
        | inl fits ↦
            let (u, binds) = binding_runs c responsive kt ren s fits in
            let (touches, _) = binding_step c lawful kt s u binds in
            let run =
              begins (create_or_update_cluster_role_binding c kt ∷ rest)
              ∙ return_on_error-runs (create_or_update_cluster_role_binding c kt) rest binds in
            let to = deployment_key c kt in
            subst (Ended c kt w) (λ i. ((sym run i).0, (sym run i).1.world))
              (ends_after_binding w u old stored
                (touches.1 kubeturbo key (λ p. apart refl p.0)
                  ∙ carried.found kubeturbo key refl refl refl
                  ∙ stored)
                (touches.0 ∙ carried.status ∙ same)
                (settled-bound c lawful responsive kt ren s u binds)
                (touches.1 deployment to (λ p. apart refl p.0)
                  ∙ carried.found deployment to refl refl refl))
      ]
