-- ===== src/Reconciler/Spared.antt =====
-- What a cycle leaves alone.
use kubeturbo_deploy.Prelude.{◌≡◌, ◌∙◌, sym, ap, Bool, true, false, true-ne-false}
use kubeturbo_deploy.Outcome.{Outcome, ok}
use kubeturbo_deploy.Types.{Kubeturbo}
use kubeturbo_deploy.Objects.{
  Kind, Key, key_of, same_key, same_key_refl, config_map, service_account, cluster_role,
  cluster_role_binding, deployment, kubeturbo,
}
use kubeturbo_deploy.Client.{Client, IsLawful}
use kubeturbo_deploy.Cycle.{Cycle}
use kubeturbo_deploy.Reconciler.{
  new_config_map, new_service_account, new_cluster_role, new_cluster_role_binding, new_deployment,
  reconcile_kube_turbo, reconcile,
}
use kubeturbo_deploy.Reconciler.Stages.{status_frame}
use kubeturbo_deploy.Reconciler.Desired.{staged}

module _ (c : Client) (kt : Kubeturbo) where
  -- The objects that a cycle may write: one of each kind.
  abbrev pub is_managed : Kind → Key → Bool
  is_managed config_map key = same_key key (key_of config_map (new_config_map c kt))
  is_managed service_account key = same_key key (key_of service_account (new_service_account c kt))
  is_managed cluster_role key = same_key key (key_of cluster_role (new_cluster_role c kt))
  is_managed cluster_role_binding key =
      same_key key (key_of cluster_role_binding (new_cluster_role_binding c kt))
  is_managed deployment key = same_key key (key_of deployment (new_deployment c kt))
  is_managed kubeturbo key = same_key key (key_of kubeturbo kt)

  elsewhere :
      (j k : Kind) (key mine : Key)
      → is_managed j key ≡ false
      → is_managed k mine ≡ true
      → ((j ≡ k) × (key ≡ mine) → ⊥)
  elsewhere j k key mine other own p =
      true-ne-false (sym own ∙ (λ i. is_managed (sym p.0 i) (sym p.1 i)) ∙ other)

module _ (c : Client) (lawful : IsLawful c) (kt : Kubeturbo) where
  cycle_spares :
      (s t : Cycle c) (j : Kind) (key : Key)
      → reconcile_kube_turbo c kt s ≡ (ok tt, t)
      → is_managed c kt j key ≡ false
      → c.find t.world j key ≡ c.find s.world j key
  cycle_spares s t j key h other =
      let st = staged c lawful kt s t h in
      let at_cm = key_of config_map (new_config_map c kt) in
      let at_sa = key_of service_account (new_service_account c kt) in
      let at_cr = key_of cluster_role (new_cluster_role c kt) in
      let at_crb = key_of cluster_role_binding (new_cluster_role_binding c kt) in
      let at_dep = key_of deployment (new_deployment c kt) in
      let at_kt = key_of kubeturbo kt in
      status_frame c lawful kt st.s5 t st.status_run j key
        (elsewhere c kt j kubeturbo key at_kt other (same_key_refl at_kt))
      ∙ st.touches5.1 j key (elsewhere c kt j deployment key at_dep other (same_key_refl at_dep))
      ∙ st.touches4.1 j key
          (elsewhere c kt j cluster_role_binding key at_crb other (same_key_refl at_crb))
      ∙ st.touches3.1 j key (elsewhere c kt j cluster_role key at_cr other (same_key_refl at_cr))
      ∙ st.touches2.1 j key (elsewhere c kt j service_account key at_sa other (same_key_refl at_sa))
      ∙ st.touches1.1 j key (elsewhere c kt j config_map key at_cm other (same_key_refl at_cm))

  -- Over a lawful client, a cycle that reports no error leaves every object as it was, but for the
  -- resource and one config map, service account, cluster role, cluster role binding and deployment,
  -- each known by its name and namespace.
  pub reconcile-spares :
      (w v : c.World) (j : Kind) (key : Key)
      → reconcile c kt w ≡ (ok tt, v)
      → is_managed c kt j key ≡ false
      → c.find v j key ≡ c.find w j key
  unfolding reconcile
  reconcile-spares w v j key h other =
      let start : Cycle c = record { status = kt.status; world = w } in
      let (r, t) = reconcile_kube_turbo c kt start in
      let end : t.world ≡ v = ap (λ (p : Outcome (Unit {0}) × c.World). p.1) h in
      let run : reconcile_kube_turbo c kt start ≡ (ok tt, t) = λ i. ((h i).0, t) in
      ap (λ x. c.find x j key) (sym end) ∙ cycle_spares start t j key run other
