-- ===== src/Teardown/Laws.antt =====
-- What a teardown removes, and what it spares.
use kubeturbo_deploy.Prelude.{
  String, ◌≡◌, ◌≢◌, ◌∙◌, refl, sym, ap, Bool, true, false, some, [], ◌∷◌, true-ne-false,
}
use kubeturbo_deploy.Prelude.Maps.{Map}
use kubeturbo_deploy.Outcome.{Outcome, ok, lift}
use kubeturbo_deploy.Outcome.Laws.{bind-eq-ok}
use kubeturbo_deploy.Utils.{return_on_error}
use kubeturbo_deploy.Utils.Laws.{return_on_error-cons, return_on_error-nil}
use kubeturbo_deploy.Request.{labels, namespace}
use kubeturbo_deploy.Types.{Kubeturbo}
use kubeturbo_deploy.Objects.{
  Kind, Object, meta, Key, apart, config_map, service_account, cluster_role, cluster_role_binding,
  deployment, kubeturbo,
}
use kubeturbo_deploy.Client.{Client, IsLawful, matches}
use kubeturbo_deploy.Cycle.{Cycle, new_meta}
use kubeturbo_deploy.Workload.{mutate_service_account}
use kubeturbo_deploy.Workload.Laws.{mutate_service_account_idem}
use kubeturbo_deploy.Reconciler.Steps.{upsert-Settled, lifted}
use kubeturbo_deploy.Teardown.{
  clean_up_kind, remove_finalizer_step, clean_up_cluster_resources, teardown,
}
use kubeturbo_deploy.Teardown.CleanUp.{
  clean_up_kind-others, clean_up_kind-spares, clean_up_kind-removes,
}

-- The kinds whose objects have no namespace.
abbrev pub cluster_level : Kind → Bool
cluster_level cluster_role = true
cluster_level cluster_role_binding = true
cluster_level _ = false

module _ (c : Client) (lawful : IsLawful c) (kt : Kubeturbo) where
  -- Removing the finalizer of the service account touches no other kind.
  remove_finalizer_step-others :
      (s t : Cycle c) (j : Kind) (key : Key)
      → remove_finalizer_step c kt s ≡ (ok tt, t)
      → j ≢ service_account
      → c.find t.world j key ≡ c.find s.world j key
  unfolding remove_finalizer_step
  remove_finalizer_step-others s t j key h ne =
      let ((_, same), _) =
        upsert-Settled c lawful service_account
          (record { metadata = new_meta kt.spec.service_account_name (namespace kt) })
          (λ sa. lift (mutate_service_account kt false sa))
          (lifted c lawful (mutate_service_account kt false) (mutate_service_account_idem kt false))
          s t h in
      same j key (λ p. ne p.0)

  teardown-inversion :
      (w v : c.World)
      → teardown c kt w ≡ (ok tt, v)
      → (s1 : Cycle c) × (s2 : Cycle c) × (s3 : Cycle c) × (remove_finalizer_step c kt
            (record { status = kt.status; world = w })
          ≡ (ok tt, s1))
        × (clean_up_kind c kt cluster_role s1 ≡ (ok tt, s2))
        × (clean_up_kind c kt cluster_role_binding s2 ≡ (ok tt, s3))
        × (s3.world ≡ v)
  unfolding teardown clean_up_cluster_resources
  teardown-inversion w v h =
      let start : Cycle c = record { status = kt.status; world = w } in
      let (r, t) = clean_up_cluster_resources c kt start in
      let run : clean_up_cluster_resources c kt start ≡ (ok tt, t) = λ i. ((h i).0, t) in
      let roles = clean_up_kind c kt cluster_role in
      let bindings = clean_up_kind c kt cluster_role_binding in
      let (_, s1, r1, h1) =
        bind-eq-ok (remove_finalizer_step c kt) (λ _. return_on_error (roles ∷ bindings ∷ [])) start
          run in
      let (s2, r2, h2) = return_on_error-cons roles (bindings ∷ []) s1 t h1 in
      let (s3, r3, h3) = return_on_error-cons bindings [] s2 t h2 in
      (
        s1,
        s2,
        s3,
        r1,
        r2,
        r3,
        ap (λ (x : Cycle c). x.world) (return_on_error-nil s3 t h3)
            ∙ ap (λ (p : Outcome (Unit {0}) × c.World). p.1) h,
      )

  -- Over a lawful client, after a teardown that reports no error, no cluster role and no cluster
  -- role binding has the labels of the resource.
  pub teardown-removes :
      (k : Kind) (ls : Map String) (w v : c.World) (key : Key) (o : Object k)
      → cluster_level k ≡ true
      → labels kt ≡ ok ls
      → teardown c kt w ≡ (ok tt, v)
      → c.find v k key ≡ some o
      → matches ls (meta k o).labels ≡ false
  teardown-removes cluster_role ls w v key o level e h found =
      let (s1, s2, s3, r1, r2, r3, end) = teardown-inversion w v h in
      let still : c.find s2.world cluster_role key ≡ some o =
        sym (
          clean_up_kind-others c lawful kt cluster_role_binding ls s2 s3 cluster_role key e r3
            (apart refl))
        ∙ ap (λ (x : c.World). c.find x cluster_role key) end
        ∙ found in
      clean_up_kind-removes c lawful kt cluster_role ls s1 s2 key o e r2 still
  teardown-removes cluster_role_binding ls w v key o level e h found =
      let (s1, s2, s3, r1, r2, r3, end) = teardown-inversion w v h in
      clean_up_kind-removes c lawful kt cluster_role_binding ls s2 s3 key o e r3
        (ap (λ (x : c.World). c.find x cluster_role_binding key) end ∙ found)
  teardown-removes config_map ls w v key o level e h found = absurd (true-ne-false (sym level))
  teardown-removes service_account ls w v key o level e h found = absurd (true-ne-false (sym level))
  teardown-removes deployment ls w v key o level e h found = absurd (true-ne-false (sym level))
  teardown-removes kubeturbo ls w v key o level e h found = absurd (true-ne-false (sym level))

  -- Through the steps of a teardown, an object of a kind that none of them touches.
  untouched :
      (k : Kind) (ls : Map String) (w v : c.World) (key : Key)
      → k ≢ service_account
      → k ≢ cluster_role
      → k ≢ cluster_role_binding
      → labels kt ≡ ok ls
      → teardown c kt w ≡ (ok tt, v)
      → c.find v k key ≡ c.find w k key
  untouched k ls w v key n1 n2 n3 e h =
      let (s1, s2, s3, r1, r2, r3, end) = teardown-inversion w v h in
      ap (λ (x : c.World). c.find x k key) (sym end)
      ∙ clean_up_kind-others c lawful kt cluster_role_binding ls s2 s3 k key e r3 n3
      ∙ clean_up_kind-others c lawful kt cluster_role ls s1 s2 k key e r2 n2
      ∙ remove_finalizer_step-others (record { status = kt.status; world = w }) s1 k key r1 n1

  -- Over a lawful client, a teardown that reports no error leaves every object without the labels
  -- of the resource as it was, but for service accounts.
  pub teardown-spares :
      (k : Kind) (ls : Map String) (w v : c.World) (key : Key) (o : Object k)
      → k ≢ service_account
      → labels kt ≡ ok ls
      → teardown c kt w ≡ (ok tt, v)
      → c.find w k key ≡ some o
      → matches ls (meta k o).labels ≡ false
      → c.find v k key ≡ some o
  teardown-spares cluster_role ls w v key o ne e h found other =
      let (s1, s2, s3, r1, r2, r3, end) = teardown-inversion w v h in
      let start : Cycle c = record { status = kt.status; world = w } in
      ap (λ (x : c.World). c.find x cluster_role key) (sym end)
      ∙ clean_up_kind-others c lawful kt cluster_role_binding ls s2 s3 cluster_role key e r3
          (apart refl)
      ∙ clean_up_kind-spares c lawful kt cluster_role ls s1 s2 key o e r2
          (remove_finalizer_step-others start s1 cluster_role key r1 ne ∙ found) other
  teardown-spares cluster_role_binding ls w v key o ne e h found other =
      let (s1, s2, s3, r1, r2, r3, end) = teardown-inversion w v h in
      let start : Cycle c = record { status = kt.status; world = w } in
      ap (λ (x : c.World). c.find x cluster_role_binding key) (sym end)
      ∙ clean_up_kind-spares c lawful kt cluster_role_binding ls s2 s3 key o e r3
          (clean_up_kind-others c lawful kt cluster_role ls s1 s2 cluster_role_binding key e r2
              (apart refl)
            ∙ remove_finalizer_step-others start s1 cluster_role_binding key r1 ne
            ∙ found)
          other
  teardown-spares config_map ls w v key o ne e h found other =
      untouched config_map ls w v key ne (apart refl) (apart refl) e h ∙ found
  teardown-spares service_account ls w v key o ne e h found other = absurd (ne refl)
  teardown-spares deployment ls w v key o ne e h found other =
      untouched deployment ls w v key ne (apart refl) (apart refl) e h ∙ found
  teardown-spares kubeturbo ls w v key o ne e h found other =
      untouched kubeturbo ls w v key ne (apart refl) (apart refl) e h ∙ found
