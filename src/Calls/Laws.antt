-- ===== src/Calls/Laws.antt =====
-- Deleting what may not be there.
use kubeturbo_deploy.Prelude.{◌≡◌, refl, ap, arith, none, [], ◌∷◌}
use kubeturbo_deploy.Outcome.{
  Outcome, ok, err, panic, not_found, requeue_on_deletion, conflict, failure,
}
use kubeturbo_deploy.Objects.{Kind, Key}
use kubeturbo_deploy.Client.{Client, IsLawful, SameBut}
use kubeturbo_deploy.Calls.{delete_if_exists}

module _ (c : Client) (lawful : IsLawful c) where
  -- After a successful call the object is gone, and every other object is as it was.
  pub delete_if_exists-ok :
      (k : Kind) (key : Key) (w v : c.World)
      → delete_if_exists c ((k, key) ∷ []) w ≡ (ok tt, v)
      → (c.find v k key ≡ none) × SameBut c k key w v
  unfolding delete_if_exists
  delete_if_exists-ok k key w v h = cases (c.delete k key w).0 refl
    where
      cases :
          (r : Outcome (Unit {0}))
          → (c.delete k key w).0 ≡ r
          → (c.find v k key ≡ none) × SameBut c k key w v
      cases (ok u) e = lawful.delete_ok k key w v (ground arith)
      cases (err not_found) p =
          let (gone, same) = lawful.delete_not_found k key w v (ground arith) in
          (gone, λ j other _. ap (λ (u : c.World). c.find u j other) same)
      cases (err requeue_on_deletion) p = absurd (ground arith)
      cases (err conflict) p = absurd (ground arith)
      cases (err (failure m)) p = absurd (ground arith)
      cases panic e = absurd (ground arith)
