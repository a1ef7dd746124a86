-- ===== src/Client/Responsive.antt =====
-- An API server that refuses nothing: what a client documents of calls that meet no failure.
use kubeturbo_deploy.Prelude.{◌≡◌, refl, none, some, [], ◌∷◌, ◌⊎◌, inl, inr, arith, Option-cases}
use kubeturbo_deploy.Outcome.{ok, err, Error, not_found, Exec}
use kubeturbo_deploy.Types.{Kubeturbo}
use kubeturbo_deploy.Objects.{Kind, kubeturbo, Object, Key, key_of}
use kubeturbo_deploy.Client.{Client, IsLawful, current, SameBut}
use kubeturbo_deploy.Calls.{delete_if_exists}
use kubeturbo_deploy.Calls.Laws.{delete_if_exists-ok}

module _ (c : Client) where
  pub record IsResponsive : Type 0 where
    -- An object is found under its own key.
    pub find_key :
        (k : Kind) (key : Key) (w : c.World) (o : Object k)
        → c.find w k key ≡ some o
        → key_of k o ≡ key
    -- What is there can be read, which changes nothing.
    pub get_answers :
        (k : Kind) (key : Key) (w : c.World) (o : Object k)
        → c.find w k key ≡ some o
        → c.get k key w ≡ (ok o, w)
    -- CreateOrUpdate succeeds if its function does and keeps the key; it returns the function's error.
    pub upsert_ok :
        (k : Kind) (o o' : Object k) (f : Object k → Exec c.World (Object k)) (w u : c.World)
        → f (current c k o w) w ≡ (ok o', u)
        → key_of k o' ≡ key_of k o
        → (v : c.World) × (c.create_or_update k o f w ≡ (ok tt, v))
    pub upsert_err :
        (k : Kind) (o : Object k) (f : Object k → Exec c.World (Object k)) (w u : c.World)
        (e : Error)
        → f (current c k o w) w ≡ (err e, u)
        → c.create_or_update k o f w ≡ (err e, u)
    -- A deletion succeeds, or there is nothing to delete.
    pub delete_answers :
        (k : Kind) (key : Key) (w : c.World)
        → ((c.delete k key w).0 ≡ ok tt) ⊎ ((c.delete k key w).0 ≡ err not_found)
    -- The status of a resource that is there can be updated.
    pub status_ok :
        (kt old : Kubeturbo) (w : c.World)
        → c.find w kubeturbo (key_of kubeturbo kt) ≡ some old
        → (v : c.World) × (c.update_status kt w ≡ (ok tt, v))

module _ (c : Client) (responsive : IsResponsive c) where
  pub key_of-current :
      (k : Kind) (o : Object k) (w : c.World) → key_of k (current c k o w) ≡ key_of k o
  key_of-current k o w = elim (Option-cases (c.find w k (key_of k o))) [
    | inl e ↦ rw (e, current) refl
    | inr (x, e) ↦ rw (e, current) (responsive.find_key k (key_of k o) w x e)
  ]

  delete_if_exists-runs :
      (k : Kind) (key : Key) (w : c.World)
      → delete_if_exists c ((k, key) ∷ []) w ≡ (ok tt, (c.delete k key w).1)
  unfolding delete_if_exists
  delete_if_exists-runs k key w = ground (arith, responsive.delete_answers k key w)

  pub delete_if_exists-gone :
      (lawful : IsLawful c) (k : Kind) (key : Key) (w : c.World)
      → (v : c.World) × (delete_if_exists c ((k, key) ∷ []) w ≡ (ok tt, v))
        × (c.find v k key ≡ none)
        × SameBut c k key w v
  delete_if_exists-gone lawful k key w =
      let run = delete_if_exists-runs k key w in
      let (gone, same) = delete_if_exists-ok c lawful k key w (c.delete k key w).1 run in
      ((c.delete k key w).1, run, gone, same)
