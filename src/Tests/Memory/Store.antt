-- ===== src/Tests/Memory/Store.antt =====
-- Searching and writing the tables of the memory.
use kubeturbo_deploy.Prelude.{
  ◌≡◌, ◌≢◌, ◌∙◌, refl, sym, ap, true, false, Option, none, some, List, [], ◌∷◌, arith, eq_iff,
  eq_refl, Bool-cases, inl, inr, ◌⊎◌, subst,
}
use kubeturbo_deploy.Outcome.{Outcome, ok, err, panic, not_found, failure, Exec}
use kubeturbo_deploy.Objects.{
  Kind, config_map, service_account, cluster_role, cluster_role_binding, deployment, kubeturbo,
  Object, Key, key_of, apart,
}
use kubeturbo_deploy.Client.{Written, refused, panicked, unwritten, written, current, SameBut}
use kubeturbo_deploy.Tests.Memory.{
  key_eq, Tables, set_table, search, remove, put_object, store, get_object, delete_object, memory,
}

pub key_eq-true : (a b : Key) → key_eq a b ≡ true → a ≡ b
key_eq-true a b h =
    let n = (eq_iff a.name b.name).0 (ground arith) in
    let s = (eq_iff a.namespace b.namespace).0 (ground arith) in
    λ i. record { name = n i; namespace = s i }

pub key_eq_refl : (a : Key) → key_eq a a ≡ true
key_eq_refl a = ground (arith, eq_refl a.name, eq_refl a.namespace)

pub key_eq-false : (a b : Key) → a ≢ b → key_eq a b ≡ false
key_eq-false a b ne = elim (Bool-cases (key_eq a b)) [
  | inl e ↦ absurd (ne (key_eq-true a b e))
  | inr e ↦ e
]

Kind-cases : (j k : Kind) → (j ≡ k) ⊎ (j ≢ k)
Kind-cases config_map config_map = inl refl
Kind-cases config_map service_account = inr (apart refl)
Kind-cases config_map cluster_role = inr (apart refl)
Kind-cases config_map cluster_role_binding = inr (apart refl)
Kind-cases config_map deployment = inr (apart refl)
Kind-cases config_map kubeturbo = inr (apart refl)
Kind-cases service_account config_map = inr (apart refl)
Kind-cases service_account service_account = inl refl
Kind-cases service_account cluster_role = inr (apart refl)
Kind-cases service_account cluster_role_binding = inr (apart refl)
Kind-cases service_account deployment = inr (apart refl)
Kind-cases service_account kubeturbo = inr (apart refl)
Kind-cases cluster_role config_map = inr (apart refl)
Kind-cases cluster_role service_account = inr (apart refl)
Kind-cases cluster_role cluster_role = inl refl
Kind-cases cluster_role cluster_role_binding = inr (apart refl)
Kind-cases cluster_role deployment = inr (apart refl)
Kind-cases cluster_role kubeturbo = inr (apart refl)
Kind-cases cluster_role_binding config_map = inr (apart refl)
Kind-cases cluster_role_binding service_account = inr (apart refl)
Kind-cases cluster_role_binding cluster_role = inr (apart refl)
Kind-cases cluster_role_binding cluster_role_binding = inl refl
Kind-cases cluster_role_binding deployment = inr (apart refl)
Kind-cases cluster_role_binding kubeturbo = inr (apart refl)
Kind-cases deployment config_map = inr (apart refl)
Kind-cases deployment service_account = inr (apart refl)
Kind-cases deployment cluster_role = inr (apart refl)
Kind-cases deployment cluster_role_binding = inr (apart refl)
Kind-cases deployment deployment = inl refl
Kind-cases deployment kubeturbo = inr (apart refl)
Kind-cases kubeturbo config_map = inr (apart refl)
Kind-cases kubeturbo service_account = inr (apart refl)
Kind-cases kubeturbo cluster_role = inr (apart refl)
Kind-cases kubeturbo cluster_role_binding = inr (apart refl)
Kind-cases kubeturbo deployment = inr (apart refl)
Kind-cases kubeturbo kubeturbo = inl refl

set_table-same : (k : Kind) (items : List (Object k)) (w : Tables) → set_table k items w k ≡ items
unfolding set_table
set_table-same config_map items w = refl
set_table-same service_account items w = refl
set_table-same cluster_role items w = refl
set_table-same cluster_role_binding items w = refl
set_table-same deployment items w = refl
set_table-same kubeturbo items w = refl

set_table-other :
    (k j : Kind) (items : List (Object k)) (w : Tables) → j ≢ k → set_table k items w j ≡ w j
unfolding set_table
set_table-other config_map config_map items w ne = absurd (ne refl)
set_table-other config_map service_account items w ne = refl
set_table-other config_map cluster_role items w ne = refl
set_table-other config_map cluster_role_binding items w ne = refl
set_table-other config_map deployment items w ne = refl
set_table-other config_map kubeturbo items w ne = refl
set_table-other service_account config_map items w ne = refl
set_table-other service_account service_account items w ne = absurd (ne refl)
set_table-other service_account cluster_role items w ne = refl
set_table-other service_account cluster_role_binding items w ne = refl
set_table-other service_account deployment items w ne = refl
set_table-other service_account kubeturbo items w ne = refl
set_table-other cluster_role config_map items w ne = refl
set_table-other cluster_role service_account items w ne = refl
set_table-other cluster_role cluster_role items w ne = absurd (ne refl)
set_table-other cluster_role cluster_role_binding items w ne = refl
set_table-other cluster_role deployment items w ne = refl
set_table-other cluster_role kubeturbo items w ne = refl
set_table-other cluster_role_binding config_map items w ne = refl
set_table-other cluster_role_binding service_account items w ne = refl
set_table-other cluster_role_binding cluster_role items w ne = refl
set_table-other cluster_role_binding cluster_role_binding items w ne = absurd (ne refl)
set_table-other cluster_role_binding deployment items w ne = refl
set_table-other cluster_role_binding kubeturbo items w ne = refl
set_table-other deployment config_map items w ne = refl
set_table-other deployment service_account items w ne = refl
set_table-other deployment cluster_role items w ne = refl
set_table-other deployment cluster_role_binding items w ne = refl
set_table-other deployment deployment items w ne = absurd (ne refl)
set_table-other deployment kubeturbo items w ne = refl
set_table-other kubeturbo config_map items w ne = refl
set_table-other kubeturbo service_account items w ne = refl
set_table-other kubeturbo cluster_role items w ne = refl
set_table-other kubeturbo cluster_role_binding items w ne = refl
set_table-other kubeturbo deployment items w ne = refl
set_table-other kubeturbo kubeturbo items w ne = absurd (ne refl)

pub some-ne-none {ℓ} : {A : Type ℓ} {a : A} {o : Option A} → o ≡ some a → o ≡ none → ⊥
some-ne-none h n = ground arith

pub some-injective {ℓ} : {A : Type ℓ} {a b : A} → some a ≡ some b → a ≡ b
some-injective h = cc

pub ok-injective {ℓ} : {A : Type ℓ} {a b : A} → ok a ≡ ok b → a ≡ b
ok-injective h = cc

module _ (k : Kind) where
  pub search-key :
      (items : List (Object k)) (key : Key) (o : Object k)
      → search k items key ≡ some o
      → key_of k o ≡ key
  unfolding search
  search-key [] key o h = ground arith
  search-key (p ∷ items) key o h = elim (Bool-cases (key_eq (key_of k p) key)) [
    | inl e ↦
        (let same : p ≡ o = (ground arith) in
          ap (key_of k) (sym same) ∙ key_eq-true (key_of k p) key e)
    | inr e ↦ search-key items key o (ground arith)
  ]

  remove-same : (items : List (Object k)) (key : Key) → search k (remove k key items) key ≡ none
  unfolding search remove
  remove-same [] key = refl
  remove-same (o ∷ items) key = ground (arith, remove-same items key)

  remove-other :
      (items : List (Object k)) (key other : Key)
      → other ≢ key
      → search k (remove k key items) other ≡ search k items other
  unfolding search remove
  remove-other [] key other ne = refl
  remove-other (o ∷ items) key other ne = elim (Bool-cases (key_eq (key_of k o) key)) [
    | inl e ↦ ground (
      arith,
      remove-other items key other ne,
      key_eq-false (key_of k o) other (λ p. ne (sym p ∙ key_eq-true (key_of k o) key e)),
    )
    | inr e ↦ ground (arith, remove-other items key other ne)
  ]

  set_table-SameBut :
      (key : Key) (items : List (Object k)) (w : Tables)
      → ((other : Key) → other ≢ key → search k items other ≡ search k (w k) other)
      → SameBut memory k key w (set_table k items w)
  set_table-SameBut key items w same j other n = elim (Kind-cases j k) [
    | inl p ↦
        subst (λ x. search x (set_table k items w x) other ≡ search x (w x) other) (sym p)
          (ap (λ t. search k t other) (set_table-same k items w) ∙ same other (λ q. n (p, q)))
    | inr ne ↦ ap (λ t. search j t other) (set_table-other k j items w ne)
  ]

  pub put_object-found :
      (key : Key) (o : Object k) (w : Tables)
      → key_of k o ≡ key
      → search k (put_object k key o w k) key ≡ some o
  unfolding search
  put_object-found key o w e =
      ap (λ t. search k t key) (set_table-same k (o ∷ remove k key (w k)) w)
      ∙ ground (arith, ap (λ x. key_eq x key) e ∙ key_eq_refl key)

  pub put_object-SameBut :
      (key : Key) (o : Object k) (w : Tables)
      → key_of k o ≡ key
      → SameBut memory k key w (put_object k key o w)
  unfolding search
  put_object-SameBut key o w e = set_table-SameBut key (o ∷ remove k key (w k)) w λ other ne.
      ground (
        arith,
        remove-other (w k) key other ne,
        key_eq-false (key_of k o) other (λ p. ne (sym p ∙ e)),
      )

  pub store-Written :
      (o : Object k) (f : Object k → Exec Tables (Object k)) (w : Tables)
      (r : Outcome (Object k) × Tables)
      → f (current memory k o w) w ≡ r
      → Written memory k o f w (store k (key_of k o) r)
  store-Written o f w (err e, u) h = refused e u h refl
  store-Written o f w (panic, u) h = panicked u h refl
  store-Written o f w (ok o', u) h = elim (Bool-cases (key_eq (key_of k o') (key_of k o))) [
    | inl e ↦
        let p = key_eq-true (key_of k o') (key_of k o) e in
        written o' u (put_object k (key_of k o) o' u) h (put_object-found (key_of k o) o' u p)
          (put_object-SameBut (key_of k o) o' u p) (rw e refl)
    | inr e ↦ unwritten (failure "the function changed the name") o' u h (rw e refl)
  ]

  pub get_object-ok :
      (key : Key) (w v : Tables) (o : Object k)
      → get_object k key w ≡ (ok o, v)
      → (v ≡ w) × (search k (w k) key ≡ some o)
  get_object-ok key w v o h = (ground arith, ground arith)

  pub delete_object-ok :
      (key : Key) (w v : Tables)
      → delete_object k key w ≡ (ok tt, v)
      → set_table k (remove k key (w k)) w ≡ v
  delete_object-ok key w v h = ground arith

  pub delete_object-not_found :
      (key : Key) (w v : Tables)
      → delete_object k key w ≡ (err not_found, v)
      → (v ≡ w) × (search k (w k) key ≡ none)
  delete_object-not_found key w v h = (ground arith, ground arith)

  pub removed :
      (key : Key) (w : Tables)
      → (search k (set_table k (remove k key (w k)) w k) key ≡ none)
        × SameBut memory k key w (set_table k (remove k key (w k)) w)
  removed key w = (
    ap (λ t. search k t key) (set_table-same k (remove k key (w k)) w) ∙ remove-same (w k) key,
    set_table-SameBut key (remove k key (w k)) w (remove-other (w k) key),
  )
