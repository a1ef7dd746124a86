-- ===== src/Tests/Memory/Selection.antt =====
-- What a list by labels selects.
use kubeturbo_deploy.Prelude.{
  String, ◌≡◌, ◌∙◌, refl, sym, ap, true, false, Option, none, some, List, [], ◌∷◌, arith,
  Bool-cases, inl, inr, ◌⊎◌, subst, Any,
}
use kubeturbo_deploy.Prelude.Maps.{Map}
use kubeturbo_deploy.Objects.{Kind, Object, meta, Key, key_of}
use kubeturbo_deploy.Client.{matches}
use kubeturbo_deploy.Tests.Memory.{key_eq, search, keep, select}
use kubeturbo_deploy.Tests.Memory.Store.{some-injective, some-ne-none, key_eq-true, search-key}

module _ (k : Kind) where
  keep-true :
      (selector : Map String) (q : Object k) (rest : List (Object k))
      → matches selector (meta k q).labels ≡ true
      → keep k selector (some q) rest ≡ q ∷ rest
  keep-true selector q rest m = rw m refl

  keep-false :
      (selector : Map String) (q : Object k) (rest : List (Object k))
      → matches selector (meta k q).labels ≡ false
      → keep k selector (some q) rest ≡ rest
  keep-false selector q rest m = rw m refl

  Any-keep :
      (P : Object k → Type 0) (selector : Map String) (x : Option (Object k))
      (rest : List (Object k))
      → Any P rest
      → Any P (keep k selector x rest)
  Any-keep P selector none rest l = l
  Any-keep P selector (some q) rest l = elim (Bool-cases (matches selector (meta k q).labels)) [
    | inl m ↦ subst (Any P) (sym (keep-true selector q rest m)) (inr l)
    | inr m ↦ subst (Any P) (sym (keep-false selector q rest m)) l
  ]

  keep-Any :
      (P : Object k → Type 0) (selector : Map String) (x : Option (Object k))
      (rest : List (Object k))
      → Any P (keep k selector x rest)
      → ((q : Object k) × (x ≡ some q) × (matches selector (meta k q).labels ≡ true) × P q)
        ⊎ Any P rest
  keep-Any P selector none rest l = inr l
  keep-Any P selector (some q) rest l = elim (Bool-cases (matches selector (meta k q).labels)) [
    | inl m ↦ elim (subst (Any P) (keep-true selector q rest m) l) [
      | inl h ↦ inl (q, refl, m, h)
      | inr h ↦ inr h
    ]
    | inr m ↦ inr (subst (Any P) (keep-false selector q rest m) l)
  ]

  -- Every object that matches is selected.
  pub select-every :
      (selector : Map String) (items all : List (Object k)) (key : Key) (o : Object k)
      → search k all key ≡ some o
      → search k items key ≡ some o
      → matches selector (meta k o).labels ≡ true
      → Any (λ i. key_of k i ≡ key) (select k selector items all)
  unfolding select search
  select-every selector [] all key o found there m = absurd (some-ne-none there refl)
  select-every selector (p ∷ items) all key o found there m =
      elim (Bool-cases (key_eq (key_of k p) key)) [
        | inl e ↦
            let same = key_eq-true (key_of k p) key e in
            let shape = ap (search k all) same ∙ found in
            subst
              (λ x. Any (λ i. key_of k i ≡ key) (keep k selector x (select k selector items all)))
              (sym shape)
              (subst (Any (λ i. key_of k i ≡ key))
                (sym (keep-true selector o (select k selector items all) m))
                (inl (search-key k all key o found)))
        | inr e ↦
            Any-keep (λ i. key_of k i ≡ key) selector (search k all (key_of k p))
              (select k selector items all)
              (select-every selector items all key o found (ground arith) m)
      ]

  -- A selected object is the one that is found, and matches.
  pub select-only :
      (selector : Map String) (items all : List (Object k)) (key : Key) (o : Object k)
      → search k all key ≡ some o
      → Any (λ i. key_of k i ≡ key) (select k selector items all)
      → matches selector (meta k o).labels ≡ true
  unfolding select
  select-only selector [] all key o found l = absurd l
  select-only selector (p ∷ items) all key o found l =
      elim (keep-Any (λ i. key_of k i ≡ key) selector (search k all (key_of k p))
        (select k selector items all) l) [
          | inl (q, e, m, h) ↦
              let at_key = sym (search-key k all (key_of k p) q e) ∙ h in
              let same = some-injective (sym (ap (search k all) at_key ∙ found) ∙ e) in
              ap (λ x. matches selector (meta k x).labels) same ∙ m
          | inr rest ↦ select-only selector items all key o found rest
        ]
