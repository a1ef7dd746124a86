-- ===== src/Teardown/CleanUp.antt =====
-- cleanUpClusterRole and cleanUpClusterRolebinding: deleting what a list returned.
use kubeturbo_deploy.Prelude.{
  String, ◌≡◌, ◌≢◌, ◌∙◌, sym, ap, false, Option, none, some, List, [], ◌∷◌, ◌⊎◌, inl, inr, arith,
  ◌==◌, Bool-cases, eq_iff, Any, true-ne-false,
}
use kubeturbo_deploy.Prelude.Maps.{Map}
use kubeturbo_deploy.Outcome.{Outcome, ok, Exec, lift, ◌>>=◌}
use kubeturbo_deploy.Outcome.Laws.{bind-eq-ok}
use kubeturbo_deploy.Request.{labels}
use kubeturbo_deploy.Types.{Kubeturbo}
use kubeturbo_deploy.Objects.{Kind, Object, meta, Key, key_of}
use kubeturbo_deploy.Client.{Client, IsLawful, SameBut, matches}
use kubeturbo_deploy.Calls.{delete_if_exists}
use kubeturbo_deploy.Calls.Laws.{delete_if_exists-ok}
use kubeturbo_deploy.Cycle.{Cycle, on_world}
use kubeturbo_deploy.Reconciler.Steps.{on_world-ok}
use kubeturbo_deploy.Teardown.{delete_all, clean_up_kind}

String-cases : (a b : String) → (a ≡ b) ⊎ (a ≢ b)
String-cases a b = elim (Bool-cases (a == b)) [
  | inl e ↦ inl ((eq_iff a b).0 e)
  | inr e ↦ inr (λ p. true-ne-false (sym ((eq_iff a b).1 p) ∙ e))
]

Key-cases : (a b : Key) → (a ≡ b) ⊎ (a ≢ b)
Key-cases a b = elim (String-cases a.name b.name) [
  | inl n ↦ elim (String-cases a.namespace b.namespace) [
    | inl s ↦ inl (λ i. record { name = n i; namespace = s i })
    | inr s ↦ inr (λ p. s (ap (λ (k : Key). k.namespace) p))
  ]
  | inr n ↦ inr (λ p. n (ap (λ (k : Key). k.name) p))
]

some-ne-none {ℓ} : {A : Type ℓ} {a : A} {o : Option A} → o ≡ some a → o ≡ none → ⊥
some-ne-none h n = ground arith

module _ (c : Client) (k : Kind) where
  -- Some item of the list has the key.
  abbrev Listed : Key → List (Object k) → Type 0
  Listed key items = Any (λ i. key_of k i ≡ key) items

  Listed-cases : (key : Key) (items : List (Object k)) → Listed key items ⊎ (Listed key items → ⊥)
  Listed-cases key [] = inr (λ l. l)
  Listed-cases key (o ∷ items) = elim (Key-cases (key_of k o) key) [
    | inl e ↦ inl (inl e)
    | inr e ↦ elim (Listed-cases key items) [
      | inl l ↦ inl (inr l)
      | inr l ↦ inr (λ x. elim x [ inl p ↦ e p | inr p ↦ l p ])
    ]
  ]

module _ (c : Client) (lawful : IsLawful c) (kt : Kubeturbo) (k : Kind) where
  delete_all-cons :
      (o : Object k) (items : List (Object k)) (s t : Cycle c)
      → delete_all c kt k (o ∷ items) s ≡ (ok tt, t)
      → (u : Cycle c) × (c.find u.world k (key_of k o) ≡ none)
        × SameBut c k (key_of k o) s.world u.world
        × (delete_all c kt k items u ≡ (ok tt, t))
  unfolding delete_all
  delete_all-cons o items s t h =
      let drop : Exec (Cycle c) (Unit {0}) =
        on_world c (delete_if_exists c ((k, key_of k o) ∷ [])) in
      let (_, u, first, rest) = bind-eq-ok drop (λ _. delete_all c kt k items) s h in
      let (run, _) = on_world-ok c (delete_if_exists c ((k, key_of k o) ∷ [])) s u first in
      let (gone, same) = delete_if_exists-ok c lawful k (key_of k o) s.world u.world run in
      (u, gone, same, rest)

  delete_all-nil : (s t : Cycle c) → delete_all c kt k [] s ≡ (ok tt, t) → s ≡ t
  unfolding delete_all
  delete_all-nil s t h = ap (λ (p : Outcome (Unit {0}) × Cycle c). p.1) h

  -- What is not listed stays.
  delete_all-spares :
      (items : List (Object k)) (s t : Cycle c) (j : Kind) (key : Key)
      → delete_all c kt k items s ≡ (ok tt, t)
      → ((j ≡ k) × Listed c k key items → ⊥)
      → c.find t.world j key ≡ c.find s.world j key
  delete_all-spares [] s t j key h n =
      ap (λ (x : Cycle c). c.find x.world j key) (sym (delete_all-nil s t h))
  delete_all-spares (o ∷ items) s t j key h n =
      let (u, gone, same, rest) = delete_all-cons o items s t h in
      delete_all-spares items u t j key rest (λ p. n (p.0, inr p.1))
      ∙ same j key (λ p. n (p.0, inl (sym p.1)))

  -- What is gone is not made again.
  delete_all-none :
      (items : List (Object k)) (s t : Cycle c) (key : Key)
      → delete_all c kt k items s ≡ (ok tt, t)
      → c.find s.world k key ≡ none
      → c.find t.world k key ≡ none
  delete_all-none [] s t key h e =
      ap (λ (x : Cycle c). c.find x.world k key) (sym (delete_all-nil s t h)) ∙ e
  delete_all-none (o ∷ items) s t key h e =
      let (u, gone, same, rest) = delete_all-cons o items s t h in
      delete_all-none items u t key rest (elim (Key-cases (key_of k o) key) [
        | inl p ↦ ap (λ x. c.find u.world k x) (sym p) ∙ gone
        | inr p ↦ same k key (λ q. p (sym q.1)) ∙ e
      ])

  -- What is listed is gone.
  delete_all-removes :
      (items : List (Object k)) (s t : Cycle c) (key : Key)
      → delete_all c kt k items s ≡ (ok tt, t)
      → Listed c k key items
      → c.find t.world k key ≡ none
  delete_all-removes [] s t key h l = absurd l
  delete_all-removes (o ∷ items) s t key h l =
      let (u, gone, same, rest) = delete_all-cons o items s t h in
      elim l [
        | inl p ↦ delete_all-none items u t key rest (ap (λ x. c.find u.world k x) (sym p) ∙ gone)
        | inr p ↦ delete_all-removes items u t key rest p
      ]

  -- A clean-up lists the objects with the labels, and deletes those.
  clean_up_kind-inversion :
      (ls : Map String) (s t : Cycle c)
      → labels kt ≡ ok ls
      → clean_up_kind c kt k s ≡ (ok tt, t)
      → (items : List (Object k)) × (u : Cycle c) × (c.list k ls s.world ≡ (ok items, u.world))
        × (delete_all c kt k items u ≡ (ok tt, t))
  unfolding clean_up_kind
  clean_up_kind-inversion ls s t e h =
      let rest : Map String → Exec (Cycle c) (Unit {0}) =
        λ ls. on_world c (c.list k ls) >>= λ items. delete_all c kt k items in
      let h1 : rest ls s ≡ (ok tt, t) =
        ap (λ (r : Outcome (Map String)). (lift r >>= rest) s) (sym e) ∙ h in
      let (items, u, listed, h2) =
        bind-eq-ok (on_world c (c.list k ls)) (λ items. delete_all c kt k items) s h1 in
      let (run, _) = on_world-ok c (c.list k ls) s u listed in (items, u, run, h2)

  -- Objects of other kinds stay.
  pub clean_up_kind-others :
      (ls : Map String) (s t : Cycle c) (j : Kind) (key : Key)
      → labels kt ≡ ok ls
      → clean_up_kind c kt k s ≡ (ok tt, t)
      → j ≢ k
      → c.find t.world j key ≡ c.find s.world j key
  clean_up_kind-others ls s t j key e h ne =
      let (items, u, run, del) = clean_up_kind-inversion ls s t e h in
      let (same, _, _) = lawful.list_ok k ls s.world u.world items run in
      delete_all-spares items u t j key del (λ p. ne p.0)
      ∙ ap (λ (x : c.World). c.find x j key) same

  -- Objects without the labels stay.
  pub clean_up_kind-spares :
      (ls : Map String) (s t : Cycle c) (key : Key) (o : Object k)
      → labels kt ≡ ok ls
      → clean_up_kind c kt k s ≡ (ok tt, t)
      → c.find s.world k key ≡ some o
      → matches ls (meta k o).labels ≡ false
      → c.find t.world k key ≡ some o
  clean_up_kind-spares ls s t key o e h found other =
      let (items, u, run, del) = clean_up_kind-inversion ls s t e h in
      let (same, _, only) = lawful.list_ok k ls s.world u.world items run in
      delete_all-spares items u t k key del
        (λ p. true-ne-false (sym (only key o found p.1) ∙ other))
      ∙ ap (λ (x : c.World). c.find x k key) same
      ∙ found

  -- Objects with the labels are gone.
  pub clean_up_kind-removes :
      (ls : Map String) (s t : Cycle c) (key : Key) (o : Object k)
      → labels kt ≡ ok ls
      → clean_up_kind c kt k s ≡ (ok tt, t)
      → c.find t.world k key ≡ some o
      → matches ls (meta k o).labels ≡ false
  clean_up_kind-removes ls s t key o e h found =
      let (items, u, run, del) = clean_up_kind-inversion ls s t e h in
      let (same, every, _) = lawful.list_ok k ls s.world u.world items run in
      elim (Listed-cases c k key items) [
        | inl l ↦ absurd (some-ne-none found (delete_all-removes items u t key del l))
        | inr n ↦
            let was : c.find s.world k key ≡ some o =
              ap (λ (x : c.World). c.find x k key) (sym same)
              ∙ sym (delete_all-spares items u t k key del (λ p. n p.1))
              ∙ found in
            elim (Bool-cases (matches ls (meta k o).labels)) [
              | inl m ↦ absurd (n (every key o was m))
              | inr m ↦ m
            ]
      ]
