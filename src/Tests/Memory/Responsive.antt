-- ===== src/Tests/Memory/Responsive.antt =====
-- The memory refuses nothing.
use kubeturbo_deploy.Prelude.{
  ◌≡◌, ◌∙◌, refl, sym, ap, some, ◌⊎◌, inl, inr, true, arith, Option-cases,
}
use kubeturbo_deploy.Outcome.{ok, err, not_found, Exec}
use kubeturbo_deploy.Types.{Kubeturbo}
use kubeturbo_deploy.Objects.{Kind, kubeturbo, Object, Key, key_of}
use kubeturbo_deploy.Client.{current}
use kubeturbo_deploy.Client.Responsive.{IsResponsive}
use kubeturbo_deploy.Tests.Memory.{
  Tables, key_eq, search, put_object, store, get_object, delete_object, write_status, memory,
}
use kubeturbo_deploy.Tests.Memory.Store.{key_eq_refl, search-key}

stored :
    (k : Kind) (key : Key) (o : Object k) (w : Tables)
    → key_of k o ≡ key
    → store k key (ok o, w) ≡ (ok tt, put_object k key o w)
stored k key o w e =
    let same : key_eq (key_of k o) key ≡ true =
      ap (key_eq (key_of k o)) (sym e) ∙ key_eq_refl (key_of k o) in
    rw (store, same) refl

current-search :
    (k : Kind) (o : Object k) (w : Tables) (f : Object k → Exec Tables (Object k))
    → memory.create_or_update k o f w ≡ store k (key_of k o) (f (current memory k o w) w)
current-search k o w f = elim (Option-cases (search k (w k) (key_of k o))) [
  | inl e ↦ rw (e, current) refl
  | inr (x, e) ↦ rw (e, current) refl
]

delete-answers :
    (k : Kind) (key : Key) (w : Tables)
    → ((delete_object k key w).0 ≡ ok tt) ⊎ ((delete_object k key w).0 ≡ err not_found)
delete-answers k key w = elim (Option-cases (search k (w k) key)) [
  | inl e ↦ inr (ground arith)
  | inr (x, e) ↦ inl (ground arith)
]

status-written :
    (kt old : Kubeturbo) (w : Tables)
    → search kubeturbo (w kubeturbo) (key_of kubeturbo kt) ≡ some old
    → write_status kt w
      ≡ (ok tt, put_object kubeturbo (key_of kubeturbo kt) (record old { status = kt.status }) w)
status-written kt old w found = ground arith

got :
    (k : Kind) (key : Key) (o : Object k) (w : Tables)
    → search k (w k) key ≡ some o
    → get_object k key w ≡ (ok o, w)
got k key o w found = ground arith

pub memory-IsResponsive : IsResponsive memory
memory-IsResponsive = record {
  find_key = λ k key w o found. search-key k (w k) key o found;
  get_answers = λ k key w o found. got k key o w found;
  upsert_ok = λ k o o' f w u call key. (
    put_object k (key_of k o) o' u,
    current-search k o w f ∙ ap (store k (key_of k o)) call ∙ stored k (key_of k o) o' u key,
  );
  upsert_err = λ k o f w u e call. current-search k o w f ∙ ap (store k (key_of k o)) call;
  delete_answers = delete-answers;
  status_ok = λ kt old w found. (
    put_object kubeturbo (key_of kubeturbo kt) (record old { status = kt.status }) w,
    status-written kt old w found,
  );
}
