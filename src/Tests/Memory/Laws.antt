-- ===== src/Tests/Memory/Laws.antt =====
-- The memory keeps the laws.
use kubeturbo_deploy.Prelude.{◌≡◌, ◌∙◌, refl, sym, ap, none, some, List, arith, subst, Any}
use kubeturbo_deploy.Outcome.{Outcome, ok}
use kubeturbo_deploy.Types.{Kubeturbo}
use kubeturbo_deploy.Objects.{kubeturbo, Object, key_of}
use kubeturbo_deploy.Client.{IsLawful, current, SameBut}
use kubeturbo_deploy.Tests.Memory.{Tables, search, put_object, write_status, memory}
use kubeturbo_deploy.Tests.Memory.Store.{
  some-injective, ok-injective, search-key, put_object-found, put_object-SameBut, store-Written,
  get_object-ok, delete_object-ok, delete_object-not_found, removed,
}
use kubeturbo_deploy.Tests.Memory.Selection.{select-every, select-only}

write_status-ok :
    (kt : Kubeturbo) (w v : Tables)
    → write_status kt w ≡ (ok tt, v)
    → (old : Kubeturbo) × (search kubeturbo (w kubeturbo) (key_of kubeturbo kt) ≡ some old)
      × (put_object kubeturbo (key_of kubeturbo kt) (record old { status = kt.status }) w ≡ v)
write_status-ok kt w v h = ground arith

pub memory-IsLawful : IsLawful memory
memory-IsLawful = record {
  create_or_update-Written = λ k o f w. store-Written k o f w (f (current memory k o w) w) refl;
  get_ok = λ k key w v o h.
      let (same, found) = get_object-ok k key w v o h in
      (same, found, search-key k (w k) key o found);
  delete_ok = λ k key w v h.
      let e = delete_object-ok k key w v h in
      subst (λ v. (memory.find v k key ≡ none) × SameBut memory k key w v) e (removed k key w);
  delete_not_found = λ k key w v h.
      let (same, gone) = delete_object-not_found k key w v h in
      (ap (λ (x : Tables). search k (x k) key) same ∙ gone, same);
  list_ok = λ k selector w v items h.
      let at = ap (λ (p : Outcome (List (Object k)) × Tables). p.1) h in
      let it = ok-injective (ap (λ (p : Outcome (List (Object k)) × Tables). p.0) h) in
      (
        sym at,
        λ key o found m.
            subst (Any (λ i. key_of k i ≡ key)) it
              (select-every k selector (w k) (w k) key o found found m),
        λ key o found l.
            select-only k selector (w k) (w k) key o found
              (subst (Any (λ i. key_of k i ≡ key)) (sym it) l),
      );
  update_status_ok = λ kt w v h.
      let (old, found, shape) = write_status-ok kt w v h in
      let key = key_of kubeturbo kt in
      let new : Kubeturbo = record old { status = kt.status } in
      let named = search-key kubeturbo (w kubeturbo) key old found in
      (
        subst (SameBut memory kubeturbo key w) shape (put_object-SameBut kubeturbo key new w named),
        λ x there.
            ap (λ (t : Tables). search kubeturbo (t kubeturbo) key) (sym shape)
            ∙ put_object-found kubeturbo key new w named
            ∙ ap (λ (y : Kubeturbo). some (record y { status = kt.status }))
                (some-injective (sym found ∙ there)),
      );
  set_controller_reference-owner = λ kt m. (some kt.metadata.uid, refl);
}
