-- ===== src/Request/Patch.antt =====
-- internal/request/request.go: Patch, for the custom resource. `send` is the client's Patch with what
-- client.MergeFrom makes of the object before and after the change, both as they show when it is called.
use kubeturbo_deploy.Prelude.{ℕ, ◌≡◌, ◌≢◌, ◌<◌, sym, ap, ◌∙◌, subst, Option, none, some, All}
use kubeturbo_deploy.Outcome.{Outcome, ok, err, panic, Exec}
use kubeturbo_deploy.Types.{Kubeturbo}
use kubeturbo_deploy.Heap.{Pointer, Store, read}
use kubeturbo_deploy.Heap.Copies.{Same, frame_kept}
use kubeturbo_deploy.DeepCopy.{
  kubeturbo_deep_copy, kubeturbo_deep_copy_object, Object, kubeturbo_object, kubeturbo_list_object,
}
use kubeturbo_deploy.DeepCopy.Layout.{KubeturboLayout, TypeMeta}
use kubeturbo_deploy.DeepCopy.Cells.{Cell}
use kubeturbo_deploy.DeepCopy.Cells.Instances.{stored_kubeturbo}
use kubeturbo_deploy.DeepCopy.Foreign.{Library, IsLawful}
use kubeturbo_deploy.DeepCopy.Views.{kubeturbo_view}
use kubeturbo_deploy.DeepCopy.Laws.{
  shown, reached, kubeturbo_deep_copy-IsDeepCopy, kubeturbo_deep_copy-IsCopy,
  kubeturbo_deep_copy_apart,
}

abbrev pub Shown : Type 0
Shown = TypeMeta × Kubeturbo

-- The closure that changes the object, by writing to the memory.
abbrev pub MutateFn : Type 0
MutateFn = Exec (Store Cell) (Unit {0})

module _ (lib : Library) {World : Type 0} (send : Shown → Shown → Exec World (Unit {0})) where
  -- `before.(client.Object)` panics on a nil interface, and a list is no client.Object.
  abbrev send_patch : Option Object → Pointer KubeturboLayout → Exec (Store Cell × World) (Unit {0})
  send_patch none obj s = (panic, s)
  send_patch (some (kubeturbo_list_object p)) obj s = (panic, s)
  send_patch (some (kubeturbo_object p)) obj (σ, w) =
      let (r, w') = send (kubeturbo_view σ (read σ p)) (kubeturbo_view σ (read σ obj)) w in
      (r, (σ, w'))

  abbrev after_fn :
      Outcome (Unit {0})
      → Option Object
      → Pointer KubeturboLayout
      → Exec (Store Cell × World) (Unit {0})
  after_fn (ok tt) before obj s = send_patch before obj s
  after_fn (err e) before obj s = (err e, s)
  after_fn panic before obj s = (panic, s)

  unfoldable pub patch : Pointer KubeturboLayout → MutateFn → Exec (Store Cell × World) (Unit {0})
  patch obj fn (σ, w) =
      let (before, τ) = kubeturbo_deep_copy_object lib (some obj) σ in
      let (r, υ) = fn τ in after_fn r before obj (υ, w)

  pub patch-sends :
      (obj : Pointer KubeturboLayout) (fn : MutateFn) (σ : Store Cell) (w : World)
      → IsLawful lib
      → All (λ a. a < σ.next) (reached σ (some obj))
      → ((τ : Store Cell) (a : ℕ)
          → a < τ.next
          → All (λ b. a ≢ b) (reached τ (some obj))
          → Same τ (fn τ).1 a)
      → let changed = fn (kubeturbo_deep_copy lib (some obj) σ).1 in
        let υ = changed.1 in
        changed.0 ≡ ok tt
        → patch obj fn (σ, w) ≡ (
            let (r, w') = send (kubeturbo_view σ (read σ obj)) (kubeturbo_view υ (read υ obj)) w in
            (r, (υ, w')))
  unfolding patch kubeturbo_deep_copy_object kubeturbo_deep_copy
  patch-sends obj fn σ w lawful used only done =
      let τ : Store Cell = (kubeturbo_deep_copy lib (some obj) σ).1 in
      let before : Pointer KubeturboLayout = record { address = σ.next } in
      let υ : Store Cell = (fn τ).1 in
      let copy = kubeturbo_deep_copy-IsCopy lib (some obj) σ lawful used in
      let kept =
        frame_kept (kubeturbo_deep_copy-IsDeepCopy lib lawful) (some obj) σ τ copy.keeps used in
      let unchanged : shown υ (some before) ≡ shown σ (some obj) =
        (kubeturbo_deep_copy_apart lib (some obj) σ υ lawful used).1
          λ a lt other. only τ a lt (subst (All (λ b. a ≢ b)) (sym kept.1) other) in
      let sent : Shown → Outcome (Unit {0}) × (Store Cell × World) =
        λ b. let (r, w') = send b (kubeturbo_view υ (read υ obj)) w in (r, (υ, w')) in
      ap (λ r. after_fn r (some (kubeturbo_object before)) obj (υ, w)) done
      ∙ ap (λ o. sent (elim o [ none ↦ kubeturbo_view σ (read σ obj) | some b ↦ b ])) unchanged
