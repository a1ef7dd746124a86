-- ===== src/Heap.antt =====
-- Go's memory as the generated deep copies (api/v1/zz_generated.deepcopy.go) use it: pointers, slices
-- and maps are addresses of cells, and `new` and `make` give an address that was never given before.
-- A struct that is not behind a pointer is a value. Allocation does not fail, and nobody else writes
-- meanwhile.
pub mod Maps
pub mod Copies
pub mod Slices
pub mod Filled
use kubeturbo_deploy.Prelude.{
  ℕ, suc, ◌≡◌, Option, none, some, List, [], ◌∷◌, if◌then◌else◌, nat_eq, map,
}

-- The address of a value of type A.
pub record Pointer (A : Type 0) : Type 0 where
  pub address : ℕ

-- The addresses from `next` on are free.
pub record Store (Cell : Type 0) : Type 0 where
  pub next : ℕ
  pub cells : ℕ → Cell

-- How a value of type A lies in a cell. A cell with a value of another type, which no pointer of a
-- Go program shows, reads as the zero value of A.
pub record Stored (Cell A : Type 0) : Type 0 where
  pub default : A
  pub encode : A → Cell
  pub decode : Cell → A
  pub decode-encode : (a : A) → decode (encode a) ≡ a

abbrev pub Alloc : Type 0 → Type 0 → Type 0
Alloc Cell A = Store Cell → A × Store Cell

-- The address of what a pointer, a slice or a map refers to.
abbrev pub refers : {A : Type 0} → Option (Pointer A) → List ℕ
refers none = []
refers (some p) = p.address ∷ []

module _ {Cell : Type 0} where
  abbrev pub pure : {A : Type 0} → A → Alloc Cell A
  pure a σ = (a, σ)

  infixl 5 ◌>>=◌ ◌>>◌
  abbrev pub ◌>>=◌ : {A B : Type 0} → Alloc Cell A → (A → Alloc Cell B) → Alloc Cell B
  ◌>>=◌ m f σ = f (m σ).0 (m σ).1

  abbrev pub ◌>>◌ : {A B : Type 0} → Alloc Cell A → Alloc Cell B → Alloc Cell B
  m >> n = m >>= λ _. n

  abbrev pub put : ℕ → Cell → Store Cell → Store Cell
  put a c σ = record σ { cells = λ b. if nat_eq a b then c else σ.cells b }

  -- A loop over the elements of a slice.
  abbrev pub each : {A B : Type 0} → (A → Alloc Cell B) → List A → Alloc Cell (List B)
  each f [] = pure []
  each f (x ∷ xs) = do y ← f x; ys ← each f xs; pure (y ∷ ys)

  module _ {A : Type 0} ⦃s : Stored Cell A⦄ where
    -- *p
    abbrev pub read : Store Cell → Pointer A → A
    read σ p = s.decode (σ.cells p.address)

    abbrev pub load : Pointer A → Alloc Cell A
    load p σ = (read σ p, σ)

    -- What a pointer, a slice or a map shows through `w`, and `z` if it is nil.
    abbrev pub shows : {V : Type 0} → (A → V) → V → Store Cell → Option (Pointer A) → V
    shows w z σ none = z
    shows w z σ (some p) = w (read σ p)

    -- new(A), or make, and the value that is then written there.
    abbrev pub new : A → Alloc Cell (Pointer A)
    new v σ =
        (record { address = σ.next }, put σ.next (s.encode v) (record σ { next = suc σ.next }))

    -- *p = v
    abbrev pub write : Pointer A → A → Alloc Cell (Unit {0})
    write p v σ = (tt, put p.address (s.encode v) σ)

    -- `if in.F != nil { in, out := &in.F, &out.F; *out = new(A); … }`, where the copy of the value is
    -- `g` of it: the value of `out.F`.
    abbrev pub copy_with : (A → A) → Option (Pointer A) → Alloc Cell (Option (Pointer A))
    copy_with g none = pure none
    copy_with g (some p) = do v ← load p; q ← new (g v); pure (some q)

    -- `**out = **in`, or for a slice `copy(*out, *in)`.
    abbrev pub copy_pointer : Option (Pointer A) → Alloc Cell (Option (Pointer A))
    copy_pointer = copy_with (λ v. v)

    -- new(A) or make, and the DeepCopyInto that fills what was allocated.
    abbrev pub copy_filled : (A → Alloc Cell A) → A → A → Alloc Cell (Option (Pointer A))
    copy_filled into blank v = do q ← new blank; v' ← into v; write q v'; pure (some q)

    -- The same with a struct: `*out = new(A); (*in).DeepCopyInto(*out)`.
    abbrev pub copy_struct :
        (A → Alloc Cell A) → Option (Pointer A) → Alloc Cell (Option (Pointer A))
    copy_struct into none = pure none
    copy_struct into (some p) = do v ← load p; copy_filled into s.default v

  -- `*out = make([]A, len(*in)); for i := range *in { (*in)[i].DeepCopyInto(&(*out)[i]) }`
  abbrev pub copy_slice :
      {A : Type 0} ⦃s : Stored Cell A⦄ ⦃t : Stored Cell (List A)⦄
      → (A → Alloc Cell A)
      → Option (Pointer (List A))
      → Alloc Cell (Option (Pointer (List A)))
  copy_slice into none = pure none
  copy_slice ⦃s⦄ into (some p) = do
    xs ← load p
    copy_filled (each into) (map (λ _. s.default) xs) xs
