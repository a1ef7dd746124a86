-- ===== src/Prelude/Decimal.antt =====
-- Decimal printing, Go's `%d`.
use Prim.Native.Nat.{ℕ, zero, suc, ◌+◌, ◌/◌, ◌%◌}
use Prim.Native.String.{String}
use mathlib.Core.Path.{◌≡◌, refl}
use kubeturbo_deploy.Prelude.Tests.{ltb, if◌then◌else◌}
use kubeturbo_deploy.Prelude.Text.{◌<>◌}

-- Go's signed integers; `negsuc n` is -(n + 1).
pub data ℤ : Type 0 where
  pos : ℕ → ℤ
  negsuc : ℕ → ℤ

abbrev digit : ℕ → String
digit zero = "0"
digit (suc zero) = "1"
digit (suc (suc zero)) = "2"
digit (suc (suc (suc zero))) = "3"
digit (suc (suc (suc (suc zero)))) = "4"
digit (suc (suc (suc (suc (suc zero))))) = "5"
digit (suc (suc (suc (suc (suc (suc zero)))))) = "6"
digit (suc (suc (suc (suc (suc (suc (suc zero))))))) = "7"
digit (suc (suc (suc (suc (suc (suc (suc (suc zero)))))))) = "8"
digit _ = "9"

-- The digits in front of `acc`. The fuel is the number itself, which has at least as many digits.
print_digits : ℕ → ℕ → String → String
print_digits zero n acc = digit (n % 10) <> acc
print_digits (suc f) n acc =
    let rest = print_digits f (n / 10) (digit (n % 10) <> acc) in
    if ltb n 10 then digit (n % 10) <> acc else rest

unfoldable pub format_nat : ℕ → String
unfolding print_digits
format_nat n = print_digits n n ""

unfoldable pub format_int : ℤ → String
unfolding format_nat
format_int (pos n) = format_nat n
format_int (negsuc n) = "-" <> format_nat (n + 1)

format_int_examples : (format_int (pos 10250) ≡ "10250") × (format_int (negsuc 6) ≡ "-7")
unfolding format_int
format_int_examples = (refl, refl)
