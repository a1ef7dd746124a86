-- ===== src/Config/Hash.antt =====
-- hash/fnv: New64, which multiplies by the prime and then takes the exclusive or with the byte.
use Prim.Native.Nat.{bit_xor}
use Prim.Native.Char.{code}
use kubeturbo_deploy.Prelude.{
  ℕ, ◌+◌, ◌*◌, ◌/◌, ◌%◌, ◌^◌, String, ◌≡◌, refl, List, [], ◌∷◌, ltb, if◌then◌else◌,
}

abbrev offset64 : ℕ
offset64 = 14695981039346656037

abbrev prime64 : ℕ
prime64 = 1099511628211

-- The UTF-8 bytes of a character.
abbrev utf8 : ℕ → List ℕ
utf8 c =
    if ltb c 0x80
    then c ∷ []
    else if ltb c 0x800
    then (0xc0 + c / 64) ∷ (0x80 + c % 64) ∷ []
    else if ltb c 0x10000
    then (0xe0 + c / 4096) ∷ (0x80 + c / 64 % 64) ∷ (0x80 + c % 64) ∷ []
    else (0xf0 + c / 262144) ∷ (0x80 + c / 4096 % 64) ∷ (0x80 + c / 64 % 64) ∷ (0x80 + c % 64) ∷ []

write_bytes : ℕ → List ℕ → ℕ
write_bytes h [] = h
write_bytes h (b ∷ bs) = write_bytes (bit_xor (h * prime64 % 2 ^ 64) b) bs

write : ℕ → String → ℕ
unfolding write_bytes
write h String.[] = h
write h (String.◌∷◌ c s) = write (write_bytes h (utf8 (code c))) s

unfoldable pub fnv64 : String → ℕ
unfolding write
fnv64 s = write offset64 s

-- The published test values of FNV-1.
fnv64_examples : (fnv64 "" ≡ 0xcbf29ce484222325) × (fnv64 "a" ≡ 0xaf63bd4c8601b7be)
unfolding fnv64
fnv64_examples = (refl, refl)
