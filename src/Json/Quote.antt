-- ===== src/Json/Quote.antt =====
-- How encoding/json writes a string: quoted, with control characters, the quote, the backslash and
-- the characters that are unsafe in HTML or JavaScript escaped.
use Prim.Native.Char.{Char, code}
use kubeturbo_deploy.Prelude.{
  ℕ, ◌/◌, ◌%◌, String, ◌<>◌, ◌≡◌, refl, nat_eq, ltb, ◌||◌, if◌then◌else◌,
}

abbrev hex_digit : ℕ → String
hex_digit n =
    if nat_eq n 10
    then "a"
    else if nat_eq n 11
    then "b"
    else if nat_eq n 12
    then "c"
    else if nat_eq n 13
    then "d"
    else if nat_eq n 14
    then "e"
    else if nat_eq n 15
    then "f"
    else if nat_eq n 0
    then "0"
    else if nat_eq n 1
    then "1"
    else if nat_eq n 2
    then "2"
    else if nat_eq n 3
    then "3"
    else if nat_eq n 4
    then "4"
    else if nat_eq n 5
    then "5"
    else if nat_eq n 6
    then "6"
    else if nat_eq n 7
    then "7"
    else if nat_eq n 8
    then "8"
    else "9"

-- \u and four digits
abbrev unicode_escape : ℕ → String
unicode_escape n =
    "\\u"
    <> hex_digit (n / 4096 % 16)
    <> hex_digit (n / 256 % 16)
    <> hex_digit (n / 16 % 16)
    <> hex_digit (n % 16)

escape : Char → String
escape c =
    let n = code c in
    if nat_eq n b'"'
    then "\\\""
    else if nat_eq n b'\\'
    then "\\\\"
    else if nat_eq n 10
    then "\\n"
    else if nat_eq n 13
    then "\\r"
    else if nat_eq n 9
    then "\\t"
    else if ltb n 32
    then unicode_escape n
    else if nat_eq n b'<' || nat_eq n b'>' || nat_eq n b'&'
    then unicode_escape n
    else if nat_eq n 0x2028 || nat_eq n 0x2029
    then unicode_escape n
    else String.◌∷◌ c ""

escape_all : String → String
unfolding escape
escape_all String.[] = ""
escape_all (String.◌∷◌ c s) = escape c <> escape_all s

unfoldable pub quote : String → String
unfolding escape_all
quote s = "\"" <> escape_all s <> "\""

quote_examples : (quote "a\"b" ≡ "\"a\\\"b\"") × (quote "<x>" ≡ "\"\\u003cx\\u003e\"")
unfolding quote
quote_examples = (refl, refl)
