-- ===== src/Variables.antt =====
-- cachecontent/core.go and base.go: environment variables with a default, and texts without the
-- character that PostgreSQL refuses.
use inventory_access_poc.Prelude.{
  ℕ, zero, suc, ◌≡◌, refl, Bool, true, false, Option, none, some, List, [], ◌∷◌, bytes_eq, contains,
  if◌then◌else◌,
}
use inventory_access_poc.Prelude.Int.{ℤ, pos}
use inventory_access_poc.Prelude.Bytes.{Text, codes}
use inventory_access_poc.Prelude.Decimal.{parse_int}
use inventory_access_poc.Prelude.Dict.{lookup}
use inventory_access_poc.Errors.{Result, ok, panic}
use inventory_access_poc.Router.{Environment, getenv}

-- `Getenv`, which gives a variable that is set to the empty text as it is.
unfoldable pub getenv_or_default : Environment → Text → Text → Text
unfolding lookup bytes_eq
getenv_or_default env key default = elim (lookup key env) [ none ↦ default | some value ↦ value ]

-- `strconv.ParseBool` of Go's standard library.
unfoldable pub parse_bool : Text → Option Bool
unfolding bytes_eq
parse_bool s =
    if contains
      (codes "1" ∷ codes "t" ∷ codes "T" ∷ codes "TRUE" ∷ codes "true" ∷ codes "True" ∷ []) s
    then some true
    else if contains
        (codes "0" ∷ codes "f" ∷ codes "F" ∷ codes "FALSE" ∷ codes "false" ∷ codes "False" ∷ []) s
    then some false
    else none

unfoldable pub parse_bool_or_fail : Text → Result Bool
unfolding parse_bool
parse_bool_or_fail value = elim (parse_bool value) [ none ↦ panic | some b ↦ ok b ]

unfoldable pub get_bool_env_or_default : Environment → Text → Bool → Result Bool
unfolding getenv parse_bool_or_fail
get_bool_env_or_default env name default = elim (getenv name env) [
  | [] ↦ ok default
  | c ∷ value ↦ parse_bool_or_fail (c ∷ value)
]

unfoldable pub parse_int_or_fail : Text → Result ℤ
unfolding parse_int
parse_int_or_fail value = elim (parse_int value) [ none ↦ panic | some n ↦ ok n ]

unfoldable pub get_int_env_or_default : Environment → Text → ℤ → Result ℤ
unfolding getenv parse_int_or_fail
get_int_env_or_default env name default = elim (getenv name env) [
  | [] ↦ ok default
  | c ∷ value ↦ parse_int_or_fail (c ∷ value)
]

-- `remove`: the rune that stands for a rune; a negative one, here none, drops it.
abbrev remove : ℕ → Option ℕ
remove zero = none
remove (suc r) = some (suc r)

-- `strings.Map` on the runes of a text.
strings_map : (ℕ → Option ℕ) → List ℕ → List ℕ
strings_map f [] = []
strings_map f (r ∷ rs) = elim (f r) [ none ↦ strings_map f rs | some q ↦ q ∷ strings_map f rs ]

unfoldable pub remove_invalid_chars : List ℕ → List ℕ
unfolding strings_map
remove_invalid_chars s = strings_map remove s

abbrev test_environment : Environment
test_environment = (codes "N", codes "12") ∷ (codes "B", codes "T") ∷ (codes "E", []) ∷ []

-- A variable that is set to the empty text gives the empty text here, and the default there.
variables_samples :
    (getenv_or_default test_environment (codes "E") (codes "x") ≡ [])
    × (get_int_env_or_default test_environment (codes "N") (pos 3) ≡ ok (pos 12))
    × (get_int_env_or_default test_environment (codes "E") (pos 3) ≡ ok (pos 3))
    × (get_int_env_or_default test_environment (codes "B") (pos 3) ≡ panic)
    × (get_bool_env_or_default test_environment (codes "B") false ≡ ok true)
    × (get_bool_env_or_default test_environment (codes "N") false ≡ panic)
unfolding getenv_or_default get_int_env_or_default get_bool_env_or_default
variables_samples = (refl, refl, refl, refl, refl, refl)

remove_samples : remove_invalid_chars (b'a' ∷ 0 ∷ 8364 ∷ 0 ∷ []) ≡ b'a' ∷ 8364 ∷ []
unfolding remove_invalid_chars
remove_samples = refl
