-- ===== src/Prelude/Decimal.antt =====
-- `strconv.FormatInt(n, 10)`, the `%d` of `fmt.Sprintf`, and `strconv.ParseInt(s, 10, 64)` of Go's
-- standard library, on the bytes of a string. An error of `ParseInt` is `none`.
pub mod RoundTrip
use Prim.Native.Nat.{ℕ, zero, suc, ◌+◌, ◌-◌, ◌*◌, ◌/◌, ◌%◌, ◌^◌}
use mathlib.Core.Path.{◌≡◌, refl}
use mathlib.Core.Bool.{◌||◌}
use mathlib.Core.Option.{Option, none, some}
use mathlib.Core.List.{[], ◌∷◌}
use inventory_access_poc.Prelude.Tests.{ltb, leb, if◌then◌else◌}
use inventory_access_poc.Prelude.Equality.{◌==◌, nat_eq}
use inventory_access_poc.Prelude.Int.{ℤ, pos, negsuc}
use inventory_access_poc.Prelude.Bytes.{Text, codes}

-- The digits of `n` in front of `out`; `n + 1` rounds are enough, since each divides by ten.
emit : ℕ → ℕ → Text → Text
emit zero n out = out
emit (suc fuel) n out =
    let rest = emit fuel (n / 10) ((b'0' + n % 10) ∷ out) in
    if ltb n 10 then (b'0' + n) ∷ out else rest

format_nat : ℕ → Text
unfolding emit
format_nat n = emit (suc n) n []

unfoldable pub format_int : ℤ → Text
unfolding format_nat
format_int (pos n) = format_nat n
format_int (negsuc n) = b'-' ∷ format_nat (suc n)

scan : Text → ℕ → Option ℕ
scan [] n = some n
scan (c ∷ s) n = if ltb c b'0' || ltb b'9' c then none else scan s (n * 10 + (c - b'0'))

parse_nat : Text → Option ℕ
unfolding scan
parse_nat [] = none
parse_nat (c ∷ s) = scan (c ∷ s) 0

-- `cutoff` of `ParseInt` at 64 bits.
abbrev pub cutoff : ℕ
cutoff = 2 ^ 63

abbrev pub nonnegative : Option ℕ → Option ℤ
nonnegative none = none
nonnegative (some n) = if ltb n cutoff then some (pos n) else none

abbrev pub negative : Option ℕ → Option ℤ
negative none = none
negative (some zero) = some (pos 0)
negative (some (suc n)) = if ltb n cutoff then some (negsuc n) else none

unfoldable pub parse_int : Text → Option ℤ
unfolding parse_nat nat_eq
parse_int [] = none
parse_int (c ∷ s) =
    if c == b'-'
    then negative (parse_nat s)
    else if c == b'+'
    then nonnegative (parse_nat s)
    else nonnegative (parse_nat (c ∷ s))

format_samples : format_int (negsuc 41) ≡ codes "-42"
unfolding format_int
format_samples = refl

parse_samples :
    (parse_int (codes "14") ≡ some (pos 14))
    × (parse_int (codes "-9223372036854775808") ≡ some (negsuc 9223372036854775807))
    × (parse_int (codes "9223372036854775808") ≡ none)
    × (parse_int (codes "1x") ≡ none)
    × (parse_int [] ≡ none)
unfolding parse_int
parse_samples = (refl, refl, refl, refl, refl)
