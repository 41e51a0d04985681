-- ===== src/Prelude/Decimal/RoundTrip.antt =====
-- `ParseInt` reads back what `FormatInt` wrote, so distinct numbers have distinct texts.
use Prim.Native.Nat.{ℕ, zero, suc, ◌+◌, ◌/◌, ◌%◌, ◌≤◌, ◌<◌}
use mathlib.Core.Path.{◌≡◌, sym, ap, ◌∙◌, subst}
use mathlib.Core.Logic.{inl, inr}
use mathlib.Core.Option.{Option, none, some, some-injective, none-ne-some}
use mathlib.Core.List.{[], ◌∷◌}
use native.Mathlib.Omega.{arith}
use inventory_access_poc.Prelude.Tests.{ltb, Bool-cases}
use inventory_access_poc.Prelude.Equality.{◌==◌, nat_eq}
use inventory_access_poc.Prelude.Lists.{All}
use inventory_access_poc.Prelude.Int.{ℤ, pos, negsuc}
use inventory_access_poc.Prelude.Bytes.{Text}
use inventory_access_poc.Prelude.Decimal.{
  emit, format_nat, format_int, scan, parse_nat, parse_int, cutoff, nonnegative, negative,
}

scan-emit : (fuel n : ℕ) (out : Text) → n < fuel → scan (emit fuel n out) 0 ≡ scan out n
unfolding emit scan
scan-emit zero n out h = absurd (omega arith)
scan-emit (suc fuel) n out h = ground (arith, scan-emit fuel (n / 10) ((b'0' + n % 10) ∷ out))

abbrev IsDigit : ℕ → Type 0
IsDigit c = (b'0' ≤ c) × (c ≤ b'9')

-- The digits and the sign.
abbrev pub IsNumeral : ℕ → Type 0
IsNumeral c = (b'-' ≤ c) × (c ≤ b'9')

emit-IsNumeral : (fuel n : ℕ) (out : Text) → All IsNumeral out → All IsNumeral (emit fuel n out)
unfolding emit
emit-IsNumeral zero n out h = h
emit-IsNumeral (suc fuel) n out h =
    ground
      (arith, emit-IsNumeral fuel (n / 10) ((b'0' + n % 10) ∷ out) ((omega arith, omega arith), h))

-- The first byte written is a digit, so a sign is told apart from it.
emit_head :
    (fuel n : ℕ) (out : Text)
    → n < fuel
    → (c : ℕ) × (s : Text) × (emit fuel n out ≡ c ∷ s) × IsDigit c
unfolding emit
emit_head zero n out h = absurd (omega arith)
emit_head (suc fuel) n out h = elim (Bool-cases (ltb n 10)) [
  | inl small ↦ (b'0' + n, out, rw small, ground arith)
  | inr large ↦ rw large (emit_head fuel (n / 10) ((b'0' + n % 10) ∷ out) (ground arith))
]

parse_nat-format_nat : (n : ℕ) → parse_nat (format_nat n) ≡ some n
unfolding parse_nat format_nat
parse_nat-format_nat n =
    let (c, s, e, d) = emit_head (suc n) n [] (omega arith) in
    rw e (rw e at (scan-emit (suc n) n [] (omega arith)))

-- The range of int64.
abbrev pub FitsInt64 : ℤ → Type 0
FitsInt64 (pos n) = n < cutoff
FitsInt64 (negsuc n) = n < cutoff

pub parse_int-format_int : (a : ℤ) → FitsInt64 a → parse_int (format_int a) ≡ some a
unfolding parse_int format_int
parse_int-format_int (pos n) h =
    let (c, s, e, d) = emit_head (suc n) n [] (omega arith) in
    let back = parse_nat-format_nat n in unfold format_nat in rw e (ground (arith, rw e at back))
parse_int-format_int (negsuc n) h = rw parse_nat-format_nat (ground arith)

-- Every byte of a printed number is a digit or the sign.
pub format_int-IsNumeral : (a : ℤ) → All IsNumeral (format_int a)
unfolding format_int format_nat
format_int-IsNumeral (pos n) = emit-IsNumeral (suc n) n [] tt
format_int-IsNumeral (negsuc n) =
    ((omega arith, omega arith), emit-IsNumeral (suc (suc n)) (suc n) [] tt)

-- Distinct ids have distinct texts.
pub format_int_injective :
    (a b : ℤ) → FitsInt64 a → FitsInt64 b → format_int a ≡ format_int b → a ≡ b
format_int_injective a b ha hb e =
    some-injective a b
      (sym (parse_int-format_int a ha) ∙ ap parse_int e ∙ parse_int-format_int b hb)

-- What `ParseInt` returns is in the range.
nonnegative-FitsInt64 : (o : Option ℕ) (a : ℤ) → nonnegative o ≡ some a → FitsInt64 a
nonnegative-FitsInt64 none a e = absurd (none-ne-some a e)
nonnegative-FitsInt64 (some n) a e = elim (Bool-cases (ltb n cutoff)) [
  | inl t ↦ subst FitsInt64 (some-injective (pos n) a (rw t at e)) (ground arith)
  | inr f ↦ absurd (none-ne-some a (rw f at e))
]

negative-FitsInt64 : (o : Option ℕ) (a : ℤ) → negative o ≡ some a → FitsInt64 a
negative-FitsInt64 none a e = absurd (none-ne-some a e)
negative-FitsInt64 (some zero) a e = subst FitsInt64 (some-injective (pos 0) a e) (omega arith)
negative-FitsInt64 (some (suc n)) a e = elim (Bool-cases (ltb n cutoff)) [
  | inl t ↦ subst FitsInt64 (some-injective (negsuc n) a (rw t at e)) (ground arith)
  | inr f ↦ absurd (none-ne-some a (rw f at e))
]

pub parse_int-FitsInt64 : (s : Text) (a : ℤ) → parse_int s ≡ some a → FitsInt64 a
unfolding parse_int
parse_int-FitsInt64 [] a e = absurd (none-ne-some a e)
parse_int-FitsInt64 (c ∷ s) a e = elim (Bool-cases (c == b'-')) [
  | inl t ↦ negative-FitsInt64 (parse_nat s) a (rw t at e)
  | inr f ↦ elim (Bool-cases (c == b'+')) [
    | inl t ↦ nonnegative-FitsInt64 (parse_nat s) a (rw (f, t) at e)
    | inr g ↦ nonnegative-FitsInt64 (parse_nat (c ∷ s)) a (rw (f, g) at e)
  ]
]
