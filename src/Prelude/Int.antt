-- ===== src/Prelude/Int.antt =====
-- Signed integers over the native numbers: account, system and package ids. The program only
-- compares, orders, prints and reads them.
use inventory_access_poc.Prelude.Tests.{ltb}
use inventory_access_poc.Prelude.Equality.{Eq}
use inventory_access_poc.Prelude.Order.{Ord}
use Prim.Native.Nat.{ℕ}
use mathlib.Core.Path.{◌≡◌}
use mathlib.Core.Bool.{Bool, true, false}
use native.Mathlib.Decide.{ℕ_discrete}
use native.Mathlib.Omega.{arith}

-- `negsuc n` is -(n + 1).
pub data ℤ : Type 0 where
  pos : ℕ → ℤ
  negsuc : ℕ → ℤ

int_dec : Discrete ℤ
int_dec = hlevel ℕ_discrete

instance unfoldable pub int_eq : Eq ℤ
unfolding int_dec ℕ_discrete
int_eq = record { dec = int_dec }

unfoldable pub before_int : ℤ → ℤ → Bool
before_int (pos a) (pos b) = ltb a b
before_int (pos a) (negsuc b) = false
before_int (negsuc a) (pos b) = true
before_int (negsuc a) (negsuc b) = ltb b a

pub before_int_irrefl : (a : ℤ) → before_int a a ≡ false
unfolding before_int
before_int_irrefl a = ground arith

pub before_int_trans :
    (a b c : ℤ) → before_int a b ≡ true → before_int b c ≡ true → before_int a c ≡ true
unfolding before_int
before_int_trans a b c p q = ground arith

pub before_int_connected : (a b : ℤ) → before_int a b ≡ false → before_int b a ≡ false → a ≡ b
unfolding before_int
before_int_connected a b p q = ground arith

instance unfoldable pub int_ord : Ord ℤ
unfolding before_int
int_ord = record {
  before = before_int;
  irrefl = before_int_irrefl;
  trans = before_int_trans;
  connected = before_int_connected;
}
