-- ===== src/Prelude/Order.antt =====
-- Strict total orders as Boolean tests: what `ORDER BY` and Go's `sort` compare by.
use Prim.Native.Nat.{ℕ}
use mathlib.Core.Path.{◌≡◌, refl}
use mathlib.Core.Bool.{Bool, true, false}
use native.Mathlib.Omega.{arith}
use inventory_access_poc.Prelude.Tests.{ltb, if◌then◌else◌}
use mathlib.Core.List.{List, [], ◌∷◌}

pub record Ord {ℓ} (A : Type ℓ) : Type ℓ where
  pub before : A → A → Bool
  pub irrefl : (a : A) → before a a ≡ false
  pub trans : (a b c : A) → before a b ≡ true → before b c ≡ true → before a c ≡ true
  pub connected : (a b : A) → before a b ≡ false → before b a ≡ false → a ≡ b

pub ltb_irrefl : (a : ℕ) → ltb a a ≡ false
ltb_irrefl a = ground arith

pub ltb_trans : (a b c : ℕ) → ltb a b ≡ true → ltb b c ≡ true → ltb a c ≡ true
ltb_trans a b c p q = ground arith

pub ltb_connected : (a b : ℕ) → ltb a b ≡ false → ltb b a ≡ false → a ≡ b
ltb_connected a b p q = ground arith

instance unfoldable pub nat_ord : Ord ℕ
nat_ord = record { before = ltb; irrefl = ltb_irrefl; trans = ltb_trans; connected = ltb_connected }

-- Pairs by their first parts, and where these are equal by the second.
module _ {ℓ} {A B : Type ℓ} ⦃o : Ord A⦄ ⦃u : Ord B⦄ where
  unfoldable pub before_pair : A × B → A × B → Bool
  before_pair (a, b) (c, d) =
      if o.before a c then true else if o.before c a then false else u.before b d

  pub before_pair_irrefl : (p : A × B) → before_pair p p ≡ false
  unfolding before_pair
  before_pair_irrefl (a, b) = ground (arith, o.irrefl a, u.irrefl b)

  pub before_pair_trans :
      (p q r : A × B) → before_pair p q ≡ true → before_pair q r ≡ true → before_pair p r ≡ true
  unfolding before_pair
  before_pair_trans (a, b) (c, d) (e, f) h k = ground (
    arith,
    o.trans a c e,
    o.trans e a c,
    o.trans c e a,
    o.connected a c,
    o.connected c e,
    o.irrefl a,
    u.trans b d f,
  )

  pub before_pair_connected :
      (p q : A × B) → before_pair p q ≡ false → before_pair q p ≡ false → p ≡ q
  unfolding before_pair
  before_pair_connected (a, b) (c, d) h k = ground (arith, o.connected a c, u.connected b d)

  instance unfoldable pub pair_ord : Ord (A × B)
  unfolding before_pair
  pair_ord = record {
    before = before_pair;
    irrefl = before_pair_irrefl;
    trans = before_pair_trans;
    connected = before_pair_connected;
  }

-- Byte strings as Go's `sort.Strings` orders them.
unfoldable pub before_bytes : List ℕ → List ℕ → Bool
before_bytes [] [] = false
before_bytes [] (y ∷ ys) = true
before_bytes (x ∷ xs) [] = false
before_bytes (x ∷ xs) (y ∷ ys) =
    let rest = before_bytes xs ys in if ltb x y then true else if ltb y x then false else rest

pub before_bytes_irrefl : (xs : List ℕ) → before_bytes xs xs ≡ false
unfolding before_bytes
before_bytes_irrefl [] = refl
before_bytes_irrefl (x ∷ xs) = ground (arith, before_bytes_irrefl xs)

pub before_bytes_trans :
    (xs ys zs : List ℕ)
    → before_bytes xs ys ≡ true
    → before_bytes ys zs ≡ true
    → before_bytes xs zs ≡ true
unfolding before_bytes
before_bytes_trans [] [] zs p q = cc
before_bytes_trans [] (y ∷ ys) [] p q = cc
before_bytes_trans [] (y ∷ ys) (z ∷ zs) p q = refl
before_bytes_trans (x ∷ xs) [] zs p q = cc
before_bytes_trans (x ∷ xs) (y ∷ ys) [] p q = cc
before_bytes_trans (x ∷ xs) (y ∷ ys) (z ∷ zs) p q = ground (arith, before_bytes_trans xs ys zs)

pub before_bytes_connected :
    (xs ys : List ℕ) → before_bytes xs ys ≡ false → before_bytes ys xs ≡ false → xs ≡ ys
unfolding before_bytes
before_bytes_connected [] [] p q = refl
before_bytes_connected [] (y ∷ ys) p q = cc
before_bytes_connected (x ∷ xs) [] p q = cc
before_bytes_connected (x ∷ xs) (y ∷ ys) p q = ground (arith, before_bytes_connected xs ys)

instance unfoldable pub bytes_ord : Ord (List ℕ)
unfolding before_bytes
bytes_ord = record {
  before = before_bytes;
  irrefl = before_bytes_irrefl;
  trans = before_bytes_trans;
  connected = before_bytes_connected;
}
