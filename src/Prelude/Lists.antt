-- ===== src/Prelude/Lists.antt =====
-- Lists measured by native numbers, the tests of a query over the rows of a table, and predicates
-- on every element.
use Prim.Native.Nat.{ℕ, zero, suc, ◌+◌, ◌≤◌}
use mathlib.Core.Path.{◌≡◌, refl}
use mathlib.Core.Bool.{Bool, true, false, ◌&&◌}
use mathlib.Core.List.{List, [], ◌∷◌, ◌++◌, map}
use native.Mathlib.Omega.{arith}
use inventory_access_poc.Prelude.Tests.{if◌then◌else◌}

module _ {ℓ} {A : Type ℓ} where
  abbrev pub length : List A → ℕ
  length [] = 0
  length (x ∷ xs) = suc (length xs)

  pub length-append : (xs ys : List A) → length (xs ++ ys) ≡ length xs + length ys
  length-append [] ys = omega arith
  length-append (x ∷ xs) ys = omega (arith, length-append xs ys)

  abbrev pub take : ℕ → List A → List A
  take zero xs = []
  take (suc n) [] = []
  take (suc n) (x ∷ xs) = x ∷ take n xs

  -- The rows that pass a test: a `WHERE`, or the `ON` of a join.
  abbrev pub keep : (A → Bool) → List A → List A
  keep p [] = []
  keep p (x ∷ xs) = if p x then x ∷ keep p xs else keep p xs

  -- `count(*) filter (where …)`
  abbrev pub count_where : (A → Bool) → List A → ℕ
  count_where p [] = 0
  count_where p (x ∷ xs) = (if p x then 1 else 0) + count_where p xs

  pub keep-append : (p : A → Bool) (xs ys : List A) → keep p (xs ++ ys) ≡ keep p xs ++ keep p ys
  keep-append p [] ys = refl
  keep-append p (x ∷ xs) ys = ground (arith, keep-append p xs ys)

  pub keep-keep : (p q : A → Bool) (xs : List A) → keep p (keep q xs) ≡ keep (λ x. q x && p x) xs
  keep-keep p q [] = refl
  keep-keep p q (x ∷ xs) = ground (arith, keep-keep p q xs)

  pub count_where-append :
      (p : A → Bool) (xs ys : List A)
      → count_where p (xs ++ ys) ≡ count_where p xs + count_where p ys
  count_where-append p [] ys = omega arith
  count_where-append p (x ∷ xs) ys = omega (arith, count_where-append p xs ys)

  pub count_where-le-length : (p : A → Bool) (xs : List A) → count_where p xs ≤ length xs
  count_where-le-length p [] = omega arith
  count_where-le-length p (x ∷ xs) = ground (arith, count_where-le-length p xs)

module _ {ℓ κ} {A : Type ℓ} where
  abbrev pub All : (A → Type κ) → List A → Type κ
  All P [] = Unit
  All P (x ∷ xs) = P x × All P xs

  pub All-split : (P : A → Type κ) (xs ys : List A) → All P (xs ++ ys) → All P xs × All P ys
  All-split P [] ys h = (tt, h)
  All-split P (x ∷ xs) ys h = let (a, b) = All-split P xs ys h.1 in ((h.0, a), b)

  pub All-append : (P : A → Type κ) (xs ys : List A) → All P xs → All P ys → All P (xs ++ ys)
  All-append P [] ys hx hy = hy
  All-append P (x ∷ xs) ys hx hy = (hx.0, All-append P xs ys hx.1 hy)

module _ {A : Type 0} where
  pub keep-yes :
      (p : A → Bool) (r : A) (rows : List A) → p r ≡ true → keep p (r ∷ rows) ≡ r ∷ keep p rows
  keep-yes p r rows h = rw h refl

  pub keep-no :
      (p : A → Bool) (r : A) (rows : List A) → p r ≡ false → keep p (r ∷ rows) ≡ keep p rows
  keep-no p r rows h = rw h refl

  pub All-of : (P : A → Type 0) → ((a : A) → P a) → (l : List A) → All P l
  All-of P k [] = tt
  All-of P k (a ∷ l) = (k a, All-of P k l)

module _ {A B : Type 0} where
  pub All-map :
      (P : A → Type 0) (Q : B → Type 0) (f : A → B)
      → ((a : A) → P a → Q (f a))
      → (l : List A) → All P l
      → All Q (map f l)
  All-map P Q f k [] h = tt
  All-map P Q f k (a ∷ l) h = (k a h.0, All-map P Q f k l h.1)

module _ {A B C : Type 0} where
  pub map-map : (g : B → C) (f : A → B) (l : List A) → map g (map f l) ≡ map (λ a. g (f a)) l
  map-map g f [] = refl
  map-map g f (a ∷ l) = rw (map-map g f l) refl

module _ {A : Type 0} where
  pub All-weaken : (P Q : A → Type 0) → ((a : A) → P a → Q a) → (l : List A) → All P l → All Q l
  All-weaken P Q k [] h = tt
  All-weaken P Q k (a ∷ l) h = (k a h.0, All-weaken P Q k l h.1)

  pub All-both : (P Q : A → Type 0) (l : List A) → All P l → All Q l → All (λ a. P a × Q a) l
  All-both P Q [] h k = tt
  All-both P Q (a ∷ l) h k = ((h.0, k.0), All-both P Q l h.1 k.1)

module _ {ℓ κ} {A : Type ℓ} {B : Type κ} where
  -- `JOIN … ON`: the pairs of rows that meet the condition.
  abbrev pub join : (A → B → Bool) → List A → List B → List (A × B)
  join on [] ys = []
  join on (x ∷ xs) ys = map (λ y. (x, y)) (keep (on x) ys) ++ join on xs ys

  pub take-map : (f : A → B) (n : ℕ) (xs : List A) → take n (map f xs) ≡ map f (take n xs)
  take-map f zero xs = refl
  take-map f (suc n) [] = refl
  take-map f (suc n) (x ∷ xs) = rw (take-map f n xs)
