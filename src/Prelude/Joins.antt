-- ===== src/Prelude/Joins.antt =====
-- Laws of `WHERE` over joins, and of rows that lose columns.
use mathlib.Core.Path.{◌≡◌, refl, sym, ap, ◌∙◌, subst}
use mathlib.Core.Logic.{inl, inr}
use mathlib.Core.Bool.{Bool, true}
use mathlib.Core.List.{List, [], ◌∷◌, ◌++◌, map, map-append}
use Prim.Native.Nat.{suc}
use native.Mathlib.Omega.{arith}
use inventory_access_poc.Prelude.Tests.{if◌then◌else◌, Bool-cases}
use inventory_access_poc.Prelude.Lists.{
  keep, keep-append, count_where, length, join, All, All-split, All-append, All-weaken, All-of,
  keep-yes, keep-no,
}

pub keep_comm :
    {A : Type 0} (p q : A → Bool) (xs : List A) → keep p (keep q xs) ≡ keep q (keep p xs)
keep_comm p q [] = refl
keep_comm p q (x ∷ xs) = ground (arith, keep_comm p q xs)

module _ {A B : Type 0} where
  pub length-map : (f : A → B) (xs : List A) → length (map f xs) ≡ length xs
  length-map f [] = refl
  length-map f (x ∷ xs) = ap suc (length-map f xs)

  pub count_where-map :
      (f : A → B) (p : B → Bool) (xs : List A)
      → count_where p (map f xs) ≡ count_where (λ x. p (f x)) xs
  count_where-map f p [] = refl
  count_where-map f p (x ∷ xs) = omega (arith, count_where-map f p xs)

  pub keep-map :
      (f : A → B) (p : B → Bool) (xs : List A) → keep p (map f xs) ≡ map f (keep (λ x. p (f x)) xs)
  keep-map f p [] = refl
  keep-map f p (x ∷ xs) = elim (Bool-cases (p (f x))) [
    | inl e ↦ rw (e, keep-map f p xs)
    | inr e ↦ rw (e, keep-map f p xs)
  ]

  pairs_left :
      (q : A → Bool) (x : A) (ys : List B)
      → keep (λ (r : A × B). q r.0) (map (λ y. (x, y)) ys)
        ≡ (if q x then map (λ y. (x, y)) ys else [])
  pairs_left q x [] = ground arith
  pairs_left q x (y ∷ ys) = elim (Bool-cases (q x)) [
    | inl e ↦ rw (pairs_left q x ys, e)
    | inr e ↦ rw (pairs_left q x ys, e)
  ]

  -- A condition on the left rows may be tested before the join.
  pub keep-join_left :
      (q : A → Bool) (on : A → B → Bool) (xs : List A) (ys : List B)
      → keep (λ r. q r.0) (join on xs ys) ≡ join on (keep q xs) ys
  keep-join_left q on [] ys = refl
  keep-join_left q on (x ∷ xs) ys =
      keep-append (λ r. q r.0) (map (λ y. (x, y)) (keep (on x) ys)) (join on xs ys)
      ∙ elim (Bool-cases (q x)) [
        | inl e ↦ rw (pairs_left q x (keep (on x) ys), e, keep-join_left q on xs ys)
        | inr e ↦ rw (pairs_left q x (keep (on x) ys), e, keep-join_left q on xs ys)
      ]

  pairs_right :
      (q : B → Bool) (x : A) (ys : List B)
      → keep (λ (r : A × B). q r.1) (map (λ y. (x, y)) ys) ≡ map (λ y. (x, y)) (keep q ys)
  pairs_right q x [] = refl
  pairs_right q x (y ∷ ys) = elim (Bool-cases (q y)) [
    | inl e ↦ rw (pairs_right q x ys, e)
    | inr e ↦ rw (pairs_right q x ys, e)
  ]

  -- And so may one on the right rows.
  pub keep-join_right :
      (q : B → Bool) (on : A → B → Bool) (xs : List A) (ys : List B)
      → keep (λ r. q r.1) (join on xs ys) ≡ join on xs (keep q ys)
  keep-join_right q on [] ys = refl
  keep-join_right q on (x ∷ xs) ys =
      keep-append (λ r. q r.1) (map (λ y. (x, y)) (keep (on x) ys)) (join on xs ys)
      ∙ rw (pairs_right q x (keep (on x) ys), keep-join_right q on xs ys, keep_comm q (on x) ys)

  -- A join that finds one partner for each row adds columns only.
  pub join_one :
      (on : A → B → Bool) (xs : List A) (ys : List B)
      → All (λ x. length (keep (on x) ys) ≡ 1) xs
      → map (λ (r : A × B). r.0) (join on xs ys) ≡ xs
  join_one on [] ys h = refl
  join_one on (x ∷ xs) ys h =
      map-append (λ (r : A × B). r.0) (map (λ y. (x, y)) (keep (on x) ys)) (join on xs ys)
      ∙ rw (join_one on xs ys h.1) (single (keep (on x) ys) h.0)
    where
      single :
          (zs : List B)
          → length zs ≡ 1
          → map (λ (r : A × B). r.0) (map (λ y. (x, y)) zs) ++ xs ≡ x ∷ xs
      single [] e = absurd (omega arith)
      single (z ∷ []) e = refl
      single (z ∷ w ∷ zs) e = absurd (omega arith)

module _ {A B C : Type 0} where
  pairs-map :
      (f : A → C) (x : A) (ys : List B)
      → map {B = C × B} (λ (r : A × B). (f r.0, r.1)) (map (λ y. (x, y)) ys)
        ≡ map (λ y. (f x, y)) ys
  pairs-map f x [] = refl
  pairs-map f x (y ∷ ys) = rw (pairs-map f x ys)

  -- Columns that the condition does not look at may be dropped before the join.
  pub map-join :
      (f : A → C) (on : C → B → Bool) (xs : List A) (ys : List B)
      → map {B = C × B} (λ (r : A × B). (f r.0, r.1)) (join (λ x y. on (f x) y) xs ys)
        ≡ join on (map f xs) ys
  map-join f on [] ys = refl
  map-join f on (x ∷ xs) ys =
      map-append {B = C × B} (λ (r : A × B). (f r.0, r.1)) (map (λ y. (x, y)) (keep (on (f x)) ys))
        (join (λ x y. on (f x) y) xs ys)
      ∙ rw (pairs-map f x (keep (on (f x)) ys), map-join f on xs ys)

-- What holds of the pairs of a join, of the pairs that meet its condition, and of the left parts.
module _ {A B : Type 0} (on : A → B → Bool) where
  All-pairs :
      (P : A × B → Type 0) (x : A) (ys : List B)
      → All P (map (λ y. (x, y)) (keep (on x) ys))
      → All (λ y. on x y ≡ true → P (x, y)) ys
  All-pairs P x [] h = tt
  All-pairs P x (y ∷ ys) h = elim (Bool-cases (on x y)) [
    | inl t ↦
        let both = subst (λ l. All P (map (λ y. (x, y)) l)) (keep-yes (on x) y ys t) h in
        ((λ _. both.0), All-pairs P x ys both.1)
    | inr f ↦ (
      (λ t. absurd (ground arith)),
      All-pairs P x ys (subst (λ l. All P (map (λ y. (x, y)) l)) (keep-no (on x) y ys f) h),
    )
  ]

  pairs-All :
      (P : A × B → Type 0) (x : A) (ys : List B)
      → All (λ y. on x y ≡ true → P (x, y)) ys
      → All P (map (λ y. (x, y)) (keep (on x) ys))
  pairs-All P x [] h = tt
  pairs-All P x (y ∷ ys) h = elim (Bool-cases (on x y)) [
    | inl t ↦
        subst (λ l. All P (map (λ y. (x, y)) l)) (sym (keep-yes (on x) y ys t))
          (h.0 t, pairs-All P x ys h.1)
    | inr f ↦
        subst (λ l. All P (map (λ y. (x, y)) l)) (sym (keep-no (on x) y ys f))
          (pairs-All P x ys h.1)
  ]

  pub join-All :
      (P : A × B → Type 0) (xs : List A) (ys : List B)
      → All P (join on xs ys)
      → All (λ x. All (λ y. on x y ≡ true → P (x, y)) ys) xs
  join-All P [] ys h = tt
  join-All P (x ∷ xs) ys h =
      let (a, b) = All-split P (map (λ y. (x, y)) (keep (on x) ys)) (join on xs ys) h in
      (All-pairs P x ys a, join-All P xs ys b)

  pub All-join :
      (P : A × B → Type 0) (xs : List A) (ys : List B)
      → All (λ x. All (λ y. on x y ≡ true → P (x, y)) ys) xs
      → All P (join on xs ys)
  All-join P [] ys h = tt
  All-join P (x ∷ xs) ys h =
      All-append P (map (λ y. (x, y)) (keep (on x) ys)) (join on xs ys) (pairs-All P x ys h.0)
        (All-join P xs ys h.1)

  pub All-join_left :
      (P : A → Type 0) (xs : List A) (ys : List B)
      → All P xs
      → All (λ (r : A × B). P r.0) (join on xs ys)
  All-join_left P xs ys h =
      All-join (λ r. P r.0) xs ys
        (All-weaken P (λ x. All (λ y. on x y ≡ true → P x) ys)
          (λ x p. All-of (λ y. on x y ≡ true → P x) (λ y _. p) ys) xs h)

-- A test may be replaced by one that agrees with it on the rows that pass another.
pub keep_cong :
    {A : Type 0} (p q a : A → Bool) (xs : List A)
    → All (λ x. a x ≡ true → p x ≡ q x) xs
    → keep p (keep a xs) ≡ keep a (keep q xs)
keep_cong p q a [] h = refl
keep_cong p q a (x ∷ xs) h = ground (arith, h.0, keep_cong p q a xs h.1)

-- So may columns of the right part.
module _ {A B C : Type 0} (f : B → C) (on : A → C → Bool) where
  map-pairs_right :
      (x : A) (ys : List B)
      → map {B = A × C} (λ (r : A × B). (r.0, f r.1)) (map (λ y. (x, y)) ys)
        ≡ map (λ z. (x, z)) (map f ys)
  map-pairs_right x [] = refl
  map-pairs_right x (y ∷ ys) = rw (map-pairs_right x ys)

  pub map-join_right :
      (xs : List A) (ys : List B)
      → map {B = A × C} (λ (r : A × B). (r.0, f r.1)) (join (λ x y. on x (f y)) xs ys)
        ≡ join on xs (map f ys)
  map-join_right [] ys = refl
  map-join_right (x ∷ xs) ys =
      map-append {B = A × C} (λ (r : A × B). (r.0, f r.1))
        (map (λ y. (x, y)) (keep (λ y. on x (f y)) ys)) (join (λ x y. on x (f y)) xs ys)
      ∙ rw
          (
            map-pairs_right x (keep (λ y. on x (f y)) ys),
            keep-map f (on x) ys,
            map-join_right xs ys,
          )
          refl
