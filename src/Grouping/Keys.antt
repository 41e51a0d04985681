-- ===== src/Grouping/Keys.antt =====
-- The keys of a grouping: each that occurs, once, in strictly ascending order.
use inventory_access_poc.Prelude.{
  ◌≡◌, refl, sym, ap, ◌∙◌, inl, inr, Bool, true, false, ◌||◌, ◌&&◌, List, [], ◌∷◌, map, keep,
  contains, Eq, ◌==◌, Ord, arith, Bool-cases,
}
use inventory_access_poc.Grouping.{insert_key, sorted_keys}

module _ {K : Type 0} ⦃e : Eq K⦄ ⦃o : Ord K⦄ where
  -- Every key of the list comes after `k`.
  abbrev pub AllAfter : K → List K → Type 0
  AllAfter k [] = Unit
  AllAfter k (j ∷ js) = (o.before k j ≡ true) × AllAfter k js

  abbrev pub IsAscending : List K → Type 0
  IsAscending [] = Unit
  IsAscending (k ∷ ks) = AllAfter k ks × IsAscending ks

  AllAfter-trans : (i k : K) (ks : List K) → o.before i k ≡ true → AllAfter k ks → AllAfter i ks
  AllAfter-trans i k [] h a = tt
  AllAfter-trans i k (j ∷ ks) h a = (o.trans i k j h a.0, AllAfter-trans i k ks h a.1)

  pub AllAfter-absent : (k : K) (ks : List K) → AllAfter k ks → contains ks k ≡ false
  AllAfter-absent k [] a = refl
  AllAfter-absent k (j ∷ ks) a = elim (e.dec k j) [
    | yes p ↦ absurd (ground (arith, o.irrefl k, a.0, p))
    | no p ↦ ground (arith, AllAfter-absent k ks a.1)
  ]

  AllAfter-insert_key :
      (i k : K) (ks : List K) → o.before i k ≡ true → AllAfter i ks → AllAfter i (insert_key k ks)
  unfolding insert_key
  AllAfter-insert_key i k [] h a = (h, tt)
  AllAfter-insert_key i k (j ∷ ks) h a = ground (arith, AllAfter-insert_key i k ks h a.1)

  insert_key-IsAscending : (k : K) (ks : List K) → IsAscending ks → IsAscending (insert_key k ks)
  unfolding insert_key
  insert_key-IsAscending k [] s = (tt, tt)
  insert_key-IsAscending k (j ∷ ks) s = elim (e.dec k j) [
    | yes p ↦ ground arith
    | no p ↦ elim (Bool-cases (o.before k j)) [
      | inl first ↦ rw first (ground (arith, AllAfter-trans k j ks first s.0))
      | inr later ↦ elim (Bool-cases (o.before j k)) [
        | inl second ↦
            rw later (
              ground
                (arith, AllAfter-insert_key j k ks second s.0, insert_key-IsAscending k ks s.1))
        | inr none_ ↦ absurd (p (o.connected k j later none_))
      ]
    ]
  ]

  pub sorted_keys-IsAscending :
      {A : Type 0} (key : A → K) (xs : List A) → IsAscending (sorted_keys key xs)
  unfolding sorted_keys
  sorted_keys-IsAscending key [] = tt
  sorted_keys-IsAscending key (x ∷ xs) =
      insert_key-IsAscending (key x) (sorted_keys key xs) (sorted_keys-IsAscending key xs)

  contains-insert_key :
      (k j : K) (ks : List K) → contains (insert_key k ks) j ≡ (j == k || contains ks j)
  unfolding insert_key
  contains-insert_key k j [] = refl
  contains-insert_key k j (i ∷ ks) = ground (arith, contains-insert_key k j ks)

  pub contains-sorted_keys :
      {A : Type 0} (key : A → K) (xs : List A) (k : K)
      → contains (sorted_keys key xs) k ≡ contains (map key xs) k
  unfolding sorted_keys
  contains-sorted_keys key [] k = refl
  contains-sorted_keys key (x ∷ xs) k =
      contains-insert_key (key x) k (sorted_keys key xs)
      ∙ ap (λ b. k == key x || b) (contains-sorted_keys key xs k)

  before_of_contains :
      (k j : K) (ks : List K) → AllAfter k ks → contains ks j ≡ true → o.before k j ≡ true
  before_of_contains k j [] a h = cc
  before_of_contains k j (i ∷ ks) a h = ground (arith, before_of_contains k j ks a.1)

  -- A key that stands in front is not among the later ones.
  pub contains-AllAfter : (k : K) (ks : List K) → AllAfter k ks → contains ks k ≡ false
  contains-AllAfter k ks a = ground (arith, before_of_contains k k ks a, o.irrefl k)

  same_head :
      (i j : K) (is js : List K)
      → AllAfter i is
      → AllAfter j js
      → ((k : K) → contains (i ∷ is) k ≡ contains (j ∷ js) k)
      → i ≡ j
  same_head i j is js a b h = elim (e.dec i j) [
    | yes p ↦ p
    | no p ↦ absurd (
        ground (
          arith,
          h i,
          h j,
          before_of_contains j i js b,
          before_of_contains i j is a,
          o.trans i j i,
          o.irrefl i,
        ))
  ]

  -- Ascending lists with the same keys are equal.
  pub ascending_ext :
      (is js : List K)
      → IsAscending is
      → IsAscending js
      → ((k : K) → contains is k ≡ contains js k)
      → is ≡ js
  ascending_ext [] [] s t h = refl
  ascending_ext [] (j ∷ js) s t h = absurd (ground (arith, h j))
  ascending_ext (i ∷ is) [] s t h = absurd (ground (arith, h i))
  ascending_ext (i ∷ is) (j ∷ js) s t h =
      let p = same_head i j is js s.0 t.0 h in
      let q =
        ascending_ext is js s.1 t.1
          λ k. ground (arith, h k, contains-AllAfter i is s.0, contains-AllAfter j js t.0, p) in
      cc (p, q)

  pub contains-keep :
      (q : K → Bool) (ks : List K) (k : K) → contains (keep q ks) k ≡ (q k && contains ks k)
  contains-keep q [] k = ground arith
  contains-keep q (j ∷ ks) k = elim (e.dec k j) [
    | yes p ↦ rw p (ground (arith, contains-keep q ks j))
    | no p ↦ ground (arith, contains-keep q ks k)
  ]

  AllAfter-keep : (q : K → Bool) (k : K) (ks : List K) → AllAfter k ks → AllAfter k (keep q ks)
  AllAfter-keep q k [] a = tt
  AllAfter-keep q k (j ∷ ks) a = ground (arith, AllAfter-keep q k ks a.1)

  pub keep-IsAscending : (q : K → Bool) (ks : List K) → IsAscending ks → IsAscending (keep q ks)
  keep-IsAscending q [] s = tt
  keep-IsAscending q (k ∷ ks) s =
      ground (arith, keep-IsAscending q ks s.1, AllAfter-keep q k ks s.0)

  contains-map-keep :
      {A : Type 0} (key : A → K) (q : K → Bool) (xs : List A) (k : K)
      → contains (map key (keep (λ x. q (key x)) xs)) k ≡ (q k && contains (map key xs) k)
  contains-map-keep key q [] k = ground arith
  contains-map-keep key q (x ∷ xs) k = elim (e.dec k (key x)) [
    | yes p ↦ rw p (ground (arith, contains-map-keep key q xs (key x)))
    | no p ↦ ground (arith, contains-map-keep key q xs k)
  ]

  -- Rows that are dropped by their keys drop these keys.
  pub sorted_keys-keep :
      {A : Type 0} (key : A → K) (q : K → Bool) (xs : List A)
      → sorted_keys key (keep (λ x. q (key x)) xs) ≡ keep q (sorted_keys key xs)
  sorted_keys-keep key q xs =
      ascending_ext (sorted_keys key (keep (λ x. q (key x)) xs)) (keep q (sorted_keys key xs))
        (sorted_keys-IsAscending key _) (keep-IsAscending q _ (sorted_keys-IsAscending key xs))
        λ k.
          contains-sorted_keys key (keep (λ x. q (key x)) xs) k
          ∙ contains-map-keep key q xs k
          ∙ ap (λ b. q k && b) (sym (contains-sorted_keys key xs k))
          ∙ sym (contains-keep q (sorted_keys key xs) k)
