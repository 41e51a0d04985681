-- ===== src/Grouping/Totals.antt =====
-- The groups share out the rows: every row is counted in one group.
use inventory_access_poc.Prelude.{
  ℕ, ◌+◌, ◌≡◌, refl, ap, sym, ◌∙◌, inl, inr, Bool, true, false, List, [], ◌∷◌, map, keep,
  count_where, contains, Eq, ◌==◌, Ord, if◌then◌else◌, arith, Bool-cases, fun_ext,
}
use inventory_access_poc.Grouping.{insert_key, sorted_keys, having, group_by}
use inventory_access_poc.Grouping.Keys.{
  AllAfter, IsAscending, sorted_keys-IsAscending, contains-sorted_keys, contains-AllAfter,
  sorted_keys-keep,
}

-- The sum of a number for each element.
abbrev pub total {ℓ} : {A : Type ℓ} → (A → ℕ) → List A → ℕ
total f [] = 0
total f (x ∷ xs) = f x + total f xs

module _ {K : Type 0} ⦃e : Eq K⦄ ⦃o : Ord K⦄ where
  -- `c` more for the key `k`.
  abbrev more : K → ℕ → (K → ℕ) → K → ℕ
  more k c f j = (if k == j then c else 0) + f j

  total-more_absent :
      (k : K) (c : ℕ) (f : K → ℕ) (ks : List K)
      → contains ks k ≡ false
      → total (more k c f) ks ≡ total f ks
  total-more_absent k c f [] h = refl
  total-more_absent k c f (j ∷ ks) h = ground (arith, total-more_absent k c f ks)

  not_contains_of_before :
      (k j : K) (ks : List K) → o.before k j ≡ true → AllAfter j ks → contains (j ∷ ks) k ≡ false
  not_contains_of_before k j ks h a = contains-AllAfter k (j ∷ ks) (h, later ks a)
    where
      later : (js : List K) → AllAfter j js → AllAfter k js
      later [] b = tt
      later (i ∷ js) b = (o.trans k j i h b.0, later js b.1)

  total-insert_key :
      (k : K) (c : ℕ) (f : K → ℕ) (ks : List K)
      → IsAscending ks
      → (contains ks k ≡ false → f k ≡ 0)
      → total (more k c f) (insert_key k ks) ≡ c + total f ks
  unfolding insert_key
  total-insert_key k c f [] s h = ground (arith, h refl)
  total-insert_key k c f (j ∷ ks) s h = elim (e.dec k j) [
    | yes p ↦ rw p (ground (arith, total-more_absent j c f ks (contains-AllAfter j ks s.0)))
    | no p ↦ elim (Bool-cases (o.before k j)) [
      | inl first ↦
          let absent = not_contains_of_before k j ks first s.0 in
          rw first (ground (arith, h absent, total-more_absent k c f (j ∷ ks) absent))
      | inr later ↦ rw later (ground (arith, total-insert_key k c f ks s.1))
    ]
  ]

  count_where-having :
      {A : Type 0} (key : A → K) (p : A → Bool) (x : A) (xs : List A) (k : K)
      → count_where p (having key k (x ∷ xs))
        ≡ more (key x) (if p x then 1 else 0) (λ j. count_where p (having key j xs)) k
  count_where-having key p x xs k = ground arith

  count_where-having_absent :
      {A : Type 0} (key : A → K) (p : A → Bool) (xs : List A) (k : K)
      → contains (map key xs) k ≡ false
      → count_where p (having key k xs) ≡ 0
  count_where-having_absent key p [] k h = refl
  count_where-having_absent key p (x ∷ xs) k h =
      ground (arith, count_where-having_absent key p xs k)

  -- The counts of all groups add up to the count over all rows.
  pub total-count_where :
      {A : Type 0} (key : A → K) (p : A → Bool) (xs : List A)
      → total (λ k. count_where p (having key k xs)) (sorted_keys key xs) ≡ count_where p xs
  unfolding sorted_keys
  total-count_where key p [] = refl
  total-count_where key p (x ∷ xs) =
      ap (λ f. total f (insert_key (key x) (sorted_keys key xs)))
        (fun_ext (count_where-having key p x xs))
      ∙ total-insert_key (key x) (if p x then 1 else 0) (λ k. count_where p (having key k xs))
          (sorted_keys key xs) (sorted_keys-IsAscending key xs)
          (λ absent.
            count_where-having_absent key p xs (key x)
              (sym (contains-sorted_keys key xs (key x)) ∙ absent))
      ∙ ap (λ n. (if p x then 1 else 0) + n) (total-count_where key p xs)

  having-keep :
      {A : Type 0} (key : A → K) (q : K → Bool) (k : K) (xs : List A)
      → q k ≡ true
      → having key k (keep (λ x. q (key x)) xs) ≡ having key k xs
  having-keep key q k [] h = refl
  having-keep key q k (x ∷ xs) h = elim (e.dec (key x) k) [
    | yes p ↦ rw (p, h) (ground (arith, having-keep key q k xs h))
    | no p ↦ elim (Bool-cases (q (key x))) [
      | inl in_ ↦ rw in_ (ground (arith, having-keep key q k xs h))
      | inr out ↦ rw out (ground (arith, having-keep key q k xs h))
    ]
  ]

  map-keep :
      {A B : Type 0} (key : A → K) (result : K → List A → B) (q : K → Bool) (of : B → Bool)
      (xs : List A) (ks : List K)
      → ((k : K) (g : List A) → of (result k g) ≡ q k)
      → map (λ k. result k (having key k (keep (λ x. q (key x)) xs))) (keep q ks)
        ≡ keep of (map (λ k. result k (having key k xs)) ks)
  map-keep key result q of xs [] h = refl
  map-keep key result q of xs (k ∷ ks) h = elim (Bool-cases (q k)) [
    | inl in_ ↦ rw (
      in_,
      h k (having key k xs) ∙ in_,
      having-keep key q k xs in_,
      map-keep key result q of xs ks h,
    )
    | inr out ↦ rw (out, h k (having key k xs) ∙ out) (map-keep key result q of xs ks h)
  ]

  -- To drop rows by their keys and group is to group and drop results by their keys.
  pub group_by-keep :
      {A B : Type 0} (key : A → K) (result : K → List A → B) (q : K → Bool) (of : B → Bool)
      (xs : List A)
      → ((k : K) (g : List A) → of (result k g) ≡ q k)
      → group_by key result (keep (λ x. q (key x)) xs) ≡ keep of (group_by key result xs)
  unfolding group_by
  group_by-keep key result q of xs h =
      rw (sorted_keys-keep key q xs) (map-keep key result q of xs (sorted_keys key xs) h)
