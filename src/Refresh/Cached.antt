-- ===== src/Refresh/Cached.antt =====
-- What the statements of a refresh leave in `package_account_data`, by the keys of its rows.
use inventory_access_poc.Prelude.{
  ℕ, ◌≡◌, ◌≢◌, refl, sym, ap, ◌∙◌, ◌⊎◌, inl, inr, Bool, true, false, not, ◌&&◌, some, List, [], ◌∷◌,
  map, keep, contains, All, ◌==◌, ==_iff, if◌then◌else◌, arith, Bool-cases, pair_ord,
}
use inventory_access_poc.Prelude.Int.{ℤ, int_eq, int_ord}
use inventory_access_poc.Tables.{Tables, PackageAccountData}
use inventory_access_poc.Database.{Answer}
use inventory_access_poc.Grouping.Keys.{IsAscending}
use inventory_access_poc.Packages.{Key, key_eq, Joined, joined, package_key, count_packages}
use inventory_access_poc.Packages.Bounds.{IsCount, group_by-IsAscending, group_by-IsCount}
use inventory_access_poc.Cache.{
  cache_key, is_counted, select_counts, insert_counts, upsert_all, not_in, delete_old,
}
use inventory_access_poc.Cache.Columns.{rows_of_columns-transpose}
use inventory_access_poc.Cache.Rows.{
  cached, HasPrimaryKey, cached-absent, cached-upsert_all, cached-keep, ascending-HasDistinctKeys,
}
use inventory_access_poc.Refresh.Outcomes.{inserted, cleaned}

keys_of_kept :
    (acc_id : ℤ) (rows : List Joined) (k : Key)
    → contains
        (map (λ (r : Joined). package_key r.0.0) (keep (λ r. r.0.0.0.rh_account_id == acc_id) rows))
        k
      ≡ true
    → k.0 ≡ acc_id
keys_of_kept acc_id [] k h = cc
keys_of_kept acc_id (r ∷ rows) k h = ground (arith, keys_of_kept acc_id rows k)

-- The counts of an account are in ascending order of the packages, and all of this account.
select_counts_rows :
    (acc_id : ℤ) (t : Tables)
    → IsAscending (map cache_key (select_counts (some acc_id) t))
      × All (IsCount acc_id) (select_counts (some acc_id) t)
unfolding select_counts count_packages
select_counts_rows acc_id t =
    let rows =
      keep (λ (r : Joined). r.0.0.0.rh_account_id == acc_id)
        (keep (λ r. is_counted r.0.0.0) (joined t)) in
    (
      group_by-IsAscending (λ (r : Joined). package_key r.0.0) (λ (r : Joined). r.0.0.1) rows,
      group_by-IsCount (λ (r : Joined). package_key r.0.0) (λ (r : Joined). r.0.0.1) acc_id rows
          (keys_of_kept acc_id (keep (λ r. is_counted r.0.0.0) (joined t))),
    )

account_of_key :
    (acc_id : ℤ) (ds : List PackageAccountData) (k : Key)
    → All (IsCount acc_id) ds
    → contains (map cache_key ds) k ≡ true
    → k.0 ≡ acc_id
account_of_key acc_id [] k h m = cc
account_of_key acc_id (d ∷ ds) k h m = elim (key_eq.dec k (cache_key d)) [
  | yes p ↦ ap (λ (j : Key). j.0) p ∙ h.0.account
  | no p ↦ account_of_key acc_id ds k h.1 (ground arith)
]

-- A key of another account is not among the counts.
other_account :
    (acc_id : ℤ) (t : Tables) (k : Key)
    → k.0 ≢ acc_id
    → contains (map cache_key (select_counts (some acc_id) t)) k ≡ false
other_account acc_id t k h =
    elim (Bool-cases (contains (map cache_key (select_counts (some acc_id) t)) k)) [
      | inl m ↦ absurd (
          h (
            account_of_key acc_id (select_counts (some acc_id) t) k (select_counts_rows acc_id t).1
              m))
      | inr m ↦ m
    ]

-- After the first statement: the keys that are counted have their counts, the others their old rows.
cached-inserted :
    (not_in_empty : Bool) (answers : ℕ → Answer) (acc_id : ℤ) (t : Tables) (k : Key)
    → HasPrimaryKey t.package_account_data
    → let ds = select_counts (some acc_id) t in
      cached k (inserted not_in_empty answers acc_id t).package_account_data
      ≡ (if contains (map cache_key ds) k then cached k ds else cached k t.package_account_data)
unfolding insert_counts
cached-inserted not_in_empty answers acc_id t k u =
    let ds = select_counts (some acc_id) t in
    ap (λ rows. cached k (upsert_all rows t.package_account_data)) (rows_of_columns-transpose ds)
    ∙ cached-upsert_all ds t.package_account_data k u
        (ascending-HasDistinctKeys ds (select_counts_rows acc_id t).0)

module _ (not_in_empty : Bool) (answers : ℕ → Answer) where
  -- After the second: of the account's rows only those that are counted are left.
  cached-cleaned :
      (acc_id : ℤ) (t : Tables) (k : Key)
      → let ds = select_counts (some acc_id) t in
        cached k (cleaned not_in_empty answers acc_id t).package_account_data ≡ (
          if not (not_in not_in_empty (map cache_key ds) k && k.0 == acc_id)
          then cached k (inserted not_in_empty answers acc_id t).package_account_data
          else [])
  unfolding delete_old
  cached-cleaned acc_id t k =
      let ds = select_counts (some acc_id) t in
      cached-keep k (λ j. not (not_in not_in_empty (map cache_key ds) j && j.0 == acc_id))
        (inserted not_in_empty answers acc_id t).package_account_data

  -- No row of another account is touched.
  pub cached_other-inserted :
      (acc_id : ℤ) (t : Tables) (k : Key)
      → HasPrimaryKey t.package_account_data
      → k.0 ≢ acc_id
      → cached k (inserted not_in_empty answers acc_id t).package_account_data
        ≡ cached k t.package_account_data
  cached_other-inserted acc_id t k u h =
      cached-inserted not_in_empty answers acc_id t k u ∙ rw (other_account acc_id t k h)

  pub cached_other-cleaned :
      (acc_id : ℤ) (t : Tables) (k : Key)
      → HasPrimaryKey t.package_account_data
      → k.0 ≢ acc_id
      → cached k (cleaned not_in_empty answers acc_id t).package_account_data
        ≡ cached k t.package_account_data
  cached_other-cleaned acc_id t k u h =
      let keys = map cache_key (select_counts (some acc_id) t) in
      let there : (k.0 == acc_id) ≡ false = ground arith in
      let kept : (not_in not_in_empty keys k && k.0 == acc_id) ≡ false =
        elim (Bool-cases (not_in not_in_empty keys k)) [ inl p ↦ rw (p, there) | inr p ↦ rw p ] in
      cached-cleaned acc_id t k ∙ rw kept (cached_other-inserted acc_id t k u h)

  -- Where the account has no counts and an empty `NOT IN` is false, nothing is deleted.
  pub cleaned-empty :
      (acc_id : ℤ) (t : Tables)
      → not_in_empty ≡ false
      → select_counts (some acc_id) t ≡ []
      → (cleaned not_in_empty answers acc_id t).package_account_data ≡ t.package_account_data
  unfolding delete_old insert_counts
  cleaned-empty acc_id t never none_ =
      rw (none_, never) (keep_all (upsert_all [] t.package_account_data))
    where
      keep_all : (rows : List PackageAccountData) → keep (λ r. true) rows ≡ rows
      keep_all [] = refl
      keep_all (r ∷ rows) = ap (λ l. r ∷ l) (keep_all rows)

  -- Rows that are not counted are deleted where the list of keys is not empty, or where an empty one
  -- excludes nothing.
  abbrev pub Excludes : List PackageAccountData → Type 0
  Excludes ds = (not_in_empty ≡ true) ⊎ (ds ≢ [])

  not_in-Excludes :
      (ds : List PackageAccountData) (k : Key)
      → Excludes ds
      → not_in not_in_empty (map cache_key ds) k ≡ not (contains (map cache_key ds) k)
  not_in-Excludes [] k (inl h) = h
  not_in-Excludes [] k (inr h) = absurd (h refl)
  not_in-Excludes (d ∷ ds) k h = refl

  pub cached-counts :
      (acc_id : ℤ) (t : Tables) (k : Key)
      → HasPrimaryKey t.package_account_data
      → k.0 ≡ acc_id
      → Excludes (select_counts (some acc_id) t)
      → cached k (cleaned not_in_empty answers acc_id t).package_account_data
        ≡ cached k (select_counts (some acc_id) t)
  cached-counts acc_id t k u h ex =
      let ds = select_counts (some acc_id) t in
      let here : (k.0 == acc_id) ≡ true = (==_iff k.0 acc_id).1 h in
      elim (Bool-cases (contains (map cache_key ds) k)) [
        | inl m ↦
            let kept : (not_in not_in_empty (map cache_key ds) k) ≡ false =
              not_in-Excludes ds k ex ∙ rw m in
            cached-cleaned acc_id t k
            ∙ rw kept (cached-inserted not_in_empty answers acc_id t k u ∙ rw m)
        | inr m ↦
            let gone : (not_in not_in_empty (map cache_key ds) k) ≡ true =
              not_in-Excludes ds k ex ∙ rw m in
            cached-cleaned acc_id t k ∙ rw (gone, here) (sym (cached-absent k ds m))
      ]
