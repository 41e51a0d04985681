-- ===== src/Refresh/Invariants.antt =====
-- What a refresh keeps, whatever the database answers.
use inventory_access_poc.Prelude.{
  ℕ, ◌≡◌, ◌≤◌, sym, subst, inl, inr, Bool, not, ◌&&◌, Option, none, some, List, [], ◌∷◌, map, keep,
  length, ◌==◌, arith,
}
use inventory_access_poc.Prelude.Int.{ℤ}
use inventory_access_poc.Prelude.Joins.{keep_comm}
use inventory_access_poc.Errors.{Result, ok, err, ⊤, Result-cases}
use inventory_access_poc.Tables.{Tables, SystemPlatform, InventoryHost, PackageAccountData}
use inventory_access_poc.Database.{Answer, Connection}
use inventory_access_poc.Packages.{key_eq}
use inventory_access_poc.Cache.{
  cache_key, select_counts, rows_of_columns, transpose, fields, not_in, in_accounts, upsert_all,
  insert_counts, delete_old, set_valid,
}
use inventory_access_poc.Cache.Rows.{cached, HasPrimaryKey, upsert-HasPrimaryKey}
use inventory_access_poc.Refresh.{
  refresh_account, refresh_accounts, accounts_without_cache, refresh_packages_caches,
}
use inventory_access_poc.Refresh.Outcomes.{
  inserted, cleaned, refreshed, HasRefreshed, complete, stopped, refresh_account-HasRefreshed,
}
use inventory_access_poc.Refresh.Order.{accounts_without_cache-IsSorted}

module _ (not_in_empty : Bool) (answers : ℕ → Answer) where
  -- A property of the tables that each of the three statements keeps.
  abbrev pub IsKept : (Tables → Type 0) → Type 0
  IsKept P =
      (a : ℤ) (t : Tables)
      → P t
      → P (inserted not_in_empty answers a t)
        × P (cleaned not_in_empty answers a t)
        × P (refreshed not_in_empty answers a t)

  HasRefreshed-kept :
      (P : Tables → Type 0) (a : ℤ) (t : Tables) (r : Result ⊤) (c' : Connection)
      → IsKept P
      → P t
      → HasRefreshed not_in_empty answers a t r c'
      → P c'.committed
  HasRefreshed-kept P a t r c' kept h (complete o e) = subst P (sym e) (kept a t h).2
  HasRefreshed-kept P a t r c' kept h (stopped o (inl e)) = subst P (sym e) h
  HasRefreshed-kept P a t r c' kept h (stopped o (inr (inl e))) = subst P (sym e) (kept a t h).0
  HasRefreshed-kept P a t r c' kept h (stopped o (inr (inr (inl e)))) =
      subst P (sym e) (kept a t h).1
  HasRefreshed-kept P a t r c' kept h (stopped o (inr (inr (inr e)))) =
      subst P (sym e) (kept a t h).2

  refresh_accounts-kept :
      (P : Tables → Type 0) (last : Result ⊤) (accs : List ℤ) (c : Connection)
      → IsKept P
      → P c.committed
      → P (refresh_accounts not_in_empty answers last accs c).1.committed
  unfolding refresh_accounts
  refresh_accounts-kept P last [] c kept h = h
  refresh_accounts-kept P last (a ∷ accs) c kept h =
      let (r, c') = refresh_account not_in_empty answers a c in
      let h' : P c'.committed =
        HasRefreshed-kept P a c.committed r c' kept h
          (refresh_account-HasRefreshed not_in_empty answers a c) in
      elim (Result-cases r) [
        | inl (_, e) ↦ rw (e, refresh_accounts) (refresh_accounts-kept P (ok tt) accs c' kept h')
        | inr (inl (x, e)) ↦
            rw (e, refresh_accounts) (refresh_accounts-kept P (err x) accs c' kept h')
        | inr (inr e) ↦ rw (e, refresh_accounts) h'
      ]

  -- The whole refresh keeps such a property, however it ends.
  pub refresh_packages_caches-kept :
      (P : Tables → Type 0) (hash : ℤ → ℕ) (acc_id : Option ℤ) (c : Connection)
      → IsKept P
      → P c.committed
      → P (refresh_packages_caches not_in_empty answers hash acc_id c).1.committed
  unfolding refresh_packages_caches
  refresh_packages_caches-kept P hash none c kept h =
      let (r, c') = accounts_without_cache not_in_empty answers hash c in
      let h' = subst P (sym (accounts_without_cache-IsSorted not_in_empty answers hash c).0) h in
      elim (Result-cases r) [
        | inl (accs, e) ↦ rw e (refresh_accounts-kept P (ok tt) accs c' kept h')
        | inr (inl (x, e)) ↦ rw e h'
        | inr (inr e) ↦ rw e h'
      ]
  refresh_packages_caches-kept P hash (some a) c kept h =
      refresh_accounts-kept P (ok tt) (a ∷ []) c kept h

  -- The systems and the hosts are those of before.
  pub systems-IsKept :
      (sps : List SystemPlatform) (hosts : List InventoryHost)
      → IsKept (λ t. (t.system_platform ≡ sps) × (t.inventory_hosts ≡ hosts))
  unfolding insert_counts delete_old set_valid
  systems-IsKept sps hosts a t h = (h, h, h)

upsert_all-HasPrimaryKey :
    (ds rows : List PackageAccountData) → HasPrimaryKey rows → HasPrimaryKey (upsert_all ds rows)
unfolding upsert_all
upsert_all-HasPrimaryKey [] rows u = u
upsert_all-HasPrimaryKey (d ∷ ds) rows u =
    upsert_all-HasPrimaryKey ds _ (upsert-HasPrimaryKey d rows u)

length-keep-le : {A : Type 0} (p : A → Bool) (xs : List A) → length (keep p xs) ≤ length xs
length-keep-le p [] = omega arith
length-keep-le p (x ∷ xs) = ground (arith, length-keep-le p xs)

keep-HasPrimaryKey :
    (p : PackageAccountData → Bool) (rows : List PackageAccountData)
    → HasPrimaryKey rows
    → HasPrimaryKey (keep p rows)
keep-HasPrimaryKey p rows u k =
    rw (keep_comm (λ r. cache_key r == k) p rows)
      (omega (arith, length-keep-le p (cached k rows), u k))

insert_counts-HasPrimaryKey :
    (ds : List PackageAccountData) (t : Tables)
    → HasPrimaryKey t.package_account_data
    → HasPrimaryKey (insert_counts ds t).package_account_data
unfolding insert_counts
insert_counts-HasPrimaryKey ds t =
    upsert_all-HasPrimaryKey (rows_of_columns (transpose [] (map fields ds))) t.package_account_data

delete_old-HasPrimaryKey :
    (not_in_empty : Bool) (ds : List PackageAccountData) (acc_id : Option ℤ) (t : Tables)
    → HasPrimaryKey t.package_account_data
    → HasPrimaryKey (delete_old not_in_empty ds acc_id t).package_account_data
unfolding delete_old
delete_old-HasPrimaryKey not_in_empty ds acc_id t =
    keep-HasPrimaryKey
      (λ r. not (not_in not_in_empty (map cache_key ds) (cache_key r) && in_accounts acc_id ds r))
      t.package_account_data

module _ (not_in_empty : Bool) (answers : ℕ → Answer) where
  -- The primary key of the cached rows is kept.
  pub primary_key-IsKept : IsKept not_in_empty answers (λ t. HasPrimaryKey t.package_account_data)
  unfolding set_valid
  primary_key-IsKept a t h =
      let ds = select_counts (some a) t in
      let one = insert_counts-HasPrimaryKey ds t h in
      let two = delete_old-HasPrimaryKey not_in_empty ds (some a) (insert_counts ds t) one in
      (one, two, two)
