-- ===== src/Refresh.antt =====
-- cachecontent/refresh_packages_caches.go, its requests: for every account the counts are read, the
-- cached rows inserted or updated, the old ones deleted, and the cache marked as valid, each in a
-- transaction of its own. Prints are left out.
pub mod Steps
pub mod Outcomes
pub mod Cached
pub mod Accounts
pub mod Success
pub mod Validity
pub mod Counts
pub mod Order
pub mod Invariants
use inventory_access_poc.Prelude.{
  ℕ, ◌+◌, ◌≡◌, Bool, true, false, not, ◌&&◌, ◌||◌, Option, none, some, List, [], ◌∷◌, ◌++◌, map,
  keep, contains, ◌==◌, if◌then◌else◌, ltb, nat_eq, flat_map,
}
use inventory_access_poc.Prelude.Int.{ℤ, pos, negsuc, int_eq, before_int}
use inventory_access_poc.Prelude.Bytes.{Text, codes}
use inventory_access_poc.Errors.{
  Error, Result, ok, err, panic, ⊤, wrap, Action, pure, lift, proceed, ◌>>=◌, ◌>>◌,
}
use inventory_access_poc.Tables.{
  Tables, SystemPlatform, SystemPackage, RhAccount, PackageAccountData,
}
use inventory_access_poc.Database.{Answer, Connection}
use inventory_access_poc.Transaction.{Handle, find, execute, with_tx}
use inventory_access_poc.Packages.{Key, key_eq, Joined, joined, count_packages}
use inventory_access_poc.Cache.{
  select_counts, insert_counts, delete_old, set_valid, select_accounts,
}

abbrev wrapped_as : {A : Type 0} → Text → Action Connection A → Action Connection A
wrapped_as text m c = let (r, c') = m c in (wrap text r, c')

module _ (not_in_empty : Bool) (answers : ℕ → Answer) where
  -- `SET work_mem` and `RESET work_mem` are requests that read no table; how they end is not looked
  -- at, and the second is sent at the end of the function.
  counts_body : Option ℤ → Handle → Action Connection (List PackageAccountData)
  unfolding find select_counts
  counts_body acc_id tx c =
      let (_, c₁) = find answers tx (λ t. tt) c in
      let (r, c₂) = find answers tx (select_counts acc_id) c₁ in
      let (_, c₃) = find answers tx (λ t. tt) c₂ in (r, c₃)

  unfoldable pub get_counts : Option ℤ → Action Connection (List PackageAccountData)
  unfolding with_tx counts_body
  get_counts acc_id =
      wrapped_as (codes "failed to get counts") (with_tx answers (counts_body acc_id))

  -- `UnnestInsert`: nothing is sent for an empty slice.
  unnest_insert : List PackageAccountData → Handle → Action Connection ⊤
  unfolding execute insert_counts
  unnest_insert [] tx = pure tt
  unnest_insert (d ∷ ds) tx = execute answers tx (insert_counts (d ∷ ds))

  unfoldable pub update_package_account_data : List PackageAccountData → Action Connection ⊤
  unfolding with_tx unnest_insert
  update_package_account_data ds =
      wrapped_as (codes "failed to insert to package_account_data")
        (with_tx answers (unnest_insert ds))

  unfoldable pub delete_old_cache : List PackageAccountData → Option ℤ → Action Connection ⊤
  unfolding with_tx execute delete_old
  delete_old_cache ds acc_id =
      wrapped_as (codes "failed to insert to package_account_data")
        (with_tx answers (λ tx. execute answers tx (delete_old not_in_empty ds acc_id)))

  unfoldable pub update_pkg_cache_validity : Option ℤ → Action Connection ⊤
  unfolding with_tx execute set_valid
  update_pkg_cache_validity acc_id =
      wrapped_as (codes "failed to update valid_package_cache")
        (with_tx answers (λ tx. execute answers tx (set_valid acc_id)))

  unfoldable pub accounts_without_cache : (ℤ → ℕ) → Action Connection (List ℤ)
  unfolding with_tx find select_accounts
  accounts_without_cache hash =
      wrapped_as (codes "failed to get accounts without cache")
        (with_tx answers (λ tx. find answers tx (select_accounts hash)))

  -- The body of the loop; `continue` ends it with the error.
  unfoldable pub refresh_account : ℤ → Action Connection ⊤
  unfolding get_counts update_package_account_data delete_old_cache update_pkg_cache_validity
  refresh_account acc_id = do
    counts ← get_counts (some acc_id)
    update_package_account_data counts
    delete_old_cache counts (some acc_id)
    update_pkg_cache_validity (some acc_id)

  -- The loop, which starts with the value of `err` so far and returns the last one.
  unfoldable pub refresh_accounts : Result ⊤ → List ℤ → Action Connection ⊤
  unfolding refresh_account
  refresh_accounts last [] c = (last, c)
  refresh_accounts last (a ∷ accs) c =
      let (r, c') = refresh_account a c in
      elim r [
        | ok _ ↦ refresh_accounts (ok tt) accs c'
        | err e ↦ refresh_accounts (err e) accs c'
        | panic ↦ (panic, c')
      ]

  unfoldable pub refresh_packages_caches : (ℤ → ℕ) → Option ℤ → Action Connection ⊤
  unfolding accounts_without_cache refresh_accounts
  refresh_packages_caches hash none = do
    accs ← accounts_without_cache hash
    refresh_accounts (ok tt) accs
  refresh_packages_caches hash (some acc_id) = refresh_accounts (ok tt) (acc_id ∷ [])
