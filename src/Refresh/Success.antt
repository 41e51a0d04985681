-- ===== src/Refresh/Success.antt =====
-- A refresh succeeds where the database does what it is asked.
use inventory_access_poc.Prelude.{
  ℕ, ◌≡◌, refl, sym, subst, fun_ext, Bool, Option, none, some, List, [], ◌∷◌,
}
use inventory_access_poc.Prelude.Int.{ℤ}
use inventory_access_poc.Errors.{ok, ◌>>◌}
use inventory_access_poc.Tables.{PackageAccountData}
use inventory_access_poc.Database.{Answer, done, all_done, Connection}
use inventory_access_poc.Cache.{select_counts, select_accounts}
use inventory_access_poc.Refresh.{
  get_counts, unnest_insert, update_package_account_data, delete_old_cache,
  update_pkg_cache_validity, refresh_account, refresh_accounts, accounts_without_cache,
  refresh_packages_caches,
}

module _ (not_in_empty : Bool) where
  written_done :
      (ds : List PackageAccountData) (acc_id : Option ℤ) (c : Connection)
      → ((update_package_account_data not_in_empty all_done ds
            >> (delete_old_cache not_in_empty all_done ds acc_id
                >> update_pkg_cache_validity not_in_empty all_done acc_id))
          c).0
        ≡ ok tt
  unfolding update_package_account_data unnest_insert delete_old_cache update_pkg_cache_validity
  written_done [] acc_id c = refl
  written_done (d ∷ ds) acc_id c = refl

  pub refresh_account_done :
      (acc_id : ℤ) (c : Connection) → (refresh_account not_in_empty all_done acc_id c).0 ≡ ok tt
  unfolding refresh_account get_counts
  refresh_account_done acc_id c =
      written_done (select_counts (some acc_id) c.committed) (some acc_id)
        (get_counts not_in_empty all_done (some acc_id) c).1

  refresh_accounts_done :
      (accs : List ℤ) (c : Connection)
      → (refresh_accounts not_in_empty all_done (ok tt) accs c).0 ≡ ok tt
  unfolding refresh_accounts
  refresh_accounts_done [] c = refl
  refresh_accounts_done (a ∷ accs) c =
      rw (refresh_account_done a c, refresh_accounts)
        (refresh_accounts_done accs (refresh_account not_in_empty all_done a c).1)

  refresh_packages_caches_done :
      (hash : ℤ → ℕ) (acc_id : Option ℤ) (c : Connection)
      → (refresh_packages_caches not_in_empty all_done hash acc_id c).0 ≡ ok tt
  unfolding refresh_packages_caches accounts_without_cache
  refresh_packages_caches_done hash none c =
      refresh_accounts_done (select_accounts hash c.committed)
        (accounts_without_cache not_in_empty all_done hash c).1
  refresh_packages_caches_done hash (some acc_id) c = refresh_accounts_done (acc_id ∷ []) c

  -- If the database does every request, a refresh of one account or of all whose cache is not valid
  -- ends with no error.
  pub refresh_packages_caches_succeeds :
      (answers : ℕ → Answer) (hash : ℤ → ℕ) (acc_id : Option ℤ) (c : Connection)
      → ((n : ℕ) → answers n ≡ done)
      → (refresh_packages_caches not_in_empty answers hash acc_id c).0 ≡ ok tt
  refresh_packages_caches_succeeds answers hash acc_id c fine =
      subst (λ a. (refresh_packages_caches not_in_empty a hash acc_id c).0 ≡ ok tt)
        (sym (fun_ext fine)) (refresh_packages_caches_done hash acc_id c)
