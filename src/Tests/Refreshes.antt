-- ===== src/Tests/Refreshes.antt =====
-- What a refresh of the caches does on the small database.
use inventory_access_poc.Prelude.{
  map, ℕ, ◌%◌, ◌≡◌, ◌≢◌, refl, ◌⊎◌, inr, false, some, List, [], ◌∷◌, ap, length, arith, bytes_eq,
  pair_ord, none, keep, not,
}
use inventory_access_poc.Prelude.Int.{ℤ, pos, negsuc, int_eq, int_ord}
use inventory_access_poc.Errors.{ok, panic}
use inventory_access_poc.Database.{Connection, all_done}
use inventory_access_poc.Packages.{key_eq}
use inventory_access_poc.Cache.{select_counts}
use inventory_access_poc.Cache.Rows.{cached, HasPrimaryKey, distinct-HasPrimaryKey}
use inventory_access_poc.Grouping.{group_by}
use inventory_access_poc.Refresh.{
  refresh_account, refresh_accounts, refresh_packages_caches, accounts_without_cache,
}
use inventory_access_poc.Refresh.Outcomes.{HasRefreshed, refresh_account-HasRefreshed}
use inventory_access_poc.Refresh.Accounts.{
  cached-refresh_account, refresh_account-others, refresh_accounts-last,
}
use inventory_access_poc.Refresh.Order.{IsSorted, accounts_without_cache-IsSorted}
use inventory_access_poc.Refresh.Counts.{refresh_packages_caches-cached}
use inventory_access_poc.Refresh.Validity.{refresh_packages_caches_valid}
use inventory_access_poc.Tables.{RhAccount}
use inventory_access_poc.Tests.{tables, connection}

refresh_account-HasRefreshed_example :
    let (r, c') = refresh_account false all_done (pos 2) connection in
    HasRefreshed false all_done (pos 2) tables r c'
refresh_account-HasRefreshed_example =
    refresh_account-HasRefreshed false all_done (pos 2) connection

pub tables-HasPrimaryKey : HasPrimaryKey tables.package_account_data
unfolding key_eq
tables-HasPrimaryKey = distinct-HasPrimaryKey tables.package_account_data (refl, (refl, tt))

refresh_account_ok : (refresh_account false all_done (pos 2) connection).0 ≡ ok tt
unfolding refresh_account group_by int_eq bytes_eq
refresh_account_ok = refl

some_counts : select_counts (some (pos 2)) tables ≢ []
unfolding select_counts int_eq bytes_eq group_by
some_counts e = let n : 1 ≡ 0 = ap length e in omega (arith, n)

cached-refresh_account_example :
    cached
      (pos 2, pos 9)
      (refresh_account false all_done (pos 2) connection).1.committed.package_account_data
    ≡ cached (pos 2, pos 9) (select_counts (some (pos 2)) tables)
cached-refresh_account_example =
    cached-refresh_account false all_done (pos 2) (pos 9) connection tables-HasPrimaryKey
      (inr some_counts) refresh_account_ok

refresh_account-others_example :
    cached
      (pos 3, pos 9)
      (refresh_account false all_done (pos 2) connection).1.committed.package_account_data
    ≡ cached (pos 3, pos 9) tables.package_account_data
refresh_account-others_example =
    refresh_account-others false all_done (pos 2) connection (pos 3, pos 9) tables-HasPrimaryKey
      (λ e. cc)

refresh_accounts-last_example :
    ((refresh_accounts false all_done (ok tt) (pos 2 ∷ pos 3 ∷ []) connection).0 ≡ panic)
    ⊎ ((c' : Connection) × (refresh_accounts false all_done (ok tt) (pos 2 ∷ pos 3 ∷ []) connection
          ≡ refresh_account false all_done (pos 3) c'))
refresh_accounts-last_example =
    refresh_accounts-last false all_done (ok tt) (pos 2 ∷ []) (pos 3) connection

refresh_packages_caches_valid_example :
    let (r, c') = refresh_packages_caches false all_done (λ a. 5) none connection in
    (r ≡ ok tt)
    × (keep (λ (acc : RhAccount). not acc.valid_package_cache) c'.committed.rh_account ≡ [])
refresh_packages_caches_valid_example =
    refresh_packages_caches_valid false all_done (λ a. 5) connection (λ n. refl)

refresh_packages_caches-cached_example :
    cached
      (pos 2, pos 9)
      (refresh_packages_caches false all_done
        (λ a. 5)
        none
        connection).1.committed.package_account_data
    ≡ cached (pos 2, pos 9) (select_counts (some (pos 2)) tables)
unfolding int_eq
refresh_packages_caches-cached_example =
    refresh_packages_caches-cached false all_done (λ a. 5) connection (pos 2) (pos 9) (λ n. refl)
      tables-HasPrimaryKey (inr some_counts) refl

-- The hash puts account 2 first.
abbrev parity : ℤ → ℕ
parity (pos n) = n % 2
parity (negsuc n) = 0

accounts_without_cache-IsSorted_example :
    let (r, c') = accounts_without_cache false all_done parity connection in
    (c'.committed ≡ tables)
    × ((accs : List ℤ)
        → r ≡ ok accs
        → IsSorted parity
            (map
              (λ (acc : RhAccount). acc.id)
              (keep (λ (acc : RhAccount). not acc.valid_package_cache) tables.rh_account))
            accs)
accounts_without_cache-IsSorted_example =
    accounts_without_cache-IsSorted false all_done parity connection
