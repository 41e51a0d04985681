-- ===== src/Refresh/Counts.antt =====
-- After a refresh of all accounts, what the table holds for each of them.
use inventory_access_poc.Prelude.{
  ℕ, ◌≡◌, sym, ap, ◌∙◌, subst, fun_ext, ◌⊎◌, inl, inr, Bool, true, not, ◌&&◌, some, none, List, [],
  ◌∷◌, map, keep, join, contains, ◌==◌, if◌then◌else◌, bytes_eq, arith,
}
use inventory_access_poc.Prelude.Int.{ℤ, int_eq}
use inventory_access_poc.Prelude.Joins.{map-join, map-join_right, keep-map}
use inventory_access_poc.Errors.{ok}
use inventory_access_poc.Tables.{Tables, SystemPlatform, SystemPackage, RhAccount, InventoryHost}
use inventory_access_poc.Database.{Answer, done, all_done, Connection}
use inventory_access_poc.Packages.{Joined, joined, systems_with_packages, count_packages}
use inventory_access_poc.Packages.Equivalence.{count-map}
use inventory_access_poc.Cache.{
  is_account, is_counted, select_counts, insert_counts, delete_old, set_valid, select_accounts,
}
use inventory_access_poc.Cache.Rows.{cached, HasPrimaryKey}
use inventory_access_poc.Refresh.{
  refresh_account, refresh_accounts, accounts_without_cache, refresh_packages_caches,
}
use inventory_access_poc.Refresh.Outcomes.{refreshed}
use inventory_access_poc.Refresh.Cached.{Excludes}
use inventory_access_poc.Refresh.Accounts.{after_ok, cached-refresh_account, refresh_account-others}
use inventory_access_poc.Refresh.Invariants.{primary_key-IsKept}
use inventory_access_poc.Refresh.Success.{refresh_account_done}
use inventory_access_poc.Refresh.Validity.{contains-order_accounts}

-- What `updatePkgCacheValidity` does to a row.
abbrev validated : ℤ → RhAccount → RhAccount
validated a acc =
    if not acc.valid_package_cache && is_account (some a) acc
    then record acc { valid_package_cache = true }
    else acc

id_of_validated : (a : ℤ) (acc : RhAccount) → (validated a acc).id ≡ acc.id
id_of_validated a acc = ground arith

abbrev validated_row : ℤ → Joined → Joined
validated_row a r = ((r.0.0, validated a r.0.1), r.1)

joined-set_valid :
    (a : ℤ) (t : Tables) → joined (set_valid (some a) t) ≡ map (validated_row a) (joined t)
unfolding joined set_valid
joined-set_valid a t =
    let pairs = systems_with_packages t in
    let on_account =
      λ (row : SystemPlatform × SystemPackage) (acc : RhAccount). row.0.rh_account_id == acc.id in
    let on_host = λ (row : (SystemPlatform × SystemPackage) × RhAccount) (ih : InventoryHost).
      row.0.0.inventory_id == ih.id in
    let same : (λ row acc. on_account row (validated a acc)) ≡ on_account =
      fun_ext λ row. fun_ext λ acc. ap (λ i. row.0.rh_account_id == i) (id_of_validated a acc) in
    let rows : map (λ row. (row.0, validated a row.1)) (join on_account pairs t.rh_account)
        ≡ join on_account pairs (map (validated a) t.rh_account) =
      subst
        (λ on.
          map (λ row. (row.0, validated a row.1)) (join on pairs t.rh_account)
          ≡ join on_account pairs (map (validated a) t.rh_account))
        same (map-join_right (validated a) on_account pairs t.rh_account) in
    ap (λ l. join on_host l t.inventory_hosts) (sym rows)
    ∙ sym (
        map-join (λ row. (row.0, validated a row.1)) on_host (join on_account pairs t.rh_account)
          t.inventory_hosts)

-- The counts of an account do not depend on which caches are valid.
select_counts-set_valid :
    (x a : ℤ) (t : Tables)
    → select_counts (some x) (set_valid (some a) t) ≡ select_counts (some x) t
unfolding select_counts count_packages
select_counts-set_valid x a t =
    let of = λ (r : Joined). r.0.0.0.rh_account_id == x in
    let counted = λ (r : Joined). is_counted r.0.0.0 in
    ap (λ l. count_packages (keep of (keep counted l))) (joined-set_valid a t)
    ∙ ap (λ l. count_packages (keep of l)) (keep-map (validated_row a) counted (joined t))
    ∙ ap count_packages (keep-map (validated_row a) of (keep counted (joined t)))
    ∙ count-map (validated_row a) (λ (r : Joined). r.0.0) (keep of (keep counted (joined t)))

module _ (not_in_empty : Bool) where
  select_counts-refreshed :
      (x a : ℤ) (t : Tables)
      → select_counts (some x) (refreshed not_in_empty all_done a t) ≡ select_counts (some x) t
  unfolding insert_counts delete_old select_counts joined set_valid
  select_counts-refreshed x a t = select_counts-set_valid x a t

  module _ (x name_id : ℤ) where
    -- The cached rows are the counts of the tables.
    abbrev IsCounted : Tables → Type 0
    IsCounted t =
        cached (x, name_id) t.package_account_data ≡ cached (x, name_id) (select_counts (some x) t)

    -- The account is still to come, or its rows are the counts.
    abbrev IsPending : List ℤ → Tables → Type 0
    IsPending accs t = (contains accs x ≡ true) ⊎ IsCounted t

    refreshed-IsPending :
        (a : ℤ) (accs : List ℤ) (c : Connection)
        → HasPrimaryKey c.committed.package_account_data
        → Excludes not_in_empty all_done (select_counts (some x) c.committed)
        → IsPending (a ∷ accs) c.committed
        → IsPending accs (refresh_account not_in_empty all_done a c).1.committed
    refreshed-IsPending a accs c u ex pending =
        let fine = refresh_account_done not_in_empty a c in
        let same =
          ap (select_counts (some x)) (after_ok not_in_empty all_done a c fine)
          ∙ select_counts-refreshed x a c.committed in
        elim (int_eq.dec x a) [
          | yes p ↦ inr (
              subst
                (λ b.
                  cached (x, name_id)
                    (refresh_account not_in_empty all_done b c).1.committed.package_account_data
                  ≡ cached (x, name_id) (select_counts (some x) c.committed))
                p
                (cached-refresh_account not_in_empty all_done x name_id c u ex
                  (refresh_account_done not_in_empty x c))
              ∙ ap (cached (x, name_id)) (sym same))
          | no n ↦ elim pending [
            | inl h ↦ inl (ground (arith, h))
            | inr h ↦ inr (
                refresh_account-others not_in_empty all_done a c (x, name_id) u n
                ∙ h
                ∙ ap (cached (x, name_id)) (sym same))
          ]
        ]

    refresh_accounts-IsCounted :
        (accs : List ℤ) (c : Connection)
        → HasPrimaryKey c.committed.package_account_data
        → Excludes not_in_empty all_done (select_counts (some x) c.committed)
        → IsPending accs c.committed
        → cached
            (x, name_id)
            (refresh_accounts not_in_empty all_done (ok tt) accs c).1.committed.package_account_data
          ≡ cached (x, name_id) (select_counts (some x) c.committed)
    unfolding refresh_accounts
    refresh_accounts-IsCounted [] c u ex (inl h) = cc
    refresh_accounts-IsCounted [] c u ex (inr h) = h
    refresh_accounts-IsCounted (a ∷ accs) c u ex pending =
        let c' = (refresh_account not_in_empty all_done a c).1 in
        let fine = refresh_account_done not_in_empty a c in
        let after = after_ok not_in_empty all_done a c fine in
        let same = ap (select_counts (some x)) after ∙ select_counts-refreshed x a c.committed in
        let u' =
          subst (λ (t : Tables). HasPrimaryKey t.package_account_data) (sym after)
            (primary_key-IsKept not_in_empty all_done a c.committed u).2 in
        let rest =
          refresh_accounts-IsCounted accs c' u'
            (subst (Excludes not_in_empty all_done) (sym same) ex)
            (refreshed-IsPending a accs c u ex pending) in
        rw (fine, refresh_accounts) (rest ∙ ap (cached (x, name_id)) same)

    refresh_packages_caches-IsCounted :
        (hash : ℤ → ℕ) (c : Connection)
        → HasPrimaryKey c.committed.package_account_data
        → Excludes not_in_empty all_done (select_counts (some x) c.committed)
        → contains
            (map
              (λ (acc : RhAccount). acc.id)
              (keep (λ (acc : RhAccount). not acc.valid_package_cache) c.committed.rh_account))
            x
          ≡ true
        → cached
            (x, name_id)
            (refresh_packages_caches not_in_empty all_done hash none
              c).1.committed.package_account_data
          ≡ cached (x, name_id) (select_counts (some x) c.committed)
    unfolding refresh_packages_caches accounts_without_cache select_accounts
    refresh_packages_caches-IsCounted hash c u ex h =
        refresh_accounts-IsCounted (select_accounts hash c.committed)
          (accounts_without_cache not_in_empty all_done hash c).1 u ex
          (inl (contains-order_accounts hash x _ ∙ h))

  -- If the database does every request, the cached rows have a primary key, and an account has no valid
  -- cache, and has counts or gorm's empty `NOT IN` excludes nothing, then after a refresh of all such
  -- accounts the cached rows of every package of this account are the counts of the tables that were
  -- there.
  pub refresh_packages_caches-cached :
      (answers : ℕ → Answer) (hash : ℤ → ℕ) (c : Connection) (acc_id name_id : ℤ)
      → ((n : ℕ) → answers n ≡ done)
      → HasPrimaryKey c.committed.package_account_data
      → Excludes not_in_empty answers (select_counts (some acc_id) c.committed)
      → contains
          (map
            (λ (acc : RhAccount). acc.id)
            (keep (λ (acc : RhAccount). not acc.valid_package_cache) c.committed.rh_account))
          acc_id
        ≡ true
      → cached
          (acc_id, name_id)
          (refresh_packages_caches not_in_empty answers hash none
            c).1.committed.package_account_data
        ≡ cached (acc_id, name_id) (select_counts (some acc_id) c.committed)
  refresh_packages_caches-cached answers hash c acc_id name_id fine u ex h =
      subst
        (λ a.
          cached (acc_id, name_id)
            (refresh_packages_caches not_in_empty a hash none c).1.committed.package_account_data
          ≡ cached (acc_id, name_id) (select_counts (some acc_id) c.committed))
        (sym (fun_ext fine)) (refresh_packages_caches-IsCounted acc_id name_id hash c u ex h)
