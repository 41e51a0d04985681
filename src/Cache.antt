-- ===== src/Cache.antt =====
-- cachecontent/refresh_packages_caches.go, its statements, with `UnnestInsert` of
-- cachecontent/batch.go: the counts of the listings are kept for each account in
-- `package_account_data`.
pub mod Columns
pub mod Rows
use inventory_access_poc.Prelude.{
  sort, nat_ord, pair_ord, ℕ, ◌+◌, ◌≡◌, Bool, true, false, not, ◌&&◌, ◌||◌, Option, none, some,
  List, [], ◌∷◌, ◌++◌, map, keep, contains, ◌==◌, if◌then◌else◌, ltb, nat_eq, flat_map,
}
use inventory_access_poc.Prelude.Int.{ℤ, pos, negsuc, int_eq, before_int, int_ord}
use inventory_access_poc.Prelude.Bytes.{Text, codes}
use inventory_access_poc.Errors.{
  Error, Result, ok, err, panic, ⊤, wrap, Action, pure, lift, proceed, ◌>>=◌, ◌>>◌,
}
use inventory_access_poc.Tables.{
  Tables, SystemPlatform, SystemPackage, RhAccount, PackageAccountData,
}
use inventory_access_poc.Database.{Answer, Connection}
use inventory_access_poc.Transaction.{Handle, find, execute, with_tx}
use inventory_access_poc.Packages.{Key, key_eq, Joined, joined, count_packages}

-- `sp.packages_installed > 0 AND sp.stale = FALSE`
abbrev pub is_counted : SystemPlatform → Bool
is_counted sp = before_int (pos 0) sp.packages_installed && not sp.stale

-- The query of `getCounts`, for one account, or for all whose cache is not valid.
unfoldable pub select_counts : Option ℤ → Tables → List PackageAccountData
unfolding before_int joined count_packages
select_counts (some acc_id) t = count_packages (
    keep (λ (r : Joined). r.0.0.0.rh_account_id == acc_id)
      (keep (λ r. is_counted r.0.0.0) (joined t)))
select_counts none t = count_packages (
    keep (λ (r : Joined). not r.0.1.valid_package_cache)
      (keep (λ r. is_counted r.0.0.0) (joined t)))

-- A Go slice of values of one column, and the columns of the rows.
abbrev pub ColumnValues : Type 0
ColumnValues = List ℤ

-- The fields of a row, in their order.
abbrev pub fields : PackageAccountData → List ℤ
fields d =
    d.acc_id
    ∷ d.pkg_name_id
    ∷ pos d.sys_installed
    ∷ pos d.sys_installable
    ∷ pos d.sys_applicable
    ∷ []

-- The inner loop of `UnnestInsert`: the i-th field goes to the end of the i-th column, which is made
-- when it is not there.
unfoldable pub append_fields : List ColumnValues → List ℤ → List ColumnValues
append_fields columns [] = columns
append_fields [] (v ∷ vs) = (v ∷ []) ∷ append_fields [] vs
append_fields (column ∷ columns) (v ∷ vs) = (column ++ (v ∷ [])) ∷ append_fields columns vs

unfoldable pub transpose : List ColumnValues → List (List ℤ) → List ColumnValues
unfolding append_fields
transpose columns [] = columns
transpose columns (row ∷ rows) = transpose (append_fields columns row) rows

-- PostgreSQL's `unnest` of five arrays of one length.
unfoldable pub unnest :
    ColumnValues → ColumnValues → ColumnValues → ColumnValues → ColumnValues → List (List ℤ)
unnest (a ∷ us) (b ∷ vs) (c ∷ ws) (d ∷ xs) (e ∷ ys) =
    (a ∷ b ∷ c ∷ d ∷ e ∷ []) ∷ unnest us vs ws xs ys
unnest _ _ _ _ _ = []

abbrev as_count : ℤ → ℕ
as_count (pos n) = n
as_count (negsuc n) = 0

-- A row of the result of `unnest` as a row of `package_account_data`.
abbrev pub of_fields : List ℤ → List PackageAccountData
of_fields (a ∷ b ∷ c ∷ d ∷ e ∷ []) =
    record {
      acc_id = a;
      pkg_name_id = b;
      sys_installed = as_count c;
      sys_installable = as_count d;
      sys_applicable = as_count e;
    }
    ∷ []
of_fields _ = []

abbrev pub read_rows : List (List ℤ) → List PackageAccountData
read_rows [] = []
read_rows (r ∷ rs) = of_fields r ++ read_rows rs

unfoldable pub rows_of_columns : List ColumnValues → List PackageAccountData
unfolding unnest
rows_of_columns (us ∷ vs ∷ ws ∷ xs ∷ ys ∷ []) = read_rows (unnest us vs ws xs ys)
rows_of_columns _ = []

abbrev pub cache_key : PackageAccountData → Key
cache_key d = (d.acc_id, d.pkg_name_id)

-- `ON CONFLICT (rh_account_id, package_name_id) DO UPDATE SET …`, where `d` is `EXCLUDED`.
abbrev pub replaced : PackageAccountData → PackageAccountData → PackageAccountData
replaced d r =
    if cache_key r == cache_key d
    then record r {
      sys_installed = d.sys_installed;
      sys_installable = d.sys_installable;
      sys_applicable = d.sys_applicable;
    }
    else r

unfoldable pub upsert : PackageAccountData → List PackageAccountData → List PackageAccountData
upsert d rows =
    if contains (map cache_key rows) (cache_key d) then map (replaced d) rows else rows ++ (d ∷ [])

unfoldable pub upsert_all :
    List PackageAccountData → List PackageAccountData → List PackageAccountData
unfolding upsert
upsert_all [] rows = rows
upsert_all (d ∷ ds) rows = upsert_all ds (upsert d rows)

-- The statement of `updatePackageAccountData`.
unfoldable pub insert_counts : List PackageAccountData → Tables → Tables
unfolding transpose rows_of_columns upsert_all
insert_counts ds t = record t {
  package_account_data =
      upsert_all (rows_of_columns (transpose [] (map fields ds))) t.package_account_data;
}

-- `seen` and `accs` of `deleteOldCache`.
unfoldable pub distinct_accounts : List ℤ → List PackageAccountData → List ℤ
distinct_accounts seen [] = []
distinct_accounts seen (d ∷ ds) =
    let rest = distinct_accounts (d.acc_id ∷ seen) ds in
    if contains seen d.acc_id then distinct_accounts seen ds else d.acc_id ∷ rest

-- Whether a row is of the accounts that are refreshed.
abbrev pub in_accounts : Option ℤ → List PackageAccountData → PackageAccountData → Bool
in_accounts (some acc_id) ds r = r.acc_id == acc_id
in_accounts none ds r = contains (distinct_accounts [] ds) r.acc_id

-- `update rh_account acc set valid_package_cache = true where valid_package_cache = false …`
abbrev pub is_account : Option ℤ → RhAccount → Bool
is_account (some acc_id) acc = acc.id == acc_id
is_account none acc = true

unfoldable pub set_valid : Option ℤ → Tables → Tables
set_valid acc_id t = record t {
  rh_account =
      map
        (λ (acc : RhAccount).
          if not acc.valid_package_cache && is_account acc_id acc
          then record acc { valid_package_cache = true }
          else acc)
        t.rh_account;
}

-- `ORDER BY hash_partition_id(id, 128), id`
unfoldable pub order_accounts : (ℤ → ℕ) → List ℤ → List ℤ
unfolding sort
order_accounts hash ids = map (λ (p : ℕ × ℤ). p.1) (sort (map (λ id. (hash id, id)) ids))

-- The query of `accountsWithoutCache`; `hash` is `hash_partition_id(id, 128)`.
unfoldable pub select_accounts : (ℤ → ℕ) → Tables → List ℤ
unfolding order_accounts
select_accounts hash t = order_accounts hash (
    map (λ (acc : RhAccount). acc.id)
      (keep (λ (acc : RhAccount). not acc.valid_package_cache) t.rh_account))

-- `not_in_empty` is the value of `… NOT IN ?` where gorm is given an empty slice.
module _ (not_in_empty : Bool) where
  abbrev pub not_in : List Key → Key → Bool
  not_in [] k = not_in_empty
  not_in (j ∷ js) k = not (contains (j ∷ js) k)

  -- The statement of `deleteOldCache`.
  unfoldable pub delete_old : List PackageAccountData → Option ℤ → Tables → Tables
  unfolding distinct_accounts
  delete_old ds acc_id t = record t {
    package_account_data =
        keep (λ r. not (not_in (map cache_key ds) (cache_key r) && in_accounts acc_id ds r))
          t.package_account_data;
  }
