-- ===== src/Tests/Listings.antt =====
-- What the listings and the handlers do on the small database.
use inventory_access_poc.Prelude.{
  true, false, count_where, ◌≡◌, refl, List, [], ◌∷◌, map, keep, length, contains, All, ◌==◌,
  bytes_eq, pair_ord, ◌⊎◌, take,
}
use inventory_access_poc.Prelude.Int.{pos, int_eq, int_ord}
use inventory_access_poc.Prelude.Bytes.{Text, codes}
use inventory_access_poc.Errors.{ok}
use inventory_access_poc.Tables.{Tables, InventoryHost, PackageAccountData}
use inventory_access_poc.Grouping.Keys.{IsAscending}
use inventory_access_poc.Packages.{
  Key, update_status, no_update, installable, applicable, select_by_host_ids,
  select_by_host_ids_cte, key_eq, select_by_joined_ids,
}
use inventory_access_poc.Packages.Bounds.{result_key, IsCount, select_by_host_ids_rows}
use inventory_access_poc.Packages.Counts.{total_of, rows_of, select_by_host_ids_counts}
use inventory_access_poc.Packages.Isolation.{select_by_host_ids_isolated}
use inventory_access_poc.Packages.Equivalence.{select_by_host_ids_cte_equiv}
use inventory_access_poc.Identity.{Context, get_identity_from_context, identity_of}
use inventory_access_poc.Identity.Parsing.{Describes, identity_of-Describes}
use inventory_access_poc.Server.{resource, LookupResources, get_content_packages_with_database}
use inventory_access_poc.Packages.IdTable.{IsDistinct, select_by_joined_ids_equiv}
use inventory_access_poc.Server.WithDatabase.{
  Lists, IsUnheard, get_content_packages_with_database-Lists,
}
use inventory_access_poc.Database.{all_done}
use inventory_access_poc.Tests.{read_text, host_a, host_c, tables, connection}

abbrev pub hosts : List Text
hosts = host_a ∷ host_c ∷ []

select_by_host_ids_rows_example :
    IsAscending (map result_key (select_by_host_ids (pos 1) hosts tables))
    × All (IsCount (pos 1)) (select_by_host_ids (pos 1) hosts tables)
select_by_host_ids_rows_example = select_by_host_ids_rows (pos 1) hosts tables

-- The same without the system of account 2 and without the host that is not listed.
abbrev fewer_tables : Tables
fewer_tables = record tables {
  system_platform = keep (λ sp. sp.rh_account_id == pos 1) tables.system_platform;
  inventory_hosts = keep (λ ih. contains hosts ih.id) tables.inventory_hosts;
}

select_by_host_ids_counts_example :
    let k : Key = (pos 1, pos 7) in
    let listing = select_by_host_ids (pos 1) hosts tables in
    let rows = rows_of k hosts tables in
    (total_of k (λ d. d.sys_installed) listing ≡ length rows)
    × (total_of k (λ d. d.sys_installable) listing
        ≡ count_where
            (λ r. elim (update_status r.0.0.1.update_data) [
              | no_update ↦ false
              | installable ↦ true
              | applicable ↦ false
            ])
            rows)
    × (total_of k (λ d. d.sys_applicable) listing
        ≡ count_where
            (λ r. elim (update_status r.0.0.1.update_data) [
              | no_update ↦ false
              | installable ↦ true
              | applicable ↦ true
            ])
            rows)
select_by_host_ids_counts_example = select_by_host_ids_counts (pos 1) (pos 7) hosts tables

select_by_host_ids_isolated_example :
    select_by_host_ids (pos 1) hosts tables ≡ select_by_host_ids (pos 1) hosts fewer_tables
unfolding int_eq bytes_eq
select_by_host_ids_isolated_example =
    select_by_host_ids_isolated (pos 1) hosts tables fewer_tables refl refl refl refl

select_by_host_ids_cte_equiv_example :
    keep (λ d. d.acc_id == pos 1) (select_by_host_ids_cte hosts tables)
    ≡ map
        (λ (d : PackageAccountData). record d { pkg_name_id = pos 0 })
        (select_by_host_ids (pos 1) hosts tables)
unfolding int_eq
select_by_host_ids_cte_equiv_example =
    select_by_host_ids_cte_equiv (pos 1) hosts tables (refl, (refl, (refl, tt)))

identity_of-Describes_example : Describes (codes "ann;1") (identity_of (codes "ann;1"))
identity_of-Describes_example = identity_of-Describes (codes "ann;1")

abbrev context : Context
context = (codes "user", codes "ann;1") ∷ []

abbrev pub lookup_hosts : LookupResources
lookup_hosts user = ok (resource host_a ∷ resource host_c ∷ [])

abbrev first_two : Text → List InventoryHost → List InventoryHost
first_two limit hs = take 2 hs

get_content_packages_with_database-Lists_example :
    let names = map (λ (h : InventoryHost). h.id) (take 2 tables.inventory_hosts) in
    let (r, c') =
      get_content_packages_with_database all_done read_text first_two (λ b. b) context connection in
    let acc_id = (get_identity_from_context context).rh_account in
    (c'.committed ≡ tables)
    × (Lists all_done read_text acc_id names tables r
        ⊎ (IsUnheard all_done read_text connection × Lists all_done read_text acc_id [] tables r))
get_content_packages_with_database-Lists_example =
    get_content_packages_with_database-Lists all_done read_text first_two (λ b. b) context
      connection

hosts-IsDistinct : IsDistinct hosts
unfolding bytes_eq
hosts-IsDistinct = (refl, (refl, tt))

select_by_joined_ids_equiv_example :
    keep (λ d. d.acc_id == pos 1) (select_by_joined_ids hosts tables)
    ≡ select_by_host_ids (pos 1) hosts tables
select_by_joined_ids_equiv_example =
    select_by_joined_ids_equiv (pos 1) hosts tables hosts-IsDistinct
