-- ===== src/Packages.antt =====
-- server/server.go: the statements that count, for every package of an account, the systems that
-- have it installed, that have an installable update of it and that have an applicable one.
pub mod Equivalence
pub mod IdTable
pub mod Requests
pub mod Bounds
pub mod Counts
pub mod Isolation
pub mod Ungrouped
pub mod Agreement
use inventory_access_poc.Prelude.{
  ℕ, Bool, true, false, not, ◌&&◌, ◌||◌, Option, none, some, List, [], ◌∷◌, map, keep, count_where,
  length, join, contains, Eq, ◌==◌, Ord, pair_ord, bytes_eq, if◌then◌else◌, ℕ_discrete,
}
use inventory_access_poc.Prelude.Int.{ℤ, int_eq, int_ord, pos}
use inventory_access_poc.Prelude.Bytes.{Text, codes}
use inventory_access_poc.Errors.{
  Error, Result, ok, err, panic, ⊤, wrap, Action, pure, lift, proceed, ◌>>=◌, ◌>>◌,
}
use inventory_access_poc.Tables.{
  Tables, SystemPlatform, SystemPackage, RhAccount, InventoryHost, PackageUpdate,
  PackageAccountData, UuidBytes,
}
use inventory_access_poc.Database.{Answer, Connection}
use inventory_access_poc.Transaction.{Handle, find, execute, with_tx}
use inventory_access_poc.Grouping.{group_by}

-- The text that the function `update_status` of test_data.sql returns.
pub data UpdateStatus : Type 0 where
  no_update installable applicable : UpdateStatus

abbrev is_installable_update : PackageUpdate → Bool
is_installable_update u = u.status == codes "Installable"

any_installable : List PackageUpdate → Bool
any_installable [] = false
any_installable (u ∷ us) = is_installable_update u || any_installable us

unfoldable pub update_status : Option (List PackageUpdate) → UpdateStatus
unfolding any_installable
update_status none = no_update
update_status (some []) = no_update
update_status (some (u ∷ us)) = if any_installable (u ∷ us) then installable else applicable

-- A row of `system_platform sp JOIN system_package spkg … JOIN rh_account acc … JOIN
-- inventory.hosts ih …`
abbrev pub Joined : Type 0
Joined = ((SystemPlatform × SystemPackage) × RhAccount) × InventoryHost

-- The same without the account.
abbrev pub JoinedPackage : Type 0
JoinedPackage = (SystemPlatform × SystemPackage) × InventoryHost

abbrev pub on_package : SystemPlatform → SystemPackage → Bool
on_package sp spkg = sp.id == spkg.system_id && sp.rh_account_id == spkg.rh_account_id

abbrev pub systems_with_packages : Tables → List (SystemPlatform × SystemPackage)
systems_with_packages t = join on_package t.system_platform t.system_package

unfoldable pub joined : Tables → List Joined
joined t =
    join (λ row ih. row.0.0.inventory_id == ih.id)
      (join (λ row acc. row.0.rh_account_id == acc.id) (systems_with_packages t) t.rh_account)
      t.inventory_hosts

-- The columns that are grouped and ordered by: the account and the package name.
abbrev pub Key : Type 0
Key = ℤ × ℤ

key_dec : Discrete Key
key_dec = hlevel ℕ_discrete

instance unfoldable pub key_eq : Eq Key
unfolding key_dec ℕ_discrete
key_eq = record { dec = key_dec }

abbrev pub package_key : SystemPlatform × SystemPackage → Key
package_key (sp, spkg) = (sp.rh_account_id, spkg.name_id)

abbrev pub is_installable : SystemPackage → Bool
is_installable spkg = elim (update_status spkg.update_data) [ installable ↦ true | _ ↦ false ]

abbrev pub is_applicable : SystemPackage → Bool
is_applicable spkg = elim (update_status spkg.update_data) [ no_update ↦ false | _ ↦ true ]

-- `count(*)`, and `count(*) filter (where …)` for the installable and the applicable.
abbrev pub counts : {A : Type 0} → (A → SystemPackage) → Key → List A → PackageAccountData
counts pkg k rows = record {
  acc_id = k.0;
  pkg_name_id = k.1;
  sys_installed = length rows;
  sys_installable = count_where (λ r. is_installable (pkg r)) rows;
  sys_applicable = count_where (λ r. is_applicable (pkg r)) rows;
}

-- `SELECT … GROUP BY sp.rh_account_id, spkg.name_id ORDER BY sp.rh_account_id, spkg.name_id`
unfoldable pub count_packages : List Joined → List PackageAccountData
count_packages = group_by (λ (r : Joined). package_key r.0.0) (counts (λ (r : Joined). r.0.0.1))

-- The query of `packagesByHostIDs`.
unfoldable pub select_by_host_ids : ℤ → List UuidBytes → Tables → List PackageAccountData
unfolding joined count_packages
select_by_host_ids acc_id host_ids t =
    count_packages (
      keep (λ r. contains host_ids r.1.id) (keep (λ r. r.0.0.0.rh_account_id == acc_id) (joined t)))

-- `ih.groups = '[]'`
abbrev pub is_empty : Option (List Text) → Bool
is_empty none = false
is_empty (some []) = true
is_empty (some (g ∷ gs)) = false

-- The query of `packagesByAccount`.
unfoldable pub select_by_account : ℤ → Tables → List PackageAccountData
unfolding joined count_packages
select_by_account acc_id t =
    count_packages
      (keep (λ r. r.0.0.0.rh_account_id == acc_id) (keep (λ r. is_empty r.1.groups) (joined t)))

-- The query of `packagesByHostIDsCTE`, which neither joins `rh_account` nor looks at the account. Its
-- second column is `name_id`, which no field of the result has: the name id stays 0.
unfoldable pub select_by_host_ids_cte : List UuidBytes → Tables → List PackageAccountData
select_by_host_ids_cte host_ids t =
    group_by (λ (r : JoinedPackage). package_key r.0)
      (λ k rows. record (counts (λ (r : JoinedPackage). r.0.1) k rows) { pkg_name_id = pos 0 })
      (keep (λ r. contains host_ids r.1.id)
        (join (λ row ih. row.0.inventory_id == ih.id) (systems_with_packages t) t.inventory_hosts))

-- The queries of `packagesByHostIDsTempTable` and `packagesByHostCTEinsteadOfTempTable`, which join
-- a table of ids and do not look at the account.
unfoldable pub select_by_joined_ids : List UuidBytes → Tables → List PackageAccountData
unfolding joined
select_by_joined_ids ids t =
    group_by (λ (r : Joined × UuidBytes). package_key r.0.0.0)
      (counts (λ (r : Joined × UuidBytes). r.0.0.0.1)) (join (λ r id. r.1.id == id) (joined t) ids)

-- The query of `packagesByHostIDsNoCounts`: the columns that it does not select stay 0.
unfoldable pub select_no_counts : List UuidBytes → Tables → List PackageAccountData
unfolding joined
select_no_counts host_ids t =
    group_by (λ (r : Joined). package_key r.0.0)
      (λ k rows. record {
        acc_id = k.0;
        pkg_name_id = k.1;
        sys_installed = 0;
        sys_installable = 0;
        sys_applicable = 0;
      })
      (keep (λ r. contains host_ids r.1.id) (joined t))

abbrev wrapped_counts : {A : Type 0} → Action Connection A → Action Connection A
wrapped_counts m c = let (r, c') = m c in (wrap (codes "failed to get counts") r, c')

-- `uuid_in` is PostgreSQL's reading of a text as a `uuid`, which refuses a malformed one.
module _ (answers : ℕ → Answer) (uuid_in : Text → Result UuidBytes) where
  unfoldable pub read_ids : List Text → Action Connection (List UuidBytes)
  read_ids [] = pure []
  read_ids (s ∷ ss) = do id ← lift (uuid_in s); ids ← read_ids ss; pure (id ∷ ids)

  unfoldable pub packages_by_host_ids : ℤ → List Text → Action Connection (List PackageAccountData)
  unfolding read_ids with_tx find select_by_host_ids
  packages_by_host_ids acc_id host_ids = wrapped_counts (
      with_tx answers
        (λ tx. do ids ← read_ids host_ids; find answers tx (select_by_host_ids acc_id ids)))

  unfoldable pub packages_by_account : ℤ → Action Connection (List PackageAccountData)
  unfolding with_tx find select_by_account
  packages_by_account acc_id =
      wrapped_counts (with_tx answers (λ tx. find answers tx (select_by_account acc_id)))

  unfoldable pub packages_by_host_ids_cte :
      ℤ → List Text → Action Connection (List PackageAccountData)
  unfolding read_ids with_tx find select_by_host_ids_cte
  packages_by_host_ids_cte acc_id host_ids = wrapped_counts (
      with_tx answers
        (λ tx. do ids ← read_ids host_ids; find answers tx (select_by_host_ids_cte ids)))

  -- `INSERT INTO TempHostIDs (id) VALUES (?)`, for each id; the rows of the new table.
  insert_ids : Handle → List Text → Action Connection (List UuidBytes)
  unfolding execute
  insert_ids tx [] = pure []
  insert_ids tx (s ∷ ss) = do
    id ← lift (uuid_in s)
    execute answers tx (λ t. t)
    ids ← insert_ids tx ss
    pure (id ∷ ids)

  -- The temporary table is created, filled, joined and dropped. The other tables stay as they are.
  unfoldable pub packages_by_host_ids_temp_table :
      ℤ → List Text → Action Connection (List PackageAccountData)
  unfolding insert_ids with_tx find execute select_by_joined_ids
  packages_by_host_ids_temp_table acc_id host_ids = wrapped_counts (
      with_tx answers (λ tx. do
        execute answers tx (λ t. t)
        ids ← insert_ids tx host_ids
        rows ← find answers tx (select_by_joined_ids ids)
        execute answers tx (λ t. t)
        pure rows))

  unfoldable pub packages_by_host_cte_instead_of_temp_table :
      ℤ → List Text → Action Connection (List PackageAccountData)
  unfolding read_ids with_tx find select_by_joined_ids
  packages_by_host_cte_instead_of_temp_table acc_id host_ids = wrapped_counts (
      with_tx answers
        (λ tx. do ids ← read_ids host_ids; find answers tx (select_by_joined_ids ids)))

  unfoldable pub packages_by_host_ids_no_counts :
      ℤ → List Text → Action Connection (List PackageAccountData)
  unfolding read_ids with_tx find select_no_counts
  packages_by_host_ids_no_counts acc_id host_ids =
      wrapped_counts
        (with_tx answers (λ tx. do ids ← read_ids host_ids; find answers tx (select_no_counts ids)))
