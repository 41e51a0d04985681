-- ===== src/Tables.antt =====
-- The rows of the content database that the statements of the program read and write, after the
-- structs of cachecontent/models.go and the tables of test_data.sql. Columns that no modelled
-- statement mentions are left out. A number is an integer, a `uuid` its sixteen bytes.
use inventory_access_poc.Prelude.{ℕ, Bool, Option, List}
use inventory_access_poc.Prelude.Int.{ℤ}
use inventory_access_poc.Prelude.Bytes.{Text}

abbrev pub UuidBytes : Type 0
UuidBytes = List ℕ

pub record RhAccount : Type 0 where
  pub id : ℤ
  pub name : Option Text
  pub org_id : Option Text
  pub valid_package_cache : Bool
  pub valid_advisory_cache : Bool

pub record SystemPlatform : Type 0 where
  pub id : ℤ
  pub inventory_id : UuidBytes
  pub rh_account_id : ℤ
  pub stale : Bool
  pub packages_installed : ℤ
  pub baseline_id : Option ℤ

-- An element of the json array in `update_data`.
pub record PackageUpdate : Type 0 where
  pub evra : Text
  pub advisory : Text
  pub status : Text

-- `update_data` is null or a json array.
pub record SystemPackage : Type 0 where
  pub rh_account_id : ℤ
  pub system_id : ℤ
  pub package_id : ℤ
  pub update_data : Option (List PackageUpdate)
  pub name_id : ℤ

pub record PackageAccountData : Type 0 where
  pub acc_id : ℤ
  pub pkg_name_id : ℤ
  pub sys_installed : ℕ
  pub sys_installable : ℕ
  pub sys_applicable : ℕ

pub record SystemAdvisories : Type 0 where
  pub rh_account_id : ℤ
  pub system_id : ℤ
  pub advisory_id : ℤ
  pub status_id : ℤ

pub record SystemRepo : Type 0 where
  pub rh_account_id : ℤ
  pub system_id : ℤ
  pub repo_id : ℤ

pub record Baseline : Type 0 where
  pub id : ℤ
  pub rh_account_id : ℤ
  pub name : Text

-- A row of the view `inventory.hosts`; `groups` is null or a json array.
pub record InventoryHost : Type 0 where
  pub id : UuidBytes
  pub groups : Option (List Text)

-- The contents of the database.
pub record Tables : Type 0 where
  pub rh_account : List RhAccount
  pub system_platform : List SystemPlatform
  pub system_package : List SystemPackage
  pub package_account_data : List PackageAccountData
  pub system_advisories : List SystemAdvisories
  pub system_repo : List SystemRepo
  pub baseline : List Baseline
  pub inventory_hosts : List InventoryHost
