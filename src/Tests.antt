-- ===== src/Tests.antt =====
-- A small database and a SpiceDB that keeps its relationships as a function, on which the
-- definitions run and the theorems apply.
mod Migrations
mod Listings
mod Refreshes
mod Responses
mod Inserts
mod Starts
mod Programs
use inventory_access_poc.Prelude.{
  ℕ, ◌≡◌, refl, Bool, true, false, Option, none, some, List, [], ◌∷◌, map,
}
use inventory_access_poc.Prelude.Int.{ℤ, pos}
use inventory_access_poc.Prelude.Bytes.{Text, codes}
use inventory_access_poc.Errors.{Error, Result, ok}
use inventory_access_poc.Tables.{
  Tables, RhAccount, SystemPlatform, SystemPackage, PackageUpdate, PackageAccountData,
  InventoryHost, SystemRepo, SystemAdvisories, Baseline, UuidBytes,
}
use inventory_access_poc.Spice.{SpiceDb, IsAtomic, Relationship, after_updates}
use inventory_access_poc.Driver.{Value, Rows, Driver, UuidLibrary}
use inventory_access_poc.Database.{Answer, done, refused, lost, Connection}

-- SpiceDB as the function that says what is stored; every write is accepted.
abbrev pub memory : SpiceDb
memory = record {
  State = Relationship → Bool;
  holds = λ s r. s r;
  write = λ us s. (none, λ r. after_updates us r (s r));
}

pub memory-IsAtomic : IsAtomic memory
memory-IsAtomic = record { written = λ us s r e. refl; refused = λ us s p. cc }

abbrev pub nothing_stored : Relationship → Bool
nothing_stored r = false

abbrev pub all_arrive : Driver
all_arrive rows = ok (record { stream = map ok rows; failure = none })

-- Ids as their bytes.
abbrev pub plain_ids : UuidLibrary
plain_ids = record { Uuid = UuidBytes; from_bytes = λ b. ok b; to_string = λ b. b }

abbrev pub read_text : Text → Result UuidBytes
read_text s = ok s

abbrev account : ℕ → Bool → RhAccount
account n valid = record {
  id = pos n;
  name = none;
  org_id = none;
  valid_package_cache = valid;
  valid_advisory_cache = false;
}

abbrev system : ℕ → Text → ℕ → RhAccount → SystemPlatform
system n host packages acc = record {
  id = pos n;
  inventory_id = host;
  rh_account_id = acc.id;
  stale = false;
  packages_installed = pos packages;
  baseline_id = none;
}

abbrev installed : ℕ → ℕ → ℕ → Option (List PackageUpdate) → SystemPackage
installed acc sys name updates = record {
  rh_account_id = pos acc;
  system_id = pos sys;
  package_id = pos name;
  update_data = updates;
  name_id = pos name;
}

abbrev update : Text → PackageUpdate
update status = record { evra = codes "1.0-1"; advisory = codes "RH-1"; status = status }

abbrev cached_row : ℕ → ℕ → PackageAccountData
cached_row acc name = record {
  acc_id = pos acc;
  pkg_name_id = pos name;
  sys_installed = 4;
  sys_installable = 3;
  sys_applicable = 3;
}

abbrev pub host_a : Text
host_a = codes "a"

abbrev pub host_b : Text
host_b = codes "b"

abbrev pub host_c : Text
host_c = codes "c"

-- Account 1 has systems 10 and 11, account 2 has system 20, account 3 has none; the caches of accounts 2
-- and 3 are not valid, and hold a row each.
abbrev pub tables : Tables
tables = record {
  rh_account = account 1 true ∷ account 2 false ∷ account 3 false ∷ [];
  system_platform =
      system 10 host_a 2 (account 1 true)
      ∷ system 11 host_b 1 (account 1 true)
      ∷ system 20 host_c 1 (account 2 false)
      ∷ [];
  system_package =
      installed 1 10 7 (some (update (codes "Installable") ∷ []))
      ∷ installed 1 10 8 none
      ∷ installed 1 11 7 (some (update (codes "Applicable") ∷ []))
      ∷ installed 2 20 7 (some [])
      ∷ [];
  package_account_data = cached_row 2 9 ∷ cached_row 3 9 ∷ [];
  system_advisories =
      record { rh_account_id = pos 1; system_id = pos 10; advisory_id = pos 5; status_id = pos 0 }
      ∷ [];
  system_repo = record { rh_account_id = pos 1; system_id = pos 10; repo_id = pos 3 } ∷ [];
  baseline = record { id = pos 1; rh_account_id = pos 1; name = codes "standard" } ∷ [];
  inventory_hosts =
      record { id = host_a; groups = some [] }
      ∷ record { id = host_b; groups = some [] }
      ∷ record { id = host_c; groups = some (codes "g" ∷ []) }
      ∷ [];
}

abbrev pub connection : Connection
connection = record { committed = tables; pending = none; calls = 0 }
