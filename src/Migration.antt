-- ===== src/Migration.antt =====
-- migration/psql_to_spicedb.go: the updates are gathered in a buffer that is written to SpiceDB
-- when it is full, and once more at the end. `fmt.Printf` and the counter that it prints are left
-- out.
pub mod Batches
pub mod Outcomes
pub mod Packages
pub mod Workspaces
pub mod Hosts
pub mod Success
use inventory_access_poc.Prelude.{
  ℕ, ◌≡◌, Bool, true, false, Option, none, some, List, [], ◌∷◌, ◌++◌, map, leb, length, ◌==◌,
  if◌then◌else◌, join, bytes_eq,
}
use inventory_access_poc.Prelude.Int.{ℤ, int_eq}
use inventory_access_poc.Prelude.Bytes.{Text, codes}
use inventory_access_poc.Prelude.Decimal.{format_int}
use inventory_access_poc.Prelude.Dict.{Dict, lookup, insert}
use inventory_access_poc.Errors.{
  Result, ok, err, panic, ⊤, returned, Action, pure, lift, modify, proceed, ◌>>=◌, ◌>>◌, when,
}
use inventory_access_poc.Tables.{Tables, SystemPackage, SystemPlatform, InventoryHost}
use inventory_access_poc.Spice.{SpiceDb, Relationship, RelationshipUpdate, Operation, touch, object}
use inventory_access_poc.Driver.{
  Value, int64, int32, uuid, as_int64, as_int32, as_uuid, index, Rows, Driver, UuidLibrary,
}

abbrev pub max_relationship_batch_size : ℕ
max_relationship_batch_size = 100

-- `PSQLToSpiceDBMigration`, with what SpiceDB stores in place of the client.
pub record Migrator (State : Type 0) : Type 0 where
  pub spice_db : State
  pub org_ungrouped : Dict ℤ Text
  pub updates : List RelationshipUpdate

-- `NewPSQLToSpiceDBMigration`
abbrev pub new_migrator : {State : Type 0} → State → Migrator State
new_migrator s = record { spice_db = s; org_ungrouped = []; updates = [] }

-- The update that `addUpdate` builds from its five strings.
abbrev pub touch_update : Text → Text → Text → Text → Text → RelationshipUpdate
touch_update resource_type resource_id relation subject_type subject_id = record {
  operation = touch;
  relationship = record {
    resource = object resource_type resource_id;
    relation = relation;
    subject = object subject_type subject_id;
  };
}

-- The rows of `select name_id, system_id from system_package;`
abbrev pub package_values : SystemPackage → List Value
package_values p = int64 p.name_id ∷ int64 p.system_id ∷ []

unfoldable pub package_rows : Tables → List (List Value)
package_rows t = map package_values t.system_package

-- The rows of `select sp.id, ih.id, sp.rh_account_id from system_platform sp JOIN inventory.hosts
-- ih ON sp.inventory_id = ih.id`
abbrev pub systems_with_hosts : Tables → List (SystemPlatform × InventoryHost)
systems_with_hosts t = join (λ sp ih. sp.inventory_id == ih.id) t.system_platform t.inventory_hosts

abbrev pub host_values : SystemPlatform × InventoryHost → List Value
host_values (sp, ih) = int64 sp.id ∷ uuid ih.id ∷ int32 sp.rh_account_id ∷ []

unfoldable pub host_rows : Tables → List (List Value)
host_rows t = map host_values (systems_with_hosts t)

-- `fmt.Sprintf("%d_root", orgId)` and `fmt.Sprintf("%s/ungrouped", root)`
unfoldable pub root_id : ℤ → Text
root_id org = format_int org ++ codes "_root"

unfoldable pub ungrouped_of : Text → Text
ungrouped_of root = root ++ codes "/ungrouped"

module _ (S : SpiceDb) where
  unfoldable pub flush_updates : Action (Migrator S.State) ⊤
  flush_updates m =
      let (e, s) = S.write m.updates m.spice_db in
      (returned e, record m { updates = []; spice_db = s })

  append_update : RelationshipUpdate → Action (Migrator S.State) ⊤
  append_update u = modify (λ m. record m { updates = m.updates ++ (u ∷ []) })

  unfoldable pub add_update : Text → Text → Text → Text → Text → Action (Migrator S.State) ⊤
  unfolding append_update flush_updates
  add_update resource_type resource_id relation subject_type subject_id =
      (λ m. when (leb max_relationship_batch_size (length m.updates)) flush_updates m)
      >> append_update (touch_update resource_type resource_id relation subject_type subject_id)

  -- `for rows.Next() { values, err := rows.Values() … }`
  unfoldable pub for_rows :
      (List Value → Action (Migrator S.State) ⊤)
      → List (Result (List Value))
      → Action (Migrator S.State) ⊤
  for_rows body [] = pure tt
  for_rows body (r ∷ rs) = (lift r >>= body) >> for_rows body rs

  -- The body of the loop in `MigratePackages`.
  unfoldable pub package_row : List Value → Action (Migrator S.State) ⊤
  unfolding add_update
  package_row values = do
    v ← lift (index values 0)
    name_id ← lift (as_int64 v)
    w ← lift (index values 1)
    system_id ← lift (as_int64 w)
    add_update (codes "patch/patch") (format_int name_id) (codes "system") (codes "patch/system")
        (format_int system_id)

  unfoldable pub migrate_packages : Driver → Tables → Action (Migrator S.State) ⊤
  unfolding for_rows package_row flush_updates
  migrate_packages driver t = do
    rows ← lift (driver (package_rows t))
    for_rows package_row rows.stream
    flush_updates

  -- The workspaces of an organization that was not met before.
  unfoldable pub add_workspaces : ℤ → Action (Migrator S.State) Text
  unfolding add_update
  add_workspaces org = do
    let root = root_id org
    let ungrouped = ungrouped_of root
    add_update (codes "workspace") root (codes "parent") (codes "organization") (format_int org)
    add_update (codes "workspace") ungrouped (codes "parent") (codes "workspace") root
    modify (λ m. record m { org_ungrouped = insert org ungrouped m.org_ungrouped })
    pure ungrouped

  unfoldable pub ungrouped_workspace : ℤ → Action (Migrator S.State) Text
  unfolding add_workspaces
  ungrouped_workspace org m = elim (lookup org m.org_ungrouped) [
    | some ungrouped ↦ (ok ungrouped, m)
    | none ↦ add_workspaces org m
  ]

  module _ (U : UuidLibrary) where
    -- The body of the loop in `MigrateContentHostsAndSystemsToSpiceDb`.
    unfoldable pub host_row : List Value → Action (Migrator S.State) ⊤
    unfolding add_update ungrouped_workspace
    host_row values = do
      v ← lift (index values 0)
      system_id ← lift (as_int64 v)
      w ← lift (index values 1)
      host_bytes ← lift (as_uuid w)
      host_id ← lift (U.from_bytes host_bytes)
      x ← lift (index values 2)
      org_id ← lift (as_int32 x)
      ungrouped ← ungrouped_workspace org_id
      let host = U.to_string host_id
      add_update (codes "inventory/host") host (codes "workspace") (codes "workspace") ungrouped
      add_update (codes "patch/system") (format_int system_id) (codes "host")
          (codes "inventory/host") host

    unfoldable pub migrate_content_hosts_and_systems : Driver → Tables → Action (Migrator S.State) ⊤
    unfolding for_rows host_row flush_updates
    migrate_content_hosts_and_systems driver t = do
      rows ← lift (driver (host_rows t))
      for_rows host_row rows.stream
      flush_updates
