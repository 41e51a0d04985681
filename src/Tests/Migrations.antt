-- ===== src/Tests/Migrations.antt =====
-- What the migration and the move do on the small database.
use mathlib.Core.List.{flatten}
use inventory_access_poc.Prelude.{
  ◌≡◌, refl, false, some, List, [], map, contains, take, bytes_eq, ◌||◌, not, ◌&&◌, ◌≢◌, arith,
}
use inventory_access_poc.Prelude.Int.{pos, int_eq}
use inventory_access_poc.Prelude.Bytes.{codes}
use inventory_access_poc.Errors.{service, ok}
use inventory_access_poc.Spice.{relationship_eq, Relationship}
use inventory_access_poc.Spice.Touches.{touching}
use inventory_access_poc.Driver.{Driver}
use inventory_access_poc.Move.{hosts_of_account, in_workspace, workspace_of, move_systems}
use inventory_access_poc.Move.Workspaces.{hosts_named, move_systems-workspaces}
use inventory_access_poc.Database.{all_done}
use inventory_access_poc.Tests.{
  memory, memory-IsAtomic, nothing_stored, all_arrive, plain_ids, host_a, tables, connection,
}
use inventory_access_poc.Prelude.Dict.{lookup, insert}
use inventory_access_poc.Migration.{
  host_rows, new_migrator, migrate_packages, migrate_content_hosts_and_systems, package_rows,
  systems_with_hosts,
}
use inventory_access_poc.Migration.Batches.{Batch, batches, IsPacked, write_all, sent}
use inventory_access_poc.Migration.Packages.{
  package_relationship, package_relationships, migrate_packages_batches, migrate_packages_holds,
  migrate_packages_broken_stream,
}
use inventory_access_poc.Migration.Workspaces.{relationships_from, all_relationships}
use inventory_access_poc.Migration.Hosts.{migrate_hosts_batches, migrate_hosts_holds}

migrate_packages_batches_example :
    (bs : List Batch) × (flatten bs ≡ map touching (package_relationships tables))
    × IsPacked bs
    × (sent memory (migrate_packages memory all_arrive tables (new_migrator nothing_stored))
        ≡ write_all memory bs nothing_stored)
migrate_packages_batches_example =
    migrate_packages_batches memory all_arrive tables nothing_stored (λ rows. refl)

abbrev first_package : Relationship
first_package = record {
  resource = record { object_type = codes "patch/patch"; object_id = codes "7" };
  relation = codes "system";
  subject = record { object_type = codes "patch/system"; object_id = codes "10" };
}

migrate_packages_ok :
    (migrate_packages memory all_arrive tables (new_migrator nothing_stored)).0 ≡ ok tt
unfolding migrate_packages package_rows
migrate_packages_ok = refl

migrate_packages_holds_example :
    (migrate_packages memory all_arrive tables (new_migrator nothing_stored)).1.spice_db
      first_package
    ≡ contains (package_relationships tables) first_package
migrate_packages_holds_example =
    migrate_packages_holds memory all_arrive tables nothing_stored first_package (λ rows. refl)
      memory-IsAtomic migrate_packages_ok

-- A stream that breaks off after two rows.
abbrev breaks_off : Driver
breaks_off rows =
    ok (record { stream = map ok (take 2 rows); failure = some (service (codes "reset")) })

migrate_packages_broken_stream_example :
    sent memory (migrate_packages memory breaks_off tables (new_migrator nothing_stored))
    ≡ write_all memory
        (batches [] (map touching (map package_relationship (take 2 tables.system_package))))
        nothing_stored
migrate_packages_broken_stream_example =
    migrate_packages_broken_stream memory breaks_off tables nothing_stored 2
      (service (codes "reset")) refl

migrate_hosts_batches_example :
    (bs : List Batch) × (flatten bs
      ≡ map touching (relationships_from (λ b. b) [] (systems_with_hosts tables)))
    × IsPacked bs
    × (sent memory (
          migrate_content_hosts_and_systems memory plain_ids all_arrive tables
            (new_migrator nothing_stored))
        ≡ write_all memory bs nothing_stored)
migrate_hosts_batches_example =
    migrate_hosts_batches memory plain_ids (λ b. b) (λ b. refl) all_arrive tables nothing_stored
      (λ rows. refl)

abbrev first_system : Relationship
first_system = record {
  resource = record { object_type = codes "patch/system"; object_id = codes "10" };
  relation = codes "host";
  subject = record { object_type = codes "inventory/host"; object_id = host_a };
}

migrate_hosts_ok :
    (migrate_content_hosts_and_systems memory plain_ids all_arrive tables
      (new_migrator nothing_stored)).0
    ≡ ok tt
unfolding migrate_content_hosts_and_systems host_rows lookup insert bytes_eq int_eq
migrate_hosts_ok = refl

migrate_hosts_holds_example :
    (migrate_content_hosts_and_systems memory plain_ids all_arrive tables
        (new_migrator nothing_stored)).1.spice_db
      first_system
    ≡ contains (all_relationships (λ b. b) (systems_with_hosts tables)) first_system
migrate_hosts_holds_example =
    migrate_hosts_holds memory plain_ids (λ b. b) (λ b. refl) all_arrive tables nothing_stored
      first_system (λ rows. refl) memory-IsAtomic migrate_hosts_ok

other_account : pos 1 ≢ pos 2
other_account e = cc

move_systems-workspaces_example :
    let listed = contains (hosts_named (λ b. b) (hosts_of_account (pos 1) tables)) host_a in
    let after =
      (move_systems memory plain_ids all_arrive all_done
        (pos 1)
        (pos 2)
        (record { postgres = connection; spice_db = nothing_stored })).1.spice_db in
    (after (in_workspace host_a (workspace_of (pos 2))) ≡ (listed || false))
    × (after (in_workspace host_a (workspace_of (pos 1))) ≡ (not listed && false))
move_systems-workspaces_example =
    move_systems-workspaces memory plain_ids (λ b. b) (λ b. refl) all_arrive all_done (pos 1)
      (pos 2) (record { postgres = connection; spice_db = nothing_stored }) host_a (λ n. refl)
      (λ rows. refl) memory-IsAtomic (omega arith) (omega arith) other_account refl
