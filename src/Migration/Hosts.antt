-- ===== src/Migration/Hosts.antt =====
-- `MigrateContentHostsAndSystemsToSpiceDb`: which workspaces, hosts and systems it touches, in
-- which order, and what SpiceDB holds after it.
pub mod Rows
use inventory_access_poc.Migration.Hosts.Rows.{migrate_hosts-write_all}
use mathlib.Core.List.{flatten}
use inventory_access_poc.Prelude.{
  ◌≡◌, refl, sym, ap, ◌∙◌, inl, inr, List, [], ◌∷◌, ◌++◌, none, some, map, ◌||◌, true, contains,
  arith, Bool-cases, if◌then◌else◌,
}
use inventory_access_poc.Prelude.Int.{ℤ, int_eq}
use inventory_access_poc.Prelude.Dict.{lookup, insert, lookup-insert}
use inventory_access_poc.Prelude.Bytes.{Text, codes}
use inventory_access_poc.Prelude.Decimal.{format_int}
use inventory_access_poc.Errors.{
  Result, ok, ⊤, Action, proceed, ◌>>=◌, ◌>>◌, pure, modify, bind_assoc,
}
use inventory_access_poc.Tables.{Tables, SystemPlatform, InventoryHost, UuidBytes}
use inventory_access_poc.Spice.{SpiceDb, IsAtomic, Relationship, relationship_eq}
use inventory_access_poc.Spice.Touches.{touching}
use inventory_access_poc.Driver.{Driver, IsReliable, UuidLibrary}
use inventory_access_poc.Migration.{
  Migrator, new_migrator, flush_updates, for_rows, host_row, add_workspaces, ungrouped_workspace,
  host_values, host_rows, systems_with_hosts, migrate_content_hosts_and_systems,
}
use inventory_access_poc.Migration.Batches.{
  Batch, batches, IsPacked, batches-IsPacked, flatten-batches, write_all, sent, Sends,
  flush_updates-Sends, add-Sends, add, for_rows_ok,
}
use inventory_access_poc.Migration.Outcomes.{holds-touched, touched_bounds}
use inventory_access_poc.Migration.Workspaces.{
  ungrouped_id, relate, root_below, ungrouped_below, workspace_relationships, host_relationships,
  relationships_from, all_relationships, contains-relationships_from,
}

module _ (S : SpiceDb) (U : UuidLibrary) (id_of : UuidBytes → U.Uuid)
    (reads : (b : UuidBytes) → U.from_bytes b ≡ ok (id_of b)) where
  abbrev id_text : UuidBytes → Text
  id_text b = U.to_string (id_of b)

  -- If every row arrives and every id can be read, the migration touches, for each system that has
  -- a host, the two workspaces of its account, unless an earlier row has touched them, then its
  -- host and then the system; in requests of a hundred updates, but for the last, which has at most
  -- a hundred, sent in turn up to the first that is refused.
  pub migrate_hosts_batches :
      (driver : Driver) (t : Tables) (s : S.State)
      → IsReliable driver
      → (bs : List Batch) × (flatten bs
          ≡ map touching (relationships_from id_text [] (systems_with_hosts t)))
        × IsPacked bs
        × (sent S (migrate_content_hosts_and_systems S U driver t (new_migrator s))
            ≡ write_all S bs s)
  migrate_hosts_batches driver t s reliable =
      let us = map touching (relationships_from id_text [] (systems_with_hosts t)) in
      (
        batches [] us,
        flatten-batches [] us,
        batches-IsPacked [] us (omega arith),
        migrate_hosts-write_all S U id_of reads driver t s reliable,
      )

  -- If every row arrives, every id can be read, SpiceDB writes atomically and the migration returns
  -- no error, then SpiceDB holds exactly what it held before and, for every system that has a host,
  -- the two workspaces of its account, its host and the system.
  pub migrate_hosts_holds :
      (driver : Driver) (t : Tables) (s : S.State) (r : Relationship)
      → IsReliable driver
      → IsAtomic S
      → (migrate_content_hosts_and_systems S U driver t (new_migrator s)).0 ≡ ok tt
      → S.holds (migrate_content_hosts_and_systems S U driver t (new_migrator s)).1.spice_db r
        ≡ (S.holds s r || contains (all_relationships id_text (systems_with_hosts t)) r)
  migrate_hosts_holds driver t s r reliable atomic done =
      let rows = systems_with_hosts t in
      let e = migrate_hosts-write_all S U id_of reads driver t s reliable in
      ap (λ (o : Result ⊤ × S.State). S.holds o.1 r) e
      ∙ holds-touched S atomic (relationships_from id_text [] rows) s r
          (sym (ap (λ (o : Result ⊤ × S.State). o.0) e) ∙ done)
      ∙ ap (λ b. S.holds s r || b) (contains-relationships_from id_text rows r)

  -- However the migration ends, SpiceDB still holds all that it held.
  pub migrate_hosts_kept :
      (driver : Driver) (t : Tables) (s : S.State) (r : Relationship)
      → IsReliable driver
      → IsAtomic S
      → S.holds s r ≡ true
      → S.holds (migrate_content_hosts_and_systems S U driver t (new_migrator s)).1.spice_db r
        ≡ true
  migrate_hosts_kept driver t s r reliable atomic =
      let same =
        ap (λ (o : Result ⊤ × S.State). o.1)
          (migrate_hosts-write_all S U id_of reads driver t s reliable) in
      rw same (touched_bounds S atomic (relationships_from id_text [] (systems_with_hosts t)) s r).0
