-- ===== src/Migration/Packages.antt =====
-- `MigratePackages`: what it sends, what SpiceDB holds after it, and what a broken row stream does.
use mathlib.Core.List.{flatten}
use inventory_access_poc.Prelude.{
  ℕ, ◌≡◌, sym, ap, ◌∙◌, List, [], ◌∷◌, some, map, ◌||◌, true, contains, arith, take, take-map,
}
use inventory_access_poc.Prelude.Bytes.{codes}
use inventory_access_poc.Prelude.Decimal.{format_int}
use inventory_access_poc.Errors.{Error, Result, ok, ⊤, Action, ◌>>◌}
use inventory_access_poc.Tables.{Tables, SystemPackage}
use inventory_access_poc.Spice.{SpiceDb, IsAtomic, Relationship, relationship_eq, object}
use inventory_access_poc.Spice.Touches.{touching}
use inventory_access_poc.Driver.{Driver, IsReliable}
use inventory_access_poc.Migration.{
  Migrator, new_migrator, flush_updates, for_rows, package_row, package_values, package_rows,
  migrate_packages,
}
use inventory_access_poc.Migration.Batches.{
  Batch, batches, IsPacked, batches-IsPacked, flatten-batches, write_all, sent, Sends,
  flush_updates-Sends, add_update-Sends, for_rows_ok,
}
use inventory_access_poc.Migration.Outcomes.{holds-touched, touched_bounds}

-- What a row of `system_package` says: the package is installed on the system.
abbrev pub package_relationship : SystemPackage → Relationship
package_relationship p = record {
  resource = object (codes "patch/patch") (format_int p.name_id);
  relation = codes "system";
  subject = object (codes "patch/system") (format_int p.system_id);
}

abbrev pub package_relationships : Tables → List Relationship
package_relationships t = map package_relationship t.system_package

module _ (S : SpiceDb) where
  -- The loop over the rows that are left, and the last flush.
  abbrev rest : List SystemPackage → Action (Migrator S.State) ⊤
  rest ps = for_rows S (package_row S) (map ok (map package_values ps)) >> flush_updates S

  rest-Sends :
      (ps : List SystemPackage) (m : Migrator S.State)
      → Sends S (rest ps) (map touching (map package_relationship ps)) m
  unfolding for_rows package_row
  rest-Sends [] m = flush_updates-Sends S m
  rest-Sends (p ∷ ps) m =
      ap (sent S) (
        for_rows_ok S (package_row S) (package_values p) (map ok (map package_values ps))
          (flush_updates S) m)
      ∙ add_update-Sends S (codes "patch/patch") (format_int p.name_id) (codes "system")
          (codes "patch/system") (format_int p.system_id) (rest ps)
          (map touching (map package_relationship ps)) m (λ m' e. rest-Sends ps m')

  pub migrate_packages-write_all :
      (driver : Driver) (t : Tables) (s : S.State)
      → IsReliable driver
      → sent S (migrate_packages S driver t (new_migrator s))
        ≡ write_all S (batches [] (map touching (package_relationships t))) s
  unfolding migrate_packages package_rows
  migrate_packages-write_all driver t s reliable =
      rw (reliable (package_rows t)) (rest-Sends t.system_package (new_migrator s))

  -- If every row arrives, the migration touches one relationship for each row of `system_package`,
  -- in the order of the rows, in requests that all carry a hundred updates, but for the last, which
  -- carries at most a hundred; it sends them in turn, and ends at the first that is refused with
  -- the error of that one.
  pub migrate_packages_batches :
      (driver : Driver) (t : Tables) (s : S.State)
      → IsReliable driver
      → (bs : List Batch) × (flatten bs ≡ map touching (package_relationships t))
        × IsPacked bs
        × (sent S (migrate_packages S driver t (new_migrator s)) ≡ write_all S bs s)
  migrate_packages_batches driver t s reliable = (
    batches [] (map touching (package_relationships t)),
    flatten-batches [] (map touching (package_relationships t)),
    batches-IsPacked [] (map touching (package_relationships t)) (omega arith),
    migrate_packages-write_all driver t s reliable,
  )

  -- If every row arrives, SpiceDB writes atomically and the migration returns no error, then SpiceDB
  -- holds exactly what it held before and the relationship of every row of `system_package`.
  pub migrate_packages_holds :
      (driver : Driver) (t : Tables) (s : S.State) (r : Relationship)
      → IsReliable driver
      → IsAtomic S
      → (migrate_packages S driver t (new_migrator s)).0 ≡ ok tt
      → S.holds (migrate_packages S driver t (new_migrator s)).1.spice_db r
        ≡ (S.holds s r || contains (package_relationships t) r)
  migrate_packages_holds driver t s r reliable atomic done =
      let e = migrate_packages-write_all driver t s reliable in
      ap (λ (o : Result ⊤ × S.State). S.holds o.1 r) e
      ∙ holds-touched S atomic (package_relationships t) s r
          (sym (ap (λ (o : Result ⊤ × S.State). o.0) e) ∙ done)

  -- If every row arrives and SpiceDB writes atomically, then however the migration ends, SpiceDB
  -- still holds all that it held, and whatever else it holds is the relationship of some row.
  pub migrate_packages_bounds :
      (driver : Driver) (t : Tables) (s : S.State) (r : Relationship)
      → IsReliable driver
      → IsAtomic S
      → let after = (migrate_packages S driver t (new_migrator s)).1.spice_db in
        (S.holds s r ≡ true → S.holds after r ≡ true)
        × (S.holds after r ≡ true → (S.holds s r || contains (package_relationships t) r) ≡ true)
  migrate_packages_bounds driver t s r reliable atomic =
      let same =
        ap (λ (o : Result ⊤ × S.State). o.1) (migrate_packages-write_all driver t s reliable) in
      rw same (touched_bounds S atomic (package_relationships t) s r)

  -- If the row stream breaks off with an error after `n` rows, the migration ends as it would on a
  -- table that has only these rows: the error is not reported.
  pub migrate_packages_broken_stream :
      (driver : Driver) (t : Tables) (s : S.State) (n : ℕ) (e : Error)
      → driver (package_rows t)
        ≡ ok (record { stream = map ok (take n (package_rows t)); failure = some e })
      → sent S (migrate_packages S driver t (new_migrator s))
        ≡ write_all S
            (batches [] (map touching (map package_relationship (take n t.system_package))))
            s
  unfolding migrate_packages package_rows
  migrate_packages_broken_stream driver t s n e broken =
      rw (broken, take-map package_values n t.system_package)
        (rest-Sends (take n t.system_package) (new_migrator s))
