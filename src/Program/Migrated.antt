-- ===== src/Program/Migrated.antt =====
-- The workspaces of the hosts after a run of the content migration.
use inventory_access_poc.Prelude.{
  ◌≡◌, refl, sym, ◌∙◌, subst, inl, inr, true, contains, arith, All, All-both, All-weaken, bytes_eq,
}
use inventory_access_poc.Prelude.Bytes.{Text}
use inventory_access_poc.Prelude.Decimal.RoundTrip.{FitsInt64}
use inventory_access_poc.Errors.{Result, ok, err, panic, ⊤}
use inventory_access_poc.Tables.{UuidBytes}
use inventory_access_poc.Spice.{SpiceDb, IsAtomic, relationship_eq}
use inventory_access_poc.Driver.{IsReliable, UuidLibrary}
use inventory_access_poc.Migration.{systems_with_hosts}
use inventory_access_poc.Migration.Workspaces.{all_relationships}
use inventory_access_poc.Migration.Hosts.{migrate_hosts_holds}
use inventory_access_poc.Move.{World}
use inventory_access_poc.Router.{Environment, migrate_content_to_spice_db, chosen_job}
use inventory_access_poc.Telemetry.{OpenTelemetry, Sdk}
use inventory_access_poc.Process.{Ending, finished, after_job}
use inventory_access_poc.Program.{Services, Store, execute, started, run_program}
use inventory_access_poc.Program.Effects.{IsRun, aborted, performed, run_program-IsRun, EndsAfter}
use inventory_access_poc.Program.Workspaces.{Placed}
use inventory_access_poc.Program.Placement.{placement, IsPlaced, IsPlacedRow, placements_touched}

finished_migration : (r : Result ⊤) → after_job migrate_content_to_spice_db r ≡ finished → r ≡ ok tt
finished_migration (ok _) e = refl
finished_migration (err x) e = cc
finished_migration panic e = cc

module _ (S : SpiceDb) (U : UuidLibrary) (id_of : UuidBytes → U.Uuid)
    (reads : (b : UuidBytes) → U.from_bytes b ≡ ok (id_of b)) where
  abbrev text : UuidBytes → Text
  text b = U.to_string (id_of b)

  module _ (sv : Services S.State) (atomic : IsAtomic S) (reliable : IsReliable sv.driver) where
    execute-Placed :
        (st : Store S.State)
        → let (r, w) = execute S U sv migrate_content_to_spice_db (started S U sv st).world in
          All (λ row. FitsInt64 row.0.rh_account_id) (systems_with_hosts st.tables)
          → r ≡ ok tt
          → IsPlaced S text w.postgres.committed w.spice_db
    unfolding execute
    execute-Placed st fit done =
        let rows = systems_with_hosts st.tables in
        let s' =
          (execute S U sv migrate_content_to_spice_db (started S U sv st).world).1.spice_db in
        All-weaken
          (λ row.
            FitsInt64 row.0.rh_account_id
            × (contains (all_relationships text rows) (placement text row) ≡ true))
          (IsPlacedRow S text s')
          (λ row h. (
            h.0,
            migrate_hosts_holds S U id_of reads sv.driver st.tables st.relationships
                  (placement text row) reliable atomic done
                ∙ ground (arith, h.1),
          ))
          rows
          (All-both (λ row. FitsInt64 row.0.rh_account_id)
            (λ row. contains (all_relationships text rows) (placement text row) ≡ true) rows fit
            (placements_touched text rows))

    IsRun-Placed :
        (env : Environment) (st : Store S.State) (w' : World S.State) (ending : Ending)
        → IsRun S U sv env (started S U sv st).world ending w'
        → All (λ row. FitsInt64 row.0.rh_account_id) (systems_with_hosts st.tables)
        → chosen_job env ≡ ok migrate_content_to_spice_db
        → ending ≡ finished
        → IsPlaced S text w'.postgres.committed w'.spice_db
    IsRun-Placed env st w' ending (aborted o e) fit chosen done = absurd (o done)
    IsRun-Placed env st w' ending (performed job c e f) fit chosen done =
        let w = (started S U sv st).world in
        let same : job ≡ migrate_content_to_spice_db = cc in
        let ended = subst (λ j. EndsAfter S U sv env j (execute S U sv j w).0 ending) same f in
        subst (λ (x : World S.State). IsPlaced S text x.postgres.committed x.spice_db)
          (sym (subst (λ j. w' ≡ (execute S U sv j w).1) same e))
          (execute-Placed st fit
            (elim ended [ inl g ↦ finished_migration _ (sym g ∙ done) | inr (g, _) ↦ cc ]))

  module _ {E R : Type 0} (otel : OpenTelemetry E R) where
    -- If SpiceDB writes atomically, every id can be read, every row arrives and the accounts of the systems
    -- with hosts are 64-bit numbers, then after a run of the content migration that does not exit or panic
    -- SpiceDB has every host in the ungrouped workspace of its system's account.
    pub migration-Placed :
        (sv : Services S.State) (sdk : Sdk E R) (env : Environment) (st : Store S.State)
        → IsAtomic S
        → IsReliable sv.driver
        → All (λ row. FitsInt64 row.0.rh_account_id) (systems_with_hosts st.tables)
        → chosen_job env ≡ ok migrate_content_to_spice_db
        → (run_program S U sv otel sdk env st).0 ≡ finished
        → Placed S U id_of reads (run_program S U sv otel sdk env st).1
    migration-Placed sv sdk env st atomic reliable fit chosen done =
        let (w', ran, tables, relationships) = run_program-IsRun S U sv env otel sdk st in
        rw (tables, relationships) (IsRun-Placed sv atomic reliable env st w' _ ran fit chosen done)
