-- ===== src/Program/Runs.antt =====
-- Runs of the program one after the other, as a step relation on what lasts between them, and what every
-- job keeps of the tables.
use inventory_access_poc.Prelude.{◌≡◌, refl, sym, ◌∙◌, subst, inl, inr, none, List, [], ◌∷◌}
use inventory_access_poc.Prelude.Int.{ℤ}
use inventory_access_poc.Tables.{Tables}
use inventory_access_poc.Spice.{SpiceDb, IsAtomic}
use inventory_access_poc.Driver.{UuidLibrary}
use inventory_access_poc.Move.{World}
use inventory_access_poc.Move.Endings.{moved}
use inventory_access_poc.Move.Outcomes.{move_systems-committed}
use inventory_access_poc.Refresh.Invariants.{IsKept, refresh_packages_caches-kept}
use inventory_access_poc.Router.{
  Environment, Request, Job, refresh_package_caches, migrate_content_to_spice_db,
  migrate_packages_to_spice_db, move_systems_between, listen_and_serve,
}
use inventory_access_poc.Telemetry.{OpenTelemetry, Sdk}
use inventory_access_poc.Process.{Ending}
use inventory_access_poc.Api.Reads.{listening_handler-OnlyReads}
use inventory_access_poc.Program.{Services, Store, serve_requests, execute, run_program}
use inventory_access_poc.Program.Effects.{IsRun, aborted, performed, run_program-IsRun}

module _ (S : SpiceDb) (U : UuidLibrary) {E R : Type 0} (otel : OpenTelemetry E R) where
  -- What may stand in the store after any number of runs, each with other services, in another
  -- environment and with an ending that is allowed.
  pub data Reach (Allowed : Services S.State → Environment → Ending → Type 0) (st : Store S.State)
      : Store S.State → Type 0 where
    here : Reach Allowed st st
    later :
        {st' : Store S.State} (sv : Services S.State) (sdk : Sdk E R) (env : Environment)
        → Reach Allowed st st'
        → Allowed sv env (run_program S U sv otel sdk env st').0
        → Reach Allowed st (run_program S U sv otel sdk env st').1

module _ (S : SpiceDb) (U : UuidLibrary) (sv : Services S.State) where
  -- Requests leave the tables, and SpiceDB is not written to.
  pub serve_requests-same :
      (reqs : List Request) (w : World S.State)
      → let w' = (serve_requests S U sv reqs w).1 in
        (w'.postgres.committed ≡ w.postgres.committed) × (w'.spice_db ≡ w.spice_db)
  unfolding serve_requests
  serve_requests-same [] w = (refl, refl)
  serve_requests-same (req ∷ reqs) w =
      let (kept, same) = serve_requests-same reqs _ in
      (
        kept
            ∙ listening_handler-OnlyReads sv.api sv.missed sv.answers sv.uuid_in
                (sv.lookup_resources w.spice_db) [] req w.postgres,
        same,
      )

  module _ (atomic : IsAtomic S) (P : Tables → Type 0)
      (refreshing : IsKept sv.not_in_empty sv.answers P)
      (moving : (from to : ℤ) (t : Tables) → P t → P (moved to from t)) where
    -- A property that the statements of a refresh and a complete move keep, every job keeps.
    execute-kept :
        (job : Job) (w : World S.State)
        → P w.postgres.committed
        → P (execute S U sv job w).1.postgres.committed
    unfolding execute
    execute-kept refresh_package_caches w h =
        refresh_packages_caches-kept sv.not_in_empty sv.answers P sv.hash none w.postgres refreshing
          h
    execute-kept migrate_content_to_spice_db w h = h
    execute-kept migrate_packages_to_spice_db w h = h
    execute-kept (move_systems_between from to) w h =
        elim (move_systems-committed S U sv.driver sv.answers from to w) [
          | inl e ↦ subst P (sym e) h
          | inr e ↦ subst P (sym e) (moving from to w.postgres.committed h)
        ]
    execute-kept listen_and_serve w h = subst P (sym (serve_requests-same sv.arrivals w).0) h

    IsRun-kept :
        (env : Environment) (w w' : World S.State) (ending : Ending)
        → IsRun S U sv env w ending w'
        → P w.postgres.committed
        → P w'.postgres.committed
    IsRun-kept env w w' ending (aborted o e) h =
        subst (λ (x : World S.State). P x.postgres.committed) (sym e) h
    IsRun-kept env w w' ending (performed job c e f) h =
        subst (λ (x : World S.State). P x.postgres.committed) (sym e) (execute-kept job w h)

    -- So does a run of the program, however it ends.
    pub run_program-kept :
        {E R : Type 0} (otel : OpenTelemetry E R) (sdk : Sdk E R) (env : Environment)
        (st : Store S.State)
        → P st.tables
        → P (run_program S U sv otel sdk env st).1.tables
    run_program-kept otel sdk env st h =
        let (w', ran, tables, _) = run_program-IsRun S U sv env otel sdk st in
        subst P (sym tables) (IsRun-kept env _ w' _ ran h)
