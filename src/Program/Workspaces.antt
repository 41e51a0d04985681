-- ===== src/Program/Workspaces.antt =====
-- The workspaces of the hosts over runs of the program.
use inventory_access_poc.Prelude.{◌≡◌, sym, subst, inl, inr}
use inventory_access_poc.Prelude.Int.{ℤ}
use inventory_access_poc.Prelude.Bytes.{Text}
use inventory_access_poc.Prelude.Decimal.RoundTrip.{FitsInt64}
use inventory_access_poc.Errors.{Result, ok, ⊤}
use inventory_access_poc.Tables.{UuidBytes, Tables}
use inventory_access_poc.Spice.{SpiceDb, IsAtomic}
use inventory_access_poc.Driver.{IsReliable, UuidLibrary}
use inventory_access_poc.Move.{World, hosts_of_account}
use inventory_access_poc.Move.Endings.{moved, HasEnded, unchanged, complete, torn}
use inventory_access_poc.Move.Success.{moves_of}
use inventory_access_poc.Router.{Environment, move_systems_between, chosen_job}
use inventory_access_poc.Router.Accounts.{chosen_job-FitsInt64}
use inventory_access_poc.Telemetry.{OpenTelemetry}
use inventory_access_poc.Process.{Ending, finished}
use inventory_access_poc.Program.{Services, Store, started}
use inventory_access_poc.Program.Effects.{IsRun, run_program-IsRun}
use inventory_access_poc.Program.Jobs.{IsRun-cases}
use inventory_access_poc.Program.Runs.{Reach, here, later}
use inventory_access_poc.Program.Placement.{
  IsPlaced, IsPlacedBut, IsPlaced-grow, complete-IsPlaced, IsPlaced-IsPlacedBut,
}

module _ (S : SpiceDb) (U : UuidLibrary) (id_of : UuidBytes → U.Uuid)
    (reads : (b : UuidBytes) → U.from_bytes b ≡ ok (id_of b)) where
  abbrev text : UuidBytes → Text
  text b = U.to_string (id_of b)

  abbrev pub Placed : Store S.State → Type 0
  Placed st = IsPlaced S text st.tables st.relationships

  -- After a successful move, also the hosts of the account that was moved.
  pub succeeded-IsPlaced :
      (from to : ℤ) (t : Tables) (s : S.State) (r : Result ⊤) (w : World S.State)
      → IsAtomic S
      → FitsInt64 from × FitsInt64 to
      → HasEnded S (moves_of text from to (hosts_of_account from t)) t (moved to from t) s r w
      → r ≡ ok tt
      → IsPlacedBut S text from t s
      → IsPlaced S text w.postgres.committed w.spice_db
  succeeded-IsPlaced from to t s r w atomic fits (unchanged o e f) done h = absurd (o done)
  succeeded-IsPlaced from to t s r w atomic (f, g) (complete o e (accepted, written)) done h =
      subst (λ u. IsPlaced S text u w.spice_db) (sym e)
        (complete-IsPlaced S text from to t s w.spice_db atomic f g accepted written h)
  succeeded-IsPlaced from to t s r w atomic fits (torn x o e f) done h = cc

  module _ {E R : Type 0} (otel : OpenTelemetry E R) where
    -- Every row of a query arrives, and a move is only run to its end.
    abbrev pub AllButBrokenMoves : Services S.State → Environment → Ending → Type 0
    AllButBrokenMoves sv env ending =
        IsReliable sv.driver
        × ((from to : ℤ) → chosen_job env ≡ ok (move_systems_between from to) → ending ≡ finished)

    IsRun-Placed :
        (sv : Services S.State) (env : Environment) (st : Store S.State) (ending : Ending)
        (w : World S.State)
        → IsAtomic S
        → AllButBrokenMoves sv env ending
        → IsRun S U sv env (started S U sv st).world ending w
        → Placed st
        → IsPlaced S text w.postgres.committed w.spice_db
    IsRun-Placed sv env st ending w atomic (reliable, fine) ran h =
        elim (IsRun-cases S U id_of reads sv atomic reliable env st ending w ran) [
          | inl ((same, more), _) ↦
              IsPlaced-grow S text st.tables w.postgres.committed st.relationships w.spice_db same
                more h
          | inr (from, to, r, chosen, ended, succeeded) ↦
              succeeded-IsPlaced from to st.tables st.relationships r w atomic
                (chosen_job-FitsInt64 env from to chosen) ended (succeeded (fine from to chosen))
                (IsPlaced-IsPlacedBut S text from st.tables st.relationships h)
        ]

    -- If SpiceDB writes atomically and every id can be read, then whatever runs follow one another, each
    -- with a driver by which every row arrives and, where its job is a move, with an end that is not an
    -- exit or a panic: SpiceDB has every host in the ungrouped workspace of its system's account after
    -- them if it had so before and the accounts are 64-bit numbers.
    pub Reach-Placed :
        {st st' : Store S.State}
        → IsAtomic S
        → Placed st
        → Reach S U otel AllButBrokenMoves st st'
        → Placed st'
    Reach-Placed atomic h here = h
    Reach-Placed atomic h (later {st'} sv sdk env r allowed) =
        let (w, ran, tables, relationships) = run_program-IsRun S U sv env otel sdk st' in
        rw (tables, relationships)
          (IsRun-Placed sv env st' _ w atomic allowed ran (Reach-Placed atomic h r))
