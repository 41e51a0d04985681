-- ===== src/Program/Repair.antt =====
-- A move that is run again after it broke off.
use inventory_access_poc.Prelude.{◌≡◌, sym, subst, inl, inr}
use inventory_access_poc.Prelude.Int.{ℤ}
use inventory_access_poc.Prelude.Bytes.{Text}
use inventory_access_poc.Prelude.Decimal.RoundTrip.{FitsInt64}
use inventory_access_poc.Errors.{Result, ok, ⊤}
use inventory_access_poc.Tables.{UuidBytes, Tables}
use inventory_access_poc.Spice.{SpiceDb, IsAtomic}
use inventory_access_poc.Driver.{IsReliable, UuidLibrary}
use inventory_access_poc.Move.{World, hosts_of_account}
use inventory_access_poc.Move.Endings.{moved, HasEnded, unchanged, complete, torn}
use inventory_access_poc.Move.Success.{moves_of}
use inventory_access_poc.Router.{Environment, move_systems_between, chosen_job}
use inventory_access_poc.Router.Accounts.{chosen_job-FitsInt64}
use inventory_access_poc.Telemetry.{OpenTelemetry, Sdk}
use inventory_access_poc.Process.{Ending, finished}
use inventory_access_poc.Program.{Services, Store, started, run_program}
use inventory_access_poc.Program.Effects.{IsRun, run_program-IsRun}
use inventory_access_poc.Program.Jobs.{IsRun-cases}
use inventory_access_poc.Program.Runs.{Reach, here, later}
use inventory_access_poc.Program.Placement.{
  IsPlaced, IsPlacedBut, IsPlacedBut-grow, complete-IsPlaced, written-IsPlacedBut,
  IsPlaced-IsPlacedBut,
}
use inventory_access_poc.Program.Workspaces.{Placed, succeeded-IsPlaced}

module _ (S : SpiceDb) (U : UuidLibrary) (id_of : UuidBytes → U.Uuid)
    (reads : (b : UuidBytes) → U.from_bytes b ≡ ok (id_of b)) (from to : ℤ) where
  abbrev text : UuidBytes → Text
  text b = U.to_string (id_of b)

  abbrev IsAttempt : Store S.State → Result ⊤ → World S.State → ℤ → ℤ → Type 0
  IsAttempt st r w a b =
      (FitsInt64 a × FitsInt64 b)
      × HasEnded S (moves_of text a b (hosts_of_account a st.tables)) st.tables
          (moved b a st.tables) st.relationships r w

  same-IsAttempt :
      (st : Store S.State) (r : Result ⊤) (w : World S.State) (a b : ℤ)
      → a ≡ from
      → b ≡ to
      → IsAttempt st r w a b
      → IsAttempt st r w from to
  same-IsAttempt st r w a b p q h =
      subst (λ x. IsAttempt st r w x to) p (subst (λ y. IsAttempt st r w a y) q h)

  -- However an attempt ends, the hosts of the other accounts stay in their workspaces.
  attempted-IsPlacedBut :
      (t : Tables) (s : S.State) (r : Result ⊤) (w : World S.State)
      → IsAtomic S
      → FitsInt64 from × FitsInt64 to
      → HasEnded S (moves_of text from to (hosts_of_account from t)) t (moved to from t) s r w
      → IsPlacedBut S text from t s
      → IsPlacedBut S text from w.postgres.committed w.spice_db
  attempted-IsPlacedBut t s r w atomic (f, g) (unchanged o e same) h = rw (e, same) h
  attempted-IsPlacedBut t s r w atomic (f, g) (complete o e (accepted, written)) h =
      IsPlaced-IsPlacedBut S text from w.postgres.committed w.spice_db (
        subst (λ u. IsPlaced S text u w.spice_db) (sym e)
          (complete-IsPlaced S text from to t s w.spice_db atomic f g accepted written h))
  attempted-IsPlacedBut t s r w atomic (f, g) (torn x o (inl e) (accepted, written)) h =
      subst (λ u. IsPlacedBut S text from u w.spice_db) (sym e)
        (written-IsPlacedBut S text from to (hosts_of_account from t) t s w.spice_db atomic f
          accepted written h)
  attempted-IsPlacedBut t s r w atomic (f, g) (torn x o (inr e) (accepted, written)) h =
      IsPlaced-IsPlacedBut S text from w.postgres.committed w.spice_db (
        subst (λ u. IsPlaced S text u w.spice_db) (sym e)
          (complete-IsPlaced S text from to t s w.spice_db atomic f g accepted written h))

  module _ {E R : Type 0} (otel : OpenTelemetry E R) where
    -- Every row of a query arrives, and there is no other move.
    abbrev pub Attempts : Services S.State → Environment → Ending → Type 0
    Attempts sv env ending =
        IsReliable sv.driver
        × ((a b : ℤ) → chosen_job env ≡ ok (move_systems_between a b) → (a ≡ from) × (b ≡ to))

    IsRun-IsPlacedBut :
        (sv : Services S.State) (env : Environment) (st : Store S.State) (ending : Ending)
        (w : World S.State)
        → IsAtomic S
        → Attempts sv env ending
        → IsRun S U sv env (started S U sv st).world ending w
        → IsPlacedBut S text from st.tables st.relationships
        → IsPlacedBut S text from w.postgres.committed w.spice_db
    IsRun-IsPlacedBut sv env st ending w atomic (reliable, only) ran h =
        elim (IsRun-cases S U id_of reads sv atomic reliable env st ending w ran) [
          | inl ((same, more), _) ↦
              IsPlacedBut-grow S text from st.tables w.postgres.committed st.relationships
                w.spice_db same more h
          | inr (a, b, r, chosen, ended, _) ↦
              let (p, q) = only a b chosen in
              let (fits, done) =
                same-IsAttempt st r w a b p q (chosen_job-FitsInt64 env a b chosen, ended) in
              attempted-IsPlacedBut st.tables st.relationships r w atomic fits done h
        ]

    Reach-IsPlacedBut :
        {st st' : Store S.State}
        → IsAtomic S
        → IsPlacedBut S text from st.tables st.relationships
        → Reach S U otel Attempts st st'
        → IsPlacedBut S text from st'.tables st'.relationships
    Reach-IsPlacedBut atomic h here = h
    Reach-IsPlacedBut atomic h (later {st'} sv sdk env r allowed) =
        let (w, ran, tables, relationships) = run_program-IsRun S U sv env otel sdk st' in
        rw (tables, relationships)
          (IsRun-IsPlacedBut sv env st' _ w atomic allowed ran (Reach-IsPlacedBut atomic h r))

    IsRun-repaired :
        (sv : Services S.State) (env : Environment) (st : Store S.State) (ending : Ending)
        (w : World S.State)
        → IsAtomic S
        → IsReliable sv.driver
        → chosen_job env ≡ ok (move_systems_between from to)
        → IsRun S U sv env (started S U sv st).world ending w
        → ending ≡ finished
        → IsPlacedBut S text from st.tables st.relationships
        → IsPlaced S text w.postgres.committed w.spice_db
    IsRun-repaired sv env st ending w atomic reliable chosen ran done h =
        elim (IsRun-cases S U id_of reads sv atomic reliable env st ending w ran) [
          | inl (_, unfinished) ↦ absurd (unfinished from to chosen done)
          | inr (a, b, r, same, ended, succeeded) ↦
              let p : a ≡ from = cc in
              let q : b ≡ to = cc in
              let (fits, performed) =
                same-IsAttempt st r w a b p q (chosen_job-FitsInt64 env a b same, ended) in
              succeeded-IsPlaced S U id_of reads from to st.tables st.relationships r w atomic fits
                performed (succeeded done) h
        ]

    -- If SpiceDB writes atomically, every id can be read and every row arrives, and SpiceDB has every
    -- host in the ungrouped workspace of its system's account, whose number has 64 bits: then the move
    -- from an account to another may be run any number of times and end in any way, with runs of the
    -- other jobs in between, and once a run of this move does not exit or panic, SpiceDB again has
    -- every host in the workspace of its system's account.
    pub Reach-repaired :
        {st st' : Store S.State} (sv : Services S.State) (sdk : Sdk E R) (env : Environment)
        → IsAtomic S
        → IsReliable sv.driver
        → Placed S U id_of reads st
        → Reach S U otel Attempts st st'
        → chosen_job env ≡ ok (move_systems_between from to)
        → (run_program S U sv otel sdk env st').0 ≡ finished
        → Placed S U id_of reads (run_program S U sv otel sdk env st').1
    Reach-repaired {st} {st'} sv sdk env atomic reliable h attempts chosen done =
        let (w, ran, tables, relationships) = run_program-IsRun S U sv env otel sdk st' in
        rw (tables, relationships)
          (IsRun-repaired sv env st' _ w atomic reliable chosen ran done (
            Reach-IsPlacedBut atomic (IsPlaced-IsPlacedBut S text from st.tables st.relationships h)
              attempts))
