-- ===== src/Program/Moves.antt =====
-- A run of the program that moves the systems of an account, from its environment to its ending.
use inventory_access_poc.Prelude.{◌≡◌, ◌≢◌, ◌⊎◌, List, none}
use inventory_access_poc.Prelude.Int.{ℤ}
use inventory_access_poc.Tables.{Tables}
use inventory_access_poc.Spice.{SpiceDb, RelationshipUpdate}
use inventory_access_poc.Driver.{UuidLibrary}
use inventory_access_poc.Move.Endings.{moved, IsWritten}
use inventory_access_poc.Move.Outcomes.{IsSent}
use inventory_access_poc.Router.{Environment}
use inventory_access_poc.Process.{Ending, finished, panicked}
use inventory_access_poc.Program.{Services, Store}

module _ (S : SpiceDb) where
  -- Before and after, once the updates are known: nothing has changed and the process has not finished;
  -- or both sides have changed and it has; or SpiceDB has accepted, the tables have changed or not, and
  -- the process has panicked; or SpiceDB has reported an error and the process has panicked.
  abbrev pub MovedOrPanicked :
      List RelationshipUpdate → ℤ → ℤ → Store S.State → Ending → Tables → S.State → Type 0
  MovedOrPanicked us from to st ending t s =
      ((ending ≢ finished) × (t ≡ st.tables) × (s ≡ st.relationships))
      ⊎ ((ending ≡ finished) × (t ≡ moved to from st.tables) × IsWritten S us st.relationships s)
      ⊎ ((ending ≡ panicked)
          × ((t ≡ st.tables) ⊎ (t ≡ moved to from st.tables))
          × IsWritten S us st.relationships s)
      ⊎ ((ending ≡ panicked)
          × (t ≡ st.tables)
          × ((S.write us st.relationships).0 ≢ none)
          × (s ≡ (S.write us st.relationships).1))

  module _ (U : UuidLibrary) (sv : Services S.State) (env : Environment) where
    -- Nothing has changed and the process has not finished; or the updates of all hosts of the account
    -- were known, and the move ended in one of the four ways.
    abbrev pub RunOfMove : ℤ → ℤ → Store S.State → Ending → Tables → S.State → Type 0
    RunOfMove from to st ending t s =
        ((ending ≢ finished) × (t ≡ st.tables) × (s ≡ st.relationships))
        ⊎ ((us : List RelationshipUpdate) × IsSent S U sv.driver sv.answers from to st.tables us
            × MovedOrPanicked us from to st ending t s)
