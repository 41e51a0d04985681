-- ===== src/Program/PrimaryKey.antt =====
-- The primary key of the cached rows over runs of the program.
use inventory_access_poc.Spice.{SpiceDb, IsAtomic}
use inventory_access_poc.Driver.{UuidLibrary}
use inventory_access_poc.Cache.Rows.{HasPrimaryKey}
use inventory_access_poc.Refresh.Invariants.{primary_key-IsKept}
use inventory_access_poc.Telemetry.{OpenTelemetry}
use inventory_access_poc.Program.{Store}
use inventory_access_poc.Program.Runs.{Reach, here, later, run_program-kept}

module _ (S : SpiceDb) (U : UuidLibrary) {E R : Type 0} (otel : OpenTelemetry E R) where
  -- If SpiceDB writes atomically, then whatever runs of the program follow one another, with whatever
  -- services, in whatever environments and with whatever endings, the cached rows have a primary key
  -- after them if they had one before.
  pub Reach-HasPrimaryKey :
      {st st' : Store S.State}
      → IsAtomic S
      → HasPrimaryKey st.tables.package_account_data
      → Reach S U otel (λ sv env ending. Unit {0}) st st'
      → HasPrimaryKey st'.tables.package_account_data
  Reach-HasPrimaryKey atomic h here = h
  Reach-HasPrimaryKey atomic h (later {st'} sv sdk env r _) =
      run_program-kept S U sv atomic (λ t. HasPrimaryKey t.package_account_data)
        (primary_key-IsKept sv.not_in_empty sv.answers) (λ from to t k. k) otel sdk env st'
        (Reach-HasPrimaryKey atomic h r)
