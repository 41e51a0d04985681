-- ===== src/Program.antt =====
-- main.go with its parts: the calls that Process makes are filled with the operations of the other
-- modules, and a run of the program is what it does to the content database and to SpiceDB.
pub mod Effects
pub mod Runs
pub mod PrimaryKey
pub mod Jobs
pub mod Placement
pub mod Workspaces
pub mod Repair
pub mod Migrated
pub mod Moves
pub mod Liveness
use inventory_access_poc.Prelude.{ℕ, Bool, none, List, [], ◌∷◌}
use inventory_access_poc.Prelude.Int.{ℤ}
use inventory_access_poc.Prelude.Bytes.{Text}
use inventory_access_poc.Errors.{Result, ok, err, panic, ⊤, Action, lift}
use inventory_access_poc.Tables.{Tables, UuidBytes}
use inventory_access_poc.Database.{Answer, Connection}
use inventory_access_poc.Spice.{SpiceDb}
use inventory_access_poc.Driver.{Driver, UuidLibrary}
use inventory_access_poc.Setup.{Globals, configure}
use inventory_access_poc.Setup
use inventory_access_poc.Migration.{
  Migrator, new_migrator, migrate_packages, migrate_content_hosts_and_systems,
}
use inventory_access_poc.Move.{World, on_postgres, move_systems}
use inventory_access_poc.Refresh.{refresh_packages_caches}
use inventory_access_poc.Server.{LookupResources}
use inventory_access_poc.Router.{
  Environment, Request, Job, refresh_package_caches, migrate_content_to_spice_db,
  migrate_packages_to_spice_db, move_systems_between, listen_and_serve,
}
use inventory_access_poc.Telemetry.{OpenTelemetry, Sdk}
use inventory_access_poc.Process.{Calls, Ending, main}
use inventory_access_poc.Api
use inventory_access_poc.Api.Writer.{Writer, untouched}
use inventory_access_poc.Api.Routes.{listening_handler}

-- How the services and libraries behave during one run: the parameters of the parts, what the two
-- clients answer, the requests that arrive, and how `http.ListenAndServe` ends.
pub record Services (State : Type 0) : Type 0 where
  pub setup : Setup.Libraries
  pub globals : Globals
  pub new_client : Text → Text → Result ⊤
  pub connect : Text → Result ⊤
  pub ping : Result ⊤
  pub driver : Driver
  pub answers : ℕ → Answer
  pub not_in_empty : Bool
  pub hash : ℤ → ℕ
  pub api : Api.Libraries
  pub missed : Request → Writer → Writer
  pub uuid_in : Text → Result UuidBytes
  pub lookup_resources : State → LookupResources
  pub arrivals : List Request
  pub listen : Result ⊤

-- What lasts from one run to the next.
pub record Store (State : Type 0) : Type 0 where
  pub tables : Tables
  pub relationships : State

-- What a process works on: the globals of cachecontent, the connection and SpiceDB.
pub record Deployment (State : Type 0) : Type 0 where
  pub globals : Globals
  pub world : World State

abbrev pub on_globals : {State A : Type 0} → Action Globals A → Action (Deployment State) A
on_globals m d = let (r, g) = m d.globals in (r, record d { globals = g })

abbrev pub on_world : {State A : Type 0} → Action (World State) A → Action (Deployment State) A
on_world m d = let (r, w) = m d.world in (r, record d { world = w })

-- A migration with a new migrator on the tables of the connection.
abbrev pub migrating :
    {State : Type 0} → (Tables → Action (Migrator State) ⊤) → Action (World State) ⊤
migrating m w =
    let (r, done) = m w.postgres.committed (new_migrator w.spice_db) in
    (r, record w { spice_db = done.spice_db })

module _ (S : SpiceDb) (U : UuidLibrary) (sv : Services S.State) where
  -- The requests that arrive, each in a new context. `net/http` recovers a handler's panic.
  unfoldable pub serve_requests : List Request → Action (World S.State) ⊤
  unfolding listening_handler
  serve_requests [] w = (sv.listen, w)
  serve_requests (req ∷ reqs) w =
      let (_, (c, _)) =
        listening_handler sv.api sv.missed sv.answers sv.uuid_in (sv.lookup_resources w.spice_db) []
          req (w.postgres, untouched) in
      serve_requests reqs (record w { postgres = c })

  -- The job that the environment chooses.
  unfoldable pub execute : Job → Action (World S.State) ⊤
  unfolding refresh_packages_caches migrate_content_hosts_and_systems migrate_packages move_systems
      serve_requests
  execute refresh_package_caches =
      on_postgres (refresh_packages_caches sv.not_in_empty sv.answers sv.hash none)
  execute migrate_content_to_spice_db = migrating (migrate_content_hosts_and_systems S U sv.driver)
  execute migrate_packages_to_spice_db = migrating (migrate_packages S sv.driver)
  execute (move_systems_between from to) = move_systems S U sv.driver sv.answers from to
  execute listen_and_serve = serve_requests sv.arrivals

  -- The calls that `main` makes.
  unfoldable pub calls : Calls (Deployment S.State)
  unfolding execute configure
  calls = record {
    configure = λ uri. on_globals (configure sv.setup uri);
    refresh_packages_caches = on_world (execute refresh_package_caches);
    new_client = λ url token. lift (sv.new_client url token);
    connect = λ uri. lift (sv.connect uri);
    ping = lift sv.ping;
    run = λ job. on_world (execute job);
  }

  -- A new process, with connections of its own.
  abbrev pub started : Store S.State → Deployment S.State
  started st = record {
    globals = sv.globals;
    world = record {
      postgres = record { committed = st.tables; pending = none; calls = 0 };
      spice_db = st.relationships;
    };
  }

  abbrev pub left_by : Deployment S.State → Store S.State
  left_by d = record { tables = d.world.postgres.committed; relationships = d.world.spice_db }

  -- A run of the program: how it ends, and what it leaves.
  unfoldable pub run_program :
      {E R : Type 0}
      → OpenTelemetry E R
      → Sdk E R
      → Environment
      → Store S.State
      → Ending × Store S.State
  unfolding main calls
  run_program otel sdk env st =
      let (ending, (_, d)) = main otel calls env sdk (started st) in (ending, left_by d)
