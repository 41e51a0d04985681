-- ===== src/Tests/Programs.antt =====
-- Runs of the program on the small database, one after the other.
use inventory_access_poc.Prelude.{
  ℕ, ◌≡◌, refl, [], ◌∷◌, arith, true, All, if◌then◌else◌, ◌==◌, nat_eq, bytes_eq,
}
use inventory_access_poc.Prelude.Int.{ℤ, pos}
use inventory_access_poc.Prelude.Bytes.{codes}
use inventory_access_poc.Errors.{ok, err, message}
use inventory_access_poc.Database.{Answer, done, lost}
use inventory_access_poc.Router.{
  overwrite_vars_from_env, Environment, getenv, chosen_job, migrate_content_to_spice_db,
  move_systems_between, listen_and_serve,
}
use inventory_access_poc.Process.{default_settings, Ending, finished, exited, panicked}
use inventory_access_poc.Program.{Services, Store, run_program}
use inventory_access_poc.Program.Runs.{here, later}
use inventory_access_poc.Program.Workspaces.{Placed, Reach-Placed}
use inventory_access_poc.Program.Liveness.{IsWorking, run_program_finishes}
use inventory_access_poc.Program.Repair.{Reach-repaired}
use inventory_access_poc.Program.PrimaryKey.{Reach-HasPrimaryKey}
use inventory_access_poc.Cache.Rows.{HasPrimaryKey}
use inventory_access_poc.Tests.Refreshes.{tables-HasPrimaryKey}
use inventory_access_poc.Program.Migrated.{migration-Placed}
use inventory_access_poc.Move.{hosts_of_account}
use inventory_access_poc.Migration.{host_rows, systems_with_hosts}
use inventory_access_poc.Prelude.Decimal.RoundTrip.{FitsInt64}
use inventory_access_poc.Tests.{
  memory, memory-IsAtomic, nothing_stored, all_arrive, plain_ids, read_text, tables,
}
use inventory_access_poc.Tests.Listings.{lookup_hosts}
use inventory_access_poc.Tests.Responses
use inventory_access_poc.Tests.Starts
use inventory_access_poc.Tests.Starts.{otel, no_telemetry, nothing_open}

-- Everything works; one request arrives.
abbrev services : (ℕ → Answer) → Services memory.State
services answers = record {
  setup = Starts.libraries;
  globals = nothing_open;
  new_client = λ url token. ok tt;
  connect = λ uri. ok tt;
  ping = ok tt;
  driver = all_arrive;
  answers = answers;
  not_in_empty = true;
  hash = λ a. 0;
  api = Responses.libraries;
  missed = Responses.not_found;
  uuid_in = read_text;
  lookup_resources = λ s. lookup_hosts;
  arrivals = Responses.sent [] ∷ [];
  listen = err (message (codes "address already in use"));
}

abbrev working : Services memory.State
working = services (λ n. done)

-- The database loses the connection at the commit.
abbrev losing : Services memory.State
losing = services (λ n. if n == 6 then lost (message (codes "gone")) else done)

abbrev fresh : Store memory.State
fresh = record { tables = tables; relationships = nothing_stored }

abbrev migrate : Environment
migrate = (codes "RUN_ACTION", codes "MIGRATE_CONTENT_TO_SPICEDB") ∷ []

abbrev move : Environment
move =
    (codes "RUN_ACTION", codes "MOVE_SYSTEMS")
    ∷ (codes "FROM_ACCOUNT", codes "1")
    ∷ (codes "TO_ACCOUNT", codes "3")
    ∷ []

abbrev refresh : Environment
refresh = (codes "RUN_ACTION", codes "REFRESH_PACKAGE_CACHES") ∷ []

abbrev run : Services memory.State → Environment → Store memory.State → Ending × Store memory.State
run sv = run_program memory plain_ids sv otel no_telemetry

abbrev migrated : Store memory.State
migrated = (run working migrate fresh).1

-- A move that arrives, one whose commit is lost, and a refresh.
abbrev moved : Store memory.State
moved = (run working move migrated).1

abbrev broken : Store memory.State
broken = (run losing move migrated).1

abbrev refreshed : Store memory.State
refreshed = (run working refresh fresh).1

migration_chosen : chosen_job migrate ≡ ok migrate_content_to_spice_db
unfolding chosen_job
migration_chosen = refl

migration_finished : (run working migrate fresh).0 ≡ finished
unfolding run_program host_rows
migration_finished = refl

accounts_fit : All (λ row. FitsInt64 row.0.rh_account_id) (systems_with_hosts tables)
unfolding bytes_eq
accounts_fit = (omega arith, (omega arith, (omega arith, tt)))

migration-Placed_example : Placed memory plain_ids (λ b. b) (λ b. refl) migrated
migration-Placed_example =
    migration-Placed memory plain_ids (λ b. b) (λ b. refl) otel working no_telemetry migrate fresh
      memory-IsAtomic (λ rows. refl) accounts_fit migration_chosen migration_finished

move_chosen : chosen_job move ≡ ok (move_systems_between (pos 1) (pos 3))
unfolding chosen_job
move_chosen = refl

move_finished : (run working move migrated).0 ≡ finished
unfolding run_program hosts_of_account
move_finished = refl

move_panics : (run losing move migrated).0 ≡ panicked
unfolding run_program hosts_of_account
move_panics = refl

move_repaired : (run working move broken).0 ≡ finished
unfolding run_program hosts_of_account
move_repaired = refl

Reach-Placed_example : Placed memory plain_ids (λ b. b) (λ b. refl) moved
Reach-Placed_example =
    Reach-Placed memory plain_ids (λ b. b) (λ b. refl) otel {st = migrated} {st' = moved}
      memory-IsAtomic migration-Placed_example
      (later working no_telemetry move here ((λ rows. refl), λ from to e. move_finished))

only_move : (a b : ℤ) → chosen_job move ≡ ok (move_systems_between a b) → (a ≡ pos 1) × (b ≡ pos 3)
only_move a b e = let chosen = move_chosen in (cc, cc)

Reach-repaired_example : Placed memory plain_ids (λ b. b) (λ b. refl) (run working move broken).1
Reach-repaired_example =
    Reach-repaired memory plain_ids (λ b. b) (λ b. refl) (pos 1) (pos 3) otel {st = migrated}
      {st' = broken} working no_telemetry move memory-IsAtomic (λ rows. refl)
      migration-Placed_example (later losing no_telemetry move here ((λ rows. refl), only_move))
      move_chosen move_repaired

Reach-HasPrimaryKey_example : HasPrimaryKey refreshed.tables.package_account_data
Reach-HasPrimaryKey_example =
    Reach-HasPrimaryKey memory plain_ids otel {st = fresh} {st' = refreshed} memory-IsAtomic
      tables-HasPrimaryKey (later working no_telemetry refresh here tt)

address :
    (overwrite_vars_from_env move default_settings).content_pg_uri ≡ default_settings.content_pg_uri
unfolding overwrite_vars_from_env
address = refl

working-IsWorking : IsWorking memory working default_settings.content_pg_uri
working-IsWorking = record {
  url = Starts.local_url;
  port = pos 5434;
  slash = b'/';
  database = codes "content";
  parsed = refl;
  port_read = Starts.port_of_local;
  path = refl;
  mode = Starts.mode_of_local;
  allocated = refl;
  loaded = λ n. refl;
  created = λ url token. refl;
  connected = λ uri. refl;
  pinged = λ e. cc;
  answered = λ n. refl;
  reliable = λ rows. refl;
  accepts = λ us s. refl;
  stop_error = message (codes "address already in use");
  stopped = refl;
}

-- With no action the program listens.
listen_chosen : chosen_job [] ≡ ok listen_and_serve
unfolding chosen_job getenv
listen_chosen = refl

same_address :
    (overwrite_vars_from_env [] default_settings).content_pg_uri ≡ default_settings.content_pg_uri
unfolding overwrite_vars_from_env
same_address = refl

run_program_finishes_example : (run working [] migrated).0 ≡ exited 1
run_program_finishes_example =
    run_program_finishes memory plain_ids (λ b. b) (λ b. refl) working
      default_settings.content_pg_uri working-IsWorking otel no_telemetry [] listen_and_serve
      migrated (message (codes "no metrics") ∷ []) listen_chosen same_address Starts.set_up

-- A move finishes.
move_finishes : (run working move migrated).0 ≡ finished
move_finishes =
    run_program_finishes memory plain_ids (λ b. b) (λ b. refl) working
      default_settings.content_pg_uri working-IsWorking otel no_telemetry move
      (move_systems_between (pos 1) (pos 3)) migrated (message (codes "no metrics") ∷ [])
      move_chosen address Starts.set_up
