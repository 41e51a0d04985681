-- ===== src/Program/Liveness.antt =====
-- A run of the program in which every service does what it is asked.
use inventory_access_poc.Prelude.{
  ℕ, ◌≡◌, ◌≢◌, refl, ap, ◌∙◌, Bool, true, false, if◌then◌else◌, none, List, [], ◌∷◌, ◌==◌, bytes_eq,
  ◌||◌, some, sym, subst,
}
use inventory_access_poc.Prelude.Bytes.{Text, codes}
use inventory_access_poc.Errors.{Error, Result, ok, err, panic, ⊤}
use inventory_access_poc.Tables.{UuidBytes}
use inventory_access_poc.Spice.{SpiceDb, RelationshipUpdate}
use inventory_access_poc.Driver.{IsReliable, UuidLibrary}
use inventory_access_poc.Database.{done}
use inventory_access_poc.Prelude.Decimal.{parse_int}
use inventory_access_poc.Setup.{Globals, Url, configure}
use inventory_access_poc.Setup.Success.{ssl_mode_of, configure_done}
use inventory_access_poc.Prelude.Int.{ℤ}
use inventory_access_poc.Setup.Connections.{IsAllocated}
use inventory_access_poc.Migration.Success.{migrate_packages_succeeds, migrate_hosts_succeeds}
use inventory_access_poc.Move.{World}
use inventory_access_poc.Move.Success.{move_systems_succeeds}
use inventory_access_poc.Refresh.Success.{refresh_packages_caches_succeeds}
use inventory_access_poc.Router.{
  Environment, getenv, Settings, overwrite_vars_from_env, Request, Job, refresh_package_caches,
  migrate_content_to_spice_db, migrate_packages_to_spice_db, move_systems_between, listen_and_serve,
  chosen_job,
}
use inventory_access_poc.Telemetry.{OpenTelemetry, Sdk, Joined}
use inventory_access_poc.Process.{
  Ending, finished, exited, after_job, default_settings, get_postgres_connection, init_server,
  refresh_caches, main_body, init_open_telemetry, without_error,
}
use inventory_access_poc.Process.Shutdown.{main-deferred}
use inventory_access_poc.Program.Effects.{chosen_refresh}
use inventory_access_poc.Program.{
  Services, Store, Deployment, serve_requests, execute, calls, started, run_program,
}

-- The address of the database can be parsed, with a port, a path and an SSL mode that is known, and the
-- pointer in force is to a configuration that was allocated; the libraries answer each call of the
-- set-up, and the clients are created; every request to the database is done and its rows arrive,
-- SpiceDB accepts every write, and the HTTP server returns an error once it stops, as it always does.
pub record IsWorking (S : SpiceDb) (sv : Services S.State) (uri : Text) : Type 0 where
  pub url : Url
  pub port : ℤ
  pub slash : ℕ
  pub database : Text
  pub parsed : sv.setup.parse_url uri ≡ ok url
  pub port_read : parse_int url.port ≡ some port
  pub path : url.path ≡ slash ∷ database
  pub mode : (ssl_mode_of url == codes "disable" || ssl_mode_of url == codes "require") ≡ true
  pub allocated : IsAllocated sv.globals
  pub loaded : (n : ℕ) → sv.setup.answers n ≡ none
  pub created : (url token : Text) → sv.new_client url token ≡ ok tt
  pub connected : (uri : Text) → sv.connect uri ≡ ok tt
  pub pinged : sv.ping ≢ panic
  pub answered : (n : ℕ) → sv.answers n ≡ done
  pub reliable : IsReliable sv.driver
  pub accepts : (us : List RelationshipUpdate) (s : S.State) → (S.write us s).0 ≡ none
  pub stop_error : Error
  pub stopped : sv.listen ≡ err stop_error

-- How a run ends that does what it is asked: only the server ends with the code 1, once it has stopped.
abbrev pub expected_ending : Job → Ending
expected_ending listen_and_serve = exited 1
expected_ending _ = finished

either_ends :
    {W : Type 0} {ending : Ending} (b : Bool) (x y : Ending × W)
    → (b ≡ true → x.0 ≡ ending)
    → y.0 ≡ ending
    → (if b then x else y).0 ≡ ending
either_ends true x y h k = h refl
either_ends false x y h k = k

module _ (S : SpiceDb) (U : UuidLibrary) (id_of : UuidBytes → U.Uuid)
    (reads : (b : UuidBytes) → U.from_bytes b ≡ ok (id_of b)) (sv : Services S.State) (uri : Text)
    (works : IsWorking S sv uri) where
  configures :
      (g : Globals)
      → IsAllocated g
      → let (r, g') = configure sv.setup uri g in (r ≡ ok tt) × IsAllocated g'
  configures g h =
      let (same, allocated) =
        configure_done sv.setup uri works.url works.port works.slash works.database g works.parsed
          works.port_read works.path works.mode h works.loaded in
      rw same (refl, allocated)

  serve_requests-result :
      (reqs : List Request) (w : World S.State) → (serve_requests S U sv reqs w).0 ≡ sv.listen
  unfolding serve_requests
  serve_requests-result [] w = refl
  serve_requests-result (req ∷ reqs) w = serve_requests-result reqs _

  execute_ends :
      (job : Job) (w : World S.State) → after_job job (execute S U sv job w).0 ≡ expected_ending job
  unfolding execute
  execute_ends refresh_package_caches w = ap (after_job refresh_package_caches) (
      refresh_packages_caches_succeeds sv.not_in_empty sv.answers sv.hash none w.postgres
        works.answered)
  execute_ends migrate_content_to_spice_db w = ap (after_job migrate_content_to_spice_db) (
      migrate_hosts_succeeds S works.accepts U id_of reads sv.driver w.postgres.committed w.spice_db
        works.reliable)
  execute_ends migrate_packages_to_spice_db w = ap (after_job migrate_packages_to_spice_db) (
      migrate_packages_succeeds S works.accepts sv.driver w.postgres.committed w.spice_db
        works.reliable)
  execute_ends (move_systems_between from to) w = ap (after_job (move_systems_between from to)) (
      (move_systems_succeeds S U id_of reads sv.driver sv.answers from to w works.answered
        works.reliable (works.accepts _ w.spice_db)).0)
  execute_ends listen_and_serve w =
      ap (after_job listen_and_serve) (serve_requests-result sv.arrivals w ∙ works.stopped)

  without_error_ok : (r : Result ⊤) → r ≢ panic → without_error r ≡ ok tt
  without_error_ok (ok _) h = refl
  without_error_ok (err e) h = refl
  without_error_ok panic h = absurd (h refl)

  init_server_ends :
      (env : Environment) (job : Job) (s : Settings) (d : Deployment S.State)
      → chosen_job env ≡ ok job
      → (init_server (calls S U sv) env s d).0 ≡ expected_ending job
  unfolding init_server calls get_postgres_connection
  init_server_ends env job s d chosen =
      rw
        (
          works.created s.spice_db_url s.spice_db_token,
          works.connected s.content_pg_uri,
          without_error_ok sv.ping works.pinged,
          chosen,
        )
        (execute_ends job d.world)

  refresh_caches_finishes :
      (s : Settings) (d : Deployment S.State)
      → s.content_pg_uri ≡ uri
      → IsAllocated d.globals
      → (refresh_caches (calls S U sv) s d).0 ≡ finished
  unfolding refresh_caches calls execute
  refresh_caches_finishes s d e h =
      rw
        (
          e,
          (configures d.globals h).0,
          refresh_packages_caches_succeeds sv.not_in_empty sv.answers sv.hash none d.world.postgres
              works.answered,
        )
        refl

  main_body_ends :
      (env : Environment) (job : Job) (s : Settings) (d : Deployment S.State)
      → chosen_job env ≡ ok job
      → s.content_pg_uri ≡ uri
      → IsAllocated d.globals
      → (main_body (calls S U sv) env s d).0 ≡ expected_ending job
  unfolding main_body
  main_body_ends env job s d chosen e h =
      either_ends (getenv (codes "RUN_ACTION") env == codes "REFRESH_PACKAGE_CACHES")
        (refresh_caches (calls S U sv) s d) (init_server (calls S U sv) env s d)
        (λ t.
          let refresh_chosen = chosen_refresh env t in
          let same : refresh_package_caches ≡ job = cc in
          refresh_caches_finishes s d e h ∙ ap expected_ending same)
        (init_server_ends env job s d chosen)

  -- If every service works, with the address of the database that is set in the environment or in the
  -- program, every id can be read and the telemetry can be set up, then a run of the program ends as it
  -- should, whatever job its environment chooses: a refresh, a migration and a move finish, and a run
  -- that listens ends with the code 1 when the server has stopped, which it does with an error.
  pub run_program_finishes :
      {E R : Type 0} (otel : OpenTelemetry E R) (sdk : Sdk E R) (env : Environment) (job : Job)
      (st : Store S.State) (es : Joined)
      → chosen_job env ≡ ok job
      → (overwrite_vars_from_env env default_settings).content_pg_uri ≡ uri
      → (init_open_telemetry otel sdk).0 ≡ ok es
      → (run_program S U sv otel sdk env st).0 ≡ expected_ending job
  unfolding run_program calls
  run_program_finishes otel sdk env job st es chosen address set =
      let settings = overwrite_vars_from_env env default_settings in
      let d = started S U sv st in
      let (began, allocated) =
        subst
          (λ (u : Text).
            let (r, g') = configure sv.setup u sv.globals in (r ≡ ok tt) × IsAllocated g')
          (sym address) (configures sv.globals works.allocated) in
      ap (λ p. p.0) (main-deferred otel (calls S U sv) env sdk d es began set)
      ∙ main_body_ends env job settings _ chosen address allocated
