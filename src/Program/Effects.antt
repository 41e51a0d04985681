-- ===== src/Program/Effects.antt =====
-- What a run of the program changes in the content database and in SpiceDB.
use inventory_access_poc.Prelude.{
  ◌≡◌, ◌≢◌, refl, ap, ◌⊎◌, inl, inr, Bool, true, false, if◌then◌else◌, ◌==◌, bytes_eq,
}
use inventory_access_poc.Prelude.Bytes.{Text, codes}
use inventory_access_poc.Errors.{Result, ok, err, panic, ⊤, Result-cases}
use inventory_access_poc.Spice.{SpiceDb}
use inventory_access_poc.Driver.{UuidLibrary}
use inventory_access_poc.Setup.{configure}
use inventory_access_poc.Move.{World}
use inventory_access_poc.Router.{
  Environment, getenv, Settings, overwrite_vars_from_env, Job, refresh_package_caches, chosen_job,
}
use inventory_access_poc.Telemetry.{OpenTelemetry, Sdk, Joined}
use inventory_access_poc.Process.{
  Ending, finished, default_settings, after_job, unless_panic, or_exit, or_panic,
  get_postgres_connection, run_job, init_server, refresh_caches, main_body, init_open_telemetry,
  behind_telemetry, after_configure, main,
}
use inventory_access_poc.Program.{Services, Store, Deployment, execute, calls, started, run_program}

pub chosen_refresh :
    (env : Environment)
    → (getenv (codes "RUN_ACTION") env == codes "REFRESH_PACKAGE_CACHES") ≡ true
    → chosen_job env ≡ ok refresh_package_caches
unfolding chosen_job
chosen_refresh env h = rw h refl

module _ (S : SpiceDb) (U : UuidLibrary) (sv : Services S.State) (env : Environment) where
  -- How a process ends after a job: the error of a refresh is dropped.
  abbrev pub EndsAfter : Job → Result ⊤ → Ending → Type 0
  EndsAfter job r ending =
      (ending ≡ after_job job r) ⊎ ((job ≡ refresh_package_caches) × (ending ≡ unless_panic r))

  -- Nothing is done, and the process does not finish; or the job of the environment is done.
  pub data IsRun (w : World S.State) (ending : Ending) (w' : World S.State) : Type 0 where
    aborted : ending ≢ finished → w' ≡ w → IsRun w ending w'
    performed :
        (job : Job)
        → chosen_job env ≡ ok job
        → w' ≡ (execute S U sv job w).1
        → EndsAfter job (execute S U sv job w).0 ending
        → IsRun w ending w'

  abbrev Runs : World S.State → Ending × Deployment S.State → Type 0
  Runs w (ending, d) = IsRun w ending d.world

  -- The steps in front of a job leave the world as it is.
  or_panic-Runs :
      (w : World S.State) (r : Result ⊤) (d : Deployment S.State)
      (next : Deployment S.State → Ending × Deployment S.State)
      → d.world ≡ w
      → Runs w (next d)
      → Runs w (or_panic (r, d) next)
  or_panic-Runs w (ok _) d next same h = h
  or_panic-Runs w (err e) d next same h = aborted (λ x. cc) same
  or_panic-Runs w panic d next same h = aborted (λ x. cc) same

  or_exit-Runs :
      (w : World S.State) (r : Result ⊤) (d : Deployment S.State)
      (next : Deployment S.State → Ending × Deployment S.State)
      → d.world ≡ w
      → Runs w (next d)
      → Runs w (or_exit (r, d) next)
  or_exit-Runs w (ok _) d next same h = h
  or_exit-Runs w (err e) d next same h = aborted (λ x. cc) same
  or_exit-Runs w panic d next same h = aborted (λ x. cc) same

  get_postgres_connection-same :
      (uri : Text) (d : Deployment S.State) → (get_postgres_connection (calls S U sv) uri d).1 ≡ d
  unfolding get_postgres_connection calls
  get_postgres_connection-same uri d = elim (Result-cases (sv.connect uri)) [
    | inl (_, e) ↦ rw e refl
    | inr (inl (x, e)) ↦ rw e refl
    | inr (inr e) ↦ rw e refl
  ]

  run_job-Runs : (d : Deployment S.State) → Runs d.world (run_job (calls S U sv) (chosen_job env) d)
  unfolding calls
  run_job-Runs d = elim (Result-cases (chosen_job env)) [
    | inl (job, e) ↦ rw e (performed job e refl (inl refl))
    | inr (inl (x, e)) ↦ rw e (aborted (λ y. cc) refl)
    | inr (inr e) ↦ rw e (aborted (λ y. cc) refl)
  ]

  init_server-Runs :
      (s : Settings) (d : Deployment S.State) → Runs d.world (init_server (calls S U sv) env s d)
  unfolding init_server calls
  init_server-Runs s d =
      let connection = get_postgres_connection (calls S U sv) s.content_pg_uri d in
      let same = get_postgres_connection-same s.content_pg_uri d in
      or_exit-Runs d.world (sv.new_client s.spice_db_url s.spice_db_token) d
        (λ d₁.
          or_exit (get_postgres_connection (calls S U sv) s.content_pg_uri d₁)
            (run_job (calls S U sv) (chosen_job env)))
        refl
        (or_exit-Runs d.world connection.0 connection.1 (run_job (calls S U sv) (chosen_job env))
          (ap (λ (x : Deployment S.State). x.world) same) (rw same (run_job-Runs d)))

  refresh_caches-Runs :
      (s : Settings) (d : Deployment S.State)
      → chosen_job env ≡ ok refresh_package_caches
      → Runs d.world (refresh_caches (calls S U sv) s d)
  unfolding refresh_caches calls
  refresh_caches-Runs s d e =
      let (r, g) = configure sv.setup s.content_pg_uri d.globals in
      or_panic-Runs d.world r (record d { globals = g }) _ refl
        (performed refresh_package_caches e refl (inr (refl, refl)))

  if-Runs :
      (w : World S.State) (b : Bool) (x y : Ending × Deployment S.State)
      → (b ≡ true → Runs w x)
      → Runs w y
      → Runs w (if b then x else y)
  if-Runs w true x y h k = h refl
  if-Runs w false x y h k = k

  main_body-Runs :
      (s : Settings) (d : Deployment S.State) → Runs d.world (main_body (calls S U sv) env s d)
  unfolding main_body
  main_body-Runs s d =
      if-Runs d.world (getenv (codes "RUN_ACTION") env == codes "REFRESH_PACKAGE_CACHES")
        (refresh_caches (calls S U sv) s d) (init_server (calls S U sv) env s d)
        (λ h. refresh_caches-Runs s d (chosen_refresh env h)) (init_server-Runs s d)

  module _ {E R : Type 0} (otel : OpenTelemetry E R) where
    behind_telemetry-Runs :
        (s : Settings) (d : Deployment S.State) (p : Result Joined × Sdk E R)
        → let (ending, (_, d')) = behind_telemetry otel (main_body (calls S U sv) env s) d p in
          IsRun d.world ending d'.world
    behind_telemetry-Runs s d (ok es, sdk) = main_body-Runs s d
    behind_telemetry-Runs s d (err e, sdk) = aborted (λ x. cc) refl
    behind_telemetry-Runs s d (panic, sdk) = aborted (λ x. cc) refl

    after_configure-Runs :
        (s : Settings) (d : Deployment S.State) (sdk : Sdk E R) (p : Result Joined × Sdk E R)
        (r : Result ⊤)
        → let (ending, (_, d')) =
            after_configure otel
              (λ d₁. behind_telemetry otel (main_body (calls S U sv) env s) d₁ p)
              sdk
              (r, d) in
          IsRun d.world ending d'.world
    after_configure-Runs s d sdk p (ok _) = behind_telemetry-Runs s d p
    after_configure-Runs s d sdk p (err e) = aborted (λ x. cc) refl
    after_configure-Runs s d sdk p panic = aborted (λ x. cc) refl

    main-IsRun :
        (sdk : Sdk E R) (d : Deployment S.State)
        → let (ending, (_, d')) = main otel (calls S U sv) env sdk d in
          IsRun d.world ending d'.world
    unfolding main calls
    main-IsRun sdk d =
        let s = overwrite_vars_from_env env default_settings in
        let (r, g) = configure sv.setup s.content_pg_uri d.globals in
        after_configure-Runs s (record d { globals = g }) sdk (init_open_telemetry otel sdk) r

    -- What a run leaves is what its job leaves, or what was there.
    pub run_program-IsRun :
        (sdk : Sdk E R) (st : Store S.State)
        → let (ending, st') = run_program S U sv otel sdk env st in
          (w' : World S.State) × IsRun (started S U sv st).world ending w'
          × (st'.tables ≡ w'.postgres.committed)
          × (st'.relationships ≡ w'.spice_db)
    unfolding run_program
    run_program-IsRun sdk st = (
      (main otel (calls S U sv) env sdk (started S U sv st)).1.1.world,
      main-IsRun sdk (started S U sv st),
      refl,
      refl,
    )
