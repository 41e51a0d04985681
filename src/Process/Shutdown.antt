-- ===== src/Process/Shutdown.antt =====
-- The telemetry's cleanups when the process ends.
use inventory_access_poc.Prelude.{ℕ, ◌≡◌, ◌⊎◌, inl, inr, refl, ◌∙◌, [], ◌++◌, bytes_eq}
use inventory_access_poc.Errors.{Result, ok, err, panic, ⊤}
use inventory_access_poc.Router.{Environment, overwrite_vars_from_env}
use inventory_access_poc.Telemetry.{OpenTelemetry, Sdk, Joined}
use inventory_access_poc.Telemetry.Cleanups.{registered, setup_otel_sdk-shutdown}
use inventory_access_poc.Process.{
  Calls, Ending, finished, exited, panicked, default_settings, main, main_body, deferred,
  after_configure, behind_telemetry, init_open_telemetry, service_name, service_version,
}

Ending-cases : (e : Ending) → ((n : ℕ) × (e ≡ exited n)) ⊎ (e ≡ finished) ⊎ (e ≡ panicked)
Ending-cases finished = inr (inl refl)
Ending-cases (exited n) = inl (n, refl)
Ending-cases panicked = inr (inr refl)

module _ {E R W : Type 0} (otel : OpenTelemetry E R) where
  behind_telemetry-ok :
      (body : W → Ending × W) (w : W) (p : Result Joined × Sdk E R) (es : Joined)
      → p.0 ≡ ok es
      → behind_telemetry otel body w p ≡ ((body w).0, (deferred otel (body w).0 p.1, (body w).1))
  behind_telemetry-ok body w (ok fs, s) es h = refl
  behind_telemetry-ok body w (err e, s) es h = cc
  behind_telemetry-ok body w (panic, s) es h = cc

  after_configure-ok :
      (next : W → Ending × (Sdk E R × W)) (s : Sdk E R) (p : Result ⊤ × W)
      → p.0 ≡ ok tt
      → after_configure otel next s p ≡ next p.1
  after_configure-ok next s (ok _, w) h = refl
  after_configure-ok next s (err e, w) h = cc
  after_configure-ok next s (panic, w) h = cc

  -- Where the set-up succeeds, `main` is its body and the deferred call.
  pub main-deferred :
      (calls : Calls W) (env : Environment) (s : Sdk E R) (w : W) (es : Joined)
      → let settings = overwrite_vars_from_env env default_settings in
        let started = calls.configure settings.content_pg_uri w in
        let (ending, w') = main_body calls env settings started.1 in
        started.0 ≡ ok tt
        → (init_open_telemetry otel s).0 ≡ ok es
        → main otel calls env s w
          ≡ (ending, (deferred otel ending (init_open_telemetry otel s).1, w'))
  unfolding main
  main-deferred calls env s w es started set =
      let settings = overwrite_vars_from_env env default_settings in
      let body = main_body calls env settings in
      let p = calls.configure settings.content_pg_uri w in
      let set_up = init_open_telemetry otel s in
      after_configure-ok (λ w₁. behind_telemetry otel body w₁ set_up) s p started
      ∙ behind_telemetry-ok body p.1 set_up es set

  -- If the database is configured and the set-up of the telemetry does not panic, then at the end of the
  -- process no cleanup is left, and those of the providers that could be made have been invoked, each
  -- once; unless the process has ended by `os.Exit`, which leaves the telemetry as the set-up left it.
  pub main_cleanups :
      (calls : Calls W) (env : Environment) (s : Sdk E R) (w : W) (es : Joined)
      → (calls.configure (overwrite_vars_from_env env default_settings).content_pg_uri w).0 ≡ ok tt
      → (init_open_telemetry otel s).0 ≡ ok es
      → let (ending, (s', w')) = main otel calls env s w in
        ((code : ℕ) × (ending ≡ exited code) × (s' ≡ (init_open_telemetry otel s).1))
        ⊎ ((s'.shutdown_funcs ≡ [])
            × (s'.invoked ≡ s.invoked ++ registered otel service_name service_version))
  unfolding init_open_telemetry
  main_cleanups calls env s w es started set =
      let settings = overwrite_vars_from_env env default_settings in
      let ran = main-deferred calls env s w es started set in
      let invoked = setup_otel_sdk-shutdown otel service_name service_version s in
      let w₁ = (calls.configure settings.content_pg_uri w).1 in
      elim (Ending-cases (main_body calls env settings w₁).0) [
        | inl (code, e) ↦ rw (ran, e) (inl (code, refl, refl))
        | inr (inl e) ↦ rw (ran, e) (inr invoked)
        | inr (inr e) ↦ rw (ran, e) (inr invoked)
      ]
