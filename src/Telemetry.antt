-- ===== src/Telemetry.antt =====
-- opentelemetry/opentelemetry.go: the set-up of the telemetry, which registers a cleanup for each provider,
-- and its shutdown, which runs them. What the OpenTelemetry library answers is a record of functions.
pub mod Cleanups
use inventory_access_poc.Prelude.{ℕ, ◌+◌, Option, none, some, List, [], ◌∷◌, ◌++◌}
use inventory_access_poc.Prelude.Bytes.{Text}
use inventory_access_poc.Errors.{Error, Result, ok, err, panic}

-- The providers, as the code configures them; times are in seconds.
pub record TracerProvider (E R : Type 0) : Type 0 where
  pub exporter : E
  pub batch_timeout : ℕ
  pub resource : R

pub record MeterProvider (E R : Type 0) : Type 0 where
  pub resource : R
  pub exporter : E
  pub interval : ℕ

-- A function of `shutdownFuncs`.
pub data Cleanup (E R : Type 0) : Type 0 where
  tracer_shutdown : TracerProvider E R → Cleanup E R
  meter_shutdown : MeterProvider E R → Cleanup E R

-- The library: `resource.Merge` with the service's name and version, the two exporters, and what a
-- cleanup returns after those that were invoked before it.
pub record OpenTelemetry (E R : Type 0) : Type 0 where
  pub merge : Text → Text → Result R
  pub stdouttrace_new : Result E
  pub stdoutmetric_new : Result E
  pub cleanup : List (Cleanup E R) → Cleanup E R → Option Error

-- `shutdownFuncs`, the cleanups that were invoked, and the library's globals. A propagator is no more
-- than set.
pub record Sdk (E R : Type 0) : Type 0 where
  pub shutdown_funcs : List (Cleanup E R)
  pub invoked : List (Cleanup E R)
  pub propagators : ℕ
  pub tracer_provider : Option (TracerProvider E R)
  pub meter_provider : Option (MeterProvider E R)

-- An error of `errors.Join`, as the errors that it joins; a nil error joins nothing.
abbrev pub Joined : Type 0
Joined = List Error

abbrev pub errors_join : Joined → Option Error → Joined
errors_join es none = es
errors_join es (some e) = es ++ e ∷ []

module _ {E R : Type 0} (otel : OpenTelemetry E R) where
  abbrev pub new_resource : Text → Text → Result R
  new_resource service_name service_version = otel.merge service_name service_version

  unfoldable pub new_trace_provider : R → Result (TracerProvider E R)
  new_trace_provider res = elim otel.stdouttrace_new [
    | ok exporter ↦ ok (record { exporter = exporter; batch_timeout = 1; resource = res })
    | err e ↦ err e
    | panic ↦ panic
  ]

  unfoldable pub new_meter_provider : R → Result (MeterProvider E R)
  new_meter_provider res = elim otel.stdoutmetric_new [
    | ok exporter ↦ ok (record { resource = res; exporter = exporter; interval = 60 })
    | err e ↦ err e
    | panic ↦ panic
  ]

  -- The loop of `shutdown`.
  unfoldable pub invoke_all : List (Cleanup E R) → Joined → Sdk E R → Joined × Sdk E R
  invoke_all [] es s = (es, s)
  invoke_all (f ∷ fs) es s =
      invoke_all fs (errors_join es (otel.cleanup s.invoked f))
        (record s { invoked = s.invoked ++ f ∷ [] })

  unfoldable pub shutdown : Sdk E R → Joined × Sdk E R
  unfolding invoke_all
  shutdown s =
      let (es, s') = invoke_all s.shutdown_funcs [] s in (es, record s' { shutdown_funcs = [] })

  -- `handleErr`, and the return that follows.
  unfoldable pub handle_err : Error → Sdk E R → Result Joined × Sdk E R
  unfolding shutdown
  handle_err e s = let (es, s') = shutdown s in (ok (e ∷ es), s')

  abbrev pub register : Cleanup E R → Sdk E R → Sdk E R
  register f s = record s { shutdown_funcs = s.shutdown_funcs ++ f ∷ [] }

  unfoldable pub set_up_meter : R → Sdk E R → Result Joined × Sdk E R
  unfolding new_meter_provider handle_err
  set_up_meter res s = elim (new_meter_provider res) [
    | ok p ↦ (ok [], record (register (meter_shutdown p) s) { meter_provider = some p })
    | err e ↦ handle_err e s
    | panic ↦ (panic, s)
  ]

  unfoldable pub set_up_tracer : R → Sdk E R → Result Joined × Sdk E R
  unfolding new_trace_provider handle_err set_up_meter
  set_up_tracer res s = elim (new_trace_provider res) [
    | ok p ↦ set_up_meter res (record (register (tracer_shutdown p) s) { tracer_provider = some p })
    | err e ↦ handle_err e s
    | panic ↦ (panic, s)
  ]

  -- `SetupOTelSDK`, with the error that it returns. The function that it returns is `shutdown`, over the
  -- variable `shutdownFuncs` that stays in the state.
  unfoldable pub setup_otel_sdk : Text → Text → Sdk E R → Result Joined × Sdk E R
  unfolding handle_err set_up_tracer
  setup_otel_sdk service_name service_version s₀ =
      let s : Sdk E R = record s₀ { shutdown_funcs = [] } in
      elim (new_resource service_name service_version) [
        | ok res ↦ set_up_tracer res (record s { propagators = s.propagators + 1 })
        | err e ↦ handle_err e s
        | panic ↦ (panic, s)
      ]
