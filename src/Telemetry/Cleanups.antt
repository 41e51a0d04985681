-- ===== src/Telemetry/Cleanups.antt =====
-- Every cleanup that the set-up registers is invoked once.
use inventory_access_poc.Prelude.{
  ◌≡◌, refl, sym, ap, ◌∙◌, subst, ◌+◌, inl, inr, some, List, [], ◌∷◌, ◌++◌, append-nil,
  append_assoc,
}
use inventory_access_poc.Prelude.Bytes.{Text}
use inventory_access_poc.Errors.{Error, Result, ok, Result-cases}
use inventory_access_poc.Telemetry.{
  TracerProvider, MeterProvider, Cleanup, tracer_shutdown, meter_shutdown, OpenTelemetry, Sdk,
  Joined, errors_join, new_resource, new_trace_provider, new_meter_provider, invoke_all, shutdown,
  handle_err, register, set_up_meter, set_up_tracer, setup_otel_sdk,
}

module _ {E R : Type 0} (otel : OpenTelemetry E R) where
  abbrev of_meter : Result (MeterProvider E R) → List (Cleanup E R)
  of_meter (ok p) = meter_shutdown p ∷ []
  of_meter _ = []

  abbrev of_tracer : R → Result (TracerProvider E R) → List (Cleanup E R)
  of_tracer res (ok p) = tracer_shutdown p ∷ of_meter (new_meter_provider otel res)
  of_tracer res _ = []

  abbrev of_resource : Result R → List (Cleanup E R)
  of_resource (ok res) = of_tracer res (new_trace_provider otel res)
  of_resource _ = []

  -- The cleanups of the providers that could be made.
  abbrev pub registered : Text → Text → List (Cleanup E R)
  registered name version = of_resource (new_resource otel name version)

  invoke_all-append :
      (fs : List (Cleanup E R)) (es : Joined) (s : Sdk E R)
      → (invoke_all otel fs es s).1 ≡ record s { invoked = s.invoked ++ fs }
  unfolding invoke_all
  invoke_all-append [] es s = rw (append-nil s.invoked) refl
  invoke_all-append (f ∷ fs) es s =
      invoke_all-append fs (errors_join es (otel.cleanup s.invoked f))
        (record s { invoked = s.invoked ++ f ∷ [] })
      ∙ rw (append_assoc s.invoked (f ∷ []) fs) refl

  -- `shutdown` invokes what is registered, and leaves nothing to invoke.
  shutdown_lem :
      (s : Sdk E R)
      → (shutdown otel s).1
        ≡ record s { shutdown_funcs = []; invoked = s.invoked ++ s.shutdown_funcs }
  unfolding shutdown
  shutdown_lem s =
      ap (λ (t : Sdk E R). record t { shutdown_funcs = [] })
        (invoke_all-append s.shutdown_funcs [] s)

  -- Behind a shutdown nothing is left, and these cleanups have been invoked.
  abbrev HasInvoked : List (Cleanup E R) → Sdk E R → Type 0
  HasInvoked fs s =
      let after = (shutdown otel s).1 in (after.shutdown_funcs ≡ []) × (after.invoked ≡ fs)

  HasInvoked-shutdown :
      (s : Sdk E R) (fs : List (Cleanup E R)) → s.invoked ++ s.shutdown_funcs ≡ fs → HasInvoked fs s
  HasInvoked-shutdown s fs e = rw (shutdown_lem s) (refl, e)

  handle_err-HasInvoked :
      (e : Error) (s : Sdk E R) → HasInvoked (s.invoked ++ s.shutdown_funcs) (handle_err otel e s).1
  unfolding handle_err
  handle_err-HasInvoked e s =
      HasInvoked-shutdown (shutdown otel s).1 _
        (ap (λ (t : Sdk E R). t.invoked ++ t.shutdown_funcs) (shutdown_lem s) ∙ append-nil _)

  set_up_meter-HasInvoked :
      (res : R) (s : Sdk E R)
      → HasInvoked
          ((s.invoked ++ s.shutdown_funcs) ++ of_meter (new_meter_provider otel res))
          (set_up_meter otel res s).1
  unfolding set_up_meter
  set_up_meter-HasInvoked res s =
      let fs = s.invoked ++ s.shutdown_funcs in
      elim (Result-cases (new_meter_provider otel res)) [
        | inl (p, e) ↦
            let s' : Sdk E R = record (register otel (meter_shutdown p) s) {
              meter_provider = some p;
            } in
            rw (e, set_up_meter)
              (HasInvoked-shutdown s' _ (sym (append_assoc s.invoked s.shutdown_funcs _)))
        | inr (inl (x, e)) ↦ rw (e, set_up_meter, append-nil fs) (handle_err-HasInvoked x s)
        | inr (inr e) ↦ rw (e, set_up_meter, append-nil fs) (HasInvoked-shutdown s fs refl)
      ]

  set_up_tracer-HasInvoked :
      (res : R) (s : Sdk E R)
      → HasInvoked
          ((s.invoked ++ s.shutdown_funcs) ++ of_tracer res (new_trace_provider otel res))
          (set_up_tracer otel res s).1
  unfolding set_up_tracer
  set_up_tracer-HasInvoked res s =
      let fs = s.invoked ++ s.shutdown_funcs in
      elim (Result-cases (new_trace_provider otel res)) [
        | inl (p, e) ↦
            let s' : Sdk E R = record (register otel (tracer_shutdown p) s) {
              tracer_provider = some p;
            } in
            let same : (s.invoked ++ (s.shutdown_funcs ++ tracer_shutdown p ∷ []))
                  ++ of_meter (new_meter_provider otel res)
                ≡ fs ++ tracer_shutdown p ∷ of_meter (new_meter_provider otel res) =
              ap (λ l. l ++ of_meter (new_meter_provider otel res))
                (sym (append_assoc s.invoked s.shutdown_funcs (tracer_shutdown p ∷ [])))
              ∙ append_assoc fs (tracer_shutdown p ∷ []) _ in
            rw (e, set_up_tracer)
              (subst (λ l. HasInvoked l (set_up_meter otel res s').1) same
                (set_up_meter-HasInvoked res s'))
        | inr (inl (x, e)) ↦ rw (e, set_up_tracer, append-nil fs) (handle_err-HasInvoked x s)
        | inr (inr e) ↦ rw (e, set_up_tracer, append-nil fs) (HasInvoked-shutdown s fs refl)
      ]

  -- However the set-up ends, with both providers, with an error or in a panic, and though `shutdown` may
  -- have run already, once `shutdown` is called there is no cleanup left, and those of the providers
  -- that could be made have been invoked, each once and in the order in which they were registered.
  pub setup_otel_sdk-shutdown :
      (name version : Text) (s : Sdk E R)
      → let after = (shutdown otel (setup_otel_sdk otel name version s).1).1 in
        (after.shutdown_funcs ≡ []) × (after.invoked ≡ s.invoked ++ registered name version)
  unfolding setup_otel_sdk
  setup_otel_sdk-shutdown name version s₀ =
      let s : Sdk E R = record s₀ { shutdown_funcs = [] } in
      let before = append-nil s₀.invoked in
      elim (Result-cases (new_resource otel name version)) [
        | inl (res, e) ↦
            let s' : Sdk E R = record s { propagators = s.propagators + 1 } in
            rw (e, setup_otel_sdk)
              (subst
                (λ l.
                  HasInvoked (l ++ of_tracer res (new_trace_provider otel res))
                    (set_up_tracer otel res s').1)
                before (set_up_tracer-HasInvoked res s'))
        | inr (inl (x, e)) ↦ rw (e, setup_otel_sdk) (handle_err-HasInvoked x s)
        | inr (inr e) ↦ rw (e, setup_otel_sdk) (HasInvoked-shutdown s _ refl)
      ]
