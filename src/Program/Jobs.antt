-- ===== src/Program/Jobs.antt =====
-- What a run does to the systems with hosts and to SpiceDB where every row of a query arrives.
use inventory_access_poc.Prelude.{◌≡◌, ◌≢◌, refl, sym, ap, ◌∙◌, subst, ◌⊎◌, inl, inr, true, none}
use inventory_access_poc.Prelude.Int.{ℤ}
use inventory_access_poc.Prelude.Bytes.{Text}
use inventory_access_poc.Errors.{Result, ok, err, panic, ⊤}
use inventory_access_poc.Tables.{UuidBytes}
use inventory_access_poc.Spice.{SpiceDb, IsAtomic, Relationship}
use inventory_access_poc.Driver.{IsReliable, UuidLibrary}
use inventory_access_poc.Migration.{systems_with_hosts}
use inventory_access_poc.Migration.Hosts.{migrate_hosts_kept}
use inventory_access_poc.Migration.Packages.{migrate_packages_bounds}
use inventory_access_poc.Move.{World, hosts_of_account}
use inventory_access_poc.Move.Endings.{moved, HasEnded}
use inventory_access_poc.Move.Success.{moves_of}
use inventory_access_poc.Move.Reliable.{move_systems-HasEnded_reliable}
use inventory_access_poc.Refresh.Invariants.{refresh_packages_caches-kept, systems-IsKept}
use inventory_access_poc.Router.{
  Environment, Job, refresh_package_caches, migrate_content_to_spice_db,
  migrate_packages_to_spice_db, move_systems_between, listen_and_serve, chosen_job,
}
use inventory_access_poc.Process.{Ending, finished, after_job}
use inventory_access_poc.Program.{Services, Store, execute, started}
use inventory_access_poc.Program.Effects.{IsRun, aborted, performed, EndsAfter}
use inventory_access_poc.Program.Runs.{serve_requests-same}

finished_move :
    (from to : ℤ) (r : Result ⊤) → after_job (move_systems_between from to) r ≡ finished → r ≡ ok tt
finished_move from to (ok _) e = refl
finished_move from to (err x) e = cc
finished_move from to panic e = cc

module _ (S : SpiceDb) where
  -- The systems with hosts are the same, and SpiceDB holds all that it held.
  abbrev Grown : Store S.State → World S.State → Type 0
  Grown st w =
      (systems_with_hosts w.postgres.committed ≡ systems_with_hosts st.tables)
      × ((r : Relationship) → S.holds st.relationships r ≡ true → S.holds w.spice_db r ≡ true)

  Grown-refl :
      (st : Store S.State) (w : World S.State)
      → w.postgres.committed ≡ st.tables
      → w.spice_db ≡ st.relationships
      → Grown st w
  Grown-refl st w e f = (ap systems_with_hosts e, λ r h. ap (λ s. S.holds s r) f ∙ h)

  -- So it is, and the process does not finish where it is to move systems.
  abbrev pub OtherEnded : Environment → Store S.State → Ending → World S.State → Type 0
  OtherEnded env st ending w =
      Grown st w
      × ((from to : ℤ) → chosen_job env ≡ ok (move_systems_between from to) → ending ≢ finished)

  -- A move has ended, and the process has not finished unless it succeeded.
  abbrev pub MoveEnded :
      (UuidBytes → Text) → Environment → Store S.State → Ending → World S.State → Type 0
  MoveEnded text env st ending w =
      (from : ℤ) × (to : ℤ) × (r : Result ⊤) × (chosen_job env ≡ ok (move_systems_between from to))
      × HasEnded S (moves_of text from to (hosts_of_account from st.tables)) st.tables
          (moved to from st.tables) st.relationships r w
      × (ending ≡ finished → r ≡ ok tt)

  module _ (U : UuidLibrary) (id_of : UuidBytes → U.Uuid)
      (reads : (b : UuidBytes) → U.from_bytes b ≡ ok (id_of b)) (sv : Services S.State)
      (atomic : IsAtomic S) (reliable : IsReliable sv.driver) where
    abbrev text : UuidBytes → Text
    text b = U.to_string (id_of b)

    ends_well :
        (env : Environment) (job : Job) (from to : ℤ) (r : Result ⊤) (ending : Ending)
        → job ≡ move_systems_between from to
        → EndsAfter S U sv env job r ending
        → ending ≡ finished
        → r ≡ ok tt
    ends_well env job from to r ending same (inl e) done =
        finished_move from to r (ap (λ j. after_job j r) (sym same) ∙ sym e ∙ done)
    ends_well env job from to r ending same (inr (e, _)) done = cc

    execute-cases :
        (env : Environment) (job : Job) (st : Store S.State) (ending : Ending)
        → chosen_job env ≡ ok job
        → let (r, w) = execute S U sv job (started S U sv st).world in
          EndsAfter S U sv env job r ending
          → OtherEnded env st ending w ⊎ MoveEnded text env st ending w
    unfolding execute
    execute-cases env refresh_package_caches st ending c f =
        let t = st.tables in
        let (e, g) =
          refresh_packages_caches-kept sv.not_in_empty sv.answers _ sv.hash none
            (started S U sv st).world.postgres
            (systems-IsKept sv.not_in_empty sv.answers t.system_platform t.inventory_hosts)
            (refl, refl) in
        inl ((rw (e, g) refl, λ r h. h), λ from to other. absurd cc)
    execute-cases env migrate_content_to_spice_db st ending c f = inl (
      (
        refl,
        λ r.
            migrate_hosts_kept S U id_of reads sv.driver st.tables st.relationships r reliable
              atomic,
      ),
      λ from to other. absurd cc,
    )
    execute-cases env migrate_packages_to_spice_db st ending c f = inl (
      (
        refl,
        λ r. (migrate_packages_bounds S sv.driver st.tables st.relationships r reliable atomic).0,
      ),
      λ from to other. absurd cc,
    )
    execute-cases env (move_systems_between from to) st ending c f =
        let w₀ = (started S U sv st).world in
        inr (
          from,
          to,
          _,
          c,
          move_systems-HasEnded_reliable S U id_of reads sv.driver sv.answers from to w₀ atomic
              reliable,
          ends_well env (move_systems_between from to) from to _ ending refl f,
        )
    execute-cases env listen_and_serve st ending c f =
        let (kept, same) = serve_requests-same S U sv sv.arrivals (started S U sv st).world in
        inl (
          Grown-refl st (execute S U sv listen_and_serve (started S U sv st).world).1 kept same,
          λ from to other. absurd cc,
        )

    pub IsRun-cases :
        (env : Environment) (st : Store S.State) (ending : Ending) (w : World S.State)
        → IsRun S U sv env (started S U sv st).world ending w
        → OtherEnded env st ending w ⊎ MoveEnded text env st ending w
    IsRun-cases env st ending w (aborted o e) = inl (
      Grown-refl st w (ap (λ (x : World S.State). x.postgres.committed) e)
          (ap (λ (x : World S.State). x.spice_db) e),
      λ from to chosen. o,
    )
    IsRun-cases env st ending w (performed job c e f) =
        subst (λ (x : World S.State). OtherEnded env st ending x ⊎ MoveEnded text env st ending x)
          (sym e) (execute-cases env job st ending c f)
