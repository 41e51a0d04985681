-- ===== src/Move/Endings.antt =====
-- How the steps of a move end once the updates are known, from its last step to its first.
use inventory_access_poc.Prelude.{
  ℕ, ◌≡◌, ◌≢◌, refl, ◌∙◌, subst, ◌⊎◌, inl, inr, List, map, none, some, Option, if◌then◌else◌, ◌==◌,
}
use inventory_access_poc.Prelude.Int.{ℤ, int_eq}
use inventory_access_poc.Errors.{Error, Result, ok, err, ⊤, Action, ◌>>◌}
use inventory_access_poc.Tables.{Tables, SystemRepo, SystemAdvisories, SystemPlatform, Baseline}
use inventory_access_poc.Spice.{SpiceDb, IsAtomic, RelationshipUpdate}
use inventory_access_poc.Driver.{Driver, UuidLibrary}
use inventory_access_poc.Database.{
  Answer, begin_tx, rollback, commit, exec_cases, commit_cases, begin_tx_cases,
}
use inventory_access_poc.Move.{
  World, move_system_repo, move_system_advisories, move_system_platform, move_baseline, on_postgres,
  give_up, after_exec, after_write, exec_with_rollback, write_relationships, in_transaction,
}

abbrev renumbered : ℤ → ℤ → ℤ → ℤ
renumbered to from account = if account == from then to else account

-- The tables in which all that belonged to the one account belongs to the other, and no more has changed.
abbrev pub moved : ℤ → ℤ → Tables → Tables
moved to from t = record t {
  system_repo =
      map (λ (r : SystemRepo). record r { rh_account_id = renumbered to from r.rh_account_id })
        t.system_repo;
  system_advisories =
      map
        (λ (r : SystemAdvisories). record r { rh_account_id = renumbered to from r.rh_account_id })
        t.system_advisories;
  system_platform =
      map (λ (r : SystemPlatform). record r { rh_account_id = renumbered to from r.rh_account_id })
        t.system_platform;
  baseline =
      map (λ (r : Baseline). record r { rh_account_id = renumbered to from r.rh_account_id })
        t.baseline;
}

module _ (S : SpiceDb) where
  -- SpiceDB has accepted the updates, and nothing else has changed there.
  abbrev pub IsWritten : List RelationshipUpdate → S.State → S.State → Type 0
  IsWritten us s s' = ((S.write us s).0 ≡ none) × (s' ≡ (S.write us s).1)

  -- From tables `t` and a SpiceDB `s`: nothing has changed and no success is reported; or both
  -- sides have changed and success is reported; or the commit reported an error once SpiceDB had
  -- accepted, and then the tables are the old or the new ones.
  pub data HasEnded (us : List RelationshipUpdate) (t t' : Tables) (s : S.State) (r : Result ⊤)
      (w : World S.State) : Type 0 where
    unchanged : r ≢ ok tt → w.postgres.committed ≡ t → w.spice_db ≡ s → HasEnded us t t' s r w
    complete :
        r ≡ ok tt → w.postgres.committed ≡ t' → IsWritten us s w.spice_db → HasEnded us t t' s r w
    torn :
        (e : Error)
        → r ≡ err e
        → (w.postgres.committed ≡ t) ⊎ (w.postgres.committed ≡ t')
        → IsWritten us s w.spice_db
        → HasEnded us t t' s r w

  -- SpiceDB reported an error and that error is returned: the tables are as before, and SpiceDB stores
  -- whatever the failed request has left.
  abbrev pub IsRefused :
      List RelationshipUpdate → Tables → S.State → Result ⊤ → World S.State → Type 0
  IsRefused us t s r w =
      (e : Error) × ((S.write us s).0 ≡ some e)
      × (r ≡ err e)
      × (w.postgres.committed ≡ t)
      × (w.spice_db ≡ (S.write us s).1)

  -- If SpiceDB writes atomically, an error of it leaves everything as it was.
  pub atomic-HasEnded :
      (us : List RelationshipUpdate) (t t' : Tables) (s : S.State) (r : Result ⊤)
      (w : World S.State)
      → IsAtomic S
      → HasEnded us t t' s r w ⊎ IsRefused us t s r w
      → HasEnded us t t' s r w
  atomic-HasEnded us t t' s r w atomic (inl h) = h
  atomic-HasEnded us t t' s r w atomic (inr (e, bad, o, same, left)) =
      unchanged (λ y. cc) same (left ∙ atomic.refused us s bad)

module _ (S : SpiceDb) (U : UuidLibrary) (driver : Driver) (answers : ℕ → Answer) where
  abbrev pub Ended :
      List RelationshipUpdate → Tables → Tables → S.State → Result ⊤ × World S.State → Type 0
  Ended us t t' s (r, w) = HasEnded S us t t' s r w ⊎ IsRefused S us t s r w

  -- Inside the transaction nothing is committed and SpiceDB has not been asked.
  abbrev IsOpen : Tables → Tables → S.State → World S.State → Type 0
  IsOpen t p s w = (w.postgres.committed ≡ t) × (w.postgres.pending ≡ some p) × (w.spice_db ≡ s)

  exec_with_rollback-Ended :
      (us : List RelationshipUpdate) (f : Tables → Tables) (k : Action (World S.State) ⊤)
      (t p t' : Tables) (s : S.State) (w : World S.State)
      → IsOpen t p s w
      → ((w' : World S.State) → IsOpen t (f p) s w' → Ended us t t' s (k w'))
      → Ended us t t' s ((exec_with_rollback S U driver answers f >> k) w)
  unfolding exec_with_rollback after_exec give_up rollback
  exec_with_rollback-Ended us f k t p t' s w (c, q, d) h =
      elim (exec_cases answers f w.postgres p q) [
        | inl (c', e, same, next) ↦
            rw (e, exec_with_rollback) (h (record w { postgres = c' }) (same ∙ c, next, d))
        | inr (x, c', e, same) ↦ rw (e, exec_with_rollback) (inl (unchanged (λ y. cc) (same ∙ c) d))
      ]

  commit-Ended :
      (us : List RelationshipUpdate) (t p : Tables) (s : S.State) (w : World S.State)
      → IsOpen t p (S.write us s).1 w
      → (S.write us s).0 ≡ none
      → Ended us t p s (on_postgres (commit answers) w)
  commit-Ended us t p s w (c, q, d) accepted = elim (commit_cases answers w.postgres p q) [
    | inl (c', e, new) ↦ rw e (inl (complete refl new (accepted, d)))
    | inr (x, c', e, inl old) ↦ rw e (inl (torn x refl (inl (old ∙ c)) (accepted, d)))
    | inr (x, c', e, inr new) ↦ rw e (inl (torn x refl (inr new) (accepted, d)))
  ]

  after_write-Ended :
      (us : List RelationshipUpdate) (t p : Tables) (w : World S.State) (o : Option Error)
      (s : S.State)
      → w.postgres.committed ≡ t
      → w.postgres.pending ≡ some p
      → (S.write us w.spice_db).0 ≡ o
      → s ≡ (S.write us w.spice_db).1
      → Ended us t p w.spice_db
          ((after_write S U driver answers (o, s) >> on_postgres (commit answers)) w)
  unfolding after_write give_up rollback
  after_write-Ended us t p w none s c q e f =
      commit-Ended us t p w.spice_db (record w { spice_db = s }) (c, q, f) e
  after_write-Ended us t p w (some x) s c q e f = inr (x, e, refl, c, f)

  -- The last two steps, from the tables `p` of the transaction.
  write-Ended :
      (us : List RelationshipUpdate) (t p : Tables) (w : World S.State)
      → w.postgres.committed ≡ t
      → w.postgres.pending ≡ some p
      → Ended us t p w.spice_db
          ((write_relationships S U driver answers us >> on_postgres (commit answers)) w)
  unfolding write_relationships
  write-Ended us t p w c q =
      after_write-Ended us t p w (S.write us w.spice_db).0 (S.write us w.spice_db).1 c q refl refl

  in_transaction-Ended :
      (from to : ℤ) (us : List RelationshipUpdate) (t : Tables) (w : World S.State)
      → w.postgres.committed ≡ t
      → w.postgres.pending ≡ some t
      → Ended us t
          (moved to from t)
          w.spice_db
          (in_transaction S U driver answers from to us (ok tt) w)
  unfolding in_transaction
  in_transaction-Ended from to us t w c q =
      let s = w.spice_db in
      let t' = moved to from t in
      let step = exec_with_rollback-Ended us in
      let end = write_relationships S U driver answers us >> on_postgres (commit answers) in
      let call = exec_with_rollback S U driver answers in
      let last = call (move_baseline to from) >> end in
      let third = call (move_system_platform to from) >> last in
      let second = call (move_system_advisories to from) >> third in
      let t₁ = move_system_repo to from t in
      let t₂ = move_system_advisories to from t₁ in
      let t₃ = move_system_platform to from t₂ in
      step (move_system_repo to from) second t t t' s w (c, q, refl)
        λ w₁ o₁. step (move_system_advisories to from) third t t₁ t' s w₁ o₁ λ w₂ o₂.
          step (move_system_platform to from) last t t₂ t' s w₂ o₂ λ w₃ o₃.
            step (move_baseline to from) end t t₃ t' s w₃ o₃ λ w₄ (c₄, q₄, d₄).
              subst (λ s. Ended us t t' s (end w₄)) d₄ (write-Ended us t t' w₄ c₄ q₄)

  -- What follows once the updates are gathered.
  pub begun-Ended :
      (from to : ℤ) (us : List RelationshipUpdate) (w : World S.State)
      → Ended us w.postgres.committed (moved to from w.postgres.committed) w.spice_db (
          let (r, c) = begin_tx answers w.postgres in
          in_transaction S U driver answers from to us r (record w { postgres = c }))
  unfolding in_transaction
  begun-Ended from to us w =
      let (c, same, begun) = begin_tx_cases answers w.postgres in
      elim begun [
        | inl (e, fresh) ↦ rw e (
            in_transaction-Ended from to us w.postgres.committed (record w { postgres = c }) same
              fresh)
        | inr (x, e) ↦ rw e (inl (unchanged (λ y. cc) same refl))
      ]
