-- ===== src/Move/Reliable.antt =====
-- The ends of a move in which every row arrives: which updates SpiceDB was sent.
use inventory_access_poc.Prelude.{ℕ, ◌≡◌, refl, subst, inl, inr, map}
use inventory_access_poc.Prelude.Int.{ℤ}
use inventory_access_poc.Errors.{ok}
use inventory_access_poc.Tables.{Tables, UuidBytes}
use inventory_access_poc.Spice.{SpiceDb, IsAtomic}
use inventory_access_poc.Driver.{Driver, IsReliable, UuidLibrary}
use inventory_access_poc.Database.{Answer, current, begin_tx, query_cases}
use inventory_access_poc.Move.{
  World, hosts_of_account, host_id_values, in_transaction, move_systems,
}
use inventory_access_poc.Move.Endings.{
  moved, HasEnded, Ended, unchanged, begun-Ended, atomic-HasEnded,
}
use inventory_access_poc.Move.Success.{moves_of, printed, gather_lem}

module _ (S : SpiceDb) (U : UuidLibrary) (id_of : UuidBytes → U.Uuid)
    (reads : (b : UuidBytes) → U.from_bytes b ≡ ok (id_of b)) where
  move_systems-Ended :
      (driver : Driver) (answers : ℕ → Answer) (from to : ℤ) (w : World S.State)
      → IsReliable driver
      → Ended S U driver answers
          (moves_of (printed S U id_of reads) from to (hosts_of_account from (current w.postgres)))
          w.postgres.committed
          (moved to from w.postgres.committed)
          w.spice_db
          (move_systems S U driver answers from to w)
  unfolding move_systems
  move_systems-Ended driver answers from to w reliable =
      let t = current w.postgres in
      let hs = hosts_of_account from t in
      let us = moves_of (printed S U id_of reads) from to hs in
      let (c, same, kept, asked) =
        query_cases answers (λ u. map host_id_values (hosts_of_account from u)) w.postgres in
      elim asked [
        | inl e ↦
            rw
              (
                e,
                reliable (map host_id_values hs),
                gather_lem S U id_of reads driver answers from to hs (record w { postgres = c }),
              )
              (subst
                (λ (t' : Tables).
                  let (r, c') = begin_tx answers c in
                  Ended S U driver answers us t' (moved to from t') w.spice_db
                    (in_transaction S U driver answers from to us r (record w { postgres = c' })))
                same (begun-Ended S U driver answers from to us (record w { postgres = c })))
        | inr (x, e) ↦ rw e (inl (unchanged (λ y. cc) same refl))
      ]

  -- If every row arrives and every id can be read, then the updates of a move are those of the hosts
  -- of the account, however it ends.
  pub move_systems-HasEnded_reliable :
      (driver : Driver) (answers : ℕ → Answer) (from to : ℤ) (w : World S.State)
      → IsAtomic S
      → IsReliable driver
      → let (r, w') = move_systems S U driver answers from to w in
        HasEnded S
          (moves_of (printed S U id_of reads) from to (hosts_of_account from (current w.postgres)))
          w.postgres.committed
          (moved to from w.postgres.committed)
          w.spice_db
          r
          w'
  move_systems-HasEnded_reliable driver answers from to w atomic reliable =
      let (r, w') = move_systems S U driver answers from to w in
      atomic-HasEnded S _ w.postgres.committed (moved to from w.postgres.committed) w.spice_db r w'
        atomic (move_systems-Ended driver answers from to w reliable)
