-- ===== src/Move/Success.antt =====
-- `MoveSystems` where the database, the driver, the id library and SpiceDB do what they are asked:
-- the updates that are sent, and what is stored after them.
use inventory_access_poc.Prelude.{ℕ, ◌≡◌, refl, sym, subst, fun_ext, none, List, [], ◌∷◌, ◌++◌, map}
use inventory_access_poc.Prelude.Int.{ℤ}
use inventory_access_poc.Prelude.Bytes.{Text}
use inventory_access_poc.Errors.{ok}
use inventory_access_poc.Tables.{InventoryHost, UuidBytes}
use inventory_access_poc.Spice.{SpiceDb, RelationshipUpdate}
use inventory_access_poc.Driver.{Driver, IsReliable, UuidLibrary}
use inventory_access_poc.Database.{Answer, done, all_done, current}
use inventory_access_poc.Move.{
  World, host_moves, host_id_values, hosts_of_account, gather, exec_with_rollback, after_exec,
  write_relationships, after_write, in_transaction, move_systems,
}
use inventory_access_poc.Move.Endings.{moved}

-- The two updates of every host, in the order of the hosts.
abbrev pub moves_of : (UuidBytes → Text) → ℤ → ℤ → List InventoryHost → List RelationshipUpdate
moves_of text from to [] = []
moves_of text from to (h ∷ hs) = host_moves from to (text h.id) ++ moves_of text from to hs

module _ (S : SpiceDb) (U : UuidLibrary) (id_of : UuidBytes → U.Uuid)
    (reads : (b : UuidBytes) → U.from_bytes b ≡ ok (id_of b)) where
  abbrev pub printed : UuidBytes → Text
  printed b = U.to_string (id_of b)

  pub gather_lem :
      (driver : Driver) (answers : ℕ → Answer) (from to : ℤ) (hs : List InventoryHost)
      (w : World S.State)
      → gather S U driver answers from to (map ok (map host_id_values hs)) w
        ≡ (ok (moves_of printed from to hs), w)
  unfolding gather
  gather_lem driver answers from to [] w = refl
  gather_lem driver answers from to (h ∷ hs) w =
      rw (reads h.id, gather_lem driver answers from to hs w)

  move_systems_done :
      (driver : Driver) (from to : ℤ) (w : World S.State)
      → IsReliable driver
      → let us = moves_of printed from to (hosts_of_account from (current w.postgres)) in
        let (r, w') = move_systems S U driver all_done from to w in
        (S.write us w.spice_db).0 ≡ none
        → (r ≡ ok tt)
          × (w'.postgres.committed ≡ moved to from w.postgres.committed)
          × (w'.spice_db ≡ (S.write us w.spice_db).1)
  unfolding move_systems in_transaction exec_with_rollback after_exec write_relationships
      after_write
  move_systems_done driver from to w reliable accepted =
      let hs = hosts_of_account from (current w.postgres) in
      rw (reliable (map host_id_values hs), gather_lem driver all_done from to hs, accepted)
        (refl, refl, refl)

  -- If the database does every request, every row arrives, every id can be read and SpiceDB accepts
  -- the updates, then the move succeeds: the four statements are committed, and SpiceDB was sent, in
  -- one request, for each host of the account the deletion from the old workspace and the touch of
  -- the new one.
  pub move_systems_succeeds :
      (driver : Driver) (answers : ℕ → Answer) (from to : ℤ) (w : World S.State)
      → ((n : ℕ) → answers n ≡ done)
      → IsReliable driver
      → let us = moves_of printed from to (hosts_of_account from (current w.postgres)) in
        let (r, w') = move_systems S U driver answers from to w in
        (S.write us w.spice_db).0 ≡ none
        → (r ≡ ok tt)
          × (w'.postgres.committed ≡ moved to from w.postgres.committed)
          × (w'.spice_db ≡ (S.write us w.spice_db).1)
  move_systems_succeeds driver answers from to w fine reliable accepted =
      subst
        (λ a.
          let (r, w') = move_systems S U driver a from to w in
          (r ≡ ok tt)
          × (w'.postgres.committed ≡ moved to from w.postgres.committed)
          × (w'.spice_db
              ≡ (S.write (moves_of printed from to (hosts_of_account from (current w.postgres)))
                  w.spice_db).1))
        (sym (fun_ext fine)) (move_systems_done driver from to w reliable accepted)
