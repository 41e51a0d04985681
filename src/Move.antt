-- ===== src/Move.antt =====
-- migration/move_systems.go: the hosts of one account are moved to the ungrouped workspace of
-- another in SpiceDB, and its rows to the other account in the content database.
pub mod Sent
pub mod Endings
pub mod Outcomes
pub mod Success
pub mod Workspaces
pub mod Reliable
pub mod Placement
use inventory_access_poc.Prelude.{
  ℕ, ◌≡◌, List, [], ◌∷◌, ◌++◌, map, join, keep, Option, none, some, if◌then◌else◌, ◌==◌, bytes_eq,
}
use inventory_access_poc.Prelude.Int.{ℤ, int_eq}
use inventory_access_poc.Prelude.Bytes.{Text, codes}
use inventory_access_poc.Prelude.Decimal.{format_int}
use inventory_access_poc.Errors.{
  Error, Result, ok, err, panic, ⊤, returned, Action, pure, lift, modify, proceed, ◌>>=◌, ◌>>◌,
}
use inventory_access_poc.Tables.{
  Tables, SystemPlatform, InventoryHost, SystemRepo, SystemAdvisories, Baseline,
}
use inventory_access_poc.Spice.{
  SpiceDb, Relationship, RelationshipUpdate, Operation, touch, delete, object, ObjectReference,
}
use inventory_access_poc.Driver.{Value, uuid, as_uuid, index, Rows, Driver, UuidLibrary}
use inventory_access_poc.Database.{Answer, Connection, query, begin_tx, exec, rollback, commit}

-- `select ih.id as hostid from system_platform sp join inventory.hosts ih on sp.inventory_id = ih.id
-- where sp.rh_account_id = $1;`
unfoldable pub hosts_of_account : ℤ → Tables → List InventoryHost
hosts_of_account account t =
    map (λ (row : SystemPlatform × InventoryHost). row.1)
      (keep (λ row. row.0.rh_account_id == account)
        (join (λ sp ih. sp.inventory_id == ih.id) t.system_platform t.inventory_hosts))

abbrev pub host_id_values : InventoryHost → List Value
host_id_values ih = uuid ih.id ∷ []

-- `update … set rh_account_id = $1 where rh_account_id = $2;`
abbrev pub moved_account : ℤ → ℤ → ℤ → ℤ
moved_account to from account = if account == from then to else account

abbrev pub move_system_repo : ℤ → ℤ → Tables → Tables
move_system_repo to from t = record t {
  system_repo =
      map (λ (r : SystemRepo). record r { rh_account_id = moved_account to from r.rh_account_id })
        t.system_repo;
}

abbrev pub move_system_advisories : ℤ → ℤ → Tables → Tables
move_system_advisories to from t = record t {
  system_advisories =
      map
        (λ (r : SystemAdvisories). record r {
          rh_account_id = moved_account to from r.rh_account_id;
        })
        t.system_advisories;
}

abbrev pub move_system_platform : ℤ → ℤ → Tables → Tables
move_system_platform to from t = record t {
  system_platform =
      map
        (λ (r : SystemPlatform). record r { rh_account_id = moved_account to from r.rh_account_id })
        t.system_platform;
}

abbrev pub move_baseline : ℤ → ℤ → Tables → Tables
move_baseline to from t = record t {
  baseline =
      map (λ (r : Baseline). record r { rh_account_id = moved_account to from r.rh_account_id })
        t.baseline;
}

-- `fmt.Sprintf("%d_root/ungrouped", account)`
unfoldable pub workspace_of : ℤ → ObjectReference
workspace_of account = object (codes "workspace") (format_int account ++ codes "_root/ungrouped")

abbrev pub in_workspace : Text → ObjectReference → Relationship
in_workspace host workspace = record {
  resource = object (codes "inventory/host") host;
  relation = codes "workspace";
  subject = workspace;
}

-- The two updates of a host.
abbrev pub host_moves : ℤ → ℤ → Text → List RelationshipUpdate
host_moves from to host =
    record { operation = delete; relationship = in_workspace host (workspace_of from) }
    ∷ record { operation = touch; relationship = in_workspace host (workspace_of to) }
    ∷ []

-- The connection and what SpiceDB stores.
pub record World (State : Type 0) : Type 0 where
  pub postgres : Connection
  pub spice_db : State

-- A request to the database.
abbrev pub on_postgres : {State A : Type 0} → Action Connection A → Action (World State) A
on_postgres m w = let (r, c) = m w.postgres in (r, record w { postgres = c })

module _ (S : SpiceDb) (U : UuidLibrary) (driver : Driver) (answers : ℕ → Answer) where
  -- `for rows.Next() { … }`, which gathers the updates.
  unfoldable pub gather :
      ℤ → ℤ → List (Result (List Value)) → Action (World S.State) (List RelationshipUpdate)
  gather from to [] = pure []
  gather from to (r ∷ rs) = do
    values ← lift r
    v ← lift (index values 0)
    host_bytes ← lift (as_uuid v)
    host_id ← lift (U.from_bytes host_bytes)
    later ← gather from to rs
    pure (host_moves from to (U.to_string host_id) ++ later)

  -- `tx.Rollback(ctx)` and `return err`
  give_up : Result ⊤ → Action (World S.State) ⊤
  unfolding rollback
  give_up r w = (r, record w { postgres = rollback w.postgres })

  -- `execWithRollback`, after the statement.
  after_exec : Result ⊤ × Connection → Action (World S.State) ⊤
  unfolding give_up
  after_exec (ok _, c) w = (ok tt, record w { postgres = c })
  after_exec (err e, c) w = give_up (err e) (record w { postgres = c })
  after_exec (panic, c) w = (panic, record w { postgres = c })

  exec_with_rollback : (Tables → Tables) → Action (World S.State) ⊤
  unfolding exec after_exec
  exec_with_rollback f w = after_exec (exec answers f w.postgres) w

  after_write : Option Error × S.State → Action (World S.State) ⊤
  unfolding give_up
  after_write (none, s) w = (ok tt, record w { spice_db = s })
  after_write (some e, s) w = give_up (err e) (record w { spice_db = s })

  write_relationships : List RelationshipUpdate → Action (World S.State) ⊤
  unfolding after_write
  write_relationships updates w = after_write (S.write updates w.spice_db) w

  -- What follows `BeginTx`. Its error is not looked at: `tx` is nil then, and `tx.Exec` panics.
  pub in_transaction : ℤ → ℤ → List RelationshipUpdate → Result ⊤ → Action (World S.State) ⊤
  unfolding exec_with_rollback write_relationships commit
  in_transaction from to updates (ok _) = do
    exec_with_rollback (move_system_repo to from)
    exec_with_rollback (move_system_advisories to from)
    exec_with_rollback (move_system_platform to from)
    exec_with_rollback (move_baseline to from)
    write_relationships updates
    on_postgres (commit answers)
  in_transaction from to updates (err e) = lift panic
  in_transaction from to updates panic = lift panic

  unfoldable pub move_systems : ℤ → ℤ → Action (World S.State) ⊤
  unfolding gather in_transaction begin_tx query
  move_systems from to = do
    values ← on_postgres (query answers (λ t. map host_id_values (hosts_of_account from t)))
    rows ← lift (driver values)
    updates ← gather from to rows.stream
    λ w.
        let (r, c) = begin_tx answers w.postgres in
        in_transaction from to updates r (record w { postgres = c })
