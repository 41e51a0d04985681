-- ===== src/Transaction.antt =====
-- cachecontent/common.go: `withTx`, which runs a function in a gorm transaction. `WithTx` and
-- `WithReadReplicaTx` both call it with the one database handle that there is.
pub mod Atomic
use inventory_access_poc.Prelude.{ℕ, Option, none, some}
use inventory_access_poc.Prelude.Bytes.{codes}
use inventory_access_poc.Errors.{Error, Result, ok, err, panic, ⊤, wrap, Action, lift}
use inventory_access_poc.Tables.{Tables}
use inventory_access_poc.Database.{Answer, Connection, query, begin_tx, exec, rollback, commit}

-- The `*gorm.DB` of a transaction, by its `Error`: where `Begin` has failed, every call on it reports
-- that error and sends nothing.
abbrev pub Handle : Type 0
Handle = Option Error

abbrev pub handle : Result ⊤ → Handle
handle (ok _) = none
handle (err e) = some e
handle panic = none

wrap_commit : Result ⊤ × Connection → Result ⊤ × Connection
wrap_commit (r, c) = (wrap (codes "Commit") r, c)

give : {A : Type 0} → A → Result ⊤ × Connection → Result A × Connection
give a (ok _, c) = (ok a, c)
give a (err e, c) = (err e, c)
give a (panic, c) = (panic, c)

module _ (answers : ℕ → Answer) where
  -- `Find`, `Scan`
  unfoldable pub find : {A : Type 0} → Handle → (Tables → A) → Action Connection A
  unfolding query
  find none f = query answers f
  find (some e) f = lift (err e)

  -- `Exec`, `Delete`, `Update`
  unfoldable pub execute : Handle → (Tables → Tables) → Action Connection ⊤
  unfolding exec
  execute none f = exec answers f
  execute (some e) f = lift (err e)

  -- `errors.Wrap(tx.Commit().Error, "Commit")`
  unfoldable pub commit_handle : Handle → Action Connection ⊤
  unfolding commit wrap_commit
  commit_handle none c = wrap_commit (commit answers c)
  commit_handle (some e) c = wrap_commit (err e, c)

  -- The deferred `Rollback`, where the transaction has begun.
  unfoldable pub rollback_handle : Handle → Connection → Connection
  unfolding rollback
  rollback_handle none c = rollback c
  rollback_handle (some e) c = c

  -- After the function: a value is kept only if the commit reports no error.
  unfoldable pub finish : {A : Type 0} → Handle → Result A → Action Connection A
  unfolding commit_handle rollback_handle give
  finish h (ok a) c = give a (commit_handle h c)
  finish h (err e) c = (err e, rollback_handle h c)
  finish h panic c = (panic, rollback_handle h c)

  unfoldable pub with_tx : {A : Type 0} → (Handle → Action Connection A) → Action Connection A
  unfolding begin_tx finish
  with_tx do_ c =
      let (r, c₁) = begin_tx answers c in let (a, c₂) = do_ (handle r) c₁ in finish (handle r) a c₂
