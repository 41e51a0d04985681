-- ===== src/Bulk.antt =====
-- cachecontent/batch.go: `BulkInsert`, which inserts the objects of a slice by one statement, and scans the
-- rows that the statement returns into them. The columns are the fields of gorm's schema of the first
-- object. What gorm does is a record of functions (Bulk/Library); Bulk/Sql is the text of the statement.
pub mod Library
pub mod Sql
pub mod Columns
pub mod Cells
pub mod Vars
pub mod Balance
pub mod Execution
use inventory_access_poc.Prelude.{
  ℕ, suc, ◌+◌, Bool, true, false, not, ◌&&◌, ◌||◌, Option, none, some, List, [], ◌∷◌, ◌++◌, map,
  ◌==◌, if◌then◌else◌, length, sort, nat_eq, bytes_eq, bytes_ord,
}
use inventory_access_poc.Prelude.Dict.{Dict, lookup, insert}
use inventory_access_poc.Prelude.Bytes.{Text, codes}
use inventory_access_poc.Errors.{
  Result, ok, err, panic, message, Action, ⊤, ◌>>=◌, ◌>>◌, pure, lift, modify,
}
use inventory_access_poc.Bulk.Library.{
  Field, Schema, Object, structure, pointer, Argument, slice, no_slice, untyped_nil, Datum, value,
  time, nil, Statement, Returned, Gorm,
}
use inventory_access_poc.Bulk.Sql.{insert_func, group_text}

abbrev pub is_set : Option Text → Bool
is_set none = false
is_set (some t) = true

-- `field.TagSettings[key]`, which is empty for a key that is not there.
abbrev pub setting : Option Text → Text
setting none = []
setting (some t) = t

-- The fields that are left out: those of a relation, those with the tag `-`, those with a default that
-- the database sets, and a primary key that is called id. No field is nil: its name has been read.
unfoldable pub is_skipped : Field → Bool
is_skipped f =
    is_set (lookup (codes "FOREIGNKEY") f.tag_settings)
    || not (setting (lookup (codes "-") f.tag_settings) == [])
    || f.has_default_value && is_set (lookup (codes "DEFAULT") f.tag_settings)
    || f.db_name == codes "id" && f.primary_key

unfoldable pub is_timestamp : Field → Bool
is_timestamp f = f.name == codes "CreatedAt" || f.name == codes "UpdatedAt"

-- One round of the loop over the keys, in the order that Go iterates the map.
unfoldable pub add_column : Text → List Text × List Text → List Text × List Text
unfolding sort
add_column k (columns, placeholders) =
    if k == []
    then (columns, placeholders)
    else (sort (columns ++ k ∷ []), placeholders ++ codes "?" ∷ [])

unfoldable pub add_columns : List Text → List Text × List Text → List Text × List Text
unfolding add_column
add_columns [] acc = acc
add_columns (k ∷ ks) acc = add_columns ks (add_column k acc)

-- What a call of the package works on: the global `bulkNow`, as nanoseconds from the zero time; how often
-- a clock was read; `db.RowsAffected`; the caller's slice; and the statements that were sent.
pub record World (V : Type 0) : Type 0 where
  pub bulk_now : ℕ
  pub readings : ℕ
  pub rows_affected : ℕ
  pub objects : List (Object V)
  pub sent : List (Statement V)

module _ {V : Type 0} where
  -- What the loop over the fields does for one that the object has.
  unfoldable pub add_field : ℕ → Field → V → Dict Text (Datum V) → Dict Text (Datum V)
  unfolding is_skipped is_timestamp insert
  add_field now f v attributes =
      if is_skipped f
      then attributes
      else insert f.db_name (if is_timestamp f then time now else value v) attributes

  -- `FieldByName(…).Interface()` panics for a field that the object does not have, before the field is
  -- looked at.
  unfoldable pub add_fields :
      ℕ → Dict Text V → List Field → Dict Text (Datum V) → Result (Dict Text (Datum V))
  unfolding add_field lookup
  add_fields now values [] attributes = ok attributes
  add_fields now values (f ∷ fs) attributes = elim (lookup f.name values) [
    | none ↦ panic
    | some v ↦ add_fields now values fs (add_field now f v attributes)
  ]

  -- One pointer is followed, and what it leads to has to be a struct.
  unfoldable pub dereferenced : Object V → Option (Dict Text V)
  dereferenced (structure values) = some values
  dereferenced (pointer (structure values)) = some values
  dereferenced _ = none

  -- `row[key]`, which is nil for a key that is not there.
  unfoldable pub cell : Dict Text (Datum V) → Text → Datum V
  unfolding lookup
  cell row key = elim (lookup key row) [ none ↦ nil | some d ↦ d ]

  -- The deferred function, which also runs after a panic.
  unfoldable pub reset_bulk_now : {A : Type 0} → Action (World V) A → Action (World V) A
  reset_bulk_now m w = let (r, w') = m w in (r, record w' { bulk_now = 0 })

module _ {V R : Type 0} (gorm : Gorm V R) where
  -- `now`: the global time, or the clock of the global `Db` where that is zero.
  unfoldable pub current_time : Action (World V) ℕ
  current_time w =
      if w.bulk_now == 0
      then (gorm.global_now w.readings, record w { readings = suc w.readings })
      else (ok w.bulk_now, w)

  -- `objectToMap`
  unfoldable pub object_to_map : Schema → Object V → Action (World V) (Dict Text (Datum V))
  unfolding add_fields dereferenced current_time
  object_to_map schema object = elim (dereferenced object) [
    | none ↦ lift (err (message (codes "value must be kind of Struct")))
    | some values ↦ current_time >>= λ now. lift (add_fields now values schema.fields [])
  ]

  -- `columnNames` and `placeholders`, from the map of the first object.
  unfoldable pub build_columns_and_placeholders : Dict Text (Datum V) → List Text × List Text
  unfolding add_columns
  build_columns_and_placeholders row =
      add_columns (gorm.iterate (map (λ entry. entry.0) row)) ([], [])

  -- The loop over the objects: the variables of the statement.
  unfoldable pub gather_vars :
      Schema → List Text → List (Object V) → List (Datum V) → Action (World V) (List (Datum V))
  unfolding object_to_map cell
  gather_vars schema columns [] vars = pure vars
  gather_vars schema columns (object ∷ rest) vars = object_to_map schema object >>= λ row.
      gather_vars schema columns rest (vars ++ map (cell row) columns)

  -- The statement with these columns and placeholders.
  unfoldable pub assemble :
      Schema → List (Object V) → List Text × List Text → Action (World V) (Option (Statement V))
  unfolding gather_vars insert_func group_text
  assemble schema objects (columns, placeholders) =
      let quoted = map (λ c. gorm.quote (gorm.column_name schema.table c)) columns in
      let groups = map (λ o. group_text placeholders) objects in
      gather_vars schema columns objects [] >>= λ vars.
      lift (insert_func gorm.conflict (gorm.quote schema.table) quoted groups) >>= λ text.
      pure (some (record { schema = schema; vars = vars; sql = text }))

  -- The statement for a slice whose first object has this schema.
  unfoldable pub build_statement :
      Schema → Object V → List (Object V) → Action (World V) (Option (Statement V))
  unfolding object_to_map build_columns_and_placeholders assemble
  build_statement schema first objects = object_to_map schema first >>= λ row.
      assemble schema objects (build_columns_and_placeholders row)

  unfoldable pub set_bulk_now : Action (World V) ⊤
  set_bulk_now =
      modify (λ w. record w { bulk_now = gorm.now_func w.readings; readings = suc w.readings })

  -- `statementFromObjects`
  unfoldable pub statement_from_objects : List (Object V) → Action (World V) (Option (Statement V))
  unfolding build_statement reset_bulk_now set_bulk_now
  statement_from_objects [] = pure none
  statement_from_objects (first ∷ rest) = lift (gorm.parse_schema first) >>= λ schema.
      reset_bulk_now (set_bulk_now >> build_statement schema first (first ∷ rest))

  -- The loop over the returned rows. `i` runs to the number of objects inclusive, so that a further row
  -- makes `objects.Index(i)` panic. `done` are the objects that rows have been scanned into.
  unfoldable pub scan_rows : List R → List (Object V) → List (Object V) → Action (World V) ⊤
  scan_rows [] done rest w = (ok tt, record w { objects = done ++ rest })
  scan_rows (r ∷ rs) done [] w = (panic, record w { objects = done })
  scan_rows (r ∷ rs) done (o ∷ rest) w =
      let (outcome, o') = gorm.scan r o in
      let w' = record w { rows_affected = suc w.rows_affected } in
      elim outcome [
        | ok _ ↦ scan_rows rs (done ++ o' ∷ []) rest w'
        | err e ↦ (err e, record w' { objects = done ++ o' ∷ rest })
        | panic ↦ (panic, record w { objects = done ++ o' ∷ rest })
      ]

  -- `db.Raw(…).Rows()`
  unfoldable pub send : Statement V → Action (World V) (Returned R)
  send s w = (gorm.run s, record w { sent = w.sent ++ s ∷ [] })

  -- `bulkExec`
  unfoldable pub bulk_exec : Action (World V) ⊤
  unfolding statement_from_objects scan_rows send
  bulk_exec w =
      (statement_from_objects w.objects >>= λ found. elim found [
        | none ↦ pure tt
        | some s ↦ send s >>= λ returned. λ w'. scan_rows returned.rows [] w'.objects w'
      ])
        w

  -- `BulkInsert`. The objects of a slice are those of the world.
  unfoldable pub bulk_insert : Argument V → Action (World V) ⊤
  unfolding bulk_exec
  bulk_insert untyped_nil w = (panic, w)
  bulk_insert no_slice w = (err (message (codes "This method only works on slices")), w)
  bulk_insert (slice objects) w = bulk_exec (record w { objects = objects })
