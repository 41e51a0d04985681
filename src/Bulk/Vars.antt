-- ===== src/Bulk/Vars.antt =====
-- The statement of a bulk insert: its columns, a group of question marks for each object, and as many
-- variables, in the order of the columns.
use inventory_access_poc.Prelude.{
  ℕ, suc, ◌≡◌, refl, ap, ◌∙◌, false, Option, none, some, List, [], ◌∷◌, ◌++◌, map, keep, sort, ◌==◌,
  bytes_eq, nat_eq, bytes_ord, arith, append-nil, append_assoc, flat_map, All, map_const-perm,
  sort-perm, Permᴰ,
}
use inventory_access_poc.Prelude.Dict.{Dict}
use inventory_access_poc.Prelude.Bytes.{Text, codes}
use inventory_access_poc.Errors.{ok}
use inventory_access_poc.Bulk.Library.{Schema, Object, Datum, Statement, Gorm}
use inventory_access_poc.Bulk.Sql.{insert_func, extra_options, insert_text, group_text}
use inventory_access_poc.Bulk.{
  World, dereferenced, object_to_map, gather_vars, assemble, build_statement,
  statement_from_objects, cell, build_columns_and_placeholders, current_time, set_bulk_now,
  reset_bulk_now,
}
use inventory_access_poc.Bulk.Columns.{is_named, marks, keys, build_columns_and_placeholders-sort}
use inventory_access_poc.Bulk.Cells.{written, HasFields, cell_of, object_cells}

-- The columns of a statement, in ascending order.
abbrev pub columns_of : Schema → List Text
columns_of schema = sort (keep is_named (written schema.fields))

module _ {V : Type 0} where
  -- The object is a struct, or a pointer to one, that has every field of the schema.
  abbrev pub IsComplete : Schema → Object V → Type 0
  IsComplete schema o =
      (values : Dict Text V) × (dereferenced o ≡ some values) × HasFields values schema.fields

  abbrev cells : ℕ → Schema → List Text → Option (Dict Text V) → List (Datum V)
  cells now schema columns none = []
  cells now schema columns (some values) = map (cell_of now values schema.fields) columns

  -- The variables for an object.
  abbrev pub vars_of : ℕ → Schema → Object V → List (Datum V)
  vars_of now schema o = cells now schema (columns_of schema) (dereferenced o)

  module _ {R : Type 0} (gorm : Gorm V R) where
    current_time_set :
        (w : World V) (t : ℕ) → w.bulk_now ≡ suc t → current_time gorm w ≡ (ok (suc t), w)
    unfolding current_time
    current_time_set w t now =
        let some_time : (w.bulk_now == 0) ≡ false = ground (arith, now) in
        rw some_time (ap (λ (n : ℕ). (ok n, w)) now)

    object_to_map-IsComplete :
        (schema : Schema) (o : Object V) (w : World V) (t : ℕ)
        → w.bulk_now ≡ suc t
        → IsComplete schema o
        → (d : Dict Text (Datum V)) × (object_to_map gorm schema o w ≡ (ok d, w))
          × (keys d ≡ written schema.fields)
          × ((columns : List Text)
              → map (cell d) columns ≡ cells (suc t) schema columns (dereferenced o))
    unfolding object_to_map
    object_to_map-IsComplete schema o w t now (values, e, h) =
        let (d, built, same, found) = object_cells (suc t) values schema.fields h in
        (
          d,
          rw (e, object_to_map, current_time_set w t now, built) refl,
          same,
          λ columns. rw e (ap (λ f. map f columns) found),
        )

    gather_vars-IsComplete :
        (schema : Schema) (columns : List Text) (os : List (Object V)) (vars : List (Datum V))
        (w : World V) (t : ℕ)
        → w.bulk_now ≡ suc t
        → All (IsComplete schema) os
        → gather_vars gorm schema columns os vars w
          ≡ (ok (vars ++ flat_map (λ o. cells (suc t) schema columns (dereferenced o)) os), w)
    unfolding gather_vars mathlib.Core.List.flat_map
    gather_vars-IsComplete schema columns [] vars w t now h = rw (append-nil vars) refl
    gather_vars-IsComplete schema columns (o ∷ os) vars w t now h =
        let (d, built, same, cells_eq) = object_to_map-IsComplete schema o w t now h.0 in
        rw (built, cells_eq columns)
          (gather_vars-IsComplete schema columns os
              (vars ++ cells (suc t) schema columns (dereferenced o)) w t now h.1
            ∙ rw (append_assoc vars (cells (suc t) schema columns (dereferenced o)) _) refl)

    -- The statement for these objects.
    abbrev pub reference : ℕ → Schema → List (Object V) → Text → Statement V
    reference now schema os extra = record {
      schema = schema;
      vars = flat_map (vars_of now schema) os;
      sql =
          insert_text (gorm.quote schema.table)
            (map (λ c. gorm.quote (gorm.column_name schema.table c)) (columns_of schema))
            (map (λ o. group_text (marks (columns_of schema))) os) extra;
    }

    columns_eq :
        (schema : Schema) (d : Dict Text (Datum V))
        → ((ks : List Text) → Permᴰ (gorm.iterate ks) ks)
        → keys d ≡ written schema.fields
        → build_columns_and_placeholders gorm d ≡ (columns_of schema, marks (columns_of schema))
    columns_eq schema d it same =
        build_columns_and_placeholders-sort gorm d (it (keys d))
        ∙ rw (same, map_const-perm (codes "?") (sort-perm (keep is_named (written schema.fields))))
            refl

    assemble-reference :
        (schema : Schema) (os : List (Object V)) (extra : Text) (t : ℕ) (w : World V)
        → extra_options gorm.conflict ≡ ok extra
        → w.bulk_now ≡ suc t
        → All (IsComplete schema) os
        → assemble gorm schema os (columns_of schema, marks (columns_of schema)) w
          ≡ (ok (some (reference (suc t) schema os extra)), w)
    unfolding assemble insert_func
    assemble-reference schema os extra t w clause now h =
        rw (gather_vars-IsComplete schema (columns_of schema) os [] w t now h, insert_func, clause)
          refl

    build_statement-reference :
        (schema : Schema) (first : Object V) (os : List (Object V)) (extra : Text) (t : ℕ)
        (w : World V)
        → ((ks : List Text) → Permᴰ (gorm.iterate ks) ks)
        → extra_options gorm.conflict ≡ ok extra
        → w.bulk_now ≡ suc t
        → IsComplete schema first
        → All (IsComplete schema) os
        → build_statement gorm schema first os w
          ≡ (ok (some (reference (suc t) schema os extra)), w)
    unfolding build_statement
    build_statement-reference schema first os extra t w it clause now k h =
        let (d, built, same, cells_eq) = object_to_map-IsComplete schema first w t now k in
        rw (built, columns_eq schema d it same)
          (assemble-reference schema os extra t w clause now h)

    -- The statement that is built, and the clock, which is read once.
    pub statement_from_objects-reference :
        (schema : Schema) (first : Object V) (rest : List (Object V)) (extra : Text) (t : ℕ)
        (w : World V)
        → ((ks : List Text) → Permᴰ (gorm.iterate ks) ks)
        → gorm.parse_schema first ≡ ok schema
        → extra_options gorm.conflict ≡ ok extra
        → gorm.now_func w.readings ≡ suc t
        → All (IsComplete schema) (first ∷ rest)
        → statement_from_objects gorm (first ∷ rest) w ≡ (
          ok (some (reference (suc t) schema (first ∷ rest) extra)),
          record w { bulk_now = 0; readings = suc w.readings },
        )
    unfolding statement_from_objects reset_bulk_now set_bulk_now
    statement_from_objects-reference schema first rest extra t w it parsed clause now h =
        let w' : World V = record w {
          bulk_now = gorm.now_func w.readings;
          readings = suc w.readings;
        } in
        rw
          (
            parsed,
            build_statement-reference schema first (first ∷ rest) extra t w' it clause now h.0 h,
          )
          refl
