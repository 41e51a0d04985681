-- ===== src/Bulk/Balance.antt =====
-- The placeholders of a bulk insert and its variables are equally many, whatever the objects are.
use inventory_access_poc.Prelude.{
  suc, ◌+◌, ◌*◌, ◌≡◌, refl, subst, inl, inr, Option, some, List, [], ◌∷◌, ◌++◌, map, ◌==◌, bytes_eq,
  bytes_ord, arith, length, length-append, length-perm, sort-perm, Bool-cases,
}
use inventory_access_poc.Prelude.Joins.{length-map}
use inventory_access_poc.Prelude.Bytes.{Text, codes}
use inventory_access_poc.Errors.{ok, err, panic, Result-cases, bind_ok, pure, lift, ◌>>=◌, ◌>>◌}
use inventory_access_poc.Bulk.Library.{Expression, Schema, Object, Datum, Statement, Gorm}
use inventory_access_poc.Bulk.Sql.{insert_func, extra_options, insert_text, group_text}
use inventory_access_poc.Bulk.{
  World, object_to_map, cell, gather_vars, add_column, add_columns, build_columns_and_placeholders,
  assemble, build_statement, statement_from_objects, set_bulk_now, reset_bulk_now,
}

length-add_column :
    (k : Text) (cs ps : List Text)
    → length ps ≡ length cs
    → length (add_column k (cs, ps)).1 ≡ length (add_column k (cs, ps)).0
unfolding add_column
length-add_column k cs ps h = elim (Bool-cases (k == [])) [
  | inl unnamed ↦ rw (unnamed, add_column) h
  | inr named ↦
      rw (named, add_column)
        (omega (
          arith,
          h,
          length-append ps (codes "?" ∷ []),
          length-append cs (k ∷ []),
          length-perm (sort-perm (cs ++ k ∷ [])),
        ))
]

length-add_columns :
    (ks : List Text) (acc : List Text × List Text)
    → length acc.1 ≡ length acc.0
    → length (add_columns ks acc).1 ≡ length (add_columns ks acc).0
unfolding add_columns
length-add_columns [] acc h = h
length-add_columns (k ∷ ks) acc h =
    length-add_columns ks (add_column k acc) (length-add_column k acc.0 acc.1 h)

insert_func-insert_text :
    (conflict : Option Expression) (table text : Text) (columns groups : List Text)
    → insert_func conflict table columns groups ≡ ok text
    → (extra : Text) × (text ≡ insert_text table columns groups extra)
unfolding insert_func
insert_func-insert_text conflict table text columns groups h =
    let run = insert_func conflict table columns groups in
    elim (Result-cases (extra_options conflict)) [
      | inl (extra, e) ↦
          let done : run ≡ ok (insert_text table columns groups extra) = rw (e, insert_func) refl in
          (extra, cc)
      | inr (inl (x, e)) ↦ let failed : run ≡ err x = rw (e, insert_func) refl in cc
      | inr (inr e) ↦ let failed : run ≡ panic = rw (e, insert_func) refl in cc
    ]

module _ {V R : Type 0} (gorm : Gorm V R) where
  -- A group of placeholders for each object, and a variable for each placeholder.
  abbrev pub IsBalanced : List (Object V) → Statement V → Type 0
  IsBalanced os st =
      (columns : List Text) × (placeholders : List Text) × (extra : Text) × (st.sql
        ≡ insert_text (gorm.quote st.schema.table)
            (map (λ c. gorm.quote (gorm.column_name st.schema.table c)) columns)
            (map (λ o. group_text placeholders) os) extra)
      × (length placeholders ≡ length columns)
      × (length st.vars ≡ length os * length placeholders)

  length-gather_vars :
      (schema : Schema) (columns : List Text) (os : List (Object V)) (vars vs : List (Datum V))
      (w : World V)
      → (gather_vars gorm schema columns os vars w).0 ≡ ok vs
      → length vs ≡ length vars + length os * length columns
  unfolding gather_vars
  length-gather_vars schema columns [] vars vs w h = grind arith
  length-gather_vars schema columns (o ∷ os) vars vs w h =
      let (row, e, k) =
        bind_ok (object_to_map gorm schema o)
          (λ row. gather_vars gorm schema columns os (vars ++ map (cell row) columns)) w vs h in
      let step = length-gather_vars schema columns os (vars ++ map (cell row) columns) vs _ k in
      grind
        (arith, step, length-append vars (map (cell row) columns), length-map (cell row) columns)

  assemble-IsBalanced :
      (schema : Schema) (os : List (Object V)) (columns placeholders : List Text) (w : World V)
      (st : Statement V)
      → length placeholders ≡ length columns
      → (assemble gorm schema os (columns, placeholders) w).0 ≡ ok (some st)
      → IsBalanced os st
  unfolding assemble
  assemble-IsBalanced schema os columns placeholders w st same h =
      let table = gorm.quote schema.table in
      let quoted = map (λ c. gorm.quote (gorm.column_name schema.table c)) columns in
      let groups = map (λ o. group_text placeholders) os in
      let finish = λ (vars : List (Datum V)). λ (text : Text).
        pure {S = World V} (some (record { schema = schema; vars = vars; sql = text })) in
      let write = lift {S = World V} (insert_func gorm.conflict table quoted groups) in
      let (vars, e, k) =
        bind_ok (gather_vars gorm schema columns os []) (λ vars. write >>= finish vars) w (some st)
          h in
      let w' = (gather_vars gorm schema columns os [] w).1 in
      let (text, f, l) = bind_ok write (finish vars) w' (some st) k in
      let (extra, g) = insert_func-insert_text gorm.conflict table text quoted groups f in
      let count = length-gather_vars schema columns os [] vars w e in
      let built : Statement V = record { schema = schema; vars = vars; sql = text } in
      let it : built ≡ st = cc in
      subst (IsBalanced os) it
        (columns, placeholders, extra, g, same, rw same (omega (arith, count)))

  -- Whatever the objects are, a statement that is returned has a group of placeholders for each of them,
  -- as many placeholders in a group as columns, and a variable for each placeholder.
  pub statement_from_objects-IsBalanced :
      (os : List (Object V)) (w : World V) (st : Statement V)
      → (statement_from_objects gorm os w).0 ≡ ok (some st)
      → IsBalanced os st
  unfolding statement_from_objects build_statement reset_bulk_now set_bulk_now
      build_columns_and_placeholders
  statement_from_objects-IsBalanced [] w st h = cc
  statement_from_objects-IsBalanced (first ∷ rest) w st h =
      let os = first ∷ rest in
      let build = λ (schema : Schema). build_statement gorm schema first os in
      let w' : World V = record w {
        bulk_now = gorm.now_func w.readings;
        readings = suc w.readings;
      } in
      let (schema, e, k) =
        bind_ok (lift (gorm.parse_schema first))
          (λ schema. reset_bulk_now (set_bulk_now gorm >> build schema)) w (some st) h in
      let (row, f, l) =
        bind_ok (object_to_map gorm schema first)
          (λ row. assemble gorm schema os (build_columns_and_placeholders gorm row)) w' (some st)
          k in
      assemble-IsBalanced schema os _ _ _ st
        (length-add_columns (gorm.iterate (map (λ entry. entry.0) row)) ([], []) refl) l
