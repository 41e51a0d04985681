-- ===== src/Bulk/Sql.antt =====
-- cachecontent/batch.go: the text of the statement, `insertFunc` and `parseClause`, with the `ON CONFLICT`
-- clause that gorm was given.
use inventory_access_poc.Prelude.{Option, none, some, List, [], ◌∷◌, ◌++◌, if◌then◌else◌}
use inventory_access_poc.Prelude.Bytes.{Text, codes}
use inventory_access_poc.Errors.{Result, ok, err, panic}
use inventory_access_poc.Bulk.Library.{
  of_column, of_struct, plain, Assignment, Expression, on_conflict, other_expression,
}

-- `strings.Join`
unfoldable pub strings_join : List Text → Text → Text
strings_join [] sep = []
strings_join (t ∷ []) sep = t
strings_join (t ∷ u ∷ ts) sep = t ++ sep ++ strings_join (u ∷ ts) sep

-- `parseClause`: `val` for one assignment. Go compares kinds, so that any other struct fails the
-- assertion that follows.
unfoldable pub update_text : Assignment → Result Text
update_text a = elim a.assigned [
  | of_column table name ↦ ok (a.column ++ codes " = " ++ table ++ codes "." ++ name)
  | of_struct ↦ panic
  | plain text ↦ ok (a.column ++ codes " = " ++ text)
]

unfoldable pub update_texts : List Assignment → Result (List Text)
unfolding update_text
update_texts [] = ok []
update_texts (a ∷ rest) = elim (update_text a) [
  | ok text ↦ elim (update_texts rest) [
    | ok texts ↦ ok (text ∷ texts)
    | err e ↦ err e
    | panic ↦ panic
  ]
  | err e ↦ err e
  | panic ↦ panic
]

unfoldable pub parse_clause : Expression → Result Text
unfolding update_texts strings_join
parse_clause other_expression = panic
parse_clause (on_conflict c) =
    if c.do_nothing then ok (codes "ON CONFLICT DO NOTHING") else elim (update_texts c.do_updates) [
      | ok texts ↦ ok (
          codes "ON CONFLICT ("
          ++ strings_join c.columns (codes ", ")
          ++ codes ") DO UPDATE SET "
          ++ strings_join texts (codes ", "))
      | err e ↦ err e
      | panic ↦ panic
    ]

-- `extraOptions`
unfoldable pub extra_options : Option Expression → Result Text
unfolding parse_clause
extra_options none = ok []
extra_options (some e) = parse_clause e

-- The text of the statement.
unfoldable pub insert_text : Text → List Text → List Text → Text → Text
unfolding strings_join
insert_text table columns groups extra =
    codes "INSERT INTO "
    ++ table
    ++ codes " ("
    ++ strings_join columns (codes ", ")
    ++ codes ") VALUES "
    ++ strings_join groups (codes ", ")
    ++ codes " "
    ++ extra
    ++ codes " RETURNING *"

unfoldable pub insert_func : Option Expression → Text → List Text → List Text → Result Text
unfolding extra_options insert_text
insert_func conflict table columns groups = elim (extra_options conflict) [
  | ok extra ↦ ok (insert_text table columns groups extra)
  | err e ↦ err e
  | panic ↦ panic
]

-- `(%s)` around the placeholders.
unfoldable pub group_text : List Text → Text
unfolding strings_join
group_text placeholders = codes "(" ++ strings_join placeholders (codes ", ") ++ codes ")"
