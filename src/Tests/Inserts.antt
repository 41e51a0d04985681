-- ===== src/Tests/Inserts.antt =====
-- A bulk insert of two objects.
use inventory_access_poc.Prelude.{
  suc, ◌+◌, ◌≡◌, refl, true, false, none, some, List, [], ◌∷◌, ◌++◌, bytes_eq, bytes_ord,
  if◌then◌else◌, leb, All, sort, ap,
}
use mathlib.Core.List.Permᴰ
use inventory_access_poc.Prelude.Bytes.{Text, codes}
use inventory_access_poc.Errors.{ok, panic}
use inventory_access_poc.Bulk.Library.{
  Field, Schema, Object, structure, pointer, value, time, of_column, Expression, on_conflict,
  Returned, Gorm, slice,
}
use inventory_access_poc.Bulk.{
  World, dereferenced, is_skipped, is_timestamp, statement_from_objects, bulk_insert,
}
use inventory_access_poc.Prelude.Dict.{lookup}
use inventory_access_poc.Bulk.Sql.{extra_options, insert_text, group_text}
use inventory_access_poc.Bulk.Vars.{IsComplete, reference, statement_from_objects-reference}
use inventory_access_poc.Bulk.Balance.{IsBalanced, statement_from_objects-IsBalanced}
use inventory_access_poc.Bulk.Execution.{scanned, bulk_insert-bulk_now, bulk_insert-scanned}

abbrev field : Text → Text → Field
field name db_name = record {
  name = name;
  db_name = db_name;
  tag_settings = [];
  has_default_value = false;
  primary_key = false;
}

-- A table with a generated key, a name, a time of creation, and a column that its default sets.
abbrev things : Schema
things = record {
  table = codes "things";
  fields =
      record (field (codes "ID") (codes "id")) { primary_key = true }
      ∷ field (codes "Name") (codes "name")
      ∷ field (codes "CreatedAt") (codes "created_at")
      ∷ record (field (codes "Kind") (codes "kind")) {
        has_default_value = true;
        tag_settings = (codes "DEFAULT", codes "0") ∷ [];
      }
      ∷ [];
}

-- The values of the fields are texts.
abbrev thing : Text → Object Text
thing name =
    structure
      ((codes "ID", []) ∷ (codes "Name", name) ∷ (codes "CreatedAt", []) ∷ (codes "Kind", []) ∷ [])

abbrev upsert_names : Expression
upsert_names = on_conflict (record {
  do_nothing = false;
  columns = codes "name" ∷ [];
  do_updates =
      record { column = codes "name"; assigned = of_column (codes "excluded") (codes "name") } ∷ [];
})

-- Three rows come back, each the key of an object.
abbrev answer : Returned Text
answer = record { rows = codes "1" ∷ codes "2" ∷ codes "3" ∷ []; failure = none }

abbrev gorm : Gorm Text Text
gorm = record {
  parse_schema = λ o. ok things;
  column_name = λ table name. name;
  quote = λ name. name;
  conflict = some upsert_names;
  now_func = λ n. suc n;
  global_now = λ n. panic;
  run = λ s. ok answer;
  scan = λ r o. (ok tt, structure ((codes "ID", r) ∷ []));
  iterate = λ ks. ks;
}

abbrev before : World Text
before = record { bulk_now = 0; readings = 7; rows_affected = 0; objects = []; sent = [] }

abbrev two : List (Object Text)
two = thing (codes "a") ∷ pointer (thing (codes "b")) ∷ []

abbrev extra : Text
extra = codes "ON CONFLICT (name) DO UPDATE SET name = excluded.name"

clause : extra_options (some upsert_names) ≡ ok extra
unfolding extra_options
clause = refl

complete : All (IsComplete things) two
unfolding dereferenced lookup bytes_eq
complete = (
  (_, refl, ((_, refl), ((_, refl), ((_, refl), ((_, refl), tt))))),
  ((_, refl, ((_, refl), ((_, refl), ((_, refl), ((_, refl), tt))))), tt),
)

built :
    statement_from_objects gorm two before
    ≡ (ok (some (reference gorm 8 things two extra)), record before { readings = 8 })
built =
    statement_from_objects-reference gorm things (thing (codes "a"))
      (pointer (thing (codes "b")) ∷ []) extra 7 before (λ ks. Permᴰ.refl ks) refl clause refl
      complete

-- The text of the statement, and its variables.
text_of_two :
    (reference gorm 8 things two extra).sql
    ≡ codes "INSERT INTO things (created_at, name) VALUES (?, ?), (?, ?) "
      ++ codes "ON CONFLICT (name) DO UPDATE SET name = excluded.name RETURNING *"
unfolding insert_text group_text sort is_skipped bytes_eq bytes_ord lookup
text_of_two = refl

vars_of_two :
    (reference gorm 8 things two extra).vars
    ≡ time 8 ∷ value (codes "a") ∷ time 8 ∷ value (codes "b") ∷ []
unfolding dereferenced sort is_skipped is_timestamp bytes_eq bytes_ord lookup
    mathlib.Core.List.flat_map
vars_of_two = refl

bulk_insert-scanned_example : bulk_insert gorm (slice two) before ≡ (
  if leb 3 2 then ok tt else panic,
  record {
    bulk_now = 0;
    readings = 8;
    rows_affected = (if leb 3 2 then 3 else 2) + 0;
    objects = scanned gorm answer.rows two;
    sent = [] ++ reference gorm 8 things two extra ∷ [];
  },
)
bulk_insert-scanned_example =
    bulk_insert-scanned gorm things (thing (codes "a")) (pointer (thing (codes "b")) ∷ []) extra 7
      answer before (λ ks. Permᴰ.refl ks) refl clause refl complete refl (λ r o. refl)

bulk_insert-bulk_now_example : (bulk_insert gorm (slice two) before).1.bulk_now ≡ 0
bulk_insert-bulk_now_example = bulk_insert-bulk_now gorm (slice two) before refl

statement_from_objects-IsBalanced_example : IsBalanced gorm two (reference gorm 8 things two extra)
statement_from_objects-IsBalanced_example =
    statement_from_objects-IsBalanced gorm two before (reference gorm 8 things two extra)
      (ap (λ p. p.0) built)
