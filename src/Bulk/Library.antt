-- ===== src/Bulk/Library.antt =====
-- What cachecontent/batch.go uses of gorm and of `reflect`: a schema and its fields, an object as its
-- fields' values, the `ON CONFLICT` clause, and the functions that the library provides.
use inventory_access_poc.Prelude.{ℕ, Bool, Option, List}
use inventory_access_poc.Prelude.Dict.{Dict}
use inventory_access_poc.Prelude.Bytes.{Text}
use inventory_access_poc.Errors.{Error, Result, ⊤}

-- `schema.Field`
pub record Field : Type 0 where
  pub name : Text
  pub db_name : Text
  pub tag_settings : Dict Text Text
  pub has_default_value : Bool
  pub primary_key : Bool

-- `schema.Schema`
pub record Schema : Type 0 where
  pub table : Text
  pub fields : List Field

-- A value as `reflect` sees it, whose fields hold values of `V`.
pub data Object (V : Type 0) : Type 0 where
  structure : Dict Text V → Object V
  pointer : Object V → Object V
  nil_pointer : Object V
  scalar : Object V

-- The argument of `BulkInsert`, an `interface{}`.
pub data Argument (V : Type 0) : Type 0 where
  slice : List (Object V) → Argument V
  no_slice : Argument V
  untyped_nil : Argument V

-- An `interface{}` among the variables of a statement.
pub data Datum (V : Type 0) : Type 0 where
  value : V → Datum V
  time : ℕ → Datum V
  nil : Datum V

-- The value of a `clause.Assignment`: a `clause.Column`, another struct, or what `%s` prints as a text.
pub data UpdateValue : Type 0 where
  of_column : Text → Text → UpdateValue
  of_struct : UpdateValue
  plain : Text → UpdateValue

pub record Assignment : Type 0 where
  pub column : Text
  pub assigned : UpdateValue

-- `clause.OnConflict`
pub record OnConflict : Type 0 where
  pub do_nothing : Bool
  pub columns : List Text
  pub do_updates : List Assignment

-- `clause.Expression`, by its dynamic type.
pub data Expression : Type 0 where
  on_conflict : OnConflict → Expression
  other_expression : Expression

-- `gorm.Statement`
pub record Statement (V : Type 0) : Type 0 where
  pub schema : Schema
  pub vars : List (Datum V)
  pub sql : Text

-- The rows that a statement returns, and what `rows.Err()` would tell after them.
pub record Returned (R : Type 0) : Type 0 where
  pub rows : List R
  pub failure : Option Error

-- A `*gorm.DB`: its parser of schemas, naming strategy, quoting, clause and clocks (the n-th reading), how
-- it runs a statement, and how it scans a row into an object. And the order in which Go iterates over
-- the keys of a map.
pub record Gorm (V R : Type 0) : Type 0 where
  pub parse_schema : Object V → Result Schema
  pub column_name : Text → Text → Text
  pub quote : Text → Text
  pub conflict : Option Expression
  pub now_func : ℕ → ℕ
  pub global_now : ℕ → Result ℕ
  pub run : Statement V → Result (Returned R)
  pub scan : R → Object V → Result ⊤ × Object V
  pub iterate : List Text → List Text
