-- ===== src/Driver.antt =====
-- What the program uses of pgx, the PostgreSQL driver: the values of a row, and the row stream that
-- answers a query. And the `uuid` package, which reads and prints the bytes of an id.
use inventory_access_poc.Prelude.{ℕ, zero, suc, ◌≡◌, Option, none, List, [], ◌∷◌, map}
use inventory_access_poc.Prelude.Int.{ℤ}
use inventory_access_poc.Prelude.Bytes.{Text}
use inventory_access_poc.Tables.{UuidBytes}
use inventory_access_poc.Errors.{Error, Result, ok, panic}

-- A value of `rows.Values()`, by the Go type behind its interface.
pub data Value : Type 0 where
  int64 : ℤ → Value
  int32 : ℤ → Value
  uuid : UuidBytes → Value
  nil : Value

-- `values[i].(int64)` and its like panic on a missing value or one of another type.
abbrev pub as_int64 : Value → Result ℤ
as_int64 (int64 n) = ok n
as_int64 _ = panic

abbrev pub as_int32 : Value → Result ℤ
as_int32 (int32 n) = ok n
as_int32 _ = panic

abbrev pub as_uuid : Value → Result UuidBytes
as_uuid (uuid b) = ok b
as_uuid _ = panic

-- `values[i]`
abbrev pub index : List Value → ℕ → Result Value
index [] i = panic
index (v ∷ vs) zero = ok v
index (v ∷ vs) (suc i) = index vs i

-- What `rows.Next()` steps through: for each row what `Values` returns; and what `rows.Err()` tells
-- once `Next` has returned false.
pub record Rows : Type 0 where
  pub stream : List (Result (List Value))
  pub failure : Option Error

-- `conn.Query`: how the driver answers a query whose result is these rows.
abbrev pub Driver : Type 0
Driver = List (List Value) → Result Rows

-- Nothing fails on the way: every row arrives.
abbrev pub IsReliable : Driver → Type 0
IsReliable d =
    (rows : List (List Value)) → d rows ≡ ok (record { stream = map ok rows; failure = none })

-- The `uuid` package.
pub record UuidLibrary : Type 1 where
  pub Uuid : Type 0
  pub from_bytes : UuidBytes → Result Uuid
  pub to_string : Uuid → Text
