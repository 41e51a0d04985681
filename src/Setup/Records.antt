-- ===== src/Setup/Records.antt =====
-- cachecontent/config.go and setup.go: the configuration, an open connection, the globals of the package,
-- and what the libraries do.
use inventory_access_poc.Prelude.{ℕ, Bool, Option, List}
use inventory_access_poc.Prelude.Int.{ℤ}
use inventory_access_poc.Prelude.Bytes.{Text}
use inventory_access_poc.Prelude.Dict.{Dict}
use inventory_access_poc.Errors.{Error, Result}

-- The part of `Config` that is about the database.
pub record Config : Type 0 where
  pub db_host : Text
  pub db_name : Text
  pub db_port : ℤ
  pub db_ssl_mode : Text
  pub db_ssl_root_cert : Text
  pub db_admin_user : Text
  pub db_admin_password : Text
  pub db_user : Text
  pub db_password : Text
  pub db_debug : Bool
  pub db_statement_timeout_ms : ℤ
  pub db_max_connections : ℤ
  pub db_max_idle_connections : ℤ
  pub db_max_connection_lifetime_s : ℤ
  pub db_read_replica_host : Text
  pub db_read_replica_port : ℤ
  pub db_read_replica_enabled : Bool
  pub db_work_mem : ℤ

-- `PostgreSQLConfig`
pub record PostgresqlConfig : Type 0 where
  pub host : Text
  pub port : ℤ
  pub user : Text
  pub database : Text
  pub passwd : Text
  pub ssl_mode : Text
  pub ssl_root_cert : Text
  pub debug : Bool
  pub statement_timeout_ms : ℤ
  pub max_connections : ℤ
  pub max_idle_connections : ℤ
  pub max_connection_lifetime_s : ℤ

-- `gorm.Config`, of which two fields are set.
pub record GormConfig : Type 0 where
  pub skip_default_transaction : Bool
  pub silent : Bool

-- An open `*gorm.DB`: where it is connected to, its options, and the limits of its pool (in seconds).
pub record Handle : Type 0 where
  pub source : Text
  pub config : GormConfig
  pub debug : Bool
  pub max_open_conns : ℤ
  pub max_idle_conns : ℤ
  pub conn_max_lifetime : ℤ

-- `AdvisoryType`, of which the program selects two columns.
pub record AdvisoryType : Type 0 where
  pub id : ℤ
  pub name : Text

-- What `url.Parse` finds; a user that is missing has an empty name and an empty password.
pub record Url : Type 0 where
  pub username : Text
  pub password : Text
  pub hostname : Text
  pub port : Text
  pub path : Text
  pub query : Dict Text Text

-- `Cfg`, `Db`, `globalPgConfig`, `OtherAdvisoryTypes` and `AdvisoryTypes`. A pointer to a configuration
-- is its place among those that were allocated. `opened` are the connections that were opened, and
-- `calls` counts the calls of libraries that may fail.
pub record Globals : Type 0 where
  pub cfg : Config
  pub db : Option Handle
  pub global_pg_config : Option ℕ
  pub allocated : List PostgresqlConfig
  pub other_advisory_types : List Text
  pub advisory_types : Dict ℤ Text
  pub opened : List Handle
  pub calls : ℕ

-- The libraries: `url.Parse`, how the n-th call ends, the rows of the table advisory_type, and how
-- `ORDER BY` arranges names.
pub record Libraries : Type 0 where
  pub parse_url : Text → Result Url
  pub answers : ℕ → Option Error
  pub advisory_type : List AdvisoryType
  pub order : List Text → List Text
