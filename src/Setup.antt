-- ===== src/Setup.antt =====
-- cachecontent/setup.go and config.go: the configuration from the address of the database, the connection
-- that is opened with it, and what is loaded from the database then. The globals of the package are a
-- record; every error of a library call is a panic.
mod Records
pub mod Connections
pub mod Source
pub mod Loading
pub mod Success
pub use Records.*
use inventory_access_poc.Prelude.{
  ℕ, ◌+◌, Bool, true, false, not, ◌&&◌, ◌||◌, Option, none, some, List, [], ◌∷◌, ◌++◌, map, ◌==◌,
  nat_eq, bytes_eq, if◌then◌else◌, length, keep,
}
use inventory_access_poc.Prelude.Int.{ℤ, pos, int_eq}
use inventory_access_poc.Prelude.Bytes.{Text, codes}
use inventory_access_poc.Prelude.Decimal.{parse_int, format_int}
use inventory_access_poc.Prelude.Dict.{Dict, lookup, insert}
use inventory_access_poc.Errors.{
  Error, Result, ok, err, panic, Action, ⊤, ◌>>=◌, ◌>>◌, lift, modify,
}

abbrev pub must : {A : Type 0} → Result A → Result A
must (ok a) = ok a
must (err e) = panic
must panic = panic

abbrev pub atoi : Option ℤ → Result ℤ
atoi none = panic
atoi (some n) = ok n

-- `u.Path[1:]`
abbrev pub behind_slash : Text → Result Text
behind_slash [] = panic
behind_slash (c ∷ name) = ok name

-- `params.Get`, which is empty for a parameter that is not there.
abbrev pub param : Option Text → Text
param none = []
param (some v) = v

unfoldable pub set_ssl_mode : Text → Action Config ⊤
unfolding bytes_eq
set_ssl_mode mode =
    if mode == codes "disable" || mode == codes "require"
    then modify (λ c. record c { db_ssl_mode = mode })
    else lift panic

-- `createGormConfig`
abbrev pub create_gorm_config : Bool → GormConfig
create_gorm_config debug = record { skip_default_transaction = true; silent = not debug }

-- The parts of a formatted text, one after the other.
abbrev pub concat : List Text → Text
concat [] = []
concat (t ∷ []) = t
concat (t ∷ u ∷ ts) = t ++ concat (u ∷ ts)

-- `dataSourceName`
unfoldable pub data_source_name : PostgresqlConfig → Text
unfolding format_int
data_source_name c = concat (
    codes "host="
    ∷ c.host
    ∷ codes " port="
    ∷ format_int c.port
    ∷ codes " user="
    ∷ c.user
    ∷ codes " dbname="
    ∷ c.database
    ∷ codes " password="
    ∷ c.passwd
    ∷ codes " sslmode="
    ∷ c.ssl_mode
    ∷ codes " statement_timeout="
    ∷ format_int c.statement_timeout_ms
    ∷ [])

-- The configuration that `loadEnvPostgreSQLConfig` fills in.
abbrev pub pg_config_of : Config → PostgresqlConfig
pg_config_of c = record {
  host = c.db_host;
  port = c.db_port;
  user = c.db_user;
  database = c.db_name;
  passwd = c.db_password;
  ssl_mode = c.db_ssl_mode;
  ssl_root_cert = c.db_ssl_root_cert;
  debug = c.db_debug;
  statement_timeout_ms = c.db_statement_timeout_ms;
  max_connections = c.db_max_connections;
  max_idle_connections = c.db_max_idle_connections;
  max_connection_lifetime_s = c.db_max_connection_lifetime_s;
}

-- `loadEnvPostgreSQLConfig`, which allocates a configuration and returns the pointer to it.
unfoldable pub load_env_postgresql_config : Action Globals ℕ
load_env_postgresql_config g =
    (ok (length g.allocated), record g { allocated = g.allocated ++ pg_config_of g.cfg ∷ [] })

abbrev pub handle_of : PostgresqlConfig → Handle
handle_of c = record {
  source = data_source_name c;
  config = create_gorm_config c.debug;
  debug = c.debug;
  max_open_conns = c.max_connections;
  max_idle_conns = c.max_idle_connections;
  conn_max_lifetime = c.max_connection_lifetime_s;
}

abbrev pub is_pointer : Option ℕ → ℕ → Bool
is_pointer none p = false
is_pointer (some q) p = q == p

abbrev pub is_open : Option Handle → Bool
is_open none = false
is_open (some h) = true

-- What changes `Cfg`, among the globals.
abbrev pub on_cfg : {A : Type 0} → Action Config A → Action Globals A
on_cfg m g = let (r, c) = m g.cfg in (r, record g { cfg = c })

-- The names that the first statement leaves out.
abbrev is_usual : Text → Bool
is_usual name = name == codes "enhancement" || name == codes "bugfix" || name == codes "security"

-- `AdvisoryTypes[at.ID] = at.Name` for each row.
unfoldable pub add_types : List AdvisoryType → Dict ℤ Text → Dict ℤ Text
unfolding insert int_eq
add_types [] types = types
add_types (t ∷ rest) types = add_types rest (insert t.id t.name types)

unfoldable pub other_names : List AdvisoryType → List Text
unfolding bytes_eq
other_names rows = keep (λ name. not (is_usual name)) (map (λ t. t.name) rows)

module _ (lib : Libraries) where
  -- A call of a library whose error is a panic.
  unfoldable pub call : Action Globals ⊤
  call g = (
    elim (lib.answers g.calls) [ none ↦ ok tt | some e ↦ panic ],
    record g { calls = g.calls + 1 },
  )

  unfoldable pub init_db_from_env : Text → Action Config ⊤
  unfolding set_ssl_mode parse_int lookup bytes_eq
  init_db_from_env pg_uri = lift (must (lib.parse_url pg_uri)) >>= λ u.
      lift (atoi (parse_int u.port)) >>= λ port.
      modify (λ c. record c {
        db_host = u.hostname;
        db_port = port;
        db_user = u.username;
        db_password = u.password;
      })
      >> (lift (behind_slash u.path) >>= λ name. modify (λ c. record c {
        db_name = name;
        db_debug = false;
        db_statement_timeout_ms = pos 0;
        db_max_connections = pos 250;
        db_max_idle_connections = pos 50;
        db_max_connection_lifetime_s = pos 60;
      }))
      >> set_ssl_mode (param (lookup (codes "sslmode") u.query))
      >> modify (λ c. record c { db_work_mem = pos 4096 })

  -- `openPostgreSQL`: `gorm.Open` and `db.DB()`, each of which may fail.
  unfoldable pub open_postgresql : PostgresqlConfig → Action Globals Handle
  unfolding call
  open_postgresql c =
      call >> (λ g. (ok (handle_of c), record g { opened = g.opened ++ handle_of c ∷ [] })) >>= λ h.
      call >> (λ g. (ok h, g))

  -- `check`: `db.DB()` and `Ping`.
  unfoldable pub check : Action Globals ⊤
  unfolding call
  check = call >> call

  -- What `InitDB` does after `initDBFromEnv`.
  unfoldable pub connect_db : Action Globals ⊤
  unfolding load_env_postgresql_config open_postgresql check nat_eq
  connect_db = load_env_postgresql_config >>= λ p. λ g.
      if is_open g.db && is_pointer g.global_pg_config p
      then check g
      else (open_postgresql (pg_config_of g.cfg) >>= λ h.
            modify (λ g. record g { db = some h }) >> check)
          (record g { global_pg_config = some p })

  -- `InitDB`
  unfoldable pub init_db : Text → Action Globals ⊤
  unfolding init_db_from_env connect_db
  init_db pg_uri = on_cfg (init_db_from_env pg_uri) >> connect_db

  unfoldable pub load_additional_params_from_db : Action Globals ⊤
  unfolding call add_types other_names
  load_additional_params_from_db =
      call
      >> modify (λ g. record g { other_advisory_types = lib.order (other_names lib.advisory_type) })
      >> call
      >> modify (λ g. record g { advisory_types = add_types lib.advisory_type [] })

  unfoldable pub configure : Text → Action Globals ⊤
  unfolding init_db load_additional_params_from_db
  configure pg_uri = init_db pg_uri >> load_additional_params_from_db
