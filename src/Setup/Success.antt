-- ===== src/Setup/Success.antt =====
-- `Configure` with a complete address and a database that answers.
use inventory_access_poc.Prelude.{
  ℕ, ◌+◌, ◌≡◌, refl, sym, subst, fun_ext, true, false, ◌||◌, none, some, [], ◌∷◌, ◌++◌, length,
  ◌==◌, bytes_eq, arith, length-append, or_else-none, ◌∙◌, List, count_where,
}
use inventory_access_poc.Prelude.Int.{ℤ, pos, int_eq}
use inventory_access_poc.Prelude.Bytes.{Text, codes}
use inventory_access_poc.Prelude.Decimal.{parse_int, format_int}
use inventory_access_poc.Prelude.Dict.{Dict, lookup}
use inventory_access_poc.Errors.{ok}
use inventory_access_poc.Setup.{
  Config, Globals, Libraries, Url, PostgresqlConfig, handle_of, pg_config_of, Handle,
  data_source_name, set_ssl_mode, param, call, init_db_from_env, init_db, other_names, add_types,
  load_additional_params_from_db, configure,
}
use inventory_access_poc.Setup.Connections.{IsAllocated, with_answers, connect_db_done}
use inventory_access_poc.Setup.Loading.{other_count, count-other_names, name_of, lookup-add_types}

abbrev pub ssl_mode_of : Url → Text
ssl_mode_of u = param (lookup (codes "sslmode") u.query)

-- The configuration that an address gives; the other fields stay.
abbrev pub configured : Url → ℤ → Text → Config → Config
configured u port name c = record c {
  db_host = u.hostname;
  db_port = port;
  db_user = u.username;
  db_password = u.password;
  db_name = name;
  db_debug = false;
  db_statement_timeout_ms = pos 0;
  db_max_connections = pos 250;
  db_max_idle_connections = pos 50;
  db_max_connection_lifetime_s = pos 60;
  db_ssl_mode = ssl_mode_of u;
  db_work_mem = pos 4096;
}

-- The connection configuration that an address gives.
abbrev postgresql_to : Url → ℤ → Text → Config → PostgresqlConfig
postgresql_to u port name c = record {
  host = u.hostname;
  port = port;
  user = u.username;
  database = name;
  passwd = u.password;
  ssl_mode = ssl_mode_of u;
  ssl_root_cert = c.db_ssl_root_cert;
  debug = false;
  statement_timeout_ms = pos 0;
  max_connections = pos 250;
  max_idle_connections = pos 50;
  max_connection_lifetime_s = pos 60;
}

-- Texts one after the other.
abbrev in_line : List Text → Text
in_line [] = []
in_line (t ∷ ts) = t ++ in_line ts

-- The connection to it.
abbrev handle_to : Url → ℤ → Text → Handle
handle_to u port name = record {
  source = in_line (
      codes "host="
      ∷ u.hostname
      ∷ codes " port="
      ∷ format_int port
      ∷ codes " user="
      ∷ u.username
      ∷ codes " dbname="
      ∷ name
      ∷ codes " password="
      ∷ u.password
      ∷ codes " sslmode="
      ∷ ssl_mode_of u
      ∷ codes " statement_timeout=0"
      ∷ []);
  config = record { skip_default_transaction = true; silent = true };
  debug = false;
  max_open_conns = pos 250;
  max_idle_conns = pos 50;
  conn_max_lifetime = pos 60;
}

-- The globals when a connection to this address is open and advisories are loaded.
abbrev pub opened_with : Url → ℤ → Text → List Text → Dict ℤ Text → Globals → Globals
opened_with u port name others types g = record g {
  cfg = configured u port name g.cfg;
  db = some (handle_to u port name);
  global_pg_config = some (length g.allocated);
  allocated = g.allocated ++ postgresql_to u port name g.cfg ∷ [];
  other_advisory_types = others;
  advisory_types = types;
  opened = g.opened ++ handle_to u port name ∷ [];
  calls = (((((g.calls + 1) + 1) + 1) + 1) + 1) + 1;
}

-- Sorting keeps how often each name occurs.
abbrev pub KeepsNames : (List Text → List Text) → Type 0
KeepsNames order =
    (names : List Text) (x : Text)
    → count_where (λ y. y == x) (order names) ≡ count_where (λ y. y == x) names

set_ssl_mode_done :
    (mode : Text) (c : Config)
    → (mode == codes "disable" || mode == codes "require") ≡ true
    → set_ssl_mode mode c ≡ (ok tt, record c { db_ssl_mode = mode })
unfolding set_ssl_mode
set_ssl_mode_done mode c h = rw h refl

init_db_from_env_done :
    (lib : Libraries) (uri : Text) (u : Url) (port : ℤ) (slash : ℕ) (name : Text) (c : Config)
    → lib.parse_url uri ≡ ok u
    → parse_int u.port ≡ some port
    → u.path ≡ slash ∷ name
    → (ssl_mode_of u == codes "disable" || ssl_mode_of u == codes "require") ≡ true
    → init_db_from_env lib uri c ≡ (ok tt, configured u port name c)
unfolding init_db_from_env
init_db_from_env_done lib uri u port slash name c parsed number path mode =
    rw (parsed, number, path, set_ssl_mode_done (ssl_mode_of u) _ mode) refl

handle_of-handle_to :
    (u : Url) (port : ℤ) (name : Text) (c : Config)
    → handle_of (pg_config_of (configured u port name c)) ≡ handle_to u port name
unfolding data_source_name
handle_of-handle_to u port name c = refl

pub configure_done :
    (lib : Libraries) (uri : Text) (u : Url) (port : ℤ) (slash : ℕ) (name : Text) (g : Globals)
    → lib.parse_url uri ≡ ok u
    → parse_int u.port ≡ some port
    → u.path ≡ slash ∷ name
    → (ssl_mode_of u == codes "disable" || ssl_mode_of u == codes "require") ≡ true
    → IsAllocated g
    → ((n : ℕ) → lib.answers n ≡ none)
    → let g' =
        opened_with u port name
          (lib.order (other_names lib.advisory_type))
          (add_types lib.advisory_type [])
          g in
      (configure lib uri g ≡ (ok tt, g')) × IsAllocated g'
unfolding configure init_db load_additional_params_from_db call data_source_name
configure_done lib uri u port slash name g parsed number path mode h fine =
    let c = configured u port name g.cfg in
    let g' =
      opened_with u port name (lib.order (other_names lib.advisory_type))
        (add_types lib.advisory_type []) g in
    let run : configure (with_answers lib (λ n. none)) uri g ≡ (ok tt, g') =
      rw
        (
          init_db_from_env_done (with_answers lib (λ n. none)) uri u port slash name g.cfg parsed
              number path mode,
          connect_db_done lib (record g { cfg = c }) h,
        )
        refl in
    (
      subst (λ a. configure (with_answers lib a) uri g ≡ (ok tt, g')) (sym (fun_ext fine)) run,
      ground (arith, length-append g.allocated (postgresql_to u port name g.cfg ∷ [])),
    )

-- If the address can be parsed, with a port, a path and an SSL mode that is known, the pointer in force
-- is to a configuration that was allocated, the libraries answer each call, and the database's order keeps
-- how often each name occurs, then `Configure` returns;
-- the configuration has the parts of the address and the fixed limits, one more connection is open and in use,
-- with the source, the options and the limits of its pool that are written out, whatever was open before;
-- each name occurs among the other types of advisories as often as in the database, but for the
-- three usual ones, which do not occur; and the map has under each id the name of the last row with this id.
pub configure_succeeds :
    (lib : Libraries) (uri : Text) (u : Url) (port : ℤ) (slash : ℕ) (name : Text) (g : Globals)
    → lib.parse_url uri ≡ ok u
    → parse_int u.port ≡ some port
    → u.path ≡ slash ∷ name
    → (ssl_mode_of u == codes "disable" || ssl_mode_of u == codes "require") ≡ true
    → IsAllocated g
    → ((n : ℕ) → lib.answers n ≡ none)
    → KeepsNames lib.order
    → (others : List Text) × (types : Dict ℤ Text) × (configure lib uri g
        ≡ (ok tt, opened_with u port name others types g))
      × IsAllocated (opened_with u port name others types g)
      × ((x : Text) → count_where (λ y. y == x) others ≡ other_count lib.advisory_type x)
      × ((id : ℤ) → lookup id types ≡ name_of id lib.advisory_type)
unfolding lookup
configure_succeeds lib uri u port slash name g parsed number path mode h fine keeps =
    let (ran, allocated) =
      configure_done lib uri u port slash name g parsed number path mode h fine in
    (
      lib.order (other_names lib.advisory_type),
      add_types lib.advisory_type [],
      ran,
      allocated,
      (λ x. keeps (other_names lib.advisory_type) x ∙ count-other_names lib.advisory_type x),
      λ id. lookup-add_types id lib.advisory_type [] ∙ or_else-none (name_of id lib.advisory_type),
    )
