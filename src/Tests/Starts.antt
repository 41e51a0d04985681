-- ===== src/Tests/Starts.antt =====
-- The start and the end of a process, and the configuration of the database.
use inventory_access_poc.Prelude.{
  count_where, List, ℕ, ◌≡◌, refl, ◌⊎◌, true, false, none, [], ◌∷◌, ◌++◌, arith, bytes_eq, nat_eq,
  ◌==◌, ◌||◌, some,
}
use inventory_access_poc.Prelude.Int.{ℤ, pos, int_eq}
use inventory_access_poc.Prelude.Bytes.{Text, codes}
use inventory_access_poc.Prelude.Dict.{Dict, lookup}
use inventory_access_poc.Errors.{⊤, pure, lift, ok, err, message}
use inventory_access_poc.Router.{Environment}
use inventory_access_poc.Telemetry.{OpenTelemetry, Sdk}
use inventory_access_poc.Telemetry.Cleanups.{registered}
use inventory_access_poc.Process.{
  Calls, exited, main, init_open_telemetry, service_name, service_version,
}
use inventory_access_poc.Process.Shutdown.{main_cleanups}
use inventory_access_poc.Setup.{
  Config, PostgresqlConfig, Globals, Libraries, data_source_name, configure, Url,
}
use inventory_access_poc.Setup.Source.{IsPlain, data_source_name_injective}
use inventory_access_poc.Setup.Connections.{IsAllocated}
use inventory_access_poc.Setup.Loading.{name_of, other_count}
use inventory_access_poc.Setup.Success.{ssl_mode_of, opened_with, configure_succeeds}
use inventory_access_poc.Prelude.Decimal.{parse_int}

-- A library whose exporters and resources are texts; the exporter of the metrics cannot be made.
abbrev pub otel : OpenTelemetry Text Text
otel = record {
  merge = λ name version. ok name;
  stdouttrace_new = ok (codes "stdout");
  stdoutmetric_new = err (message (codes "no metrics"));
  cleanup = λ invoked f. none;
}

abbrev pub no_telemetry : Sdk Text Text
no_telemetry = record {
  shutdown_funcs = [];
  invoked = [];
  propagators = 0;
  tracer_provider = none;
  meter_provider = none;
}

-- The process works on nothing, and its refresh is refused.
abbrev calls : Calls ⊤
calls = record {
  configure = λ uri. pure tt;
  refresh_packages_caches = lift (err (message (codes "refused")));
  new_client = λ endpoint key. pure tt;
  connect = λ uri. pure tt;
  ping = pure tt;
  run = λ job. lift (err (message (codes "address in use")));
}

abbrev variables : Environment
variables = (codes "RUN_ACTION", codes "REFRESH_PACKAGE_CACHES") ∷ []

pub set_up : (init_open_telemetry otel no_telemetry).0 ≡ ok (message (codes "no metrics") ∷ [])
unfolding init_open_telemetry
set_up = refl

main_cleanups_example :
    let (ending, (s', w')) = main otel calls variables no_telemetry tt in
    ((code : ℕ) × (ending ≡ exited code) × (s' ≡ (init_open_telemetry otel no_telemetry).1))
    ⊎ ((s'.shutdown_funcs ≡ []) × (s'.invoked ≡ [] ++ registered otel service_name service_version))
main_cleanups_example =
    main_cleanups otel calls variables no_telemetry tt (message (codes "no metrics") ∷ []) refl
      set_up

abbrev local : PostgresqlConfig
local = record {
  host = codes "localhost";
  port = pos 5434;
  user = codes "postgres";
  database = codes "content";
  passwd = codes "secret";
  ssl_mode = codes "disable";
  ssl_root_cert = [];
  debug = false;
  statement_timeout_ms = pos 0;
  max_connections = pos 250;
  max_idle_connections = pos 50;
  max_connection_lifetime_s = pos 60;
}

-- The fields that the string leaves out may differ.
abbrev other : PostgresqlConfig
other = record local { max_connections = pos 1 }

source_of_local :
    data_source_name local
    ≡ codes "host=localhost port=5434 user=postgres dbname=content password=secret "
      ++ codes "sslmode=disable statement_timeout=0"
unfolding data_source_name
source_of_local = refl

-- A space in a password sets another key.
source_of_space :
    data_source_name (record local { passwd = codes "x host=elsewhere" })
    ≡ codes "host=localhost port=5434 user=postgres dbname=content password=x host=elsewhere "
      ++ codes "sslmode=disable statement_timeout=0"
unfolding data_source_name
source_of_space = refl

local-IsPlain : IsPlain local
local-IsPlain = omega arith

same_source : data_source_name local ≡ data_source_name other
unfolding data_source_name
same_source = refl

data_source_name_injective_example :
    (local.host ≡ other.host)
    × (local.port ≡ other.port)
    × (local.user ≡ other.user)
    × (local.database ≡ other.database)
    × (local.passwd ≡ other.passwd)
    × (local.ssl_mode ≡ other.ssl_mode)
    × (local.statement_timeout_ms ≡ other.statement_timeout_ms)
data_source_name_injective_example =
    data_source_name_injective local other local-IsPlain local-IsPlain same_source

abbrev no_config : Config
no_config = record {
  db_host = [];
  db_name = [];
  db_port = pos 0;
  db_ssl_mode = [];
  db_ssl_root_cert = [];
  db_admin_user = [];
  db_admin_password = [];
  db_user = [];
  db_password = [];
  db_debug = false;
  db_statement_timeout_ms = pos 0;
  db_max_connections = pos 0;
  db_max_idle_connections = pos 0;
  db_max_connection_lifetime_s = pos 0;
  db_read_replica_host = [];
  db_read_replica_port = pos 0;
  db_read_replica_enabled = false;
  db_work_mem = pos 0;
}

-- The globals before the start.
abbrev pub nothing_open : Globals
nothing_open = record {
  cfg = no_config;
  db = none;
  global_pg_config = none;
  allocated = [];
  other_advisory_types = [];
  advisory_types = [];
  opened = [];
  calls = 0;
}

abbrev pub local_url : Url
local_url = record {
  username = codes "postgres";
  password = codes "secret";
  hostname = codes "localhost";
  port = codes "5434";
  path = codes "/content";
  query = (codes "sslmode", codes "disable") ∷ [];
}

pub port_of_local : parse_int local_url.port ≡ some (pos 5434)
unfolding parse_int
port_of_local = refl

pub mode_of_local :
    (ssl_mode_of local_url == codes "disable" || ssl_mode_of local_url == codes "require") ≡ true
unfolding lookup bytes_eq
mode_of_local = refl

abbrev pub libraries : Libraries
libraries = record {
  parse_url = λ uri. ok local_url;
  answers = λ n. none;
  advisory_type =
      record { id = pos 0; name = codes "unknown" }
      ∷ record { id = pos 3; name = codes "security" }
      ∷ [];
  order = λ names. names;
}

configure_succeeds_example :
    (others : List Text) × (types : Dict ℤ Text) × (configure libraries (codes "uri") nothing_open
      ≡ (ok tt, opened_with local_url (pos 5434) (codes "content") others types nothing_open))
    × IsAllocated (opened_with local_url (pos 5434) (codes "content") others types nothing_open)
    × ((x : Text) → count_where (λ y. y == x) others ≡ other_count libraries.advisory_type x)
    × ((id : ℤ) → lookup id types ≡ name_of id libraries.advisory_type)
configure_succeeds_example =
    configure_succeeds libraries (codes "uri") local_url (pos 5434) b'/' (codes "content")
      nothing_open refl port_of_local refl mode_of_local refl (λ n. refl) (λ names x. refl)
