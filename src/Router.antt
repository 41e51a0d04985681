-- ===== src/Router.antt =====
-- main.go: the settings and the job that the environment chooses, and the way of a request through the
-- middleware to the handler that its headers choose. Prints are left out.
pub mod Dispatch
pub mod Accounts
use inventory_access_poc.Prelude.{
  ◌≡◌, Bool, true, false, Option, none, some, List, [], ◌∷◌, ◌==◌, bytes_eq, if◌then◌else◌,
}
use inventory_access_poc.Prelude.Int.{ℤ}
use inventory_access_poc.Prelude.Bytes.{Text, codes}
use inventory_access_poc.Prelude.Decimal.{parse_int}
use inventory_access_poc.Prelude.Dict.{Dict, lookup, insert}
use inventory_access_poc.Errors.{Result, ok, panic}
use inventory_access_poc.Identity.{Context}

abbrev pub Environment : Type 0
Environment = Dict Text Text

-- `os.Getenv`, which gives the empty text for a variable that is not set.
unfoldable pub getenv : Text → Environment → Text
unfolding lookup bytes_eq
getenv key env = elim (lookup key env) [ none ↦ [] | some value ↦ value ]

-- The package's variables.
pub record Settings : Type 0 where
  pub spice_db_url : Text
  pub spice_db_token : Text
  pub content_pg_uri : Text

abbrev overwritten : Text → Text → Text
overwritten [] old = old
overwritten (c ∷ value) old = c ∷ value

unfoldable pub overwrite_vars_from_env : Environment → Settings → Settings
unfolding getenv
overwrite_vars_from_env env s = record {
  spice_db_url = overwritten (getenv (codes "SPICEDB_URL") env) s.spice_db_url;
  spice_db_token = overwritten (getenv (codes "SPICEDB_PSK") env) s.spice_db_token;
  content_pg_uri = overwritten (getenv (codes "CONTENT_POSTGRES_URI") env) s.content_pg_uri;
}

-- What `main` and `initServer` run.
pub data Job : Type 0 where
  refresh_package_caches : Job
  migrate_content_to_spice_db : Job
  migrate_packages_to_spice_db : Job
  move_systems_between : ℤ → ℤ → Job
  listen_and_serve : Job

-- `strconv.ParseInt` of the two accounts; an error is a panic.
accounts_to_move : Option ℤ → Option ℤ → Result Job
accounts_to_move none to = panic
accounts_to_move (some from) none = panic
accounts_to_move (some from) (some to) = ok (move_systems_between from to)

unfoldable pub chosen_job : Environment → Result Job
unfolding getenv accounts_to_move parse_int bytes_eq
chosen_job env =
    let action = getenv (codes "RUN_ACTION") env in
    if action == codes "REFRESH_PACKAGE_CACHES"
    then ok refresh_package_caches
    else if action == codes "MIGRATE_CONTENT_TO_SPICEDB"
    then ok migrate_content_to_spice_db
    else if action == codes "MIGRATE_PACKAGES_TO_SPICEDB"
    then ok migrate_packages_to_spice_db
    else if action == codes "MOVE_SYSTEMS"
    then accounts_to_move (parse_int (getenv (codes "FROM_ACCOUNT") env))
        (parse_int (getenv (codes "TO_ACCOUNT") env))
    else ok listen_and_serve

-- `url.Values`
abbrev pub Query : Type 0
Query = Dict Text (List Text)

-- What is read of a request; `Header.Get` gives the empty text for a header that is missing.
pub record Request : Type 0 where
  pub method : Text
  pub path : Text
  pub query : Query
  pub authorization : Text
  pub experiment : Text

-- A handler, which answers with an `R`.
abbrev pub Handles : Type 0 → Type 0
Handles R = Context → Request → R

unfoldable pub extract_user_middleware : {R : Type 0} → Handles R → Handles R
unfolding insert
extract_user_middleware h ctx req = elim req.authorization [
  | [] ↦ h ctx req
  | c ∷ user ↦ h (insert (codes "user") (c ∷ user) ctx) req
]

abbrev pub or_pre_filter : Text → Text
or_pre_filter [] = codes "pre-filter"
or_pre_filter (c ∷ experiment) = c ∷ experiment

-- With no handler for the experiment nothing is answered.
unfoldable pub get_experiments_handler : {R : Type 0} → Dict Text (Handles R) → Handles (Option R)
unfolding lookup bytes_eq
get_experiments_handler handlers ctx req = elim (lookup (or_pre_filter req.experiment) handlers) [
  | none ↦ none
  | some h ↦ some (h ctx req)
]

-- The two handlers as `initServer` puts them together.
unfoldable pub serve : {R : Type 0} → Handles R → Handles R → Handles (Option R)
unfolding extract_user_middleware get_experiments_handler
serve pre_filter baseline =
    extract_user_middleware (
      get_experiments_handler
        ((codes "pre-filter", pre_filter) ∷ (codes "baseline", baseline) ∷ []))
