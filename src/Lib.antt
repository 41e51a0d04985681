-- ===== src/Lib.antt =====
-- A verification library for inventory_access_poc, a service that lists the packages of an account's
-- systems from a PostgreSQL content database and asks SpiceDB which hosts a user may read.
--
-- The program's parts, and the files that model them:
-- * migration/psql_to_spicedb.go, which copies packages, hosts and systems into SpiceDB, is Migration.
--   A `Migrator` is `PSQLToSpiceDBMigration`: `add_update` and `flush_updates` pass it on as Go's
--   methods change it. Migration/Batches describes the requests that are sent, Migration/Outcomes
--   what SpiceDB holds after them, Migration/Packages and Migration/Hosts the two migrations, the
--   second (row by row in Migration/Hosts/Rows) with the relationships of Migration/Workspaces.
-- * migration/move_systems.go, which moves systems between accounts, is Move: `move_systems` passes on
--   a `World`, the connection together with what SpiceDB stores. Move/Endings and Move/Outcomes are about
--   every way a move may end, Move/Success and Move/Workspaces about a move in which nothing fails,
--   Move/Sent, Move/Reliable and Move/Placement about the updates that are sent.
-- * cachecontent/common.go, the transaction around a function, is Transaction; `with_tx` is `withTx`.
-- * cachecontent/models.go and the tables of test_data.sql are the records of Tables.
-- * server/server.go is Packages (the statements of the listings, with `GROUP BY` in Grouping), Identity
--   (the identity in a request's context) and Server (the handlers): Server/Handlers, Server/Success and
--   Server/WithDatabase say what they answer. Packages/Counts and Packages/Bounds
--   are about the rows of a listing, Packages/Ungrouped about the hosts without a group.
-- * main.go is Router (the settings and the job that the environment chooses, and the way of a request to
--   its handler), Process (the process from its start to its end, with client/clients.go), whose calls of
--   the other parts are a record of actions, and Program, which fills this record with the operations of
--   the other files: `run_program` takes what the database and SpiceDB hold to what a run leaves there,
--   and `Reach` (Program/Runs) is the relation of any number of runs. Router/Accounts is about the
--   accounts of a move, Process/Shutdown about the end of a process, Program/Effects and Program/Jobs
--   about what a run may change, Program/Placement about the workspaces of the hosts,
--   Program/Workspaces, Program/Migrated and Program/Repair about them over runs, Program/Moves about a
--   run that moves systems, Program/PrimaryKey about the cached rows, Program/Liveness about a run in
--   which every service works (the HTTP server returns an error then too, as net/http documents).
-- * opentelemetry/opentelemetry.go is Telemetry; Telemetry/Cleanups is about the registered cleanups.
-- * cachecontent/setup.go and config.go are Setup: Setup/Connections is about the connection that is
--   opened, Setup/Source about the connection string, Setup/Loading about what is loaded from the database,
--   Setup/Success about a set-up in which nothing fails.
--   cachecontent/core.go and base.go are Variables.
-- * cachecontent/batch.go but for `UnnestInsert` is Bulk, with the text of the statement in Bulk/Sql and
--   what gorm and `reflect` do in Bulk/Library. Bulk/Columns is about the columns and the order of a map,
--   Bulk/Cells about the map of an object, Bulk/Vars about the statement, Bulk/Balance about its
--   placeholders, Bulk/Execution about the rows that come back.
-- * api/server.gen.go, from a request to its response, is Api: Api/Writer has what is written,
--   Api/Params the parameters, Api/Strict the handler of the program's own type, Api/Routes the handler
--   that main.go listens with. Api/Answers is about the response to a request, Api/Listings and
--   Api/Success about the listings that are written, Api/Reads about the database, which a request
--   leaves as it is, Api/Agreement (with Packages/Agreement) about the two experiments side by side.
-- * cachecontent/refresh_packages_caches.go, which keeps the counts of an account in a table, is Refresh
--   (the requests, the transactions and the loop) over Cache (the statements as functions of the tables,
--   and `UnnestInsert` of cachecontent/batch.go). Cache/Rows and Cache/Columns are about the rows and
--   the columns, Refresh/Steps and Refresh/Outcomes about the transactions that are committed,
--   Refresh/Cached and Refresh/Accounts about what the table holds then, Refresh/Success about a refresh
--   in which nothing fails, Refresh/Order and Refresh/Validity about the accounts that are refreshed,
--   Refresh/Counts about what the table holds for each of them then, Refresh/Invariants about what every
--   refresh keeps.
-- * Tests has a small database, and the definitions and theorems applied to it.
--
-- What the program calls and does not contain is a parameter. PostgreSQL answers a connection
-- (Database): how the n-th request ends, with success, a refusal or a lost answer, is the argument
-- `answers`, so that a theorem covers every sequence of failures; the statements themselves are
-- functions of the tables. The driver pgx delivers rows as a stream that may break off (Driver).
-- SpiceDB is a record of a state, a test of what is stored and a write (Spice), and `IsAtomic` states
-- the documented atomicity of a write. The uuid library and PostgreSQL's reading of a uuid are
-- functions, and so are `hash_partition_id` and, as `not_in_empty`, the value of gorm's `NOT IN ?` for an
-- empty slice. An error comes back with the state reached so far (Errors), since what was written stays
-- written.
--
-- Integers are not bounded: the program only compares, orders, prints and reads its ids, and
-- `parse_int` (Prelude/Decimal) refuses what does not fit 64 bits. Counts are natural numbers. The
-- loops are recursions over rows, ids or digits. `emit` prints a number on fuel one above the number,
-- which has fewer digits than that.
--
-- gorm, `reflect`, url.Parse, the OpenTelemetry library, the chi router, the binding of a parameter and
-- json.Marshal are records of functions too (Bulk/Library, `Libraries` in Setup and in Api,
-- `OpenTelemetry`), and so is the order in which Go iterates over a map. A text of
-- Variables is a list of runes where the code works on runes. A pointer to a configuration is its place
-- among those that were allocated.
--
-- In Program a process starts with connections of its own, to one database and one SpiceDB; it serves
-- the requests one after the other, and nothing else writes to the two while it runs.
--
-- Not modelled: traces and prints; signals and the cancellation of a context; of api/server.gen.go the
-- embedded specification, and the error types and constructors that the program does not use; of
-- net/http all but what a handler does to its response; the fields of `Config` and the columns that no
-- modelled code mentions.
pub mod Program
pub mod Api
pub mod Prelude
pub mod Errors
pub mod Tables
pub mod Spice
pub mod Driver
pub mod Migration
pub mod Database
pub mod Move
pub mod Grouping
pub mod Transaction
pub mod Packages
pub mod Identity
pub mod Server
pub mod Cache
pub mod Refresh
pub mod Router
pub mod Bulk
pub mod Telemetry
pub mod Process
pub mod Setup
pub mod Variables
pub mod Tests
