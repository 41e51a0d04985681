-- ===== src/Api/Agreement.antt =====
-- The two experiments side by side.
use inventory_access_poc.Prelude.{ℕ, ◌≡◌, ap, ◌∙◌, true, List, [], map}
use inventory_access_poc.Prelude.Int.{ℤ}
use inventory_access_poc.Prelude.Bytes.{Text, codes}
use inventory_access_poc.Prelude.Decimal.RoundTrip.{FitsInt64}
use inventory_access_poc.Errors.{Result, ok}
use inventory_access_poc.Tables.{UuidBytes}
use inventory_access_poc.Database.{Answer, done, Connection}
use inventory_access_poc.Packages.{select_by_account}
use inventory_access_poc.Packages.Requests.{Reads}
use inventory_access_poc.Packages.Agreement.{AreUngrouped, select_by_host_ids-select_by_account}
use inventory_access_poc.Identity.{Context}
use inventory_access_poc.Identity.Parsing.{Lacks}
use inventory_access_poc.Router.{Request}
use inventory_access_poc.Router.Dispatch.{with_headers, user_header}
use inventory_access_poc.Server.{resource, LookupResources}
use inventory_access_poc.Api.{Libraries}
use inventory_access_poc.Api.Writer.{Writer, untouched}
use inventory_access_poc.Api.Params.{GetContentPackagesParams, bind_params}
use inventory_access_poc.Api.Routes.{listening_handler}
use inventory_access_poc.Api.Success.{
  IsWritten, listening_handler_succeeds, listening_handler-baseline_succeeds,
}

-- A request to the route that carries `user;account`, where the user name has no semicolon and the
-- account has 64 bits: if its parameters can be read, SpiceDB answers with a stream of host ids that
-- ends, PostgreSQL reads each of them as a uuid, the database does every request, and among the hosts
-- of the account's systems the ids are those of the hosts without a group, then the response has the
-- status 200 and the same body whether the request names no experiment or `baseline`: the encoding of
-- the account's listing, where that can be encoded.
pub listening_handler_agrees :
    (lib : Libraries) (missed : Request → Writer → Writer) (uuid_in : Text → Result UuidBytes)
    (answers : ℕ → Answer) (lookup_resources : LookupResources) (ctx : Context) (user : Text)
    (account : ℤ) (base : Request) (c : Connection) (params : GetContentPackagesParams)
    (names : List Text) (ids : List UuidBytes) (json : Text)
    → Lacks b';' user
    → FitsInt64 account
    → ((experiment : Text)
        → lib.matches
            (codes "GET")
            (codes "/content/packages")
            (with_headers (user_header user account) experiment base)
          ≡ true)
    → bind_params lib base.query ≡ ok params
    → ((n : ℕ) → answers n ≡ done)
    → lookup_resources user ≡ ok (map resource names)
    → Reads answers uuid_in names ids
    → AreUngrouped account ids c.committed
    → lib.marshal (select_by_account account c.committed) ≡ ok json
    → let response = λ (experiment : Text).
      listening_handler lib missed answers uuid_in lookup_resources ctx
        (with_headers (user_header user account) experiment base)
        (c, untouched) in
      IsWritten 200 json (response []) × IsWritten 200 json (response (codes "baseline"))
listening_handler_agrees lib missed uuid_in answers lookup_resources ctx user account base c params
      names ids json h fits m b fine found reads ungrouped encoded =
    (
      listening_handler_succeeds lib missed uuid_in answers lookup_resources ctx user account base c
          params names ids json h fits (m []) b fine found reads
          (ap lib.marshal (select_by_host_ids-select_by_account account ids c.committed ungrouped)
            ∙ encoded),
      listening_handler-baseline_succeeds lib missed uuid_in answers lookup_resources ctx user
          account base c params json h fits (m (codes "baseline")) b fine encoded,
    )
