-- ===== src/Api/Success.antt =====
-- A request that is answered with a listing.
use inventory_access_poc.Prelude.{ℕ, ◌≡◌, refl, ap, ◌∙◌, true, List, [], map}
use inventory_access_poc.Prelude.Int.{ℤ}
use inventory_access_poc.Prelude.Bytes.{Text, codes}
use inventory_access_poc.Prelude.Decimal.RoundTrip.{FitsInt64}
use inventory_access_poc.Errors.{Result, ok, ⊤}
use inventory_access_poc.Tables.{UuidBytes, PackageAccountData}
use inventory_access_poc.Database.{Answer, done, Connection}
use inventory_access_poc.Packages.{select_by_host_ids, select_by_account}
use inventory_access_poc.Packages.Requests.{Reads}
use inventory_access_poc.Identity.{Context, Identity}
use inventory_access_poc.Identity.Parsing.{Lacks}
use inventory_access_poc.Router.{Request}
use inventory_access_poc.Router.Dispatch.{
  with_headers, user_header, serve-pre_filter, serve-baseline,
}
use inventory_access_poc.Server.{
  resource, LookupResources, pre_filter_get_content_packages, baseline_get_content_packages,
}
use inventory_access_poc.Server.Success.{
  pre_filter_get_content_packages_succeeds, baseline_get_content_packages_succeeds,
}
use inventory_access_poc.Api.{Libraries}
use inventory_access_poc.Api.Writer.{
  Writer, untouched, written, Exchange, visit_get_content_packages_response,
}
use inventory_access_poc.Api.Params.{GetContentPackagesParams, bind_params}
use inventory_access_poc.Api.Strict.{
  StrictServer, new_strict_handler, as_response, after_visit, respond, get_content_packages,
}
use inventory_access_poc.Api.Routes.{HttpHandler, handler_of_server, answered, listening_handler}
use inventory_access_poc.Api.Answers.{handler_of_server-asks}

-- The handler returned, with this status and body.
abbrev pub IsWritten : ℕ → Text → Result ⊤ × Exchange → Type 0
IsWritten code body e = (e.0 ≡ ok tt) × (e.1.1 ≡ written code body)

strict-IsWritten :
    (lib : Libraries) (server : StrictServer) (ctx : Context) (req : Request)
    (params : GetContentPackagesParams) (c : Connection) (rows : List PackageAccountData)
    (json : Text)
    → (server ctx params c).0 ≡ ok (record { items = rows })
    → lib.marshal rows ≡ ok json
    → IsWritten 200 json
        (get_content_packages lib (new_strict_handler server []) ctx req params (c, untouched))
unfolding get_content_packages respond as_response after_visit visit_get_content_packages_response
strict-IsWritten lib server ctx req params c rows json e f = rw (e, f) (refl, refl)

module _ (lib : Libraries) (missed : Request → Writer → Writer)
    (uuid_in : Text → Result UuidBytes) where
  -- A request to the route that names no experiment and carries `user;account`, where the user name
  -- has no semicolon and the account has 64 bits: if its parameters can be read, SpiceDB answers with
  -- a stream of host ids that ends, PostgreSQL reads each of them as a uuid, the database does every
  -- request, and the listing of the account over these hosts can be encoded, then the response has
  -- the status 200 and this encoding as its body.
  pub listening_handler_succeeds :
      (answers : ℕ → Answer) (lookup_resources : LookupResources) (ctx : Context) (user : Text)
      (account : ℤ) (base : Request) (c : Connection) (params : GetContentPackagesParams)
      (names : List Text) (ids : List UuidBytes) (json : Text)
      → Lacks b';' user
      → FitsInt64 account
      → let req = with_headers (user_header user account) [] base in
        lib.matches (codes "GET") (codes "/content/packages") req ≡ true
        → bind_params lib req.query ≡ ok params
        → ((n : ℕ) → answers n ≡ done)
        → lookup_resources user ≡ ok (map resource names)
        → Reads answers uuid_in names ids
        → lib.marshal (select_by_host_ids account ids c.committed) ≡ ok json
        → IsWritten 200 json
            (listening_handler lib missed answers uuid_in lookup_resources ctx req (c, untouched))
  unfolding listening_handler answered
  listening_handler_succeeds answers lookup_resources ctx user account base c params names ids json
        h fits m b fine found reads encoded =
      let req = with_headers (user_header user account) [] base in
      let server : StrictServer =
        λ ctx' params. pre_filter_get_content_packages answers uuid_in lookup_resources ctx' in
      let pre_filter : HttpHandler = handler_of_server lib missed server in
      let baseline : HttpHandler =
        handler_of_server lib missed
          λ ctx' params. baseline_get_content_packages answers uuid_in ctx' in
      let (ctx', chosen, who) = serve-pre_filter pre_filter baseline ctx user account base h fits in
      let listed : (server ctx' params c).0
          ≡ ok (record { items = select_by_host_ids account ids c.committed }) =
        pre_filter_get_content_packages_succeeds uuid_in answers lookup_resources ctx' c names ids
          fine (ap (λ (i : Identity). lookup_resources i.user) who ∙ found) reads
        ∙ ap
            (λ (i : Identity).
              ok (record { items = select_by_host_ids i.rh_account ids c.committed }))
            who in
      rw (chosen, handler_of_server-asks lib missed server ctx' req c params m b)
        (strict-IsWritten lib server ctx' req params c (select_by_host_ids account ids c.committed)
          json listed encoded)

  -- The same for a request that names the experiment `baseline`.
  pub listening_handler-baseline_succeeds :
      (answers : ℕ → Answer) (lookup_resources : LookupResources) (ctx : Context) (user : Text)
      (account : ℤ) (base : Request) (c : Connection) (params : GetContentPackagesParams)
      (json : Text)
      → Lacks b';' user
      → FitsInt64 account
      → let req = with_headers (user_header user account) (codes "baseline") base in
        lib.matches (codes "GET") (codes "/content/packages") req ≡ true
        → bind_params lib req.query ≡ ok params
        → ((n : ℕ) → answers n ≡ done)
        → lib.marshal (select_by_account account c.committed) ≡ ok json
        → IsWritten 200 json
            (listening_handler lib missed answers uuid_in lookup_resources ctx req (c, untouched))
  unfolding listening_handler answered
  listening_handler-baseline_succeeds answers lookup_resources ctx user account base c params json h
        fits m b fine encoded =
      let req = with_headers (user_header user account) (codes "baseline") base in
      let server : StrictServer =
        λ ctx' params. baseline_get_content_packages answers uuid_in ctx' in
      let pre_filter : HttpHandler =
        handler_of_server lib missed
          λ ctx' params. pre_filter_get_content_packages answers uuid_in lookup_resources ctx' in
      let baseline : HttpHandler = handler_of_server lib missed server in
      let (ctx', chosen, who) = serve-baseline pre_filter baseline ctx user account base h fits in
      let listed : (server ctx' params c).0
          ≡ ok (record { items = select_by_account account c.committed }) =
        baseline_get_content_packages_succeeds uuid_in answers ctx' c fine
        ∙ ap (λ (i : Identity). ok (record { items = select_by_account i.rh_account c.committed }))
            who in
      rw (chosen, handler_of_server-asks lib missed server ctx' req c params m b)
        (strict-IsWritten lib server ctx' req params c (select_by_account account c.committed) json
          listed encoded)
