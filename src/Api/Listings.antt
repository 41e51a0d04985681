-- ===== src/Api/Listings.antt =====
-- The HTTP responses of the two experiments.
use inventory_access_poc.Prelude.{ℕ, ◌≡◌, ◌∙◌, subst, true, List, [], map}
use inventory_access_poc.Prelude.Int.{ℤ}
use inventory_access_poc.Prelude.Bytes.{Text, codes}
use inventory_access_poc.Prelude.Decimal.RoundTrip.{FitsInt64}
use inventory_access_poc.Errors.{Result, ok}
use inventory_access_poc.Tables.{UuidBytes}
use inventory_access_poc.Database.{Answer, Connection}
use inventory_access_poc.Packages.{select_by_host_ids}
use inventory_access_poc.Packages.Ungrouped.{
  listing_without_groups, select_by_account-listing_without_groups,
}
use inventory_access_poc.Packages.Requests.{Reads}
use inventory_access_poc.Identity.{Context, Identity, get_identity_from_context}
use inventory_access_poc.Identity.Parsing.{Lacks}
use inventory_access_poc.Router.{Request}
use inventory_access_poc.Router.Dispatch.{
  with_headers, user_header, serve-pre_filter, serve-baseline,
}
use inventory_access_poc.Server.{
  resource, LookupResources, PackagesPayload, pre_filter_get_content_packages,
  baseline_get_content_packages,
}
use inventory_access_poc.Server.Handlers.{
  pre_filter_get_content_packages-IsListing, baseline_listing,
}
use inventory_access_poc.Api.{Libraries}
use inventory_access_poc.Api.Writer.{Writer, untouched}
use inventory_access_poc.Api.Strict.{StrictServer}
use inventory_access_poc.Api.Routes.{HttpHandler, handler_of_server, answered, listening_handler}
use inventory_access_poc.Api.Answers.{HasAnswered, handler_of_server-HasAnswered}

module _ (answers : ℕ → Answer) (uuid_in : Text → Result UuidBytes)
    (lookup_resources : LookupResources) where
  -- The listing of the account over the hosts that SpiceDB names for the user.
  abbrev pub IsListingFor : Identity → Connection → PackagesPayload → Type 0
  IsListingFor identity c p =
      (names : List Text) × (lookup_resources identity.user ≡ ok (map resource names))
      × (ids : List UuidBytes) × Reads answers uuid_in names ids
      × (p.items ≡ select_by_host_ids identity.rh_account ids c.committed)

  -- The counts of the packages on the hosts whose list of groups is known and empty, over the ids of these
  -- hosts.
  abbrev pub IsBaselineFor : Identity → Connection → PackagesPayload → Type 0
  IsBaselineFor identity c p = p.items ≡ listing_without_groups identity.rh_account c.committed

  baseline-IsBaselineFor :
      (ctx : Context) (c : Connection)
      → let (r, c') = baseline_get_content_packages answers uuid_in ctx c in
        (c'.committed ≡ c.committed)
        × ((p : PackagesPayload) → r ≡ ok p → IsBaselineFor (get_identity_from_context ctx) c p)
  baseline-IsBaselineFor ctx c =
      let (kept, got) = baseline_listing answers uuid_in ctx c in
      (
        kept,
        λ p e.
            got p e
            ∙ select_by_account-listing_without_groups (get_identity_from_context ctx).rh_account
                c.committed,
      )

  module _ (lib : Libraries) (missed : Request → Writer → Writer) where
    abbrev pre_filter_server : StrictServer
    pre_filter_server ctx params =
        pre_filter_get_content_packages answers uuid_in lookup_resources ctx

    abbrev baseline_server : StrictServer
    baseline_server ctx params = baseline_get_content_packages answers uuid_in ctx

    -- The answer of a handler to a request of this identity.
    abbrev AnswersAs :
        (Identity → Connection → PackagesPayload → Type 0)
        → HttpHandler
        → Context
        → Request
        → Connection
        → Identity
        → Type 0
    AnswersAs Holds handler ctx req c identity =
        HasAnswered lib missed (Holds identity c) req c (handler ctx req (c, untouched))

    -- A request to the route that names no experiment and carries `user;account`, where the user name
    -- has no semicolon and the account has 64 bits, leaves the committed tables as they are. The
    -- response has the status 200 and as JSON the listing of this account over exactly the hosts
    -- that SpiceDB names for this user; or 400, with no request to the database, and the error of a
    -- parameter; or 500 and an error; or nothing is written before a panic.
    pub listening_handler-HasAnswered :
        (ctx : Context) (user : Text) (account : ℤ) (base : Request) (c : Connection)
        → Lacks b';' user
        → FitsInt64 account
        → let req = with_headers (user_header user account) [] base in
          lib.matches (codes "GET") (codes "/content/packages") req ≡ true
          → HasAnswered lib missed
              (IsListingFor (record { user = user; rh_account = account; found = true }) c)
              req
              c
              (listening_handler lib missed answers uuid_in lookup_resources ctx req (c, untouched))
    unfolding listening_handler answered
    listening_handler-HasAnswered ctx user account base c h fits m =
        let req = with_headers (user_header user account) [] base in
        let pre_filter = handler_of_server lib missed pre_filter_server in
        let baseline = handler_of_server lib missed baseline_server in
        let (ctx', chosen, who) =
          serve-pre_filter pre_filter baseline ctx user account base h fits in
        rw chosen (
          subst (AnswersAs IsListingFor pre_filter ctx' req c) who (
            handler_of_server-HasAnswered lib missed _ pre_filter_server ctx' req c m λ params.
              pre_filter_get_content_packages-IsListing answers uuid_in lookup_resources ctx' c))

    -- A request to the route that names the experiment `baseline` and carries `user;account`, where
    -- the user name has no semicolon and the account has 64 bits, leaves the committed tables as they
    -- are. The response has the status 200 and as JSON the packages of this account, in order and
    -- with their counts, on the hosts whose list of groups is empty, as if the database had no other
    -- hosts; or 400, with no request to the database, and the error of a parameter; or 500 and an
    -- error; or nothing is written before a panic.
    pub listening_handler_baseline :
        (ctx : Context) (user : Text) (account : ℤ) (base : Request) (c : Connection)
        → Lacks b';' user
        → FitsInt64 account
        → let req = with_headers (user_header user account) (codes "baseline") base in
          lib.matches (codes "GET") (codes "/content/packages") req ≡ true
          → HasAnswered lib missed
              (IsBaselineFor (record { user = user; rh_account = account; found = true }) c)
              req
              c
              (listening_handler lib missed answers uuid_in lookup_resources ctx req (c, untouched))
    unfolding listening_handler answered
    listening_handler_baseline ctx user account base c h fits m =
        let req = with_headers (user_header user account) (codes "baseline") base in
        let pre_filter = handler_of_server lib missed pre_filter_server in
        let baseline = handler_of_server lib missed baseline_server in
        let (ctx', chosen, who) = serve-baseline pre_filter baseline ctx user account base h fits in
        rw chosen (
          subst (AnswersAs IsBaselineFor baseline ctx' req c) who (
            handler_of_server-HasAnswered lib missed _ baseline_server ctx' req c m
              λ params. baseline-IsBaselineFor ctx' c))
