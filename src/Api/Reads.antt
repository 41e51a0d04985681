-- ===== src/Api/Reads.antt =====
-- Whatever a request asks for, it leaves the committed tables as they are.
use inventory_access_poc.Prelude.{ℕ, ◌≡◌, refl, ap, false, Bool-cases, inl, inr, Option, none, some}
use inventory_access_poc.Prelude.Bytes.{Text, codes}
use inventory_access_poc.Errors.{Result, ⊤, Action}
use inventory_access_poc.Tables.{UuidBytes}
use inventory_access_poc.Database.{Answer, Connection}
use inventory_access_poc.Identity.{Context}
use inventory_access_poc.Router.{Request, serve}
use inventory_access_poc.Router.Dispatch.{serve-All}
use inventory_access_poc.Server.{
  LookupResources, pre_filter_get_content_packages, baseline_get_content_packages,
}
use inventory_access_poc.Server.Handlers.{
  pre_filter_get_content_packages-IsListing, baseline_listing,
}
use inventory_access_poc.Api.{Libraries}
use inventory_access_poc.Api.Writer.{Writer, untouched, Exchange}
use inventory_access_poc.Api.Params.{GetContentPackagesParams}
use inventory_access_poc.Api.Strict.{StrictServer}
use inventory_access_poc.Api.Routes.{
  HttpHandler, handler_with_options, handler_of, handler_of_server, answered, listening_handler,
}
use inventory_access_poc.Api.Answers.{handler_of_server-HasAnswered}

module _ (lib : Libraries) (missed : Request → Writer → Writer) where
  -- An answer to a request that leaves the committed tables.
  abbrev OnlyReads : Action Exchange ⊤ → Type 0
  OnlyReads m = (c : Connection) → (m (c, untouched)).1.0.committed ≡ c.committed

  -- The router's own answer does not ask the database.
  handler_of_server-missed :
      (server : StrictServer) (ctx : Context) (req : Request) (c : Connection)
      → lib.matches (codes "GET") (codes "/content/packages") req ≡ false
      → (handler_of_server lib missed server ctx req (c, untouched)).1.0 ≡ c
  unfolding handler_of_server handler_of handler_with_options
  handler_of_server-missed server ctx req c m = rw m refl

  handler_of_server-OnlyReads :
      (server : StrictServer)
      → ((ctx : Context) (params : GetContentPackagesParams) (c : Connection)
          → (server ctx params c).1.committed ≡ c.committed)
      → (ctx : Context) (req : Request) → OnlyReads (handler_of_server lib missed server ctx req)
  handler_of_server-OnlyReads server kept ctx req c =
      elim (Bool-cases (lib.matches (codes "GET") (codes "/content/packages") req)) [
        | inl m ↦
            (handler_of_server-HasAnswered lib missed (λ p. ⊤) server ctx req c m
              (λ params. (kept ctx params c, λ p e. tt))).0
        | inr m ↦ ap (λ (d : Connection). d.committed) (handler_of_server-missed server ctx req c m)
      ]

  answered-OnlyReads :
      (o : Option (Action Exchange ⊤))
      → ((m : Action Exchange ⊤) → o ≡ some m → OnlyReads m)
      → OnlyReads (answered lib missed o)
  unfolding answered
  answered-OnlyReads none h c = refl
  answered-OnlyReads (some m) h c = h m refl c

  -- No request to the service changes the committed tables.
  pub listening_handler-OnlyReads :
      (answers : ℕ → Answer) (uuid_in : Text → Result UuidBytes)
      (lookup_resources : LookupResources) (ctx : Context) (req : Request) (c : Connection)
      → (listening_handler lib missed answers uuid_in lookup_resources ctx req
          (c, untouched)).1.0.committed
        ≡ c.committed
  unfolding listening_handler
  listening_handler-OnlyReads answers uuid_in lookup_resources ctx req =
      let pre_filter : HttpHandler =
        handler_of_server lib missed
          λ ctx' params. pre_filter_get_content_packages answers uuid_in lookup_resources ctx' in
      let baseline : HttpHandler =
        handler_of_server lib missed
          λ ctx' params. baseline_get_content_packages answers uuid_in ctx' in
      answered-OnlyReads (serve pre_filter baseline ctx req) (
        serve-All OnlyReads pre_filter baseline
          (λ ctx' req'.
            handler_of_server-OnlyReads _
              (λ ctx'' params d.
                (pre_filter_get_content_packages-IsListing answers uuid_in lookup_resources ctx''
                  d).0)
              ctx' req')
          (λ ctx' req'.
            handler_of_server-OnlyReads _
              (λ ctx'' params d. (baseline_listing answers uuid_in ctx'' d).0) ctx' req')
          ctx req)
