-- ===== src/Api/Routes.antt =====
-- `ServerInterfaceWrapper` and `HandlerWithOptions` of api/server.gen.go, and the handler that main.go
-- listens with.
use inventory_access_poc.Prelude.{ℕ, Option, none, some, List, [], ◌++◌, foldl, if◌then◌else◌}
use inventory_access_poc.Prelude.Bytes.{Text, codes}
use inventory_access_poc.Errors.{Result, ok, err, panic, ⊤, Action}
use inventory_access_poc.Tables.{UuidBytes}
use inventory_access_poc.Database.{Answer}
use inventory_access_poc.Identity.{Context}
use inventory_access_poc.Router.{Request, Handles, serve}
use inventory_access_poc.Server.{
  LookupResources, pre_filter_get_content_packages, baseline_get_content_packages,
}
use inventory_access_poc.Api.{Libraries}
use inventory_access_poc.Api.Writer.{Writer, Exchange, on_writer, http_error}
use inventory_access_poc.Api.Params.{GetContentPackagesParams, bind_params}
use inventory_access_poc.Api.Strict.{
  ErrorHandler, StrictServer, new_strict_handler, get_content_packages,
}

-- `http.Handler`
abbrev pub HttpHandler : Type 0
HttpHandler = Handles (Action Exchange ⊤)

abbrev pub ServerInterface : Type 0
ServerInterface = Context → Request → GetContentPackagesParams → Action Exchange ⊤

pub record ServerInterfaceWrapper : Type 0 where
  pub handler : ServerInterface
  pub handler_middlewares : List (HttpHandler → HttpHandler)
  pub error_handler_func : ErrorHandler

unfoldable pub bound : ServerInterfaceWrapper → Result GetContentPackagesParams → HttpHandler
bound siw (ok params) =
    foldl (λ h middleware. middleware h) (λ ctx req. siw.handler ctx req params)
      siw.handler_middlewares
bound siw (err e) = λ ctx req. siw.error_handler_func req e
bound siw panic = λ ctx req s. (panic, s)

-- `GetContentPackages` of the wrapper.
unfoldable pub wrapped_get_content_packages : Libraries → ServerInterfaceWrapper → HttpHandler
unfolding bound bind_params
wrapped_get_content_packages lib siw ctx req = bound siw (bind_params lib req.query) ctx req

-- `ChiServerOptions` with a base router that is nil.
pub record ChiServerOptions : Type 0 where
  pub base_url : Text
  pub middlewares : List (HttpHandler → HttpHandler)
  pub error_handler : Option ErrorHandler

abbrev or_bad_request : Option ErrorHandler → ErrorHandler
or_bad_request none = λ req e. on_writer (http_error 400 e)
or_bad_request (some failed) = failed

module _ (lib : Libraries) (missed : Request → Writer → Writer) where
  -- `missed` is how the chi router answers a request for another path or of another method.
  unfoldable pub handler_with_options : ServerInterface → ChiServerOptions → HttpHandler
  unfolding wrapped_get_content_packages
  handler_with_options si options ctx req =
      let wrapper : ServerInterfaceWrapper = record {
        handler = si;
        handler_middlewares = options.middlewares;
        error_handler_func = or_bad_request options.error_handler;
      } in
      if lib.matches (codes "GET") (options.base_url ++ codes "/content/packages") req
      then wrapped_get_content_packages lib wrapper ctx req
      else on_writer (missed req)

  -- `Handler`
  unfoldable pub handler_of : ServerInterface → HttpHandler
  unfolding handler_with_options
  handler_of si =
      handler_with_options si (record { base_url = []; middlewares = []; error_handler = none })

  -- The handler of a server, as `initServer` makes it.
  unfoldable pub handler_of_server : StrictServer → HttpHandler
  unfolding handler_of get_content_packages
  handler_of_server server = handler_of (get_content_packages lib (new_strict_handler server []))

  unfoldable pub answered : Option (Action Exchange ⊤) → Action Exchange ⊤
  answered none s = (ok tt, s)
  answered (some answer) s = answer s

  -- The handler that `initServer` listens with.
  unfoldable pub listening_handler :
      (ℕ → Answer) → (Text → Result UuidBytes) → LookupResources → HttpHandler
  unfolding serve handler_of_server answered pre_filter_get_content_packages
      baseline_get_content_packages
  listening_handler answers uuid_in lookup_resources ctx req =
      let pre_filter =
        handler_of_server
          λ ctx' params. pre_filter_get_content_packages answers uuid_in lookup_resources ctx' in
      let baseline =
        handler_of_server λ ctx' params. baseline_get_content_packages answers uuid_in ctx' in
      answered (serve pre_filter baseline ctx req)
