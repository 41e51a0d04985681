-- ===== src/Api/Strict.antt =====
-- `strictHandler` of api/server.gen.go: the handler of the program's own type, and what is written of
-- its result.
use inventory_access_poc.Prelude.{List, ◌++◌, foldl}
use inventory_access_poc.Prelude.Bytes.{Text, codes}
use inventory_access_poc.Errors.{Error, message, Result, ok, err, panic, ⊤, Action}
use inventory_access_poc.Database.{Connection}
use inventory_access_poc.Identity.{Context}
use inventory_access_poc.Router.{Request}
use inventory_access_poc.Server.{PackagesPayload}
use inventory_access_poc.Api.{Libraries}
use inventory_access_poc.Api.Writer.{
  Exchange, on_connection, on_writer, http_error, visit_get_content_packages_response,
}
use inventory_access_poc.Api.Params.{GetContentPackagesParams}

-- `StrictServerInterface`; a `GetContentPackagesRequestObject` holds the parameters and no more.
abbrev pub StrictServer : Type 0
StrictServer = Context → GetContentPackagesParams → Action Connection PackagesPayload

-- The `interface{}` that a strict handler returns: a response, nil, or a value of another type.
pub data Response : Type 0 where
  valid_response : PackagesPayload → Response
  nil_response : Response
  unexpected : Text → Response

-- `StrictHttpHandlerFunc`, without the request and the writer, which no handler of the program uses.
abbrev pub StrictHandlerFunc : Type 0
StrictHandlerFunc = Context → GetContentPackagesParams → Action Connection Response

abbrev pub StrictMiddlewareFunc : Type 0
StrictMiddlewareFunc = StrictHandlerFunc → Text → StrictHandlerFunc

abbrev pub ErrorHandler : Type 0
ErrorHandler = Request → Error → Action Exchange ⊤

pub record StrictOptions : Type 0 where
  pub request_error_handler_func : ErrorHandler
  pub response_error_handler_func : ErrorHandler

pub record StrictHandler : Type 0 where
  pub ssi : StrictServer
  pub middlewares : List StrictMiddlewareFunc
  pub options : StrictOptions

abbrev pub new_strict_handler : StrictServer → List StrictMiddlewareFunc → StrictHandler
new_strict_handler ssi middlewares = record {
  ssi = ssi;
  middlewares = middlewares;
  options = record {
    request_error_handler_func = λ r e. on_writer (http_error 400 e);
    response_error_handler_func = λ r e. on_writer (http_error 500 e);
  };
}

unfoldable pub as_response : Result PackagesPayload → Result Response
as_response (ok p) = ok (valid_response p)
as_response (err e) = err e
as_response panic = panic

-- The handler that the middleware is wrapped around.
abbrev innermost : StrictServer → StrictHandlerFunc
innermost ssi ctx params c = let (r, c') = ssi ctx params c in (as_response r, c')

unfoldable pub after_visit : ErrorHandler → Request → Result ⊤ → Action Exchange ⊤
after_visit failed req (ok _) s = (ok tt, s)
after_visit failed req (err e) s = failed req e s
after_visit failed req panic s = (panic, s)

unfoldable pub respond : Libraries → ErrorHandler → Request → Result Response → Action Exchange ⊤
unfolding after_visit visit_get_content_packages_response
respond lib failed req (ok (valid_response p)) s =
    let (r, s') = visit_get_content_packages_response lib p s in after_visit failed req r s'
respond lib failed req (ok nil_response) s = (ok tt, s)
respond lib failed req (ok (unexpected type_name)) s =
    failed req (message (codes "unexpected response type: " ++ type_name)) s
respond lib failed req (err e) s = failed req e s
respond lib failed req panic s = (panic, s)

-- `GetContentPackages` of a strict handler.
unfoldable pub get_content_packages :
    Libraries → StrictHandler → Context → Request → GetContentPackagesParams → Action Exchange ⊤
unfolding respond as_response
get_content_packages lib sh ctx req params s =
    let handler =
      foldl (λ h middleware. middleware h (codes "GetContentPackages")) (innermost sh.ssi)
        sh.middlewares in
    let (r, s') = on_connection (handler ctx params) s in
    respond lib sh.options.response_error_handler_func req r s'
