-- ===== src/Api.antt =====
-- api/server.gen.go, with `VisitGetContentPackagesResponse` of server/server.go and the handlers of
-- main.go: from a request to the response that is written.
pub mod Writer
pub mod Params
pub mod Strict
pub mod Routes
pub mod Answers
pub mod Listings
pub mod Success
pub mod Agreement
pub mod Reads
use inventory_access_poc.Prelude.{Bool, Option, List}
use inventory_access_poc.Prelude.Int.{ℤ}
use inventory_access_poc.Prelude.Bytes.{Text}
use inventory_access_poc.Errors.{Result}
use inventory_access_poc.Tables.{PackageAccountData}
use inventory_access_poc.Router.{Query, Request}

-- `runtime.BindQueryParameter` for an optional parameter of each type, by its name; `json.Marshal` of
-- an object with the field `data`; and whether a chi router with one route, of a method and a
-- pattern, takes a request to it.
pub record Libraries : Type 0 where
  pub bind_int : Text → Query → Result (Option ℤ)
  pub bind_text : Text → Query → Result (Option Text)
  pub bind_bool : Text → Query → Result (Option Bool)
  pub marshal : List PackageAccountData → Result Text
  pub matches : Text → Text → Request → Bool
