-- ===== src/Tests/Responses.antt =====
-- Requests to the service on the small database, and the responses that are written.
use inventory_access_poc.Prelude.{
  ◌≡◌, refl, true, none, List, [], ◌∷◌, ◌++◌, ◌==◌, ◌&&◌, flat_map, bytes_eq, arith, pair_ord,
}
use inventory_access_poc.Prelude.Int.{pos, int_eq, int_ord}
use inventory_access_poc.Prelude.Bytes.{Text, codes}
use inventory_access_poc.Prelude.Decimal.{format_int}
use inventory_access_poc.Errors.{ok, err, service, ⊤, Result}
use inventory_access_poc.Tables.{PackageAccountData}
use inventory_access_poc.Database.{all_done}
use inventory_access_poc.Packages.{select_by_host_ids, key_eq, select_by_account}
use inventory_access_poc.Identity.{Identity}
use inventory_access_poc.Router.{Query, Request}
use inventory_access_poc.Router.Dispatch.{with_headers, user_header}
use inventory_access_poc.Api.{Libraries}
use inventory_access_poc.Api.Writer.{Writer, untouched, written, Exchange}
use inventory_access_poc.Api.Params.{bind_params}
use inventory_access_poc.Api.Routes.{listening_handler}
use inventory_access_poc.Api.Answers.{HasAnswered}
use inventory_access_poc.Api.Listings.{
  IsListingFor, IsBaselineFor, listening_handler-HasAnswered, listening_handler_baseline,
}
use inventory_access_poc.Api.Agreement.{listening_handler_agrees}
use inventory_access_poc.Packages.Agreement.{AreUngrouped}
use inventory_access_poc.Server.{LookupResources, resource}
use inventory_access_poc.Tests.{host_a, host_b, tables, read_text, connection}
use inventory_access_poc.Api.Success.{IsWritten, listening_handler_succeeds}
use inventory_access_poc.Tests.Listings.{hosts, lookup_hosts}

-- The package and its counts, with a bar after each number.
abbrev marshal : List PackageAccountData → Text
marshal rows = flat_map (λ (d : PackageAccountData). format_int d.pkg_name_id ++ (b'|' ∷ [])) rows

-- A page that is named cannot be read.
abbrev pub libraries : Libraries
libraries = record {
  bind_int = λ name q. elim q [ [] ↦ ok none | p ∷ ps ↦ err (service (codes "bad")) ];
  bind_text = λ name q. ok none;
  bind_bool = λ name q. ok none;
  marshal = λ rows. ok (marshal rows);
  matches = λ method path req. method == req.method && path == req.path;
}

abbrev pub not_found : Request → Writer → Writer
not_found req w = written 404 []

abbrev request : Query → Request
request q = record {
  method = codes "GET";
  path = codes "/content/packages";
  query = q;
  authorization = [];
  experiment = [];
}

abbrev bad_page : Query
bad_page = (codes "page", codes "x" ∷ []) ∷ []

abbrev pub sent : Query → Request
sent q = with_headers (user_header (codes "ann") (pos 1)) [] (request q)

abbrev served : Request → Result ⊤ × Exchange
served req =
    listening_handler libraries not_found all_done read_text lookup_hosts [] req
      (connection, untouched)

bad_page_reported :
    (served (sent bad_page)).1.1
    ≡ written 400 (codes "Invalid format for parameter page: bad" ++ (b'\n' ∷ []))
unfolding listening_handler bytes_eq
bad_page_reported = refl

abbrev ann : Identity
ann = record { user = codes "ann"; rh_account = pos 1; found = true }

listening_handler-HasAnswered_example :
    HasAnswered libraries not_found
      (IsListingFor all_done read_text lookup_hosts ann connection)
      (sent [])
      connection
      (served (sent []))
unfolding bytes_eq
listening_handler-HasAnswered_example =
    listening_handler-HasAnswered all_done read_text lookup_hosts libraries not_found []
      (codes "ann") (pos 1) (request []) connection
      (λ e. omega arith, (λ e. omega arith, (λ e. omega arith, tt))) (omega arith) refl

abbrev sent_to_baseline : Request
sent_to_baseline = with_headers (user_header (codes "ann") (pos 1)) (codes "baseline") (request [])

listening_handler_baseline_example :
    HasAnswered libraries not_found
      (IsBaselineFor all_done read_text lookup_hosts ann connection)
      sent_to_baseline
      connection
      (served sent_to_baseline)
unfolding bytes_eq
listening_handler_baseline_example =
    listening_handler_baseline all_done read_text lookup_hosts libraries not_found [] (codes "ann")
      (pos 1) (request []) connection (λ e. omega arith, (λ e. omega arith, (λ e. omega arith, tt)))
      (omega arith) refl

listening_handler_succeeds_example :
    IsWritten 200 (marshal (select_by_host_ids (pos 1) hosts tables)) (served (sent []))
unfolding bytes_eq bind_params
listening_handler_succeeds_example =
    listening_handler_succeeds libraries not_found read_text all_done lookup_hosts [] (codes "ann")
      (pos 1) (request []) connection
      (record {
        page = none;
        matches = none;
        patches_available = none;
        tag = none;
        sort_key = none;
        sort_order = none;
      })
      hosts hosts (marshal (select_by_host_ids (pos 1) hosts tables))
      (λ e. omega arith, (λ e. omega arith, (λ e. omega arith, tt))) (omega arith) refl refl
      (λ n. refl) refl (refl, (refl, tt)) refl

-- SpiceDB names the two hosts of account 1, which have no group.
abbrev ungrouped_hosts : LookupResources
ungrouped_hosts user = ok (resource host_a ∷ resource host_b ∷ [])

hosts-AreUngrouped : AreUngrouped (pos 1) (host_a ∷ host_b ∷ []) tables
unfolding bytes_eq int_eq
hosts-AreUngrouped = (λ e. refl, (λ e. refl, (λ e. ground arith, tt)))

listening_handler_agrees_example :
    let response = λ (experiment : Text).
      listening_handler libraries not_found all_done read_text ungrouped_hosts []
        (with_headers (user_header (codes "ann") (pos 1)) experiment (request []))
        (connection, untouched) in
    IsWritten 200 (marshal (select_by_account (pos 1) tables)) (response [])
    × IsWritten 200 (marshal (select_by_account (pos 1) tables)) (response (codes "baseline"))
unfolding bytes_eq bind_params
listening_handler_agrees_example =
    listening_handler_agrees libraries not_found read_text all_done ungrouped_hosts [] (codes "ann")
      (pos 1) (request []) connection
      (record {
        page = none;
        matches = none;
        patches_available = none;
        tag = none;
        sort_key = none;
        sort_order = none;
      })
      (host_a ∷ host_b ∷ []) (host_a ∷ host_b ∷ []) (marshal (select_by_account (pos 1) tables))
      (λ e. omega arith, (λ e. omega arith, (λ e. omega arith, tt))) (omega arith)
      (λ experiment. refl) refl (λ n. refl) refl (refl, (refl, tt)) hosts-AreUngrouped refl
