-- ===== src/Api/Writer.antt =====
-- What a handler does to a `http.ResponseWriter`: `http.Error`, and `VisitGetContentPackagesResponse` of
-- server/server.go.
use inventory_access_poc.Prelude.{ℕ, [], ◌∷◌, ◌++◌}
use inventory_access_poc.Prelude.Bytes.{Text, codes}
use inventory_access_poc.Errors.{Error, service, message, wrapped, ok, ⊤, Action, proceed}
use inventory_access_poc.Server.{PackagesPayload}
use inventory_access_poc.Database.{Connection}
use inventory_access_poc.Api.{Libraries}

-- Nothing yet, or a status with the body so far.
pub data Writer : Type 0 where
  untouched : Writer
  written : ℕ → Text → Writer

-- A second status is ignored.
abbrev pub write_header : ℕ → Writer → Writer
write_header code untouched = written code []
write_header code (written status body) = written status body

-- The first bytes send the status 200.
abbrev pub write : Text → Writer → Writer
write text untouched = written 200 text
write text (written status body) = written status (body ++ text)

abbrev pub error_text : Error → Text
error_text (service text) = text
error_text (message text) = text
error_text (wrapped text e) = text ++ (codes ": " ++ error_text e)

-- `http.Error`
abbrev pub http_error : ℕ → Error → Writer → Writer
http_error code e w = write (error_text e ++ (b'\n' ∷ [])) (write_header code w)

-- What a handler changes: the connection to the database, and the response.
abbrev pub Exchange : Type 0
Exchange = Connection × Writer

abbrev pub on_connection : {A : Type 0} → Action Connection A → Action Exchange A
on_connection m (c, w) = let (r, c') = m c in (r, (c', w))

abbrev pub on_writer : (Writer → Writer) → Action Exchange ⊤
on_writer f (c, w) = (ok tt, (c, f w))

-- The error of `w.Write` is dropped: the test after it is of the error of `json.Marshal`.
unfoldable pub visit_get_content_packages_response : Libraries → PackagesPayload → Action Exchange ⊤
visit_get_content_packages_response lib p =
    proceed (lib.marshal p.items) (λ json. on_writer (write json))
