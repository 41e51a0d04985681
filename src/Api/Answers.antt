-- ===== src/Api/Answers.antt =====
-- What a request to a server is answered with, and what it leaves alone.
use inventory_access_poc.Prelude.{ℕ, ◌≡◌, refl, ap, ◌∙◌, ◌⊎◌, inl, inr, true, [], ◌∷◌, ◌++◌}
use inventory_access_poc.Prelude.Bytes.{Text, codes}
use inventory_access_poc.Errors.{Error, Result, ok, err, panic, ⊤, Result-cases}
use inventory_access_poc.Database.{Connection}
use inventory_access_poc.Identity.{Context}
use inventory_access_poc.Router.{Request}
use inventory_access_poc.Server.{PackagesPayload}
use inventory_access_poc.Api.{Libraries}
use inventory_access_poc.Api.Writer.{
  Writer, untouched, written, Exchange, error_text, visit_get_content_packages_response,
}
use inventory_access_poc.Api.Params.{GetContentPackagesParams, bind_params}
use inventory_access_poc.Api.Strict.{
  StrictServer, new_strict_handler, as_response, after_visit, respond, get_content_packages,
}
use inventory_access_poc.Api.Routes.{
  bound, wrapped_get_content_packages, handler_with_options, handler_of, handler_of_server,
}

-- The text of an error and the end of its line, with a status.
abbrev pub reported : ℕ → Error → Writer
reported code e = written code (error_text e ++ (b'\n' ∷ []))

-- A payload of which `Holds` is true is written as JSON; or an error is reported; or nothing is
-- written before a panic.
abbrev pub HasWritten : Libraries → (PackagesPayload → Type 0) → Result ⊤ → Writer → Type 0
HasWritten lib Holds r w =
    ((p : PackagesPayload) × (json : Text) × (lib.marshal p.items ≡ ok json)
      × (r ≡ ok tt)
      × (w ≡ written 200 json)
      × Holds p)
    ⊎ ((e : Error) × (r ≡ ok tt) × (w ≡ reported 500 e))
    ⊎ ((r ≡ panic) × (w ≡ untouched))

module _ (lib : Libraries) where
  -- What a server returns is what is written.
  strict-HasWritten :
      (server : StrictServer) (ctx : Context) (req : Request) (params : GetContentPackagesParams)
      (c : Connection)
      → let (r, c') = server ctx params c in
        let (q, (d, w)) =
          get_content_packages lib (new_strict_handler server []) ctx req params (c, untouched) in
        (d ≡ c') × HasWritten lib (λ p. r ≡ ok p) q w
  unfolding get_content_packages respond as_response after_visit visit_get_content_packages_response
  strict-HasWritten server ctx req params c = elim (Result-cases (server ctx params c).0) [
    | inl (p, e) ↦ elim (Result-cases (lib.marshal p.items)) [
      | inl (json, f) ↦ rw (e, f) (refl, inl (p, json, f, refl, refl, refl))
      | inr (inl (x, f)) ↦ rw (e, f) (refl, inr (inl (x, refl, refl)))
      | inr (inr f) ↦ rw (e, f) (refl, inr (inr (refl, refl)))
    ]
    | inr (inl (x, e)) ↦ rw e (refl, inr (inl (x, refl, refl)))
    | inr (inr e) ↦ rw e (refl, inr (inr (refl, refl)))
  ]

  module _ (missed : Request → Writer → Writer) where
    -- The handler of a server, for a request to its route: the server is asked where the parameters
    -- can be read.
    handler_of_server-bad_params :
        (server : StrictServer) (ctx : Context) (req : Request) (c : Connection) (e : Error)
        → lib.matches (codes "GET") (codes "/content/packages") req ≡ true
        → bind_params lib req.query ≡ err e
        → handler_of_server lib missed server ctx req (c, untouched) ≡ (ok tt, (c, reported 400 e))
    unfolding handler_of_server handler_of handler_with_options wrapped_get_content_packages bound
    handler_of_server-bad_params server ctx req c e m h = rw (m, h)

    handler_of_server-panic :
        (server : StrictServer) (ctx : Context) (req : Request) (c : Connection)
        → lib.matches (codes "GET") (codes "/content/packages") req ≡ true
        → bind_params lib req.query ≡ panic
        → handler_of_server lib missed server ctx req (c, untouched) ≡ (panic, (c, untouched))
    unfolding handler_of_server handler_of handler_with_options wrapped_get_content_packages bound
    handler_of_server-panic server ctx req c m h = rw (m, h)

    pub handler_of_server-asks :
        (server : StrictServer) (ctx : Context) (req : Request) (c : Connection)
        (params : GetContentPackagesParams)
        → lib.matches (codes "GET") (codes "/content/packages") req ≡ true
        → bind_params lib req.query ≡ ok params
        → handler_of_server lib missed server ctx req (c, untouched)
          ≡ get_content_packages lib (new_strict_handler server []) ctx req params (c, untouched)
    unfolding handler_of_server handler_of handler_with_options wrapped_get_content_packages bound
    handler_of_server-asks server ctx req c params m h = rw (m, h)

HasWritten-map :
    {P Q : PackagesPayload → Type 0} (lib : Libraries) (r : Result ⊤) (w : Writer)
    → ((p : PackagesPayload) → P p → Q p)
    → HasWritten lib P r w
    → HasWritten lib Q r w
HasWritten-map lib r w f (inl (p, json, a, b, c, h)) = inl (p, json, a, b, c, f p h)
HasWritten-map lib r w f (inr x) = inr x

module _ (lib : Libraries) (missed : Request → Writer → Writer) where
  -- What becomes of a request to the route: an error of its parameters, or an answer.
  abbrev pub HasAnswered :
      (PackagesPayload → Type 0) → Request → Connection → Result ⊤ × Exchange → Type 0
  HasAnswered Holds req c after =
      (after.1.0.committed ≡ c.committed)
      × (((e : Error) × (bind_params lib req.query ≡ err e)
            × (after.0 ≡ ok tt)
            × (after.1.0 ≡ c)
            × (after.1.1 ≡ reported 400 e))
          ⊎ HasWritten lib Holds after.0 after.1.1)

  -- A server that leaves the tables as they are, and whose payloads have a property, answers so.
  pub handler_of_server-HasAnswered :
      (Holds : PackagesPayload → Type 0) (server : StrictServer) (ctx : Context) (req : Request)
      (c : Connection)
      → lib.matches (codes "GET") (codes "/content/packages") req ≡ true
      → ((params : GetContentPackagesParams)
          → let (r, c') = server ctx params c in
            (c'.committed ≡ c.committed) × ((p : PackagesPayload) → r ≡ ok p → Holds p))
      → HasAnswered Holds req c (handler_of_server lib missed server ctx req (c, untouched))
  handler_of_server-HasAnswered Holds server ctx req c m answers =
      elim (Result-cases (bind_params lib req.query)) [
        | inl (params, e) ↦
            let (same, wrote) = strict-HasWritten lib server ctx req params c in
            let (kept, holds) = answers params in
            rw (handler_of_server-asks lib missed server ctx req c params m e) (
              ap (λ (d : Connection). d.committed) same ∙ kept,
              inr (HasWritten-map lib _ _ holds wrote),
            )
        | inr (inl (x, e)) ↦
            rw (handler_of_server-bad_params lib missed server ctx req c x m e)
              (refl, inl (x, e, refl, refl, refl))
        | inr (inr e) ↦
            rw (handler_of_server-panic lib missed server ctx req c m e)
              (refl, inr (inr (inr (refl, refl))))
      ]
