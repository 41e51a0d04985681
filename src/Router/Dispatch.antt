-- ===== src/Router/Dispatch.antt =====
-- Which handler a request reaches, and as whom; which accounts a move is run for.
use inventory_access_poc.Prelude.{
  ◌≡◌, refl, ap, ◌∙◌, subst, inl, inr, true, Bool-cases, Option, none, some, [], ◌∷◌, ◌++◌, ◌==◌,
  bytes_eq,
}
use mathlib.Core.Option.{some-injective, none-ne-some}
use inventory_access_poc.Prelude.Int.{ℤ}
use inventory_access_poc.Prelude.Bytes.{Text, codes}
use inventory_access_poc.Prelude.Decimal.{format_int}
use inventory_access_poc.Prelude.Decimal.RoundTrip.{FitsInt64, parse_int-format_int}
use inventory_access_poc.Prelude.Dict.{lookup, insert, lookup-insert}
use inventory_access_poc.Errors.{ok}
use inventory_access_poc.Identity.{Context, no_identity, identity_of, get_identity_from_context}
use inventory_access_poc.Identity.Parsing.{Lacks, identity_of-format}
use inventory_access_poc.Router.{
  Environment, getenv, move_systems_between, accounts_to_move, chosen_job, Request, Handles,
  or_pre_filter, get_experiments_handler, serve,
}

abbrev pub user_header : Text → ℤ → Text
user_header user account = user ++ (b';' ∷ format_int account)

-- The request with these two headers.
abbrev pub with_headers : Text → Text → Request → Request
with_headers authorization experiment req = record req {
  authorization = authorization;
  experiment = experiment;
}

-- The context of a request that carries a user.
abbrev with_user : Text → Context → Context
with_user user ctx = insert (codes "user") user ctx

lookup-with_user :
    (user : Text) (ctx : Context) → lookup (codes "user") (with_user user ctx) ≡ some user
unfolding bytes_eq
lookup-with_user user ctx = lookup-insert (codes "user") (codes "user") user ctx

identity_with_user :
    (user : Text) (ctx : Context)
    → get_identity_from_context (with_user user ctx) ≡ identity_of user
unfolding get_identity_from_context
identity_with_user user ctx =
    ap (λ (o : Option Text). elim o [ none ↦ no_identity | some u ↦ identity_of u ])
      (lookup-with_user user ctx)

serve-with_user :
    {R : Type 0} (pre_filter baseline : Handles R) (ctx : Context) (user : Text) (account : ℤ)
    (base : Request)
    → let req = with_headers (user_header user account) [] base in
      serve pre_filter baseline ctx req
      ≡ some (pre_filter (with_user (user_header user account) ctx) req)
unfolding serve lookup bytes_eq
serve-with_user pre_filter baseline ctx [] account base = refl
serve-with_user pre_filter baseline ctx (c ∷ user) account base = refl

serve-with_experiment :
    {R : Type 0} (pre_filter baseline : Handles R) (ctx : Context) (user : Text) (account : ℤ)
    (base : Request)
    → let req = with_headers (user_header user account) (codes "baseline") base in
      serve pre_filter baseline ctx req
      ≡ some (baseline (with_user (user_header user account) ctx) req)
unfolding serve lookup bytes_eq
serve-with_experiment pre_filter baseline ctx [] account base = refl
serve-with_experiment pre_filter baseline ctx (c ∷ user) account base = refl

-- A request that names the experiment `baseline` reaches the baseline handler, as this user.
pub serve-baseline :
    {R : Type 0} (pre_filter baseline : Handles R) (ctx : Context) (user : Text) (account : ℤ)
    (base : Request)
    → Lacks b';' user
    → FitsInt64 account
    → let req = with_headers (user_header user account) (codes "baseline") base in
      (ctx' : Context) × (serve pre_filter baseline ctx req ≡ some (baseline ctx' req))
      × (get_identity_from_context ctx'
          ≡ record { user = user; rh_account = account; found = true })
serve-baseline pre_filter baseline ctx user account base h fits = (
  with_user (user_header user account) ctx,
  serve-with_experiment pre_filter baseline ctx user account base,
  identity_with_user (user_header user account) ctx ∙ identity_of-format user account h fits,
)

-- A request that names no experiment and carries `user;account`, where the user name has no semicolon
-- and the account has 64 bits, is answered by the pre-filter handler, in a context whose identity is
-- this user and account.
pub serve-pre_filter :
    {R : Type 0} (pre_filter baseline : Handles R) (ctx : Context) (user : Text) (account : ℤ)
    (base : Request)
    → Lacks b';' user
    → FitsInt64 account
    → let req = with_headers (user_header user account) [] base in
      (ctx' : Context) × (serve pre_filter baseline ctx req ≡ some (pre_filter ctx' req))
      × (get_identity_from_context ctx'
          ≡ record { user = user; rh_account = account; found = true })
serve-pre_filter pre_filter baseline ctx user account base h fits = (
  with_user (user_header user account) ctx,
  serve-with_user pre_filter baseline ctx user account base,
  identity_with_user (user_header user account) ctx ∙ identity_of-format user account h fits,
)

-- With the action MOVE_SYSTEMS and two accounts of 64 bits, written in decimal, the job is the move
-- between these accounts.
pub chosen_job-move_systems_between :
    (env : Environment) (from to : ℤ)
    → getenv (codes "RUN_ACTION") env ≡ codes "MOVE_SYSTEMS"
    → getenv (codes "FROM_ACCOUNT") env ≡ format_int from
    → getenv (codes "TO_ACCOUNT") env ≡ format_int to
    → FitsInt64 from
    → FitsInt64 to
    → chosen_job env ≡ ok (move_systems_between from to)
unfolding chosen_job accounts_to_move bytes_eq
chosen_job-move_systems_between env from to a f t hf ht =
    rw (a, f, t, parse_int-format_int from hf, parse_int-format_int to ht)

module _ {R : Type 0} (P : R → Type 0) where
  picked-All :
      (o : Option (Handles R)) (ctx : Context) (req : Request) (r : R)
      → ((h : Handles R) → o ≡ some h → P (h ctx req))
      → elim o [ none ↦ none | some h ↦ some (h ctx req) ] ≡ some r
      → P r
  picked-All none ctx req r all e = cc
  picked-All (some h) ctx req r all e = subst P (some-injective (h ctx req) r e) (all h refl)

  extracted-All :
      (user : Text) (f : Context → Option R) (ctx : Context) (r : R)
      → ((ctx' : Context) → f ctx' ≡ some r → P r)
      → elim user [ [] ↦ f ctx | c ∷ u ↦ f (insert (codes "user") (c ∷ u) ctx) ] ≡ some r
      → P r
  extracted-All [] f ctx r all e = all ctx e
  extracted-All (c ∷ u) f ctx r all e = all (insert (codes "user") (c ∷ u) ctx) e

  lookup-either :
      (name : Text) (pre_filter baseline h : Handles R) (ctx : Context) (req : Request)
      → P (pre_filter ctx req)
      → P (baseline ctx req)
      → lookup name ((codes "pre-filter", pre_filter) ∷ (codes "baseline", baseline) ∷ []) ≡ some h
      → P (h ctx req)
  unfolding lookup
  lookup-either name pre_filter baseline h ctx req p q e =
      elim (Bool-cases (name == codes "pre-filter")) [
        | inl a ↦
            subst (λ (g : Handles R). P (g ctx req)) (some-injective pre_filter h (rw a at e)) p
        | inr a ↦ elim (Bool-cases (name == codes "baseline")) [
          | inl b ↦
              subst (λ (g : Handles R). P (g ctx req)) (some-injective baseline h (rw (a, b) at e))
                q
          | inr b ↦ absurd (none-ne-some h (rw (a, b) at e))
        ]
      ]

  -- What all answers of both handlers have in common, the answers of the service have.
  pub serve-All :
      (pre_filter baseline : Handles R)
      → ((ctx : Context) (req : Request) → P (pre_filter ctx req))
      → ((ctx : Context) (req : Request) → P (baseline ctx req))
      → (ctx : Context) (req : Request) (r : R) → serve pre_filter baseline ctx req ≡ some r
      → P r
  unfolding serve
  serve-All pre_filter baseline p q ctx req r e =
      extracted-All req.authorization
        (λ ctx'.
          get_experiments_handler
            ((codes "pre-filter", pre_filter) ∷ (codes "baseline", baseline) ∷ []) ctx' req)
        ctx r
        (λ ctx' f.
          picked-All _ ctx' req r
            (λ h g.
              lookup-either (or_pre_filter req.experiment) pre_filter baseline h ctx' req
                (p ctx' req) (q ctx' req) g)
            f)
        e
