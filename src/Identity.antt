-- ===== src/Identity.antt =====
-- server/server.go: `getIdentityFromContext`, `limitHostIDs` and `extractQueryOptimalization`, which
-- read the strings that the context of a request carries.
pub mod Parsing
use inventory_access_poc.Prelude.{
  ℕ, Bool, true, false, Option, none, some, List, [], ◌∷◌, ◌==◌, nat_eq, bytes_eq, if◌then◌else◌,
}
use inventory_access_poc.Prelude.Int.{ℤ, pos}
use inventory_access_poc.Prelude.Bytes.{Text, codes}
use inventory_access_poc.Prelude.Decimal.{parse_int}
use inventory_access_poc.Prelude.Dict.{Dict, lookup}

-- The string values of a `context.Context`, by their keys.
abbrev pub Context : Type 0
Context = Dict Text Text

-- `user`, `rhAccount` and `found`
pub record Identity : Type 0 where
  pub user : Text
  pub rh_account : ℤ
  pub found : Bool

abbrev pub no_identity : Identity
no_identity = record { user = []; rh_account = pos 0; found = false }

-- A byte in front of the first part.
abbrev extend : ℕ → List Text → List Text
extend c [] = (c ∷ []) ∷ []
extend c (part ∷ parts) = (c ∷ part) ∷ parts

-- `strings.Split(s, sep)` of the standard library, for a separator of one byte.
unfoldable pub split : ℕ → Text → List Text
split sep [] = [] ∷ []
split sep (c ∷ s) = let parts = split sep s in if c == sep then [] ∷ parts else extend c parts

of_parsed : Text → Option ℤ → Identity
of_parsed user none = no_identity
of_parsed user (some account) = record { user = user; rh_account = account; found = true }

-- `len(parts) != 2` is every other shape.
of_parts : List Text → Identity
unfolding of_parsed parse_int
of_parts (user ∷ account ∷ []) = of_parsed user (parse_int account)
of_parts _ = no_identity

unfoldable pub identity_of : Text → Identity
unfolding split of_parts
identity_of user_info = of_parts (split b';' user_info)

unfoldable pub get_identity_from_context : Context → Identity
unfolding identity_of lookup bytes_eq
get_identity_from_context ctx = elim (lookup (codes "user") ctx) [
  | none ↦ no_identity
  | some user_info ↦ identity_of user_info
]

unfoldable pub limit_host_ids : Context → Text
unfolding lookup bytes_eq
limit_host_ids ctx = elim (lookup (codes "Limit-Host-IDs") ctx) [ none ↦ codes "1" | some v ↦ v ]

unfoldable pub extract_query_optimalization : Context → Text
unfolding lookup bytes_eq
extract_query_optimalization ctx = elim (lookup (codes "query-optimalization") ctx) [
  | none ↦ []
  | some v ↦ v
]
