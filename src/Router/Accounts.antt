-- ===== src/Router/Accounts.antt =====
-- The range of the accounts of a move, which `ParseInt` has read.
use inventory_access_poc.Prelude.{◌≡◌, inl, inr, Bool-cases, Option, none, some, ◌==◌, bytes_eq}
use inventory_access_poc.Prelude.Int.{ℤ}
use inventory_access_poc.Prelude.Bytes.{codes}
use inventory_access_poc.Prelude.Decimal.{parse_int}
use inventory_access_poc.Prelude.Decimal.RoundTrip.{FitsInt64, parse_int-FitsInt64}
use inventory_access_poc.Errors.{ok}
use inventory_access_poc.Router.{
  Environment, getenv, move_systems_between, accounts_to_move, chosen_job,
}

accounts_to_move_lem :
    (a b : Option ℤ) (from to : ℤ)
    → accounts_to_move a b ≡ ok (move_systems_between from to)
    → (a ≡ some from) × (b ≡ some to)
unfolding accounts_to_move
accounts_to_move_lem none b from to e = cc
accounts_to_move_lem (some x) none from to e = cc
accounts_to_move_lem (some x) (some y) from to e = (cc, cc)

pub chosen_job-FitsInt64 :
    (env : Environment) (from to : ℤ)
    → chosen_job env ≡ ok (move_systems_between from to)
    → FitsInt64 from × FitsInt64 to
unfolding chosen_job
chosen_job-FitsInt64 env from to e =
    let action = getenv (codes "RUN_ACTION") env in
    let a = getenv (codes "FROM_ACCOUNT") env in
    let b = getenv (codes "TO_ACCOUNT") env in
    elim (Bool-cases (action == codes "REFRESH_PACKAGE_CACHES")) [
      | inl t ↦ let e' = rw t at e in cc
      | inr n₁ ↦ elim (Bool-cases (action == codes "MIGRATE_CONTENT_TO_SPICEDB")) [
        | inl t ↦ let e' = rw (n₁, t) at e in cc
        | inr n₂ ↦ elim (Bool-cases (action == codes "MIGRATE_PACKAGES_TO_SPICEDB")) [
          | inl t ↦ let e' = rw (n₁, n₂, t) at e in cc
          | inr n₃ ↦ elim (Bool-cases (action == codes "MOVE_SYSTEMS")) [
            | inl t ↦
                let (f, g) =
                  accounts_to_move_lem (parse_int a) (parse_int b) from to
                    (rw (n₁, n₂, n₃, t) at e) in
                (parse_int-FitsInt64 a from f, parse_int-FitsInt64 b to g)
            | inr n₄ ↦ let e' = rw (n₁, n₂, n₃, n₄) at e in cc
          ]
        ]
      ]
    ]
