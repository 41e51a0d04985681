-- ===== src/Refresh/Accounts.antt =====
-- What a refresh does for an account, for the other accounts, and what the loop over them returns.
use inventory_access_poc.Prelude.{
  ℕ, ◌≡◌, ◌≢◌, refl, ap, ◌∙◌, ◌⊎◌, inl, inr, Bool, some, List, [], ◌∷◌, ◌++◌,
}
use inventory_access_poc.Prelude.Int.{ℤ, int_eq}
use inventory_access_poc.Errors.{Result, ok, err, panic, ⊤, Result-cases}
use inventory_access_poc.Tables.{Tables}
use inventory_access_poc.Database.{Answer, Connection}
use inventory_access_poc.Packages.{Key}
use inventory_access_poc.Cache.{select_counts, set_valid}
use inventory_access_poc.Cache.Rows.{cached, HasPrimaryKey}
use inventory_access_poc.Refresh.{refresh_account, refresh_accounts}
use inventory_access_poc.Refresh.Outcomes.{
  complete, stopped, refreshed, refresh_account-HasRefreshed,
}
use inventory_access_poc.Refresh.Cached.{
  Excludes, cached_other-inserted, cached_other-cleaned, cached-counts,
}

module _ (not_in_empty : Bool) (answers : ℕ → Answer) where
  pub after_ok :
      (acc_id : ℤ) (c : Connection)
      → (refresh_account not_in_empty answers acc_id c).0 ≡ ok tt
      → (refresh_account not_in_empty answers acc_id c).1.committed
        ≡ refreshed not_in_empty answers acc_id c.committed
  after_ok acc_id c fine = elim (refresh_account-HasRefreshed not_in_empty answers acc_id c) [
    | complete o e ↦ e
    | stopped o e ↦ absurd (o fine)
  ]

  -- If the cached rows have a primary key, and the account has counts or gorm's empty `NOT IN`
  -- excludes nothing, then after a refresh with no error the cached rows of every package of the
  -- account are the counts of the tables that were there.
  pub cached-refresh_account :
      (acc_id name_id : ℤ) (c : Connection)
      → HasPrimaryKey c.committed.package_account_data
      → Excludes not_in_empty answers (select_counts (some acc_id) c.committed)
      → (refresh_account not_in_empty answers acc_id c).0 ≡ ok tt
      → cached
          (acc_id, name_id)
          (refresh_account not_in_empty answers acc_id c).1.committed.package_account_data
        ≡ cached (acc_id, name_id) (select_counts (some acc_id) c.committed)
  unfolding set_valid
  cached-refresh_account acc_id name_id c u ex fine =
      ap (λ (t : Tables). cached (acc_id, name_id) t.package_account_data) (after_ok acc_id c fine)
      ∙ cached-counts not_in_empty answers acc_id c.committed (acc_id, name_id) u refl ex

  -- If the cached rows have a primary key, then however the refresh of an account ends, the cached
  -- rows of every other account are what they were.
  pub refresh_account-others :
      (acc_id : ℤ) (c : Connection) (k : Key)
      → HasPrimaryKey c.committed.package_account_data
      → k.0 ≢ acc_id
      → cached k (refresh_account not_in_empty answers acc_id c).1.committed.package_account_data
        ≡ cached k c.committed.package_account_data
  unfolding set_valid
  refresh_account-others acc_id c k u h =
      let rows = λ (t : Tables). cached k t.package_account_data in
      let first = cached_other-inserted not_in_empty answers acc_id c.committed k u h in
      let second = cached_other-cleaned not_in_empty answers acc_id c.committed k u h in
      elim (refresh_account-HasRefreshed not_in_empty answers acc_id c) [
        | complete o e ↦ ap rows e ∙ second
        | stopped o (inl e) ↦ ap rows e
        | stopped o (inr (inl e)) ↦ ap rows e ∙ first
        | stopped o (inr (inr (inl e))) ↦ ap rows e ∙ second
        | stopped o (inr (inr (inr e))) ↦ ap rows e ∙ second
      ]

  whole :
      (r : Result ⊤) (c : Connection)
      → ◌≡◌ {A = Result ⊤ × Connection}
          (elim r [ ok _ ↦ (ok tt, c) | err e ↦ (err e, c) | panic ↦ (panic, c) ])
          (r, c)
  whole (ok _) c = refl
  whole (err e) c = refl
  whole panic c = refl

  -- The loop over the accounts goes on after an error: unless a step panics, its result is that of
  -- refreshing the last account, whatever became of those before it.
  pub refresh_accounts-last :
      (last : Result ⊤) (accs : List ℤ) (acc_id : ℤ) (c : Connection)
      → ((refresh_accounts not_in_empty answers last (accs ++ (acc_id ∷ [])) c).0 ≡ panic)
        ⊎ ((c' : Connection) × (refresh_accounts not_in_empty answers last (accs ++ (acc_id ∷ [])) c
              ≡ refresh_account not_in_empty answers acc_id c'))
  unfolding refresh_accounts
  refresh_accounts-last last [] acc_id c =
      let m = refresh_account not_in_empty answers acc_id c in inr (c, whole m.0 m.1)
  refresh_accounts-last last (a ∷ accs) acc_id c =
      let m = refresh_account not_in_empty answers a c in
      elim (Result-cases m.0) [
        | inl (_, e) ↦ rw (e, refresh_accounts) (refresh_accounts-last (ok tt) accs acc_id m.1)
        | inr (inl (x, e)) ↦
            rw (e, refresh_accounts) (refresh_accounts-last (err x) accs acc_id m.1)
        | inr (inr e) ↦ inl (rw (e, refresh_accounts))
      ]
