-- ===== src/Refresh/Validity.antt =====
-- A refresh of all accounts leaves no account whose cache is not valid.
use inventory_access_poc.Prelude.{
  contains-perm, sort-perm, nat_ord, pair_ord, ℕ, ◌≡◌, refl, sym, ap, ◌∙◌, subst, fun_ext, inl, inr,
  Bool, true, false, not, ◌||◌, none, List, [], ◌∷◌, map, keep, contains, All, All-map, All-weaken,
  arith, Bool-cases,
}
use mathlib.Core.List.Permᴰ
use inventory_access_poc.Prelude.Int.{ℤ, int_eq, int_ord}
use inventory_access_poc.Errors.{ok}
use inventory_access_poc.Tables.{Tables, RhAccount}
use inventory_access_poc.Database.{Answer, done, all_done, Connection}
use inventory_access_poc.Cache.{
  insert_counts, delete_old, set_valid, order_accounts, select_accounts,
}
use inventory_access_poc.Refresh.{
  refresh_account, refresh_accounts, accounts_without_cache, refresh_packages_caches,
}
use inventory_access_poc.Refresh.Outcomes.{refreshed}
use inventory_access_poc.Refresh.Accounts.{after_ok}
use inventory_access_poc.Refresh.Success.{refresh_packages_caches_succeeds, refresh_account_done}

-- The cache of the account is valid, or the account is among these.
abbrev IsCovered : List ℤ → RhAccount → Type 0
IsCovered accs acc = (acc.valid_package_cache || contains accs acc.id) ≡ true

pub ids_of_pairs :
    (hash : ℤ → ℕ) (ids : List ℤ) → map (λ (p : ℕ × ℤ). p.1) (map (λ id. (hash id, id)) ids) ≡ ids
ids_of_pairs hash [] = refl
ids_of_pairs hash (id ∷ ids) = ap (λ l. id ∷ l) (ids_of_pairs hash ids)

pub contains-order_accounts :
    (hash : ℤ → ℕ) (x : ℤ) (ids : List ℤ) → contains (order_accounts hash ids) x ≡ contains ids x
unfolding order_accounts
contains-order_accounts hash x ids =
    contains-perm x (Permᴰ.map (λ (p : ℕ × ℤ). p.1) (sort-perm (map (λ id. (hash id, id)) ids)))
    ∙ ap (λ l. contains l x) (ids_of_pairs hash ids)

ids_without_cache : List RhAccount → List ℤ
ids_without_cache rows =
    map (λ (acc : RhAccount). acc.id) (keep (λ (acc : RhAccount). not acc.valid_package_cache) rows)

ids-valid :
    (acc : RhAccount) (rows : List RhAccount)
    → acc.valid_package_cache ≡ true
    → ids_without_cache (acc ∷ rows) ≡ ids_without_cache rows
unfolding ids_without_cache
ids-valid acc rows h = rw (h, keep) refl

ids-invalid :
    (acc : RhAccount) (rows : List RhAccount)
    → acc.valid_package_cache ≡ false
    → ids_without_cache (acc ∷ rows) ≡ acc.id ∷ ids_without_cache rows
unfolding ids_without_cache
ids-invalid acc rows h = rw (h, keep) refl

ids-IsCovered : (rows : List RhAccount) → All (IsCovered (ids_without_cache rows)) rows
ids-IsCovered [] = tt
ids-IsCovered (acc ∷ rows) =
    let ids = ids_without_cache rows in
    let goal = λ (l : List ℤ). All (IsCovered l) (acc ∷ rows) in
    elim (Bool-cases acc.valid_package_cache) [
      | inl valid ↦
          subst goal (sym (ids-valid acc rows valid)) (ground (arith, valid), ids-IsCovered rows)
      | inr invalid ↦ subst goal (sym (ids-invalid acc rows invalid)) (
        ground arith,
        All-weaken (IsCovered ids) (IsCovered (acc.id ∷ ids)) (λ a h. ground (arith, h)) rows
            (ids-IsCovered rows),
      )
    ]

none_without_cache :
    (rows : List RhAccount)
    → All (IsCovered []) rows
    → keep (λ (acc : RhAccount). not acc.valid_package_cache) rows ≡ []
none_without_cache [] h = refl
none_without_cache (acc ∷ rows) h = ground (arith, h.0, none_without_cache rows h.1)

module _ (not_in_empty : Bool) where
  refreshed-IsCovered :
      (a : ℤ) (accs : List ℤ) (t : Tables)
      → All (IsCovered (a ∷ accs)) t.rh_account
      → All (IsCovered accs) (refreshed not_in_empty all_done a t).rh_account
  unfolding set_valid insert_counts delete_old
  refreshed-IsCovered a accs t h =
      All-map (IsCovered (a ∷ accs)) (IsCovered accs) _ (λ acc k. ground (arith, k)) t.rh_account h

  refresh_accounts-IsCovered :
      (accs : List ℤ) (c : Connection)
      → All (IsCovered accs) c.committed.rh_account
      → All
          (IsCovered [])
          (refresh_accounts not_in_empty all_done (ok tt) accs c).1.committed.rh_account
  unfolding refresh_accounts
  refresh_accounts-IsCovered [] c h = h
  refresh_accounts-IsCovered (a ∷ accs) c h =
      let fine = refresh_account_done not_in_empty a c in
      let after = after_ok not_in_empty all_done a c fine in
      rw (fine, refresh_accounts)
        (refresh_accounts-IsCovered accs (refresh_account not_in_empty all_done a c).1 (
          subst (λ (t : Tables). All (IsCovered accs) t.rh_account) (sym after)
            (refreshed-IsCovered a accs c.committed h)))

  refresh_packages_caches-IsCovered :
      (hash : ℤ → ℕ) (c : Connection)
      → All
          (IsCovered [])
          (refresh_packages_caches not_in_empty all_done hash none c).1.committed.rh_account
  unfolding refresh_packages_caches accounts_without_cache select_accounts ids_without_cache
  refresh_packages_caches-IsCovered hash c =
      let rows = c.committed.rh_account in
      refresh_accounts-IsCovered (select_accounts hash c.committed)
        (accounts_without_cache not_in_empty all_done hash c).1
        (All-weaken (IsCovered (ids_without_cache rows))
          (IsCovered (select_accounts hash c.committed))
          (λ a h. ground (arith, h, contains-order_accounts hash a.id (ids_without_cache rows)))
          rows (ids-IsCovered rows))

  -- If the database does every request, then a refresh of all accounts whose cache is not valid ends
  -- with no error, and after it there is no such account.
  pub refresh_packages_caches_valid :
      (answers : ℕ → Answer) (hash : ℤ → ℕ) (c : Connection)
      → ((n : ℕ) → answers n ≡ done)
      → let (r, c') = refresh_packages_caches not_in_empty answers hash none c in
        (r ≡ ok tt)
        × (keep (λ (acc : RhAccount). not acc.valid_package_cache) c'.committed.rh_account ≡ [])
  refresh_packages_caches_valid answers hash c fine = (
    refresh_packages_caches_succeeds not_in_empty answers hash none c fine,
    subst
        (λ a.
          keep (λ (acc : RhAccount). not acc.valid_package_cache)
            (refresh_packages_caches not_in_empty a hash none c).1.committed.rh_account
          ≡ [])
        (sym (fun_ext fine)) (none_without_cache _ (refresh_packages_caches-IsCovered hash c)),
  )
