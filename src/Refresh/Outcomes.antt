-- ===== src/Refresh/Outcomes.antt =====
-- How the refresh of one account ends: which of its transactions are committed then.
use inventory_access_poc.Prelude.{ℕ, ◌≡◌, ◌≢◌, ap, ◌∙◌, ◌⊎◌, inl, inr, Bool, some}
use inventory_access_poc.Prelude.Int.{ℤ}
use inventory_access_poc.Errors.{Result, ok, ⊤, ◌>>◌, Result-cases}
use inventory_access_poc.Tables.{Tables}
use inventory_access_poc.Database.{Answer, Connection}
use inventory_access_poc.Cache.{select_counts, insert_counts, delete_old, set_valid}
use inventory_access_poc.Refresh.{
  get_counts, update_package_account_data, delete_old_cache, update_pkg_cache_validity,
  refresh_account,
}
use inventory_access_poc.Refresh.Steps.{
  proceed-IsStep, get_counts_lem, update_package_account_data-IsStep, delete_old_cache-IsStep,
  update_pkg_cache_validity-IsStep,
}

module _ (not_in_empty : Bool) (answers : ℕ → Answer) where
  -- The tables after the first, the second and the third statement.
  abbrev pub inserted : ℤ → Tables → Tables
  inserted acc_id t = insert_counts (select_counts (some acc_id) t) t

  abbrev pub cleaned : ℤ → Tables → Tables
  cleaned acc_id t =
      delete_old not_in_empty (select_counts (some acc_id) t) (some acc_id) (inserted acc_id t)

  abbrev pub refreshed : ℤ → Tables → Tables
  refreshed acc_id t = set_valid (some acc_id) (cleaned acc_id t)

  -- From the tables `t`: all is committed and success is reported, or no success is, and the first
  -- statements are committed, or none.
  pub data HasRefreshed (acc_id : ℤ) (t : Tables) (r : Result ⊤) (c' : Connection) : Type 0 where
    complete : r ≡ ok tt → c'.committed ≡ refreshed acc_id t → HasRefreshed acc_id t r c'
    stopped :
        r ≢ ok tt
        → (c'.committed ≡ t)
          ⊎ ((c'.committed ≡ inserted acc_id t)
              ⊎ ((c'.committed ≡ cleaned acc_id t) ⊎ (c'.committed ≡ refreshed acc_id t)))
        → HasRefreshed acc_id t r c'

  abbrev Refreshes : ℤ → Tables → Result ⊤ × Connection → Type 0
  Refreshes acc_id t (r, c') = HasRefreshed acc_id t r c'

  -- From the tables `t`, when the counts are read.
  counted-HasRefreshed :
      (acc_id : ℤ) (t : Tables) (c : Connection)
      → c.committed ≡ t
      → let ds = select_counts (some acc_id) t in
        Refreshes acc_id t (
          (update_package_account_data not_in_empty answers ds
              >> (delete_old_cache not_in_empty answers ds (some acc_id)
                  >> update_pkg_cache_validity not_in_empty answers (some acc_id)))
            c)
  counted-HasRefreshed acc_id t c start =
      let ds = select_counts (some acc_id) t in
      let goal = Refreshes acc_id t in
      let first = update_package_account_data not_in_empty answers ds in
      let second = delete_old_cache not_in_empty answers ds (some acc_id) in
      let third = update_pkg_cache_validity not_in_empty answers (some acc_id) in
      proceed-IsStep goal (insert_counts ds) c (first c).0 (first c).1 (second >> third)
        (update_package_account_data-IsStep not_in_empty answers ds c)
        (λ p₁.
          let c₁ = (first c).1 in
          let at₁ = p₁ ∙ ap (insert_counts ds) start in
          proceed-IsStep goal (delete_old not_in_empty ds (some acc_id)) c₁ (second c₁).0
            (second c₁).1 third (delete_old_cache-IsStep not_in_empty answers ds (some acc_id) c₁)
            (λ p₂.
              let c₂ = (second c₁).1 in
              let at₂ = p₂ ∙ ap (delete_old not_in_empty ds (some acc_id)) at₁ in
              elim (update_pkg_cache_validity-IsStep not_in_empty answers (some acc_id) c₂) [
                | inl (o, p₃) ↦ complete o (p₃ ∙ ap (set_valid (some acc_id)) at₂)
                | inr (o, inl p₃) ↦ stopped o (inr (inr (inl (p₃ ∙ at₂))))
                | inr (o, inr p₃) ↦
                    stopped o (inr (inr (inr (p₃ ∙ ap (set_valid (some acc_id)) at₂))))
              ])
            (λ o p₂. elim p₂ [
              | inl q ↦ stopped o (inr (inl (q ∙ at₁)))
              | inr q ↦
                  stopped o
                    (inr (inr (inl (q ∙ ap (delete_old not_in_empty ds (some acc_id)) at₁))))
            ]))
        (λ o p₁. elim p₁ [
          | inl q ↦ stopped o (inl (q ∙ start))
          | inr q ↦ stopped o (inr (inl (q ∙ ap (insert_counts ds) start)))
        ])

  -- The refresh of an account ends with no error only if all three statements are committed, with
  -- the counts of the tables that were there: the rows are inserted or updated, the old ones are
  -- deleted, and the cache is marked as valid. Otherwise the first none, one, two or three of the
  -- statements are committed, in this order.
  pub refresh_account-HasRefreshed :
      (acc_id : ℤ) (c : Connection)
      → let (r, c') = refresh_account not_in_empty answers acc_id c in
        HasRefreshed acc_id c.committed r c'
  unfolding refresh_account
  refresh_account-HasRefreshed acc_id c =
      let (kept, got) = get_counts_lem not_in_empty answers (some acc_id) c in
      elim (Result-cases (get_counts not_in_empty answers (some acc_id) c).0) [
        | inl (ds, e) ↦
            rw (e, got ds e)
              (counted-HasRefreshed acc_id c.committed
                (get_counts not_in_empty answers (some acc_id) c).1 kept)
        | inr (inl (x, e)) ↦ rw e (stopped (λ p. cc) (inl kept))
        | inr (inr e) ↦ rw e (stopped (λ p. cc) (inl kept))
      ]
