-- ===== src/Refresh/Steps.antt =====
-- How each transaction of a refresh ends.
use inventory_access_poc.Prelude.{
  ℕ, ◌≡◌, ◌≢◌, refl, ap, ◌∙◌, ◌⊎◌, inl, inr, Bool, Option, none, some, List, [], ◌∷◌, arith,
}
use inventory_access_poc.Prelude.Int.{ℤ}
use inventory_access_poc.Prelude.Bytes.{Text, codes}
use inventory_access_poc.Errors.{
  Result, ok, err, panic, ⊤, wrap, Action, pure, proceed, Result-cases,
}
use inventory_access_poc.Tables.{Tables, PackageAccountData}
use inventory_access_poc.Database.{Answer, Connection, current}
use inventory_access_poc.Transaction.{Handle, find, execute, with_tx}
use inventory_access_poc.Transaction.Atomic.{
  HasRead, find-HasRead, with_tx-HasRead, HasWritten, with_tx-HasWritten,
}
use inventory_access_poc.Cache.{
  select_counts, insert_counts, delete_old, set_valid, transpose, rows_of_columns, upsert_all,
}
use inventory_access_poc.Refresh.{
  wrapped_as, counts_body, get_counts, unnest_insert, update_package_account_data, delete_old_cache,
  update_pkg_cache_validity,
}

-- A step has succeeded and is committed, or has not succeeded and may be committed all the same.
abbrev pub IsStep : (Tables → Tables) → Connection → Result ⊤ × Connection → Type 0
IsStep f c (r, c') =
    ((r ≡ ok tt) × (c'.committed ≡ f c.committed))
    ⊎ ((r ≢ ok tt) × ((c'.committed ≡ c.committed) ⊎ (c'.committed ≡ f c.committed)))

-- What follows a step.
pub proceed-IsStep :
    (P : Result ⊤ × Connection → Type 0) (f : Tables → Tables) (c : Connection) (r : Result ⊤)
    (c' : Connection) (k : Action Connection ⊤)
    → IsStep f c (r, c')
    → (c'.committed ≡ f c.committed → P (k c'))
    → (r ≢ ok tt → (c'.committed ≡ c.committed) ⊎ (c'.committed ≡ f c.committed) → P (r, c'))
    → P (proceed r (λ _. k) c')
proceed-IsStep P f c (ok _) c' k (inl (p, q)) next stop = next q
proceed-IsStep P f c (ok _) c' k (inr (p, q)) next stop = absurd (p refl)
proceed-IsStep P f c (err e) c' k (inl (p, q)) next stop = absurd (ground arith)
proceed-IsStep P f c (err e) c' k (inr (p, q)) next stop = stop p q
proceed-IsStep P f c panic c' k (inl (p, q)) next stop = absurd (ground arith)
proceed-IsStep P f c panic c' k (inr (p, q)) next stop = stop p q

wrapped_as-IsStep :
    (text : Text) (f : Tables → Tables) (m : Action Connection ⊤) (c : Connection)
    → HasWritten f c (m c)
    → IsStep f c (wrapped_as text m c)
wrapped_as-IsStep text f m c (inl (p, q)) = rw p (inl (refl, q))
wrapped_as-IsStep text f m c (inr (e, p, q)) = rw p (inr ((λ x. cc), q))

current-same :
    (c c' : Connection)
    → c.committed ≡ c'.committed
    → c.pending ≡ c'.pending
    → current c ≡ current c'
current-same c c' p q =
    ap (λ (o : Option Tables). elim o [ some t ↦ t | none ↦ c.committed ]) q
    ∙ ap (λ (u : Tables). elim c'.pending [ some t ↦ t | none ↦ u ]) p

pub wrap-cases : {A : Type 0} (text : Text) (r : Result A) (x : A) → wrap text r ≡ ok x → r ≡ ok x
wrap-cases text (ok a) x h = h
wrap-cases text (err e) x h = cc
wrap-cases text panic x h = cc

module _ (not_in_empty : Bool) (answers : ℕ → Answer) where
  counts_body-HasRead :
      (acc_id : Option ℤ) (h : Handle) (c : Connection)
      → HasRead (λ t x. x ≡ select_counts acc_id t) c (counts_body not_in_empty answers acc_id h c)
  unfolding counts_body
  counts_body-HasRead acc_id h c =
      let c₁ = (find answers h (λ t. tt) c).1 in
      let c₂ = (find answers h (select_counts acc_id) c₁).1 in
      let (kept₁, left₁, _) = find-HasRead answers h (λ t. tt) c in
      let (kept₂, left₂, got) = find-HasRead answers h (select_counts acc_id) c₁ in
      let (kept₃, left₃, _) = find-HasRead answers h (λ t. tt) c₂ in
      (
        kept₃ ∙ kept₂ ∙ kept₁,
        left₃ ∙ left₂ ∙ left₁,
        λ x p. got x p ∙ ap (select_counts acc_id) (current-same c₁ c kept₁ left₁),
      )

  -- The counts that are returned are those of the committed tables, which stay.
  pub get_counts_lem :
      (acc_id : Option ℤ) (c : Connection)
      → let (r, c') = get_counts not_in_empty answers acc_id c in
        (c'.committed ≡ c.committed)
        × ((ds : List PackageAccountData) → r ≡ ok ds → ds ≡ select_counts acc_id c.committed)
  unfolding get_counts
  get_counts_lem acc_id c =
      let (kept, got) =
        with_tx-HasRead answers (λ t x. x ≡ select_counts acc_id t)
          (counts_body not_in_empty answers acc_id) (counts_body-HasRead acc_id) c in
      (kept, λ ds p. got ds (wrap-cases _ _ ds p))

  -- A transaction of one statement.
  statement-IsStep :
      (text : Text) (f : Tables → Tables) (c : Connection)
      → IsStep f c (wrapped_as text (with_tx answers (λ tx. execute answers tx f)) c)
  statement-IsStep text f c =
      wrapped_as-IsStep text f (with_tx answers (λ tx. execute answers tx f)) c
        (with_tx-HasWritten answers f c)

  -- With no counts no statement is sent, and the statement would change nothing.
  pub update_package_account_data-IsStep :
      (ds : List PackageAccountData) (c : Connection)
      → IsStep (insert_counts ds) c (update_package_account_data not_in_empty answers ds c)
  unfolding update_package_account_data unnest_insert insert_counts transpose rows_of_columns
      upsert_all
  update_package_account_data-IsStep [] c =
      let (kept, _) =
        with_tx-HasRead answers (λ t x. x ≡ x) (λ tx. pure tt) (λ h c'. (refl, refl, λ x p. refl))
          c in
      elim (Result-cases (with_tx answers (λ tx. pure tt) c).0) [
        | inl (_, e) ↦ rw e (inl (refl, kept))
        | inr (inl (x, e)) ↦ rw e (inr ((λ p. cc), inl kept))
        | inr (inr e) ↦ rw e (inr ((λ p. cc), inl kept))
      ]
  update_package_account_data-IsStep (d ∷ ds) c =
      statement-IsStep (codes "failed to insert to package_account_data") (insert_counts (d ∷ ds)) c

  pub delete_old_cache-IsStep :
      (ds : List PackageAccountData) (acc_id : Option ℤ) (c : Connection)
      → IsStep
          (delete_old not_in_empty ds acc_id)
          c
          (delete_old_cache not_in_empty answers ds acc_id c)
  unfolding delete_old_cache
  delete_old_cache-IsStep ds acc_id c =
      statement-IsStep (codes "failed to insert to package_account_data")
        (delete_old not_in_empty ds acc_id) c

  pub update_pkg_cache_validity-IsStep :
      (acc_id : Option ℤ) (c : Connection)
      → IsStep (set_valid acc_id) c (update_pkg_cache_validity not_in_empty answers acc_id c)
  unfolding update_pkg_cache_validity
  update_pkg_cache_validity-IsStep acc_id c =
      statement-IsStep (codes "failed to update valid_package_cache") (set_valid acc_id) c
