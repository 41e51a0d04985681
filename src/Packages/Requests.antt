-- ===== src/Packages/Requests.antt =====
-- The listings as requests to the database: what a listing that is returned was computed from.
use inventory_access_poc.Prelude.{ℕ, ◌≡◌, refl, inl, inr, List, [], ◌∷◌, arith}
use inventory_access_poc.Prelude.Int.{ℤ}
use inventory_access_poc.Prelude.Bytes.{Text}
use inventory_access_poc.Errors.{Result, ok, err, panic, wrap, ◌>>=◌, Result-cases}
use inventory_access_poc.Tables.{Tables, UuidBytes, PackageAccountData}
use inventory_access_poc.Database.{Answer, Connection}
use inventory_access_poc.Transaction.{Handle, find}
use inventory_access_poc.Transaction.Atomic.{find-HasRead, with_tx-HasRead}
use inventory_access_poc.Packages.{
  read_ids, packages_by_host_ids, packages_by_account, select_by_host_ids, select_by_account,
}

wrap_ok : {A : Type 0} (s : Text) (r : Result A) {x : A} → wrap s r ≡ ok x → r ≡ ok x
wrap_ok s (ok a) h = h
wrap_ok s (err e) h = cc
wrap_ok s panic h = cc

module _ (answers : ℕ → Answer) (uuid_in : Text → Result UuidBytes) where
  -- The database reads these texts as these ids.
  abbrev pub Reads : List Text → List UuidBytes → Type 0
  Reads [] [] = Unit
  Reads [] (i ∷ ids) = ⊥
  Reads (s ∷ ss) [] = ⊥
  Reads (s ∷ ss) (i ∷ ids) = (uuid_in s ≡ ok i) × Reads ss ids

  -- The texts are read before anything is asked, and if one is malformed nothing is.
  read_ids_cases :
      (ss : List Text)
      → (r : Result (List UuidBytes)) × ((c : Connection) → read_ids answers uuid_in ss c ≡ (r, c))
        × ((ids : List UuidBytes) → r ≡ ok ids → Reads ss ids)
  unfolding read_ids
  read_ids_cases [] = (ok [], λ c. refl, reads_nil)
    where
      reads_nil : (ids : List UuidBytes) → ok [] ≡ ok ids → Reads [] ids
      reads_nil [] h = tt
      reads_nil (i ∷ ids) h = cc
  read_ids_cases (s ∷ ss) =
      let (r, same, reads) = read_ids_cases ss in
      elim (Result-cases (uuid_in s)) [
        | inl (i, e) ↦ elim (Result-cases r) [
          | inl (ids, f) ↦
              (ok (i ∷ ids), λ c. rw (e, same c, f), λ js h. reads_cons i ids js e (reads ids f) h)
          | inr (inl (x, f)) ↦ (err x, λ c. rw (e, same c, f), λ ids h. cc)
          | inr (inr f) ↦ (panic, λ c. rw (e, same c, f), λ ids h. cc)
        ]
        | inr (inl (x, e)) ↦ (err x, λ c. rw e, λ ids h. cc)
        | inr (inr e) ↦ (panic, λ c. rw e, λ ids h. cc)
      ]
    where
      reads_cons :
          (i : UuidBytes) (ids js : List UuidBytes)
          → uuid_in s ≡ ok i
          → Reads ss ids
          → ok (i ∷ ids) ≡ ok js
          → Reads (s ∷ ss) js
      reads_cons i ids [] e q h = cc
      reads_cons i ids (j ∷ js) e q h = ground arith

  -- A listing by host ids leaves the committed tables as they are; and one that is returned is that
  -- of the ids that the texts stand for, on the committed tables.
  pub packages_by_host_ids-Reads :
      (acc_id : ℤ) (ss : List Text) (c : Connection)
      → let (r, c') = packages_by_host_ids answers uuid_in acc_id ss c in
        (c'.committed ≡ c.committed)
        × ((rows : List PackageAccountData)
            → r ≡ ok rows
            → (ids : List UuidBytes) × Reads ss ids
              × (rows ≡ select_by_host_ids acc_id ids c.committed))
  unfolding packages_by_host_ids
  packages_by_host_ids-Reads acc_id ss c =
      let (r, same, reads) = read_ids_cases ss in
      let P = λ (t : Tables) (rows : List PackageAccountData).
        (ids : List UuidBytes) × Reads ss ids × (rows ≡ select_by_host_ids acc_id ids t) in
      let body = λ (tx : Handle).
        (read_ids answers uuid_in ss >>= λ ids. find answers tx (select_by_host_ids acc_id ids)) in
      let (kept, got) =
        with_tx-HasRead answers P body
          (λ h d. elim (Result-cases r) [
            | inl (ids, e) ↦
                let (kept, left, got) = find-HasRead answers h (select_by_host_ids acc_id ids) d in
                rw (same d, e) (kept, left, λ rows p. (ids, reads ids e, got rows p))
            | inr (inl (x, e)) ↦ rw (same d, e) (refl, refl, λ rows p. cc)
            | inr (inr e) ↦ rw (same d, e) (refl, refl, λ rows p. cc)
          ])
          c in
      (kept, λ rows p. got rows (wrap_ok _ _ p))

  -- A listing by account leaves the committed tables as they are; and one that is returned is that of
  -- the account's hosts without a group, on the committed tables.
  pub packages_by_account_reads :
      (acc_id : ℤ) (c : Connection)
      → let (r, c') = packages_by_account answers uuid_in acc_id c in
        (c'.committed ≡ c.committed)
        × ((rows : List PackageAccountData)
            → r ≡ ok rows
            → rows ≡ select_by_account acc_id c.committed)
  unfolding packages_by_account
  packages_by_account_reads acc_id c =
      let f = select_by_account acc_id in
      let (kept, got) =
        with_tx-HasRead answers (λ t x. x ≡ f t) (λ tx. find answers tx f)
          (λ h d. find-HasRead answers h f d) c in
      (kept, λ rows p. got rows (wrap_ok _ _ p))
