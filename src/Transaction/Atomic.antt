-- ===== src/Transaction/Atomic.antt =====
-- `withTx` around functions that only read, and around one that writes.
use inventory_access_poc.Prelude.{ℕ, ◌≡◌, refl, ◌∙◌, subst, ◌⊎◌, inl, inr, none, some, arith}
use inventory_access_poc.Errors.{Error, Result, ok, err, panic, ⊤, Action}
use inventory_access_poc.Tables.{Tables}
use inventory_access_poc.Database.{
  Answer, Connection, current, rollback, query_cases, begin_tx_cases, exec_cases, commit_cases,
  current-open,
}
use inventory_access_poc.Transaction.{
  Handle, find, execute, commit_handle, rollback_handle, finish, with_tx, wrap_commit, give,
}

-- A call has left the tables and the transaction alone, and a value that it returned has the
-- property `P` for the tables that it saw.
abbrev pub HasRead :
    {A : Type 0} → (Tables → A → Type 0) → Connection → Result A × Connection → Type 0
HasRead {A} P c (r, c') =
    (c'.committed ≡ c.committed) × (c'.pending ≡ c.pending) × ((x : A) → r ≡ ok x → P (current c) x)

module _ (answers : ℕ → Answer) {A : Type 0} where
  pub find-HasRead :
      (h : Handle) (f : Tables → A) (c : Connection)
      → HasRead (λ t x. x ≡ f t) c (find answers h f c)
  unfolding find
  find-HasRead (some e) f c = (refl, refl, λ x p. cc)
  find-HasRead none f c =
      let (c', same, kept, asked) = query_cases answers f c in
      elim asked [
        | inl e ↦ rw e (same, kept, λ x p. cc)
        | inr (x, e) ↦ rw e (same, kept, λ y p. cc)
      ]

  -- A transaction that only reads commits the tables that were there.
  pub finish-HasRead :
      (P : Tables → A → Type 0) (h : Handle) (r : Result A) (c c₀ : Connection)
      → c.committed ≡ c₀.committed
      → (h ≡ none → c.pending ≡ some c₀.committed)
      → (h ≡ none → (x : A) → r ≡ ok x → P c₀.committed x)
      → ((finish answers h r c).1.committed ≡ c₀.committed)
        × ((x : A) → (finish answers h r c).0 ≡ ok x → P c₀.committed x)
  unfolding finish commit_handle rollback_handle rollback wrap_commit give
  finish-HasRead P none (ok y) c c₀ same opened read =
      elim (commit_cases answers c c₀.committed (opened refl)) [
        | inl (c', e, new) ↦ rw (e, finish, commit_handle) (new, read refl)
        | inr (x, c', e, inl old) ↦ rw (e, finish, commit_handle) (old ∙ same, λ x p. cc)
        | inr (x, c', e, inr new) ↦ rw (e, finish, commit_handle) (new, λ x p. cc)
      ]
  finish-HasRead P (some e) (ok y) c c₀ same opened read = (same, λ x p. cc)
  finish-HasRead P none (err e) c c₀ same opened read = (same, λ x p. cc)
  finish-HasRead P (some e') (err e) c c₀ same opened read = (same, λ x p. cc)
  finish-HasRead P none panic c c₀ same opened read = (same, λ x p. cc)
  finish-HasRead P (some e') panic c c₀ same opened read = (same, λ x p. cc)

  -- A function that only reads: the committed tables stay, and a value that is
  -- returned has the property for them.
  pub with_tx-HasRead :
      (P : Tables → A → Type 0) (body : Handle → Action Connection A)
      → ((h : Handle) (c : Connection) → HasRead P c (body h c))
      → (c : Connection)
      → ((with_tx answers body c).1.committed ≡ c.committed)
        × ((x : A) → (with_tx answers body c).0 ≡ ok x → P c.committed x)
  unfolding with_tx
  with_tx-HasRead P body reads c =
      let (c₁, same, begun) = begin_tx_cases answers c in
      elim begun [
        | inl (e, fresh) ↦
            let (kept, left, read) = reads none c₁ in
            rw e (
              finish-HasRead P none (body none c₁).0 (body none c₁).1 c (kept ∙ same)
                (λ _. left ∙ fresh)
                (λ _ x p. subst (λ t. P t x) (current-open c₁ c.committed fresh) (read x p)))
        | inr (x, e) ↦
            let (kept, left, read) = reads (some x) c₁ in
            rw e (
              finish-HasRead P (some x) (body (some x) c₁).0 (body (some x) c₁).1 c (kept ∙ same)
                (λ p. absurd (ground arith)) (λ p. absurd (ground arith)))
      ]

-- How a transaction of one statement `f` ended: it is committed; or an error is reported, and it is
-- not committed, unless the answer to the commit was lost.
abbrev pub HasWritten : (Tables → Tables) → Connection → Result ⊤ × Connection → Type 0
HasWritten f c (r, c') =
    ((r ≡ ok tt) × (c'.committed ≡ f c.committed))
    ⊎ ((e : Error) × (r ≡ err e) × ((c'.committed ≡ c.committed) ⊎ (c'.committed ≡ f c.committed)))

module _ (answers : ℕ → Answer) (f : Tables → Tables) where
  commit-HasWritten :
      (c c₀ : Connection)
      → c.committed ≡ c₀.committed
      → c.pending ≡ some (f c₀.committed)
      → HasWritten f c₀ (finish answers none (ok tt) c)
  unfolding finish commit_handle wrap_commit give
  commit-HasWritten c c₀ same q = elim (commit_cases answers c (f c₀.committed) q) [
    | inl (c', e, new) ↦ rw (e, finish, commit_handle) (inl (refl, new))
    | inr (x, c', e, inl old) ↦ rw (e, finish, commit_handle) (inr (_, refl, inl (old ∙ same)))
    | inr (x, c', e, inr new) ↦ rw (e, finish, commit_handle) (inr (_, refl, inr new))
  ]

  pub with_tx-HasWritten :
      (c : Connection) → HasWritten f c (with_tx answers (λ tx. execute answers tx f) c)
  unfolding with_tx execute finish rollback_handle rollback
  with_tx-HasWritten c =
      let (c₁, same, begun) = begin_tx_cases answers c in
      elim begun [
        | inr (x, e) ↦ rw e (inr (x, refl, inl same))
        | inl (e, fresh) ↦ elim (exec_cases answers f c₁ c.committed fresh) [
          | inl (c₂, g, kept, next) ↦ rw (e, g) (commit-HasWritten c₂ c (kept ∙ same) next)
          | inr (x, c₂, g, kept) ↦ rw (e, g) (inr (x, refl, inl (kept ∙ same)))
        ]
      ]
