-- ===== src/Refresh/Order.antt =====
-- Which accounts `accountsWithoutCache` gives, and in which order.
use inventory_access_poc.Prelude.{
  IsOrdered, sort, sort-perm, sort-IsOrdered, nat_ord, pair_ord, Permᴰ, ℕ, ◌≡◌, refl, sym, subst,
  not, Bool, List, [], ◌∷◌, map, keep, All,
}
use mathlib.Core.List.Permᴰ
use inventory_access_poc.Prelude.Int.{ℤ, int_ord}
use inventory_access_poc.Errors.{ok}
use inventory_access_poc.Tables.{RhAccount}
use inventory_access_poc.Database.{Answer, Connection}
use inventory_access_poc.Transaction.{find}
use inventory_access_poc.Transaction.Atomic.{find-HasRead, with_tx-HasRead}
use inventory_access_poc.Cache.{order_accounts, select_accounts}
use inventory_access_poc.Refresh.{accounts_without_cache}
use inventory_access_poc.Refresh.Steps.{wrap-cases}
use inventory_access_poc.Refresh.Validity.{ids_of_pairs}

-- What the accounts are ordered by.
abbrev pub sort_key : (ℤ → ℕ) → ℤ → ℕ × ℤ
sort_key hash id = (hash id, id)

-- The pairs that are made of an account.
abbrev IsKey : (ℤ → ℕ) → ℕ × ℤ → Type 0
IsKey hash p = p.0 ≡ hash p.1

keys-IsKey : (hash : ℤ → ℕ) (ids : List ℤ) → All (IsKey hash) (map (sort_key hash) ids)
keys-IsKey hash [] = tt
keys-IsKey hash (id ∷ ids) = (refl, keys-IsKey hash ids)

All-perm : {A : Type 0} (P : A → Type 0) {l₁ l₂ : List A} → Permᴰ l₁ l₂ → All P l₂ → All P l₁
All-perm P Permᴰ.nil h = tt
All-perm P (Permᴰ.cons e d) h = (subst P (sym e) h.0, All-perm P d h.1)
All-perm P (Permᴰ.swap e f) h = (subst P (sym e) h.1.0, (subst P (sym f) h.0, h.1.1))
All-perm P (Permᴰ.trans d e) h = All-perm P d (All-perm P e h)

keys_of_ids :
    (hash : ℤ → ℕ) (pairs : List (ℕ × ℤ))
    → All (IsKey hash) pairs
    → map (sort_key hash) (map (λ (p : ℕ × ℤ). p.1) pairs) ≡ pairs
keys_of_ids hash [] h = refl
keys_of_ids hash ((n, id) ∷ pairs) h = rw (sym h.0, keys_of_ids hash pairs h.1) refl

-- These accounts and no others, in the order of the hash and then of the id.
abbrev pub IsSorted : (ℤ → ℕ) → List ℤ → List ℤ → Type 0
IsSorted hash ids accs = Permᴰ accs ids × IsOrdered (map (sort_key hash) accs)

order_accounts-IsSorted :
    (hash : ℤ → ℕ) (ids : List ℤ) → IsSorted hash ids (order_accounts hash ids)
unfolding order_accounts
order_accounts-IsSorted hash ids =
    let pairs = map (sort_key hash) ids in
    (
      subst (Permᴰ (order_accounts hash ids)) (ids_of_pairs hash ids)
          (Permᴰ.map (λ (p : ℕ × ℤ). p.1) (sort-perm pairs)),
      subst IsOrdered
          (sym (
            keys_of_ids hash (sort pairs)
              (All-perm (IsKey hash) (sort-perm pairs) (keys-IsKey hash ids))))
          (sort-IsOrdered pairs),
    )

module _ (not_in_empty : Bool) (answers : ℕ → Answer) where
  -- The query of the accounts without a valid cache leaves the committed tables as they are. Accounts
  -- that it returns are the ids of the rows whose cache is not valid, each as often as it is there, in
  -- the order of the hash and, for one hash, of the id.
  pub accounts_without_cache-IsSorted :
      (hash : ℤ → ℕ) (c : Connection)
      → let (r, c') = accounts_without_cache not_in_empty answers hash c in
        (c'.committed ≡ c.committed)
        × ((accs : List ℤ)
            → r ≡ ok accs
            → IsSorted hash
                (map
                  (λ (acc : RhAccount). acc.id)
                  (keep (λ (acc : RhAccount). not acc.valid_package_cache) c.committed.rh_account))
                accs)
  unfolding accounts_without_cache select_accounts
  accounts_without_cache-IsSorted hash c =
      let (kept, read) =
        with_tx-HasRead answers (λ t x. x ≡ select_accounts hash t)
          (λ tx. find answers tx (select_accounts hash))
          (λ h d. find-HasRead answers h (select_accounts hash) d) c in
      (
        kept,
        λ accs p.
            subst (IsSorted hash _) (sym (read accs (wrap-cases _ _ accs p)))
              (order_accounts-IsSorted hash _),
      )
