-- ===== src/Database.antt =====
-- What the program relies on in PostgreSQL: a transaction works on a copy of the tables, which a
-- commit puts in their place and a rollback drops. How each request ends is not the program's to
-- decide: it is an argument, `answers`, that tells the end of the n-th request.
use inventory_access_poc.Prelude.{ℕ, ◌+◌, ◌≡◌, ◌⊎◌, inl, inr, refl, ap, Option, none, some}
use inventory_access_poc.Errors.{Error, Result, ok, err, ⊤, Action}
use inventory_access_poc.Tables.{Tables}

-- A request is done; or it is refused and changes nothing; or its answer is lost, when a commit has
-- taken place and is reported as an error all the same.
pub data Answer : Type 0 where
  done : Answer
  refused lost : Error → Answer

abbrev pub all_done : ℕ → Answer
all_done n = done

-- The tables that everybody sees, those that the open transaction sees, and the requests so far.
pub record Connection : Type 0 where
  pub committed : Tables
  pub pending : Option Tables
  pub calls : ℕ

abbrev tick : Connection → Connection
tick c = record c { calls = c.calls + 1 }

abbrev pub current : Connection → Tables
current c = elim c.pending [ some t ↦ t | none ↦ c.committed ]

-- The end of a request that cannot have changed anything if an error is reported.
abbrev settle : {A : Type 0} → Answer → A → Connection → Connection → Result A × Connection
settle done a after c = (ok a, after)
settle (refused e) a after c = (err e, c)
settle (lost e) a after c = (err e, c)

-- The code does not look at how a rollback ends; a connection that fails is rolled back as well.
unfoldable pub rollback : Connection → Connection
rollback c = tick (record c { pending = none })

module _ (answers : ℕ → Answer) where
  -- A `select`.
  unfoldable pub query : {A : Type 0} → (Tables → A) → Action Connection A
  query f c = settle (answers c.calls) (f (current c)) (tick c) (tick c)

  unfoldable pub begin_tx : Action Connection ⊤
  begin_tx c = settle (answers c.calls) tt (tick (record c { pending = some c.committed })) (tick c)

  -- An `insert`, `update` or `delete` in the open transaction.
  unfoldable pub exec : (Tables → Tables) → Action Connection ⊤
  exec f c =
      settle (answers c.calls) tt (tick (record c { pending = some (f (current c)) })) (tick c)

  unfoldable pub commit : Action Connection ⊤
  commit c =
      let kept = record c { pending = none } in
      let after = record kept { committed = current c } in
      elim (answers c.calls) [
        | done ↦ (ok tt, tick after)
        | refused e ↦ (err e, tick kept)
        | lost e ↦ (err e, tick after)
      ]

pub current-open : (c : Connection) (p : Tables) → c.pending ≡ some p → current c ≡ p
current-open c p e = ap (λ (o : Option Tables). elim o [ some t ↦ t | none ↦ c.committed ]) e

pub Answer-cases :
    (a : Answer) → (a ≡ done) ⊎ ((e : Error) × (a ≡ refused e)) ⊎ ((e : Error) × (a ≡ lost e))
Answer-cases done = inl refl
Answer-cases (refused e) = inr (inl (e, refl))
Answer-cases (lost e) = inr (inr (e, refl))

module _ (answers : ℕ → Answer) where
  -- A select returns what the tables give, or reports an error; it changes nothing.
  pub query_cases :
      {A : Type 0} (f : Tables → A) (c : Connection)
      → (c' : Connection) × (c'.committed ≡ c.committed)
        × (c'.pending ≡ c.pending)
        × ((query answers f c ≡ (ok (f (current c)), c'))
            ⊎ ((e : Error) × (query answers f c ≡ (err e, c'))))
  unfolding query
  query_cases f c = elim (Answer-cases (answers c.calls)) [
    | inl fine ↦ (tick c, refl, refl, inl (rw (fine, query)))
    | inr (inl (e, bad)) ↦ (tick c, refl, refl, inr (e, rw (bad, query)))
    | inr (inr (e, bad)) ↦ (tick c, refl, refl, inr (e, rw (bad, query)))
  ]

  -- A transaction begins on the committed tables, or an error is reported.
  pub begin_tx_cases :
      (c : Connection)
      → (c' : Connection) × (c'.committed ≡ c.committed)
        × (((begin_tx answers c ≡ (ok tt, c')) × (c'.pending ≡ some c.committed))
            ⊎ ((e : Error) × (begin_tx answers c ≡ (err e, c'))))
  unfolding begin_tx
  begin_tx_cases c = elim (Answer-cases (answers c.calls)) [
    | inl fine ↦
        (tick (record c { pending = some c.committed }), refl, inl (rw (fine, begin_tx), refl))
    | inr (inl (e, bad)) ↦ (tick c, refl, inr (e, rw (bad, begin_tx)))
    | inr (inr (e, bad)) ↦ (tick c, refl, inr (e, rw (bad, begin_tx)))
  ]

  -- A statement in a transaction takes place there, or reports an error and does nothing.
  pub exec_cases :
      (f : Tables → Tables) (c : Connection) (p : Tables)
      → c.pending ≡ some p
      → ((c' : Connection) × (exec answers f c ≡ (ok tt, c'))
          × (c'.committed ≡ c.committed)
          × (c'.pending ≡ some (f p)))
        ⊎ ((e : Error) × (c' : Connection) × (exec answers f c ≡ (err e, c'))
            × (c'.committed ≡ c.committed))
  unfolding exec
  exec_cases f c p q = elim (Answer-cases (answers c.calls)) [
    | inl fine ↦ inl (
      tick (record c { pending = some (f (current c)) }),
      rw (fine, exec),
      refl,
      ap (λ t. some (f t)) (current-open c p q),
    )
    | inr (inl (e, bad)) ↦ inr (e, tick c, rw (bad, exec), refl)
    | inr (inr (e, bad)) ↦ inr (e, tick c, rw (bad, exec), refl)
  ]

  -- A commit puts the transaction's tables in place, and may report an error then or for nothing.
  pub commit_cases :
      (c : Connection) (p : Tables)
      → c.pending ≡ some p
      → ((c' : Connection) × (commit answers c ≡ (ok tt, c')) × (c'.committed ≡ p))
        ⊎ ((e : Error) × (c' : Connection) × (commit answers c ≡ (err e, c'))
            × ((c'.committed ≡ c.committed) ⊎ (c'.committed ≡ p)))
  unfolding commit
  commit_cases c p q =
      let kept : Connection = record c { pending = none } in
      let after : Connection = record kept { committed = current c } in
      elim (Answer-cases (answers c.calls)) [
        | inl fine ↦ inl (tick after, rw (fine, commit), current-open c p q)
        | inr (inl (e, bad)) ↦ inr (e, tick kept, rw (bad, commit), inl refl)
        | inr (inr (e, bad)) ↦ inr (e, tick after, rw (bad, commit), inr (current-open c p q))
      ]
