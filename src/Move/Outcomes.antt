-- ===== src/Move/Outcomes.antt =====
-- How `MoveSystems` may end: what the database and SpiceDB hold then.
use inventory_access_poc.Prelude.{
  ℕ, ◌≡◌, ◌≢◌, refl, ◌∙◌, subst, ◌⊎◌, inl, inr, List, [], ◌∷◌, map, arith, sym, ap,
}
use inventory_access_poc.Prelude.Int.{ℤ, int_eq}
use inventory_access_poc.Errors.{Result, ok, ⊤, ◌>>=◌, Result-cases}
use inventory_access_poc.Tables.{Tables}
use inventory_access_poc.Spice.{SpiceDb, RelationshipUpdate}
use inventory_access_poc.Driver.{Value, Rows, Driver, UuidLibrary}
use inventory_access_poc.Move.Sent.{
  hosts_in, hosts_of_account-hosts_in, id_rows, AreMoves, gather-AreMoves,
}
use inventory_access_poc.Database.{Answer, current, begin_tx, query_cases}
use inventory_access_poc.Move.{
  World, gather, in_transaction, move_systems, hosts_of_account, host_id_values,
}
use inventory_access_poc.Move.Endings.{
  moved, HasEnded, IsRefused, Ended, begun-Ended, unchanged, complete, torn,
}

module _ (S : SpiceDb) (U : UuidLibrary) (driver : Driver) (answers : ℕ → Answer) where
  -- Gathering the updates changes nothing.
  gather-world :
      (from to : ℤ) (rs : List (Result (List Value))) (w : World S.State)
      → gather S U driver answers from to rs w ≡ ((gather S U driver answers from to rs w).0, w)
  unfolding gather
  gather-world from to [] w = refl
  gather-world from to (r ∷ rs) w = ground (arith, gather-world from to rs w)

  -- No success is reported, and neither the tables nor SpiceDB have changed.
  abbrev pub IsUntouched : World S.State → Result ⊤ × World S.State → Type 0
  IsUntouched w (r, w') =
      (r ≢ ok tt) × (w'.postgres.committed ≡ w.postgres.committed) × (w'.spice_db ≡ w.spice_db)

  -- The rows are those of the hosts of the account; the updates are those of the rows.
  abbrev pub IsSent : ℤ → ℤ → Tables → List RelationshipUpdate → Type 0
  IsSent from to t us =
      (rows : Rows) × (driver (id_rows (hosts_in from t)) ≡ ok rows)
      × AreMoves U from to rows.stream us

  abbrev after_gather : ℤ → ℤ → List RelationshipUpdate → World S.State → Result ⊤ × World S.State
  after_gather from to us w =
      let (r, c) = begin_tx answers w.postgres in
      in_transaction S U driver answers from to us r (record w { postgres = c })

  gathered-Ended :
      (from to : ℤ) (rs : List (Result (List Value))) (w : World S.State)
      → let end = (gather S U driver answers from to rs >>= after_gather from to) w in
        IsUntouched w end
        ⊎ ((us : List RelationshipUpdate) × AreMoves U from to rs us
            × Ended S U driver answers us w.postgres.committed
                (moved to from w.postgres.committed)
                w.spice_db
                end)
  gathered-Ended from to rs w = elim (Result-cases (gather S U driver answers from to rs w).0) [
    | inl (us, e) ↦
        rw (gather-world from to rs w, e)
          (inr (
            us,
            gather-AreMoves U S driver answers from to rs w us e,
            begun-Ended S U driver answers from to us w,
          ))
    | inr (inl (x, e)) ↦ rw (gather-world from to rs w, e) (inl ((λ y. cc), refl, refl))
    | inr (inr e) ↦ rw (gather-world from to rs w, e) (inl ((λ y. cc), refl, refl))
  ]

  pub move_systems-HasEnded :
      (from to : ℤ) (w : World S.State)
      → let (r, w') = move_systems S U driver answers from to w in
        IsUntouched w (r, w')
        ⊎ ((us : List RelationshipUpdate) × IsSent from to (current w.postgres) us
            × (HasEnded S us w.postgres.committed
                  (moved to from w.postgres.committed)
                  w.spice_db
                  r
                  w'
                ⊎ IsRefused S us w.postgres.committed w.spice_db r w'))
  unfolding move_systems
  move_systems-HasEnded from to w =
      let f = λ (t : Tables). map host_id_values (hosts_of_account from t) in
      let asked_for : f (current w.postgres) ≡ id_rows (hosts_in from (current w.postgres)) =
        ap id_rows (hosts_of_account-hosts_in from (current w.postgres)) in
      let (c, same, kept, asked) = query_cases answers f w.postgres in
      elim asked [
        | inl e ↦ elim (Result-cases (driver (f (current w.postgres)))) [
          | inl (rows, d) ↦ elim (gathered-Ended from to rows.stream (record w { postgres = c })) [
            | inl (bad, t, s) ↦ rw (e, d) (inl (bad, t ∙ same, s))
            | inr (us, sent, ended) ↦
                rw (e, d)
                  (inr (
                    us,
                    (rows, ap driver (sym asked_for) ∙ d, sent),
                    subst
                        (λ t. Ended S U driver answers us t (moved to from t) w.spice_db (
                          (gather S U driver answers from to rows.stream >>= after_gather from to)
                            (record w { postgres = c })))
                        same ended,
                  ))
          ]
          | inr (inl (x, d)) ↦ rw (e, d) (inl ((λ y. cc), same, refl))
          | inr (inr d) ↦ rw (e, d) (inl ((λ y. cc), same, refl))
        ]
        | inr (x, e) ↦ rw e (inl ((λ y. cc), same, refl))
      ]

  -- The tables are those of before or have all the rows moved, whatever was sent.
  pub move_systems-committed :
      (from to : ℤ) (w : World S.State)
      → let t = (move_systems S U driver answers from to w).1.postgres.committed in
        (t ≡ w.postgres.committed) ⊎ (t ≡ moved to from w.postgres.committed)
  move_systems-committed from to w = elim (move_systems-HasEnded from to w) [
    | inl (o, e, f) ↦ inl e
    | inr (us, sent, inl (unchanged o e f)) ↦ inl e
    | inr (us, sent, inl (complete o e f)) ↦ inr e
    | inr (us, sent, inl (torn x o e f)) ↦ e
    | inr (us, sent, inr (e, bad, o, same, left)) ↦ inl same
  ]
