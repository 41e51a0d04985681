-- ===== src/Bulk/Execution.antt =====
-- What a bulk insert does with the rows that come back, and the global time afterwards.
use inventory_access_poc.Prelude.{
  ℕ, suc, ◌+◌, ◌≡◌, refl, ap, ◌∙◌, inl, inr, none, some, List, [], ◌∷◌, ◌++◌, if◌then◌else◌, leb,
  arith, append-nil, append_assoc, length, Permᴰ, All,
}
use inventory_access_poc.Prelude.Bytes.{Text}
use inventory_access_poc.Errors.{Result, ok, panic, Result-cases, ⊤}
use inventory_access_poc.Bulk.Library.{
  Schema, Object, Returned, Gorm, Argument, slice, no_slice, untyped_nil,
}
use inventory_access_poc.Bulk.Sql.{extra_options}
use inventory_access_poc.Bulk.{
  World, statement_from_objects, reset_bulk_now, scan_rows, send, bulk_exec, bulk_insert,
}
use inventory_access_poc.Bulk.Vars.{IsComplete, reference, statement_from_objects-reference}

module _ {V R : Type 0} (gorm : Gorm V R) where
  -- The n-th row is scanned into the n-th object.
  abbrev pub scanned : List R → List (Object V) → List (Object V)
  scanned [] os = os
  scanned (r ∷ rs) [] = []
  scanned (r ∷ rs) (o ∷ os) = (gorm.scan r o).1 ∷ scanned rs os

  verdict : List R → List (Object V) → Result ⊤
  verdict [] os = ok tt
  verdict (r ∷ rs) [] = panic
  verdict (r ∷ rs) (o ∷ os) = verdict rs os

  filled : List R → List (Object V) → ℕ
  filled [] os = 0
  filled (r ∷ rs) [] = 0
  filled (r ∷ rs) (o ∷ os) = suc (filled rs os)

  verdict-leb :
      (rs : List R) (os : List (Object V))
      → verdict rs os ≡ (if leb (length rs) (length os) then ok tt else panic)
  unfolding verdict
  verdict-leb [] os = ground arith
  verdict-leb (r ∷ rs) [] = ground arith
  verdict-leb (r ∷ rs) (o ∷ os) = verdict-leb rs os ∙ ground arith

  filled-leb :
      (rs : List R) (os : List (Object V))
      → filled rs os ≡ (if leb (length rs) (length os) then length rs else length os)
  unfolding filled
  filled-leb [] os = ground arith
  filled-leb (r ∷ rs) [] = ground arith
  filled-leb (r ∷ rs) (o ∷ os) = ap suc (filled-leb rs os) ∙ ground arith

  scan_rows-scanned :
      ((r : R) (o : Object V) → (gorm.scan r o).0 ≡ ok tt)
      → (rs : List R) (done rest : List (Object V)) (w : World V)
      → scan_rows gorm rs done rest w ≡ (
        verdict rs rest,
        record w {
          objects = done ++ scanned rs rest;
          rows_affected = filled rs rest + w.rows_affected;
        },
      )
  unfolding scan_rows verdict filled
  scan_rows-scanned fine [] done rest w =
      ap (λ (n : ℕ). (ok tt, record w { objects = done ++ rest; rows_affected = n })) (omega arith)
  scan_rows-scanned fine (r ∷ rs) done [] w =
      rw (append-nil done)
        (ap (λ (n : ℕ). (panic, record w { objects = done; rows_affected = n })) (omega arith))
  scan_rows-scanned fine (r ∷ rs) done (o ∷ rest) w =
      let o' = (gorm.scan r o).1 in
      let w' : World V = record w { rows_affected = suc w.rows_affected } in
      rw (fine r o, scan_rows)
        (scan_rows-scanned fine rs (done ++ o' ∷ []) rest w'
          ∙ rw (append_assoc done (o' ∷ []) (scanned rs rest)) (
              ap
                (λ (n : ℕ). (
                  verdict rs rest,
                  record w { objects = done ++ o' ∷ scanned rs rest; rows_affected = n },
                ))
                (omega arith)))

  scan_rows-bulk_now :
      (rs : List R) (done rest : List (Object V)) (w : World V)
      → (scan_rows gorm rs done rest w).1.bulk_now ≡ w.bulk_now
  unfolding scan_rows
  scan_rows-bulk_now [] done rest w = refl
  scan_rows-bulk_now (r ∷ rs) done [] w = refl
  scan_rows-bulk_now (r ∷ rs) done (o ∷ rest) w = elim (Result-cases (gorm.scan r o).0) [
    | inl (u, e) ↦ rw (e, scan_rows) (scan_rows-bulk_now rs (done ++ (gorm.scan r o).1 ∷ []) rest _)
    | inr (inl (x, e)) ↦ rw (e, scan_rows) refl
    | inr (inr e) ↦ rw (e, scan_rows) refl
  ]

  statement_from_objects-bulk_now :
      (os : List (Object V)) (w : World V)
      → w.bulk_now ≡ 0
      → (statement_from_objects gorm os w).1.bulk_now ≡ 0
  unfolding statement_from_objects reset_bulk_now
  statement_from_objects-bulk_now [] w h = h
  statement_from_objects-bulk_now (o ∷ os) w h = elim (Result-cases (gorm.parse_schema o)) [
    | inl (schema, e) ↦ rw e refl
    | inr (inl (x, e)) ↦ rw e h
    | inr (inr e) ↦ rw e h
  ]

  -- If `bulkNow` is zero before, it is zero again after a bulk insert, however that ends.
  pub bulk_insert-bulk_now :
      (argument : Argument V) (w : World V)
      → w.bulk_now ≡ 0
      → (bulk_insert gorm argument w).1.bulk_now ≡ 0
  unfolding bulk_insert bulk_exec send
  bulk_insert-bulk_now untyped_nil w h = h
  bulk_insert-bulk_now no_slice w h = h
  bulk_insert-bulk_now (slice os) w h =
      let w₀ : World V = record w { objects = os } in
      let same = statement_from_objects-bulk_now os w₀ h in
      elim (Result-cases (statement_from_objects gorm os w₀).0) [
        | inl (none, e) ↦ rw e same
        | inl (some s, e) ↦ elim (Result-cases (gorm.run s)) [
          | inl (returned, f) ↦ rw (e, f) (scan_rows-bulk_now returned.rows [] _ _ ∙ same)
          | inr (inl (x, f)) ↦ rw (e, f) same
          | inr (inr f) ↦ rw (e, f) same
        ]
        | inr (inl (x, e)) ↦ rw e same
        | inr (inr e) ↦ rw e same
      ]

  -- If Go iterates over each key of a map once, gorm parses the schema of the first object, the clause can
  -- be printed, the clock is not at zero, every object has every field of the schema, and the statement
  -- and the scans succeed, then one statement is sent: it has the named columns of the fields that are not
  -- left out, in ascending order, and for each object its values in the order of these columns, with the
  -- time for `CreatedAt` and `UpdatedAt`. The n-th returned row is scanned into the n-th object. The call
  -- succeeds if there are no more rows than objects, and panics otherwise; an error at the end
  -- of the rows is not reported.
  pub bulk_insert-scanned :
      (schema : Schema) (first : Object V) (rest : List (Object V)) (extra : Text) (t : ℕ)
      (returned : Returned R) (w : World V)
      → ((ks : List Text) → Permᴰ (gorm.iterate ks) ks)
      → gorm.parse_schema first ≡ ok schema
      → extra_options gorm.conflict ≡ ok extra
      → gorm.now_func w.readings ≡ suc t
      → All (IsComplete schema) (first ∷ rest)
      → gorm.run (reference gorm (suc t) schema (first ∷ rest) extra) ≡ ok returned
      → ((r : R) (o : Object V) → (gorm.scan r o).0 ≡ ok tt)
      → let rows = length returned.rows in
        let n = length (first ∷ rest) in
        bulk_insert gorm (slice (first ∷ rest)) w ≡ (
          if leb rows n then ok tt else panic,
          record w {
            bulk_now = 0;
            readings = suc w.readings;
            rows_affected = (if leb rows n then rows else n) + w.rows_affected;
            objects = scanned returned.rows (first ∷ rest);
            sent = w.sent ++ reference gorm (suc t) schema (first ∷ rest) extra ∷ [];
          },
        )
  unfolding bulk_insert bulk_exec send
  bulk_insert-scanned schema first rest extra t returned w it parsed clause now h ran fine =
      let w₀ : World V = record w { objects = first ∷ rest } in
      rw
        (
          statement_from_objects-reference gorm schema first rest extra t w₀ it parsed clause now h,
          ran,
          scan_rows-scanned fine returned.rows [] (first ∷ rest) _,
          verdict-leb returned.rows (first ∷ rest),
          filled-leb returned.rows (first ∷ rest),
        )
        refl
