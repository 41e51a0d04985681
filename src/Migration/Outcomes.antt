-- ===== src/Migration/Outcomes.antt =====
-- What SpiceDB holds after requests that were sent in turn, whether or not all were accepted.
use mathlib.Core.List.{flatten}
use inventory_access_poc.Prelude.{
  ◌≡◌, refl, sym, ap, ◌∙◌, inl, inr, true, ◌||◌, List, [], ◌∷◌, map, contains, All, All-split,
  arith, Option-cases,
}
use inventory_access_poc.Errors.{ok}
use inventory_access_poc.Spice.{SpiceDb, IsAtomic, Relationship, relationship_eq, after_updates}
use inventory_access_poc.Spice.Touches.{
  touching, touching-IsTouch, names-touching, IsTouch, names, names-append, after_updates-names,
  after_updates-append, after_updates-touching,
}
use inventory_access_poc.Migration.Batches.{Batch, batches, flatten-batches, write_all}

module _ (S : SpiceDb) (atomic : IsAtomic S) where
  pub holds-write_all :
      (bs : List Batch) (s : S.State) (r : Relationship)
      → (write_all S bs s).0 ≡ ok tt
      → S.holds (write_all S bs s).1 r ≡ after_updates (flatten bs) r (S.holds s r)
  unfolding write_all flatten
  holds-write_all [] s r h = refl
  holds-write_all (b ∷ bs) s r h = elim (Option-cases (S.write b s).0) [
    | inl fine ↦ rw fine (
        holds-write_all bs (S.write b s).1 r (rw fine at h)
        ∙ ap (after_updates (flatten bs) r) (atomic.written b s r fine)
        ∙ sym (after_updates-append b (flatten bs) r (S.holds s r)))
    | inr (e, failed) ↦ absurd (ground arith)
  ]

  -- After accepted touches the store holds what it held and what they name.
  pub holds-touched :
      (rs : List Relationship) (s : S.State) (r : Relationship)
      → (write_all S (batches [] (map touching rs)) s).0 ≡ ok tt
      → S.holds (write_all S (batches [] (map touching rs)) s).1 r ≡ (S.holds s r || contains rs r)
  holds-touched rs s r h =
      holds-write_all (batches [] (map touching rs)) s r h
      ∙ ap (λ us. after_updates us r (S.holds s r)) (flatten-batches [] (map touching rs))
      ∙ after_updates-touching rs r (S.holds s r)

  -- Whatever happens, touches remove nothing, and store nothing that they do not name.
  pub write_all_bounds :
      (bs : List Batch) (s : S.State) (r : Relationship)
      → All IsTouch (flatten bs)
      → (S.holds s r ≡ true → S.holds (write_all S bs s).1 r ≡ true)
        × (S.holds (write_all S bs s).1 r ≡ true → (S.holds s r || names (flatten bs) r) ≡ true)
  unfolding write_all flatten
  write_all_bounds [] s r h = ground arith
  write_all_bounds (b ∷ bs) s r h =
      let (first, later) = All-split IsTouch b (flatten bs) h in
      let (kept, bounded) = write_all_bounds bs (S.write b s).1 r later in
      elim (Option-cases (S.write b s).0) [
        | inl fine ↦
            let stored = atomic.written b s r fine ∙ after_updates-names b r (S.holds s r) first in
            rw (fine, names-append) (ground arith)
        | inr (e, failed) ↦ rw (failed, atomic.refused b s failed, names-append) (ground arith)
      ]

  pub touched_bounds :
      (rs : List Relationship) (s : S.State) (r : Relationship)
      → let after = (write_all S (batches [] (map touching rs)) s).1 in
        (S.holds s r ≡ true → S.holds after r ≡ true)
        × (S.holds after r ≡ true → (S.holds s r || contains rs r) ≡ true)
  touched_bounds rs s r =
      let bs = batches [] (map touching rs) in
      let e = flatten-batches [] (map touching rs) in
      let named = ap (λ us. names us r) e ∙ names-touching rs r in
      rw named at (write_all_bounds bs s r (rw e (touching-IsTouch rs)))
