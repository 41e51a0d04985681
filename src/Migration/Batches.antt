-- ===== src/Migration/Batches.antt =====
-- What `addUpdate` and `flushUpdates` send to SpiceDB for a sequence of updates: the requests, in
-- order, and how they are cut.
use mathlib.Core.List.{flatten}
use inventory_access_poc.Prelude.{
  ◌≤◌, ◌≡◌, refl, ap, ◌∙◌, inl, inr, List, [], ◌∷◌, ◌++◌, append_assoc, leb, length, length-append,
  Bool-cases, Option-cases, if◌then◌else◌, arith,
}
use inventory_access_poc.Prelude.Bytes.{Text}
use inventory_access_poc.Errors.{Result, ok, ⊤, returned, Action, proceed, ◌>>◌, bind_assoc}
use inventory_access_poc.Driver.{Value}
use inventory_access_poc.Spice.{SpiceDb, Relationship, RelationshipUpdate}
use inventory_access_poc.Spice.Touches.{touching}
use inventory_access_poc.Migration.{
  Migrator, max_relationship_batch_size, touch_update, add_update, flush_updates, for_rows,
}

abbrev pub Batch : Type 0
Batch = List RelationshipUpdate

-- The requests for what the buffer holds and the updates that follow.
unfoldable pub batches : Batch → List RelationshipUpdate → List Batch
batches buffer [] = buffer ∷ []
batches buffer (u ∷ us) =
    let full = buffer ∷ batches (u ∷ []) us in
    let room = batches (buffer ++ (u ∷ [])) us in
    if leb max_relationship_batch_size (length buffer) then full else room

-- No update is lost, repeated or moved.
pub flatten-batches :
    (buffer : Batch) (us : List RelationshipUpdate) → flatten (batches buffer us) ≡ buffer ++ us
unfolding batches flatten
flatten-batches buffer [] = refl
flatten-batches buffer (u ∷ us) =
    elim (Bool-cases (leb max_relationship_batch_size (length buffer))) [
      | inl full ↦ rw full (ap (λ r. buffer ++ r) (flatten-batches (u ∷ []) us))
      | inr room ↦
          rw room (flatten-batches (buffer ++ (u ∷ [])) us ∙ append_assoc buffer (u ∷ []) us)
    ]

-- Every request but the last carries a hundred updates, and the last at most a hundred.
abbrev pub IsPacked : List Batch → Type 0
IsPacked [] = Unit
IsPacked (b ∷ []) = length b ≤ max_relationship_batch_size
IsPacked (b ∷ c ∷ bs) = (length b ≡ max_relationship_batch_size) × IsPacked (c ∷ bs)

IsPacked-cons :
    (b : Batch) (bs : List Batch)
    → length b ≡ max_relationship_batch_size
    → IsPacked bs
    → IsPacked (b ∷ bs)
IsPacked-cons b [] e h = omega arith
IsPacked-cons b (c ∷ bs) e h = (e, h)

pub batches-IsPacked :
    (buffer : Batch) (us : List RelationshipUpdate)
    → length buffer ≤ max_relationship_batch_size
    → IsPacked (batches buffer us)
unfolding batches
batches-IsPacked buffer [] h = h
batches-IsPacked buffer (u ∷ us) h =
    elim (Bool-cases (leb max_relationship_batch_size (length buffer))) [
      | inl full ↦
          rw full
            (IsPacked-cons buffer _ (ground arith) (batches-IsPacked (u ∷ []) us (omega arith)))
      | inr room ↦
          rw room (
            batches-IsPacked (buffer ++ (u ∷ [])) us
              (ground (arith, length-append buffer (u ∷ []))))
    ]

module _ (S : SpiceDb) where
  -- The requests in turn, up to the first that is refused.
  unfoldable pub write_all : List Batch → S.State → Result ⊤ × S.State
  write_all [] s = (ok tt, s)
  write_all (b ∷ bs) s = let (e, s') = S.write b s in proceed (returned e) (λ _. write_all bs) s'

  -- How a call ended, and what SpiceDB holds then.
  abbrev pub sent : Result ⊤ × Migrator S.State → Result ⊤ × S.State
  sent (r, m) = (r, m.spice_db)

  -- What the rest of a run is to send, from every state that knows these organizations.
  abbrev pub Sends :
      Action (Migrator S.State) ⊤ → List RelationshipUpdate → Migrator S.State → Type 0
  Sends k us m = sent (k m) ≡ write_all (batches m.updates us) m.spice_db

  pub flush_updates-Sends : (m : Migrator S.State) → Sends (flush_updates S) [] m
  unfolding flush_updates write_all batches
  flush_updates-Sends m = elim (Option-cases (S.write m.updates m.spice_db).0) [
    | inl fine ↦ rw fine
    | inr (e, failed) ↦ rw failed
  ]

  -- `addUpdate` sends its update before whatever the rest of the run sends.
  pub add_update-Sends :
      (a b c d e : Text) (k : Action (Migrator S.State) ⊤) (us : List RelationshipUpdate)
      (m : Migrator S.State)
      → ((m' : Migrator S.State) → m'.org_ungrouped ≡ m.org_ungrouped → Sends k us m')
      → Sends (add_update S a b c d e >> k) (touch_update a b c d e ∷ us) m
  unfolding add_update write_all batches
  add_update-Sends a b c d e k us m h =
      elim (Bool-cases (leb max_relationship_batch_size (length m.updates))) [
        | inl full ↦ elim (Option-cases (S.write m.updates m.spice_db).0) [
          | inl fine ↦ rw (full, fine) (h _ refl)
          | inr (x, failed) ↦ rw (full, failed)
        ]
        | inr room ↦ rw room (h _ refl)
      ]

  -- A row that arrives is handled before the rest of the rows.
  pub for_rows_ok :
      (body : List Value → Action (Migrator S.State) ⊤) (v : List Value)
      (rs : List (Result (List Value))) (k : Action (Migrator S.State) ⊤) (m : Migrator S.State)
      → (for_rows S body (ok v ∷ rs) >> k) m ≡ (body v >> (for_rows S body rs >> k)) m
  unfolding for_rows
  for_rows_ok body v rs k m = bind_assoc (body v) (λ _. for_rows S body rs) (λ _. k) m

  -- `addUpdate` called with the parts of a relationship.
  abbrev pub add : Relationship → Action (Migrator S.State) ⊤
  add r =
      add_update S r.resource.object_type r.resource.object_id r.relation r.subject.object_type
        r.subject.object_id

  pub add-Sends :
      (r : Relationship) (k : Action (Migrator S.State) ⊤) (us : List RelationshipUpdate)
      (m : Migrator S.State)
      → ((m' : Migrator S.State) → m'.org_ungrouped ≡ m.org_ungrouped → Sends k us m')
      → Sends (add r >> k) (touching r ∷ us) m
  add-Sends r k us m h =
      add_update-Sends r.resource.object_type r.resource.object_id r.relation r.subject.object_type
        r.subject.object_id k us m h
