-- ===== src/Bulk/Cells.antt =====
-- What an object's map holds under a column, described from the fields of the schema: the last field
-- with this column that is not left out.
use inventory_access_poc.Prelude.{
  or_else, or_else_assoc, ℕ, ◌≡◌, refl, sym, ap, ◌∙◌, inl, inr, not, ◌&&◌, Option, none, some, List,
  [], ◌∷◌, ◌++◌, map, foldl, keep, ◌==◌, bytes_eq, contains, if◌then◌else◌, Bool-cases,
  Option-cases, arith, fun_ext,
}
use inventory_access_poc.Prelude.Dict.{Dict, lookup, insert, lookup-insert}
use inventory_access_poc.Prelude.Bytes.{Text}
use inventory_access_poc.Errors.{ok}
use inventory_access_poc.Bulk.Library.{Field, Datum, value, time, nil}
use inventory_access_poc.Bulk.{is_skipped, is_timestamp, add_field, add_fields, cell}
use inventory_access_poc.Bulk.Columns.{keys}

-- A name joins those before it once.
abbrev pub add_new : List Text → Text → List Text
add_new ks k = if contains ks k then ks else ks ++ k ∷ []

-- The columns of the fields that are not left out, each once.
abbrev pub written : List Field → List Text
written fs = foldl add_new [] (map (λ f. f.db_name) (keep (λ f. not (is_skipped f)) fs))

module _ {V : Type 0} where
  abbrev value_of : Option V → Option (Datum V)
  value_of none = none
  value_of (some v) = some (value v)

  -- The object has a value for every field of the schema.
  abbrev pub HasFields : Dict Text V → List Field → Type 0
  HasFields values [] = Unit
  HasFields values (f ∷ fs) = ((v : V) × (lookup f.name values ≡ some v)) × HasFields values fs

  abbrev column_value : ℕ → Dict Text V → List Field → Text → Option (Datum V)
  column_value now values [] c = none
  column_value now values (f ∷ fs) c = or_else (column_value now values fs c) (
      if not (is_skipped f) && c == f.db_name
      then if is_timestamp f then some (time now) else value_of (lookup f.name values)
      else none)

  -- The time of the statement for `CreatedAt` and `UpdatedAt`, the value of the object for other fields.
  abbrev pub cell_of : ℕ → Dict Text V → List Field → Text → Datum V
  cell_of now values fs c = elim (column_value now values fs c) [ none ↦ nil | some d ↦ d ]

  keys-insert :
      (k : Text) (v : Datum V) (d : Dict Text (Datum V)) → keys (insert k v d) ≡ add_new (keys d) k
  unfolding insert
  keys-insert k v [] = refl
  keys-insert k v ((j, w) ∷ d) = ground (arith, keys-insert k v d)

  keys-add_field :
      (now : ℕ) (f : Field) (v : V) (acc : Dict Text (Datum V)) (rest : List Field)
      → foldl add_new
          (keys (add_field now f v acc))
          (map (λ f. f.db_name) (keep (λ f. not (is_skipped f)) rest))
        ≡ foldl add_new
            (keys acc)
            (map (λ f. f.db_name) (keep (λ f. not (is_skipped f)) (f ∷ rest)))
  unfolding add_field
  keys-add_field now f v acc rest = elim (Bool-cases (is_skipped f)) [
    | inl skipped ↦ rw skipped refl
    | inr taken ↦
        rw (taken, keys-insert f.db_name (if is_timestamp f then time now else value v) acc) refl
  ]

  lookup-add_field :
      (now : ℕ) (values : Dict Text V) (f : Field) (v : V) (acc : Dict Text (Datum V)) (c : Text)
      → lookup f.name values ≡ some v
      → lookup c (add_field now f v acc)
        ≡ or_else (column_value now values (f ∷ []) c) (lookup c acc)
  unfolding add_field
  lookup-add_field now values f v acc c e = elim (Bool-cases (is_skipped f)) [
    | inl skipped ↦ rw skipped refl
    | inr taken ↦
        rw (taken, e, lookup-insert c f.db_name (if is_timestamp f then time now else value v) acc)
          (ground arith)
  ]

  -- The map of an object that has every field.
  add_fields-HasFields :
      (now : ℕ) (values : Dict Text V) (fs : List Field) (acc : Dict Text (Datum V))
      → HasFields values fs
      → (d : Dict Text (Datum V)) × (add_fields now values fs acc ≡ ok d)
        × (keys d
            ≡ foldl add_new (keys acc) (map (λ f. f.db_name) (keep (λ f. not (is_skipped f)) fs)))
        × ((c : Text) → lookup c d ≡ or_else (column_value now values fs c) (lookup c acc))
  unfolding add_fields
  add_fields-HasFields now values [] acc h = (acc, refl, refl, λ c. refl)
  add_fields-HasFields now values (f ∷ fs) acc ((v, e), h) =
      let (d, built, same, found) = add_fields-HasFields now values fs (add_field now f v acc) h in
      (
        d,
        rw (e, add_fields) built,
        same ∙ keys-add_field now f v acc fs,
        λ c.
            found c
            ∙ ap (or_else (column_value now values fs c)) (lookup-add_field now values f v acc c e)
            ∙ sym (or_else_assoc (column_value now values fs c) _ _),
      )

  -- What the map of such an object gives for a column.
  pub object_cells :
      (now : ℕ) (values : Dict Text V) (fs : List Field)
      → HasFields values fs
      → (d : Dict Text (Datum V)) × (add_fields now values fs [] ≡ ok d)
        × (keys d ≡ written fs)
        × (cell d ≡ cell_of now values fs)
  unfolding cell lookup
  object_cells now values fs h =
      let (d, built, same, found) = add_fields-HasFields now values fs [] h in
      (
        d,
        built,
        same,
        fun_ext (λ c. elim (Option-cases (column_value now values fs c)) [
          | inl n ↦ rw (cell, cell_of, found c, n) refl
          | inr (x, n) ↦ rw (cell, cell_of, found c, n) refl
        ]),
      )
