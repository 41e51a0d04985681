-- ===== src/Bulk/Columns.antt =====
-- The columns of a bulk insert do not depend on the order in which Go iterates over a map.
use inventory_access_poc.Prelude.{
  ◌≡◌, refl, ◌∙◌, inl, inr, Bool, not, List, [], ◌∷◌, ◌++◌, map, append-nil, append_assoc, keep,
  sort, Bool-cases, ◌==◌, bytes_eq, bytes_ord, sort-append-sort, sort-eq_of_perm, keep-perm,
  map_const-perm, Permᴰ,
}
use inventory_access_poc.Prelude.Dict.{Dict}
use inventory_access_poc.Prelude.Bytes.{Text, codes}
use inventory_access_poc.Bulk.Library.{Datum, Gorm}
use inventory_access_poc.Bulk.{add_column, add_columns, build_columns_and_placeholders}

abbrev pub is_named : Text → Bool
is_named k = not (k == [])

-- A question mark for each.
abbrev pub marks : List Text → List Text
marks = map (λ k. codes "?")

add_columns_lem :
    (ks cs ps : List Text)
    → add_columns ks (sort cs, ps) ≡ (sort (cs ++ keep is_named ks), ps ++ marks (keep is_named ks))
unfolding add_columns add_column
add_columns_lem [] cs ps = rw (append-nil cs, append-nil ps)
add_columns_lem (k ∷ ks) cs ps = elim (Bool-cases (k == [])) [
  | inl unnamed ↦ rw unnamed (add_columns_lem ks cs ps)
  | inr named ↦
      rw
        (
          named,
          sort-append-sort cs (k ∷ []),
          add_columns_lem ks (cs ++ k ∷ []) (ps ++ codes "?" ∷ []),
        )
        (rw
          (
            append_assoc cs (k ∷ []) (keep is_named ks),
            append_assoc ps (codes "?" ∷ []) (marks (keep is_named ks)),
          )
          refl)
]

abbrev pub keys : {V : Type 0} → Dict Text (Datum V) → List Text
keys = map (λ entry. entry.0)

-- If Go iterates over each key of a map once, in whatever order, then the columns are the keys but for
-- the empty one, in ascending order, and there is a question mark for each.
pub build_columns_and_placeholders-sort :
    {V R : Type 0} (gorm : Gorm V R) (row : Dict Text (Datum V))
    → Permᴰ (gorm.iterate (keys row)) (keys row)
    → build_columns_and_placeholders gorm row
      ≡ (sort (keep is_named (keys row)), marks (keep is_named (keys row)))
unfolding build_columns_and_placeholders sort
build_columns_and_placeholders-sort gorm row p =
    let named = keep-perm is_named p in
    add_columns_lem (gorm.iterate (keys row)) [] []
    ∙ rw (sort-eq_of_perm named, map_const-perm (codes "?") named) refl
