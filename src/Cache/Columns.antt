-- ===== src/Cache/Columns.antt =====
-- `UnnestInsert` turns rows into columns, and `unnest` turns them back.
use inventory_access_poc.Prelude.{
  ◌≡◌, refl, sym, ap, ◌∙◌, List, [], ◌∷◌, ◌++◌, map, map-append, append-nil, append_assoc,
}
use inventory_access_poc.Prelude.Int.{pos}
use inventory_access_poc.Tables.{PackageAccountData}
use inventory_access_poc.Cache.{
  ColumnValues, fields, append_fields, transpose, unnest, rows_of_columns,
}

abbrev columns_of : List PackageAccountData → List ColumnValues
columns_of ds =
    map (λ (d : PackageAccountData). d.acc_id) ds
    ∷ map (λ (d : PackageAccountData). d.pkg_name_id) ds
    ∷ map (λ (d : PackageAccountData). pos d.sys_installed) ds
    ∷ map (λ (d : PackageAccountData). pos d.sys_installable) ds
    ∷ map (λ (d : PackageAccountData). pos d.sys_applicable) ds
    ∷ []

append_fields-columns_of :
    (ds : List PackageAccountData) (d : PackageAccountData)
    → append_fields (columns_of ds) (fields d) ≡ columns_of (ds ++ (d ∷ []))
unfolding append_fields
append_fields-columns_of ds d = rw (
  map-append (λ (x : PackageAccountData). x.acc_id) ds (d ∷ []),
  map-append (λ (x : PackageAccountData). x.pkg_name_id) ds (d ∷ []),
  map-append (λ (x : PackageAccountData). pos x.sys_installed) ds (d ∷ []),
  map-append (λ (x : PackageAccountData). pos x.sys_installable) ds (d ∷ []),
  map-append (λ (x : PackageAccountData). pos x.sys_applicable) ds (d ∷ []),
)

transpose-columns_of :
    (ds es : List PackageAccountData)
    → transpose (columns_of ds) (map fields es) ≡ columns_of (ds ++ es)
unfolding transpose
transpose-columns_of ds [] = ap columns_of (sym (append-nil ds))
transpose-columns_of ds (e ∷ es) =
    ap (λ c. transpose c (map fields es)) (append_fields-columns_of ds e)
    ∙ transpose-columns_of (ds ++ (e ∷ [])) es
    ∙ ap columns_of (append_assoc ds (e ∷ []) es)

rows_of_columns-columns_of : (ds : List PackageAccountData) → rows_of_columns (columns_of ds) ≡ ds
unfolding rows_of_columns unnest
rows_of_columns-columns_of [] = refl
rows_of_columns-columns_of (d ∷ ds) = ap (λ r. d ∷ r) (rows_of_columns-columns_of ds)

-- The rows that PostgreSQL takes from the columns which `UnnestInsert` sends are the rows that it was
-- given, in their order.
pub rows_of_columns-transpose :
    (ds : List PackageAccountData) → rows_of_columns (transpose [] (map fields ds)) ≡ ds
unfolding transpose append_fields rows_of_columns
rows_of_columns-transpose [] = refl
rows_of_columns-transpose (d ∷ ds) =
    ap rows_of_columns (transpose-columns_of (d ∷ []) ds) ∙ rows_of_columns-columns_of (d ∷ ds)
