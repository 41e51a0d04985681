-- ===== src/Cache/Rows.antt =====
-- The cached rows of one key, before and after the statements of a refresh.
use inventory_access_poc.Prelude.{
  suc, ==_iff, ◌≡◌, ◌≢◌, ◌≤◌, refl, sym, ap, ◌∙◌, inl, inr, Bool, true, false, List, [], ◌∷◌, ◌++◌,
  map, keep, contains, ◌==◌, if◌then◌else◌, length, subst, arith, Bool-cases, pair_ord,
}
use inventory_access_poc.Tables.{PackageAccountData}
use inventory_access_poc.Packages.{Key, key_eq}
use inventory_access_poc.Prelude.Int.{int_ord, int_eq}
use inventory_access_poc.Grouping.Keys.{IsAscending, AllAfter-absent}
use inventory_access_poc.Cache.{cache_key, replaced, upsert, upsert_all}

abbrev pub cached : Key → List PackageAccountData → List PackageAccountData
cached k = keep (λ r. cache_key r == k)

-- The primary key of `package_account_data`.
abbrev pub HasPrimaryKey : List PackageAccountData → Type 0
HasPrimaryKey rows = (k : Key) → length (cached k rows) ≤ 1

pub cached-absent :
    (k : Key) (rows : List PackageAccountData)
    → contains (map cache_key rows) k ≡ false
    → cached k rows ≡ []
cached-absent k [] h = refl
cached-absent k (r ∷ rows) h = ground (arith, cached-absent k rows)

replaced-same : (d r : PackageAccountData) → cache_key r ≡ cache_key d → replaced d r ≡ d
replaced-same d r h = ground arith

cache_key-replaced : (d r : PackageAccountData) → cache_key (replaced d r) ≡ cache_key r
cache_key-replaced d r = ground arith

cached-map-replaced :
    (k : Key) (d : PackageAccountData) (rows : List PackageAccountData)
    → cached k (map (replaced d) rows) ≡ map (replaced d) (cached k rows)
cached-map-replaced k d [] = refl
cached-map-replaced k d (r ∷ rows) =
    rw (cache_key-replaced d r) (ground (arith, cached-map-replaced k d rows))

-- The rows of another key stay.
map-replaced-other :
    (k : Key) (d : PackageAccountData) (rows : List PackageAccountData)
    → cache_key d ≢ k
    → map (replaced d) (cached k rows) ≡ cached k rows
map-replaced-other k d [] h = refl
map-replaced-other k d (r ∷ rows) h = ground (arith, map-replaced-other k d rows h)

-- The one row of the same key becomes `d`.
map-replaced-same :
    (d : PackageAccountData) (rows : List PackageAccountData)
    → length (cached (cache_key d) rows) ≤ 1
    → contains (map cache_key rows) (cache_key d) ≡ true
    → map (replaced d) (cached (cache_key d) rows) ≡ d ∷ []
map-replaced-same d [] u h = cc
map-replaced-same d (r ∷ rows) u h = elim (key_eq.dec (cache_key r) (cache_key d)) [
  | yes p ↦
      let here : (cache_key r == cache_key d) ≡ true = ground arith in
      let alone = none_left (cached (cache_key d) rows) (rw here at u) in
      rw (here, replaced-same d r p, alone) refl
  | no p ↦
      let there : (cache_key r == cache_key d) ≡ false = ground arith in
      rw there (map-replaced-same d rows (rw there at u) (ground arith))
]
  where
    none_left : (rest : List PackageAccountData) → suc (length rest) ≤ 1 → rest ≡ []
    none_left [] h = refl
    none_left (x ∷ rest) h = absurd (omega arith)

cached-append_other :
    (k : Key) (d : PackageAccountData) (rows : List PackageAccountData)
    → cache_key d ≢ k
    → cached k (rows ++ (d ∷ [])) ≡ cached k rows
cached-append_other k d [] h = ground arith
cached-append_other k d (r ∷ rows) h = ground (arith, cached-append_other k d rows h)

cached-append_same :
    (d : PackageAccountData) (rows : List PackageAccountData)
    → contains (map cache_key rows) (cache_key d) ≡ false
    → cached (cache_key d) (rows ++ (d ∷ [])) ≡ d ∷ []
cached-append_same d [] h = ground arith
cached-append_same d (r ∷ rows) h = ground (arith, cached-append_same d rows)

-- An upsert leaves the rows of every other key, and makes `d` the row of its own.
cached-upsert_other :
    (k : Key) (d : PackageAccountData) (rows : List PackageAccountData)
    → cache_key d ≢ k
    → cached k (upsert d rows) ≡ cached k rows
unfolding upsert
cached-upsert_other k d rows h = elim (Bool-cases (contains (map cache_key rows) (cache_key d))) [
  | inl there ↦ rw there (cached-map-replaced k d rows ∙ map-replaced-other k d rows h)
  | inr new ↦ rw new (cached-append_other k d rows h)
]

cached-upsert_same :
    (d : PackageAccountData) (rows : List PackageAccountData)
    → HasPrimaryKey rows
    → cached (cache_key d) (upsert d rows) ≡ d ∷ []
unfolding upsert
cached-upsert_same d rows u = elim (Bool-cases (contains (map cache_key rows) (cache_key d))) [
  | inl there ↦
      rw there (
        cached-map-replaced (cache_key d) d rows ∙ map-replaced-same d rows (u (cache_key d)) there)
  | inr new ↦ rw new (cached-append_same d rows new)
]

pub upsert-HasPrimaryKey :
    (d : PackageAccountData) (rows : List PackageAccountData)
    → HasPrimaryKey rows
    → HasPrimaryKey (upsert d rows)
upsert-HasPrimaryKey d rows u k = elim (key_eq.dec (cache_key d) k) [
  | yes p ↦
      subst (λ j. length (cached j (upsert d rows)) ≤ 1) p
        (rw (cached-upsert_same d rows u) (omega arith))
  | no p ↦ rw (cached-upsert_other k d rows p) (u k)
]

-- No two rows have one key.
abbrev pub HasDistinctKeys : List PackageAccountData → Type 0
HasDistinctKeys [] = Unit
HasDistinctKeys (d ∷ ds) = (contains (map cache_key ds) (cache_key d) ≡ false) × HasDistinctKeys ds

-- Rows without a repeated key have a primary key.
pub distinct-HasPrimaryKey :
    (rows : List PackageAccountData) → HasDistinctKeys rows → HasPrimaryKey rows
distinct-HasPrimaryKey [] h k = omega arith
distinct-HasPrimaryKey (r ∷ rows) h k = elim (key_eq.dec (cache_key r) k) [
  | yes p ↦
      let here : (cache_key r == k) ≡ true = (==_iff (cache_key r) k).1 p in
      let absent = subst (λ j. contains (map cache_key rows) j ≡ false) p h.0 in
      rw (here, cached-absent k rows absent) (omega arith)
  | no p ↦
      let there : (cache_key r == k) ≡ false = ground arith in
      rw there (distinct-HasPrimaryKey rows h.1 k)
]

-- The upserts keep the primary key; a key that they name has the new row, any other its old one.
pub cached-upsert_all :
    (ds rows : List PackageAccountData) (k : Key)
    → HasPrimaryKey rows
    → HasDistinctKeys ds
    → cached k (upsert_all ds rows)
      ≡ (if contains (map cache_key ds) k then cached k ds else cached k rows)
unfolding upsert_all
cached-upsert_all [] rows k u h = refl
cached-upsert_all (d ∷ ds) rows k u h =
    let later = cached-upsert_all ds (upsert d rows) k (upsert-HasPrimaryKey d rows u) h.1 in
    elim (key_eq.dec (cache_key d) k) [
      | yes p ↦
          let here : (cache_key d == k) ≡ true = (==_iff (cache_key d) k).1 p in
          let here' : (k == cache_key d) ≡ true = (==_iff k (cache_key d)).1 (sym p) in
          let fresh = subst (λ j. contains (map cache_key ds) j ≡ false) p h.0 in
          let single =
            subst (λ j. cached j (upsert d rows) ≡ d ∷ []) p (cached-upsert_same d rows u) in
          rw (here, here', cached-absent k ds fresh) (later ∙ rw (fresh, single))
      | no p ↦
          let there : (cache_key d == k) ≡ false = ground arith in
          let there' : (k == cache_key d) ≡ false = ground arith in
          rw (there, there') (later ∙ rw (cached-upsert_other k d rows p))
    ]

-- The rows of one key among those that pass a test which only looks at the key.
pub cached-keep :
    (k : Key) (p : Key → Bool) (rows : List PackageAccountData)
    → cached k (keep (λ r. p (cache_key r)) rows) ≡ (if p k then cached k rows else [])
cached-keep k p [] = ground arith
cached-keep k p (r ∷ rows) = elim (key_eq.dec (cache_key r) k) [
  | yes q ↦
      let here : (cache_key r == k) ≡ true = (==_iff (cache_key r) k).1 q in
      elim (Bool-cases (p k)) [
        | inl pass ↦ rw (ap p q, pass, here) (ap (λ l. r ∷ l) (cached-keep k p rows ∙ rw pass))
        | inr fail ↦ rw (ap p q, fail) (cached-keep k p rows ∙ rw fail)
      ]
  | no q ↦
      let there : (cache_key r == k) ≡ false = ground arith in
      rw there (ground (arith, cached-keep k p rows))
]

-- Ascending keys are distinct.
pub ascending-HasDistinctKeys :
    (ds : List PackageAccountData) → IsAscending (map cache_key ds) → HasDistinctKeys ds
ascending-HasDistinctKeys [] h = tt
ascending-HasDistinctKeys (d ∷ ds) h =
    (AllAfter-absent (cache_key d) (map cache_key ds) h.0, ascending-HasDistinctKeys ds h.1)
