-- ===== src/Packages/IdTable.antt =====
-- The statements that join a table of ids, against `packagesByHostIDs`.
use inventory_access_poc.Prelude.{
  ◌≡◌, refl, sym, ap, ◌∙◌, subst, ==_iff, false, List, [], ◌∷◌, map, map-append, keep, join,
  contains, ◌==◌, if◌then◌else◌, bytes_eq, arith, Bool-cases, inl, inr,
}
use inventory_access_poc.Prelude.Int.{ℤ, int_eq}
use inventory_access_poc.Tables.{Tables, UuidBytes}
use inventory_access_poc.Packages.{
  Joined, joined, count_packages, select_by_host_ids, select_by_joined_ids,
}
use inventory_access_poc.Packages.Equivalence.{count-map, select_by_host_ids-keep}

-- No id occurs twice.
abbrev pub IsDistinct : List UuidBytes → Type 0
IsDistinct [] = Unit
IsDistinct (i ∷ ids) = (contains ids i ≡ false) × IsDistinct ids

absent :
    (i : UuidBytes) (ids : List UuidBytes) → contains ids i ≡ false → keep (λ id. i == id) ids ≡ []
absent i [] h = refl
absent i (j ∷ ids) h = ground (arith, h, absent i ids)

-- An id stands for itself in a table of ids that do not repeat.
alone :
    {A : Type 0} (x : A) (i : UuidBytes) (ids : List UuidBytes)
    → IsDistinct ids
    → map (λ (r : A × UuidBytes). r.0) (map (λ id. (x, id)) (keep (λ id. i == id) ids))
      ≡ (if contains ids i then x ∷ [] else [])
alone x i [] h = refl
alone x i (j ∷ ids) h = elim (Bool-cases (i == j)) [
  | inl t ↦
      let none_left =
        absent i ids (subst (λ k. contains ids k ≡ false) (sym ((==_iff i j).0 t)) h.0) in
      rw (t, none_left) refl
  | inr f ↦ rw f (alone x i ids h.1)
]

-- The join is a test of membership then.
map-join_ids :
    {A : Type 0} (id_of : A → UuidBytes) (xs : List A) (ids : List UuidBytes)
    → IsDistinct ids
    → map (λ (r : A × UuidBytes). r.0) (join (λ x id. id_of x == id) xs ids)
      ≡ keep (λ x. contains ids (id_of x)) xs
map-join_ids id_of [] ids h = refl
map-join_ids {A} id_of (x ∷ xs) ids h =
    map-append (λ (r : A × UuidBytes). r.0) (map (λ id. (x, id)) (keep (λ id. id_of x == id) ids))
      (join (λ x id. id_of x == id) xs ids)
    ∙ rw (alone x (id_of x) ids h, map-join_ids id_of xs ids h)
        (elim (Bool-cases (contains ids (id_of x))) [ inl t ↦ rw t refl | inr f ↦ rw f refl ])

-- If no id occurs twice, then the rows of the statements that join a table of ids which belong to an
-- account are those of `packagesByHostIDs` for it.
pub select_by_joined_ids_equiv :
    (acc_id : ℤ) (ids : List UuidBytes) (t : Tables)
    → IsDistinct ids
    → keep (λ d. d.acc_id == acc_id) (select_by_joined_ids ids t) ≡ select_by_host_ids acc_id ids t
unfolding select_by_joined_ids count_packages
select_by_joined_ids_equiv acc_id ids t h =
    ap (keep (λ d. d.acc_id == acc_id)) (
      sym (
        count-map (λ (r : Joined × UuidBytes). r.0) (λ (r : Joined). r.0.0)
          (join (λ (r : Joined) id. r.1.id == id) (joined t) ids))
      ∙ ap count_packages (map-join_ids (λ (r : Joined). r.1.id) (joined t) ids h))
    ∙ sym (select_by_host_ids-keep acc_id ids t)
