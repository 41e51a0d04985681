-- ===== src/Grouping.antt =====
-- `GROUP BY` with `ORDER BY` on the same columns: one result for each key that occurs, in the order
-- of the keys.
pub mod Keys
pub mod Totals
use inventory_access_poc.Prelude.{Bool, List, [], ◌∷◌, map, keep, Eq, ◌==◌, Ord, if◌then◌else◌}

module _ {K : Type 0} ⦃e : Eq K⦄ ⦃o : Ord K⦄ where
  -- A key enters its place in the sorted keys, unless it stands there.
  unfoldable pub insert_key : K → List K → List K
  insert_key k [] = k ∷ []
  insert_key k (j ∷ js) =
      if k == j then j ∷ js else if o.before k j then k ∷ j ∷ js else j ∷ insert_key k js

  unfoldable pub sorted_keys : {A : Type 0} → (A → K) → List A → List K
  unfolding insert_key
  sorted_keys key [] = []
  sorted_keys key (x ∷ xs) = insert_key (key x) (sorted_keys key xs)

  -- The rows of one group.
  abbrev pub having : {A : Type 0} → (A → K) → K → List A → List A
  having key k = keep (λ x. key x == k)

  unfoldable pub group_by : {A B : Type 0} → (A → K) → (K → List A → B) → List A → List B
  unfolding sorted_keys
  group_by key result xs = map (λ k. result k (having key k xs)) (sorted_keys key xs)
