-- ===== src/Setup/Loading.antt =====
-- The types of advisories that are loaded: by their ids, and the names of the others.
use inventory_access_poc.Prelude.{
  ℕ, List, map, keep, not, Bool, ap, count_where, contains, ◌||◌, bytes_eq, or_else, or_else_assoc,
  ◌≡◌, refl, Option, none, some, [], ◌∷◌, ◌==◌, if◌then◌else◌, arith,
}
use inventory_access_poc.Prelude.Int.{ℤ, int_eq}
use inventory_access_poc.Prelude.Bytes.{Text, codes}
use inventory_access_poc.Prelude.Dict.{Dict, lookup, insert, lookup-insert}
use inventory_access_poc.Setup.{AdvisoryType, add_types, other_names}

-- The name of the last row with this id.
abbrev pub name_of : ℤ → List AdvisoryType → Option Text
name_of id [] = none
name_of id (t ∷ rest) = or_else (name_of id rest) (if id == t.id then some t.name else none)

pub lookup-add_types :
    (id : ℤ) (rows : List AdvisoryType) (types : Dict ℤ Text)
    → lookup id (add_types rows types) ≡ or_else (name_of id rows) (lookup id types)
unfolding add_types
lookup-add_types id [] types = refl
lookup-add_types id (t ∷ rest) types = ground (
  arith,
  lookup-add_types id rest (insert t.id t.name types),
  lookup-insert id t.id t.name types,
  or_else_assoc (name_of id rest) (if id == t.id then some t.name else none) (lookup id types),
)

-- How often a name occurs in the database, where the usual names count for nothing.
abbrev pub other_count : List AdvisoryType → Text → ℕ
other_count rows x =
    if contains (codes "enhancement" ∷ codes "bugfix" ∷ codes "security" ∷ []) x
    then 0
    else count_where (λ t. t.name == x) rows

count-keep :
    (p q : Text → Bool) (rows : List AdvisoryType) (x : Text)
    → ((y : Text) → p y ≡ q y)
    → count_where (λ y. y == x) (keep (λ name. not (p name)) (map (λ t. t.name) rows))
      ≡ (if q x then 0 else count_where (λ t. t.name == x) rows)
count-keep p q [] x same = ground arith
count-keep p q (t ∷ rows) x same = elim (bytes_eq.dec t.name x) [
  | yes e ↦ ground (arith, count-keep p q rows x same, ap p e, same x)
  | no e ↦ ground (arith, count-keep p q rows x same)
]

three_names : (y a b c : Text) → (y == a || y == b || y == c) ≡ contains (a ∷ b ∷ c ∷ []) y
three_names y a b c = ground arith

pub count-other_names :
    (rows : List AdvisoryType) (x : Text)
    → count_where (λ y. y == x) (other_names rows) ≡ other_count rows x
unfolding other_names
count-other_names rows x =
    count-keep _ _ rows x
      (λ y. three_names y (codes "enhancement") (codes "bugfix") (codes "security"))
