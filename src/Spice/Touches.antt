-- ===== src/Spice/Touches.antt =====
-- Requests that only touch: what SpiceDB holds after them.
use inventory_access_poc.Prelude.{
  ◌≡◌, refl, Bool, true, ◌||◌, List, [], ◌∷◌, ◌++◌, map, ◌==◌, contains, arith, All, false,
}
use inventory_access_poc.Spice.{
  Relationship, RelationshipUpdate, relationship_eq, touch, after_update, after_updates,
}

abbrev pub touching : Relationship → RelationshipUpdate
touching r = record { operation = touch; relationship = r }

pub after_updates-append :
    (us vs : List RelationshipUpdate) (r : Relationship) (b : Bool)
    → after_updates (us ++ vs) r b ≡ after_updates vs r (after_updates us r b)
after_updates-append [] vs r b = refl
after_updates-append (u ∷ us) vs r b = after_updates-append us vs r (after_update u r b)

-- A relationship is stored after touches if it was, or if one of them names it.
pub after_updates-touching :
    (rs : List Relationship) (r : Relationship) (b : Bool)
    → after_updates (map touching rs) r b ≡ (b || contains rs r)
after_updates-touching [] r true = refl
after_updates-touching [] r b = refl
after_updates-touching (x ∷ rs) r b =
    ground (arith, after_updates-touching rs r b, after_updates-touching rs r true)

abbrev pub IsTouch : RelationshipUpdate → Type 0
IsTouch u = u.operation ≡ touch

-- Whether an update of the list is about the relationship.
abbrev pub names : List RelationshipUpdate → Relationship → Bool
names [] r = false
names (u ∷ us) r = r == u.relationship || names us r

pub names-append :
    (us vs : List RelationshipUpdate) (r : Relationship)
    → names (us ++ vs) r ≡ (names us r || names vs r)
names-append [] vs r = refl
names-append (u ∷ us) vs r = ground (arith, names-append us vs r)

pub names-touching :
    (rs : List Relationship) (r : Relationship) → names (map touching rs) r ≡ contains rs r
names-touching [] r = refl
names-touching (x ∷ rs) r = ground (arith, names-touching rs r)

pub touching-IsTouch : (rs : List Relationship) → All IsTouch (map touching rs)
touching-IsTouch [] = tt
touching-IsTouch (x ∷ rs) = (refl, touching-IsTouch rs)

pub after_updates-names :
    (us : List RelationshipUpdate) (r : Relationship) (b : Bool)
    → All IsTouch us
    → after_updates us r b ≡ (b || names us r)
after_updates-names [] r b h = ground arith
after_updates-names (u ∷ us) r b h =
    ground (arith, after_updates-names us r b h.1, after_updates-names us r true h.1)
