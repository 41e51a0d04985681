-- ===== src/Spice.antt =====
-- What the program uses of SpiceDB: relationships and their updates, the service behind
-- `WriteRelationships` and `LookupResources`, and what its documentation says of a write.
pub mod Touches
use inventory_access_poc.Prelude.{
  ◌≡◌, Bool, true, false, Option, none, some, List, [], ◌∷◌, ◌==◌, Eq, if◌then◌else◌, ℕ_discrete,
}
use inventory_access_poc.Prelude.Bytes.{Text}
use inventory_access_poc.Errors.{Error}

pub record ObjectReference : Type 0 where
  pub object_type : Text
  pub object_id : Text

-- The resource, the relation and the subject.
pub record Relationship : Type 0 where
  pub resource : ObjectReference
  pub relation : Text
  pub subject : ObjectReference

pub data Operation : Type 0 where
  touch delete : Operation

pub record RelationshipUpdate : Type 0 where
  pub operation : Operation
  pub relationship : Relationship

relationship_dec : Discrete Relationship
relationship_dec = hlevel ℕ_discrete

instance unfoldable pub relationship_eq : Eq Relationship
unfolding relationship_dec ℕ_discrete
relationship_eq = record { dec = relationship_dec }

-- An object by its type and id.
abbrev pub object : Text → Text → ObjectReference
object type id = record { object_type = type; object_id = id }

-- The service. A state is all that it stores; `holds` says whether a relationship is stored.
pub record SpiceDb : Type 1 where
  pub State : Type 0
  pub holds : State → Relationship → Bool
  pub write : List RelationshipUpdate → State → Option Error × State

-- A touched relationship is stored, a deleted one is not, and no other changes.
abbrev pub after_update : RelationshipUpdate → Relationship → Bool → Bool
after_update u r b =
    if u.relationship == r then elim u.operation [ touch ↦ true | delete ↦ false ] else b

-- The updates of one request, in their order.
abbrev pub after_updates : List RelationshipUpdate → Relationship → Bool → Bool
after_updates [] r b = b
after_updates (u ∷ us) r b = after_updates us r (after_update u r b)

-- A write is atomic: it applies all of its updates, or reports an error and applies none.
pub record IsAtomic (S : SpiceDb) : Type 0 where
  pub written :
      (us : List RelationshipUpdate) (s : S.State) (r : Relationship)
      → (S.write us s).0 ≡ none
      → S.holds (S.write us s).1 r ≡ after_updates us r (S.holds s r)
  pub refused :
      (us : List RelationshipUpdate) (s : S.State) {e : Error}
      → (S.write us s).0 ≡ some e
      → (S.write us s).1 ≡ s
