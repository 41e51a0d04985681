-- ===== src/Migration/Success.antt =====
-- The migrations succeed where SpiceDB accepts every write and every row arrives.
use inventory_access_poc.Prelude.{◌≡◌, refl, ap, ◌∙◌, List, [], ◌∷◌, none, map}
use inventory_access_poc.Errors.{Result, ok, ⊤}
use inventory_access_poc.Tables.{Tables, UuidBytes}
use inventory_access_poc.Spice.{SpiceDb, RelationshipUpdate, relationship_eq}
use inventory_access_poc.Spice.Touches.{touching}
use inventory_access_poc.Driver.{Driver, IsReliable, UuidLibrary}
use inventory_access_poc.Migration.{
  new_migrator, migrate_packages, migrate_content_hosts_and_systems,
}
use inventory_access_poc.Migration.Batches.{Batch, batches, write_all}
use inventory_access_poc.Migration.Packages.{package_relationships, migrate_packages-write_all}
use inventory_access_poc.Migration.Hosts.Rows.{migrate_hosts-write_all}

-- Every write is accepted.
abbrev pub Accepts : SpiceDb → Type 0
Accepts S = (us : List RelationshipUpdate) (s : S.State) → (S.write us s).0 ≡ none

module _ (S : SpiceDb) (accepts : Accepts S) where
  write_all_ok : (bs : List Batch) (s : S.State) → (write_all S bs s).0 ≡ ok tt
  unfolding write_all
  write_all_ok [] s = refl
  write_all_ok (b ∷ bs) s = rw (accepts b s, write_all) (write_all_ok bs (S.write b s).1)

  -- If every row arrives and SpiceDB accepts every write, the migration of the packages ends with no
  -- error.
  pub migrate_packages_succeeds :
      (driver : Driver) (t : Tables) (s : S.State)
      → IsReliable driver
      → (migrate_packages S driver t (new_migrator s)).0 ≡ ok tt
  migrate_packages_succeeds driver t s reliable =
      ap (λ (o : Result ⊤ × S.State). o.0) (migrate_packages-write_all S driver t s reliable)
      ∙ write_all_ok (batches [] (map touching (package_relationships t))) s

  -- If every row arrives, every id can be read and SpiceDB accepts every write, the migration of the
  -- hosts and systems ends with no error.
  pub migrate_hosts_succeeds :
      (U : UuidLibrary) (id_of : UuidBytes → U.Uuid)
      (reads : (b : UuidBytes) → U.from_bytes b ≡ ok (id_of b)) (driver : Driver) (t : Tables)
      (s : S.State)
      → IsReliable driver
      → (migrate_content_hosts_and_systems S U driver t (new_migrator s)).0 ≡ ok tt
  migrate_hosts_succeeds U id_of reads driver t s reliable =
      ap (λ (o : Result ⊤ × S.State). o.0)
        (migrate_hosts-write_all S U id_of reads driver t s reliable)
      ∙ write_all_ok _ s
