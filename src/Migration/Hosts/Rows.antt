-- ===== src/Migration/Hosts/Rows.antt =====
-- The rows of `MigrateContentHostsAndSystemsToSpiceDb`: the relationships that each of them sends.
use inventory_access_poc.Prelude.{
  ◌≡◌, refl, ap, ◌∙◌, inl, inr, List, [], ◌∷◌, ◌++◌, none, some, map, true, contains, arith,
  Bool-cases, if◌then◌else◌,
}
use inventory_access_poc.Prelude.Int.{ℤ, int_eq}
use inventory_access_poc.Prelude.Dict.{lookup, insert, lookup-insert}
use inventory_access_poc.Prelude.Bytes.{Text, codes}
use inventory_access_poc.Prelude.Decimal.{format_int}
use inventory_access_poc.Errors.{
  Result, ok, ⊤, Action, proceed, ◌>>=◌, ◌>>◌, pure, modify, bind_assoc,
}
use inventory_access_poc.Tables.{Tables, SystemPlatform, InventoryHost, UuidBytes}
use inventory_access_poc.Spice.{SpiceDb, Relationship, relationship_eq}
use inventory_access_poc.Spice.Touches.{touching}
use inventory_access_poc.Driver.{Driver, IsReliable, UuidLibrary}
use inventory_access_poc.Migration.{
  Migrator, new_migrator, flush_updates, for_rows, host_row, add_workspaces, ungrouped_workspace,
  host_values, host_rows, systems_with_hosts, migrate_content_hosts_and_systems,
}
use inventory_access_poc.Migration.Batches.{
  batches, write_all, sent, Sends, flush_updates-Sends, add-Sends, add, for_rows_ok,
}
use inventory_access_poc.Migration.Workspaces.{
  ungrouped_id, relate, root_below, ungrouped_below, workspace_relationships, host_relationships,
  relationships_from,
}

module _ (S : SpiceDb) (U : UuidLibrary) (id_of : UuidBytes → U.Uuid)
    (reads : (b : UuidBytes) → U.from_bytes b ≡ ok (id_of b)) where
  abbrev pub id_text : UuidBytes → Text
  id_text b = U.to_string (id_of b)

  -- The map `orgUngrouped` has exactly the organizations that were seen.
  abbrev Knows : List ℤ → Migrator S.State → Type 0
  Knows seen m =
      (o : ℤ) → lookup o m.org_ungrouped ≡ (if contains seen o then some (ungrouped_id o) else none)

  abbrev rest : List (SystemPlatform × InventoryHost) → Action (Migrator S.State) ⊤
  rest rows = for_rows S (host_row S U) (map ok (map host_values rows)) >> flush_updates S

  abbrev on_host : SystemPlatform × InventoryHost → Text → Relationship
  on_host (sp, ih) ungrouped =
      relate (codes "inventory/host") (id_text ih.id) (codes "workspace") (codes "workspace")
        ungrouped

  abbrev on_system : SystemPlatform × InventoryHost → Relationship
  on_system (sp, ih) =
      relate (codes "patch/system") (format_int sp.id) (codes "host") (codes "inventory/host")
        (id_text ih.id)

  host_row_lem :
      (row : SystemPlatform × InventoryHost) (m : Migrator S.State)
      → host_row S U (host_values row) m
        ≡ (ungrouped_workspace S row.0.rh_account_id >>= λ ungrouped.
              add S (on_host row ungrouped) >> add S (on_system row))
            m
  unfolding host_row
  host_row_lem row m = rw (reads row.1.id)

  -- The two updates at the end of the loop's body.
  host_updates-Sends :
      (row : SystemPlatform × InventoryHost) (k : Action (Migrator S.State) ⊤)
      (rs : List Relationship) (m : Migrator S.State)
      → ((m' : Migrator S.State)
          → m'.org_ungrouped ≡ m.org_ungrouped
          → Sends S k (map touching rs) m')
      → Sends S
          ((add S (on_host row (ungrouped_id row.0.rh_account_id)) >> add S (on_system row)) >> k)
          (map touching (host_relationships id_text row ++ rs))
          m
  host_updates-Sends row k rs m h =
      let r = on_host row (ungrouped_id row.0.rh_account_id) in
      ap (sent S) (bind_assoc (add S r) (λ _. add S (on_system row)) (λ _. k) m)
      ∙ add-Sends S r (add S (on_system row) >> k) (touching (on_system row) ∷ map touching rs) m
          (λ m' e. add-Sends S (on_system row) k (map touching rs) m' (λ m'' e'. h m'' (e' ∙ e)))

  abbrev enter : ℤ → Action (Migrator S.State) Text
  enter org =
      modify (λ m. record m { org_ungrouped = insert org (ungrouped_id org) m.org_ungrouped })
      >> pure (ungrouped_id org)

  -- A new organization is entered in the map once its workspaces are in the buffer.
  add_workspaces-Sends :
      (org : ℤ) (k : Text → Action (Migrator S.State) ⊤) (rs : List Relationship)
      (m : Migrator S.State)
      → ((m' : Migrator S.State)
          → m'.org_ungrouped ≡ insert org (ungrouped_id org) m.org_ungrouped
          → Sends S (k (ungrouped_id org)) (map touching rs) m')
      → Sends S (add_workspaces S org >>= k) (map touching (workspace_relationships org ++ rs)) m
  unfolding add_workspaces
  add_workspaces-Sends org k rs m h =
      let r = root_below org in
      let u = ungrouped_below org in
      ap (sent S) (bind_assoc (add S r) (λ _. add S u >> enter org) k m)
      ∙ add-Sends S r ((add S u >> enter org) >>= k) (touching u ∷ map touching rs) m (λ m' e.
        ap (sent S) (bind_assoc (add S u) (λ _. enter org) k m')
        ∙ add-Sends S u (enter org >>= k) (map touching rs) m' (λ m'' e'.
          h (record m'' { org_ungrouped = insert org (ungrouped_id org) m''.org_ungrouped })
            (ap (insert org (ungrouped_id org)) (e' ∙ e))))

  Knows-seen :
      (seen : List ℤ) (org : ℤ) (m m' : Migrator S.State)
      → Knows seen m
      → contains seen org ≡ true
      → m'.org_ungrouped ≡ m.org_ungrouped
      → Knows (org ∷ seen) m'
  Knows-seen seen org m m' known old e o = rw e (ground (arith, known o, known org))

  Knows-new :
      (seen : List ℤ) (org : ℤ) (m m' : Migrator S.State)
      → Knows seen m
      → m'.org_ungrouped ≡ insert org (ungrouped_id org) m.org_ungrouped
      → Knows (org ∷ seen) m'
  Knows-new seen org m m' known e o = rw (e, lookup-insert) (ground (arith, known o))

  ungrouped_workspace-old :
      (org : ℤ) (u : Text) (m : Migrator S.State)
      → lookup org m.org_ungrouped ≡ some u
      → ungrouped_workspace S org m ≡ (ok u, m)
  unfolding ungrouped_workspace
  ungrouped_workspace-old org u m e = rw (e, ungrouped_workspace)

  ungrouped_workspace-new :
      (org : ℤ) (m : Migrator S.State)
      → lookup org m.org_ungrouped ≡ none
      → ungrouped_workspace S org m ≡ add_workspaces S org m
  unfolding ungrouped_workspace
  ungrouped_workspace-new org m e = rw (e, ungrouped_workspace)

  abbrev updates : SystemPlatform × InventoryHost → Text → Action (Migrator S.State) ⊤
  updates row ungrouped = add S (on_host row ungrouped) >> add S (on_system row)

  -- One row: the workspaces if they are new, the host, the system, and then the rest.
  visit-Sends :
      (row : SystemPlatform × InventoryHost) (k : Action (Migrator S.State) ⊤)
      (later : List Relationship) (seen : List ℤ) (m : Migrator S.State)
      → Knows seen m
      → ((m' : Migrator S.State)
          → Knows (row.0.rh_account_id ∷ seen) m'
          → Sends S k (map touching later) m')
      → Sends S
          (ungrouped_workspace S row.0.rh_account_id >>= λ u. updates row u >> k)
          (map touching (
            (if contains seen row.0.rh_account_id
              then []
              else workspace_relationships row.0.rh_account_id)
            ++ (host_relationships id_text row ++ later)))
          m
  visit-Sends row k later seen m known h =
      let org = row.0.rh_account_id in
      let f : Text → Action (Migrator S.State) ⊤ = λ u. updates row u >> k in
      elim (Bool-cases (contains seen org)) [
        | inl old ↦ rw old (
            ap (λ (p : Result Text × Migrator S.State). sent S (proceed p.0 f p.1))
              (ungrouped_workspace-old org (ungrouped_id org) m (known org ∙ rw old))
            ∙ host_updates-Sends row k later m
                (λ m' e. h m' (Knows-seen seen org m m' known old e)))
        | inr new ↦ rw new (
            ap (λ (p : Result Text × Migrator S.State). sent S (proceed p.0 f p.1))
              (ungrouped_workspace-new org m (known org ∙ rw new))
            ∙ add_workspaces-Sends org f (host_relationships id_text row ++ later) m (λ m' e.
              host_updates-Sends row k later m'
                (λ m'' e'. h m'' (Knows-new seen org m m'' known (e' ∙ e)))))
      ]

  rest-Sends :
      (rows : List (SystemPlatform × InventoryHost)) (seen : List ℤ) (m : Migrator S.State)
      → Knows seen m
      → Sends S (rest rows) (map touching (relationships_from id_text seen rows)) m
  unfolding for_rows relationships_from
  rest-Sends [] seen m known = flush_updates-Sends S m
  rest-Sends (row ∷ rows) seen m known =
      let org = row.0.rh_account_id in
      ap (sent S) (
        for_rows_ok S (host_row S U) (host_values row) (map ok (map host_values rows))
          (flush_updates S) m
        ∙ ap (λ (p : Result ⊤ × Migrator S.State). proceed p.0 (λ _. rest rows) p.1)
            (host_row_lem row m)
        ∙ bind_assoc (ungrouped_workspace S org) (updates row) (λ _. rest rows) m)
      ∙ visit-Sends row (rest rows) (relationships_from id_text (org ∷ seen) rows) seen m known
          (λ m' known'. rest-Sends rows (org ∷ seen) m' known')

  pub migrate_hosts-write_all :
      (driver : Driver) (t : Tables) (s : S.State)
      → IsReliable driver
      → sent S (migrate_content_hosts_and_systems S U driver t (new_migrator s))
        ≡ write_all S
            (batches [] (map touching (relationships_from id_text [] (systems_with_hosts t))))
            s
  unfolding migrate_content_hosts_and_systems host_rows lookup
  migrate_hosts-write_all driver t s reliable =
      rw (reliable (map host_values (systems_with_hosts t)))
        (rest-Sends (systems_with_hosts t) [] (new_migrator s) (λ o. refl))
