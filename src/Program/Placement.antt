-- ===== src/Program/Placement.antt =====
-- Where the hosts lie in SpiceDB: the ungrouped workspaces of the accounts, and the updates of a move.
use inventory_access_poc.Prelude.{
  ◌≡◌, sym, ap, ◌∙◌, subst, true, false, none, List, [], ◌∷◌, map, map-map, keep, contains, ◌==◌,
  ==_iff, arith, Bool-cases, ◌≢◌, inl, inr, All, All-map, All-weaken, All-both, append_assoc,
  bytes_eq,
}
use inventory_access_poc.Prelude.Int.{ℤ, int_eq}
use inventory_access_poc.Prelude.Joins.{map-join}
use inventory_access_poc.Prelude.Bytes.{Text, codes}
use inventory_access_poc.Prelude.Decimal.{format_int}
use inventory_access_poc.Prelude.Decimal.RoundTrip.{FitsInt64}
use inventory_access_poc.Tables.{Tables, SystemPlatform, InventoryHost, UuidBytes}
use inventory_access_poc.Spice.{
  SpiceDb, IsAtomic, Relationship, relationship_eq, object, after_updates,
}
use inventory_access_poc.Migration.{root_id, ungrouped_of, systems_with_hosts}
use inventory_access_poc.Migration.Workspaces.{all_relationships, ungrouped_id, relate}
use inventory_access_poc.Move.{workspace_of, in_workspace, hosts_of_account, moved_account}
use inventory_access_poc.Move.Endings.{moved}
use inventory_access_poc.Move.Success.{moves_of}
use inventory_access_poc.Move.Workspaces.{hosts_named, workspace_of-distinct}
use inventory_access_poc.Move.Placement.{moves_of-stays, moves_of-comes, contains-keep}

-- The relationship of a host with the workspace of its system's account.
abbrev pub placement : (UuidBytes → Text) → SystemPlatform × InventoryHost → Relationship
placement text (sp, ih) = in_workspace (text ih.id) (workspace_of sp.rh_account_id)

abbrev moved_row : ℤ → ℤ → SystemPlatform × InventoryHost → SystemPlatform × InventoryHost
moved_row to from (sp, ih) =
    (record sp { rh_account_id = moved_account to from sp.rh_account_id }, ih)

module _ (S : SpiceDb) (text : UuidBytes → Text) where
  abbrev pub IsPlacedRow : S.State → SystemPlatform × InventoryHost → Type 0
  IsPlacedRow s row = FitsInt64 row.0.rh_account_id × (S.holds s (placement text row) ≡ true)

  -- Every system that has a host has an account of 64 bits, and its host lies in the workspace.
  abbrev pub IsPlaced : Tables → S.State → Type 0
  IsPlaced t s = All (IsPlacedRow s) (systems_with_hosts t)

  -- The same, but for the systems of one account.
  abbrev pub IsPlacedButRow : ℤ → S.State → SystemPlatform × InventoryHost → Type 0
  IsPlacedButRow from s row =
      FitsInt64 row.0.rh_account_id
      × ((row.0.rh_account_id == from) ≡ false → S.holds s (placement text row) ≡ true)

  abbrev pub IsPlacedBut : ℤ → Tables → S.State → Type 0
  IsPlacedBut from t s = All (IsPlacedButRow from s) (systems_with_hosts t)

  pub IsPlaced-IsPlacedBut :
      (from : ℤ) (t : Tables) (s : S.State) → IsPlaced t s → IsPlacedBut from t s
  IsPlaced-IsPlacedBut from t s =
      All-weaken (IsPlacedRow s) (IsPlacedButRow from s) (λ row h. (h.0, λ other. h.1))
        (systems_with_hosts t)

  -- A store that holds more, and tables with the same rows.
  pub IsPlaced-grow :
      (t t' : Tables) (s s' : S.State)
      → systems_with_hosts t' ≡ systems_with_hosts t
      → ((r : Relationship) → S.holds s r ≡ true → S.holds s' r ≡ true)
      → IsPlaced t s
      → IsPlaced t' s'
  IsPlaced-grow t t' s s' same more h = subst (All (IsPlacedRow s')) (sym same) (
      All-weaken (IsPlacedRow s) (IsPlacedRow s') (λ row h. (h.0, more (placement text row) h.1))
        (systems_with_hosts t) h)

  pub IsPlacedBut-grow :
      (from : ℤ) (t t' : Tables) (s s' : S.State)
      → systems_with_hosts t' ≡ systems_with_hosts t
      → ((r : Relationship) → S.holds s r ≡ true → S.holds s' r ≡ true)
      → IsPlacedBut from t s
      → IsPlacedBut from t' s'
  IsPlacedBut-grow from t t' s s' same more h = subst (All (IsPlacedButRow from s')) (sym same) (
      All-weaken (IsPlacedButRow from s) (IsPlacedButRow from s')
        (λ row h. (h.0, λ other. more (placement text row) (h.1 other))) (systems_with_hosts t) h)

  systems_with_hosts-moved :
      (from to : ℤ) (t : Tables)
      → map (moved_row to from) (systems_with_hosts t) ≡ systems_with_hosts (moved to from t)
  systems_with_hosts-moved from to t =
      map-join
        (λ (sp : SystemPlatform). record sp {
          rh_account_id = moved_account to from sp.rh_account_id;
        })
        (λ sp ih. sp.inventory_id == ih.id) t.system_platform t.inventory_hosts

  -- The hosts of the other accounts stay where they are.
  other_row-IsPlaced :
      (from to : ℤ) (hs : List InventoryHost) (s s' : S.State)
      (row : SystemPlatform × InventoryHost)
      → FitsInt64 from
      → ((r : Relationship)
          → S.holds s' r ≡ after_updates (moves_of text from to hs) r (S.holds s r))
      → (row.0.rh_account_id == from) ≡ false
      → IsPlacedRow s row
      → S.holds s' (placement text row) ≡ true
  other_row-IsPlaced from to hs s s' (sp, ih) f written other placed =
      let distinct : workspace_of from ≢ workspace_of sp.rh_account_id =
        workspace_of-distinct from sp.rh_account_id f placed.0 (λ e. ground arith) in
      written (placement text (sp, ih))
      ∙ ap (after_updates (moves_of text from to hs) (placement text (sp, ih))) placed.1
      ∙ moves_of-stays text from to hs (text ih.id) (workspace_of sp.rh_account_id) distinct

  -- The rows after the updates of a move.
  moved_row-IsPlaced :
      (from to : ℤ) (hs : List InventoryHost) (s s' : S.State)
      (row : SystemPlatform × InventoryHost)
      → FitsInt64 from
      → FitsInt64 to
      → ((r : Relationship)
          → S.holds s' r ≡ after_updates (moves_of text from to hs) r (S.holds s r))
      → IsPlacedButRow from s row
        × ((row.0.rh_account_id == from) ≡ true
            → contains (hosts_named text hs) (text row.1.id) ≡ true)
      → IsPlacedRow s' (moved_row to from row)
  moved_row-IsPlaced from to hs s s' (sp, ih) f g written (placed, listed) =
      elim (Bool-cases (sp.rh_account_id == from)) [
        | inl here ↦ rw here (
          g,
          written (in_workspace (text ih.id) (workspace_of to))
              ∙ moves_of-comes text from to hs (text ih.id) _ (listed here),
        )
        | inr there ↦ rw there (
          placed.0,
          other_row-IsPlaced from to hs s s' (sp, ih) f written there (placed.0, placed.1 there),
        )
      ]

  named_hosts :
      (from : ℤ) (t : Tables)
      → hosts_named text (hosts_of_account from t)
        ≡ map
            (λ (row : SystemPlatform × InventoryHost). text row.1.id)
            (keep (λ row. row.0.rh_account_id == from) (systems_with_hosts t))
  unfolding hosts_of_account
  named_hosts from t =
      map-map (λ (h : InventoryHost). text h.id) (λ (row : SystemPlatform × InventoryHost). row.1)
        (keep (λ row. row.0.rh_account_id == from) (systems_with_hosts t))

  -- After a complete move also the hosts of the account that was moved lie where they should.
  pub complete-IsPlaced :
      (from to : ℤ) (t : Tables) (s s' : S.State)
      → IsAtomic S
      → FitsInt64 from
      → FitsInt64 to
      → (S.write (moves_of text from to (hosts_of_account from t)) s).0 ≡ none
      → s' ≡ (S.write (moves_of text from to (hosts_of_account from t)) s).1
      → IsPlacedBut from t s
      → IsPlaced (moved to from t) s'
  complete-IsPlaced from to t s s' atomic f g accepted e placed =
      let rows = systems_with_hosts t in
      let hs = hosts_of_account from t in
      let Listed = λ (row : SystemPlatform × InventoryHost).
        (row.0.rh_account_id == from) ≡ true
        → contains (hosts_named text hs) (text row.1.id) ≡ true in
      let listed : All Listed rows = rw (named_hosts from t) (
        contains-keep (λ (row : SystemPlatform × InventoryHost). text row.1.id)
          (λ row. row.0.rh_account_id == from) rows) in
      subst (All (IsPlacedRow s')) (systems_with_hosts-moved from to t) (
        All-map (λ row. IsPlacedButRow from s row × Listed row) (IsPlacedRow s') (moved_row to from)
          (λ row h.
            moved_row-IsPlaced from to hs s s' row f g (λ r. rw e (atomic.written _ s r accepted))
              h)
          rows (All-both (IsPlacedButRow from s) Listed rows placed listed))

  -- If only SpiceDB has changed, those of the other accounts do.
  pub written-IsPlacedBut :
      (from to : ℤ) (hs : List InventoryHost) (t : Tables) (s s' : S.State)
      → IsAtomic S
      → FitsInt64 from
      → (S.write (moves_of text from to hs) s).0 ≡ none
      → s' ≡ (S.write (moves_of text from to hs) s).1
      → IsPlacedBut from t s
      → IsPlacedBut from t s'
  written-IsPlacedBut from to hs t s s' atomic f accepted e =
      All-weaken (IsPlacedButRow from s) (IsPlacedButRow from s')
        (λ row h. (
          h.0,
          λ other.
              other_row-IsPlaced from to hs s s' row f (λ r. rw e (atomic.written _ s r accepted))
                other (h.0, h.1 other),
        ))
        (systems_with_hosts t)

module _ (text : UuidBytes → Text) where
  -- The migration touches it.
  placement_lem :
      (row : SystemPlatform × InventoryHost)
      → placement text row
        ≡ relate
            (codes "inventory/host")
            (text row.1.id)
            (codes "workspace")
            (codes "workspace")
            (ungrouped_id row.0.rh_account_id)
  unfolding workspace_of root_id ungrouped_of
  placement_lem (sp, ih) =
      ap (λ u. in_workspace (text ih.id) (object (codes "workspace") u))
        (sym (append_assoc (format_int sp.rh_account_id) (codes "_root") (codes "/ungrouped")))

  pub placements_touched :
      (rows : List (SystemPlatform × InventoryHost))
      → All (λ row. contains (all_relationships text rows) (placement text row) ≡ true) rows
  placements_touched [] = tt
  placements_touched (row ∷ rows) = (
    (let touched = (==_iff _ _).1 (placement_lem row) in ground (arith, touched)),
    All-weaken (λ r. contains (all_relationships text rows) (placement text r) ≡ true)
        (λ r. contains (all_relationships text (row ∷ rows)) (placement text r) ≡ true)
        (λ r h. ground (arith, h)) rows (placements_touched rows),
  )
