-- ===== src/Migration/Workspaces.antt =====
-- The relationships that `MigrateContentHostsAndSystemsToSpiceDb` touches, in order and as a set.
use inventory_access_poc.Prelude.{
  ◌≡◌, refl, sym, ap, ◌∙◌, inl, inr, List, [], ◌∷◌, ◌++◌, ◌||◌, true, Bool, contains,
  contains-append, arith, Bool-cases, if◌then◌else◌,
}
use inventory_access_poc.Prelude.Int.{ℤ, int_eq}
use inventory_access_poc.Prelude.Bytes.{Text, codes}
use inventory_access_poc.Prelude.Decimal.{format_int}
use inventory_access_poc.Tables.{SystemPlatform, InventoryHost, UuidBytes}
use inventory_access_poc.Spice.{Relationship, relationship_eq, object}
use inventory_access_poc.Migration.{root_id, ungrouped_of}

-- The id of the workspace for the hosts of an organization that are in no group.
abbrev pub ungrouped_id : ℤ → Text
ungrouped_id org = ungrouped_of (root_id org)

abbrev pub relate : Text → Text → Text → Text → Text → Relationship
relate a b c d e = record { resource = object a b; relation = c; subject = object d e }

-- The root workspace lies below its organization, the ungrouped one below the root.
abbrev pub root_below : ℤ → Relationship
root_below org =
    relate (codes "workspace") (root_id org) (codes "parent") (codes "organization")
      (format_int org)

abbrev pub ungrouped_below : ℤ → Relationship
ungrouped_below org =
    relate (codes "workspace") (ungrouped_id org) (codes "parent") (codes "workspace") (root_id org)

abbrev pub workspace_relationships : ℤ → List Relationship
workspace_relationships org = root_below org ∷ ungrouped_below org ∷ []

-- The host lies in the ungrouped workspace of its account, and the system runs on the host.
abbrev pub host_relationships :
    (UuidBytes → Text) → SystemPlatform × InventoryHost → List Relationship
host_relationships text (sp, ih) =
    relate (codes "inventory/host") (text ih.id) (codes "workspace") (codes "workspace")
      (ungrouped_id sp.rh_account_id)
    ∷ relate (codes "patch/system") (format_int sp.id) (codes "host") (codes "inventory/host")
        (text ih.id)
    ∷ []

-- The relationships in the order of the rows, where those of a workspace stand once, in front of
-- the first host in it. `seen` lists the organizations whose workspaces stand further ahead.
unfoldable pub relationships_from :
    (UuidBytes → Text) → List ℤ → List (SystemPlatform × InventoryHost) → List Relationship
relationships_from text seen [] = []
relationships_from text seen (row ∷ rows) =
    let org = row.0.rh_account_id in
    (if contains seen org then [] else workspace_relationships org)
    ++ (host_relationships text row ++ relationships_from text (org ∷ seen) rows)

-- All four relationships of every row, with those of a workspace repeated.
abbrev pub all_relationships :
    (UuidBytes → Text) → List (SystemPlatform × InventoryHost) → List Relationship
all_relationships text [] = []
all_relationships text (row ∷ rows) =
    workspace_relationships row.0.rh_account_id
    ++ (host_relationships text row ++ all_relationships text rows)

abbrev workspaces_of : List ℤ → List Relationship
workspaces_of [] = []
workspaces_of (org ∷ orgs) = workspace_relationships org ++ workspaces_of orgs

contains-workspaces_of :
    (seen : List ℤ) (org : ℤ) (r : Relationship)
    → contains seen org ≡ true
    → contains (workspace_relationships org) r ≡ true
    → contains (workspaces_of seen) r ≡ true
contains-workspaces_of [] org r h k = cc
contains-workspaces_of (o ∷ seen) org r h k = elim (int_eq.dec org o) [
  | yes e ↦ rw (← e) (ground arith)
  | no e ↦ ground (arith, contains-workspaces_of seen org r)
]

contains-append₃ :
    (xs ys zs : List Relationship) (r : Relationship)
    → contains (xs ++ (ys ++ zs)) r ≡ (contains xs r || (contains ys r || contains zs r))
contains-append₃ xs ys zs r =
    contains-append xs (ys ++ zs) r ∙ ap (λ b. contains xs r || b) (contains-append ys zs r)

-- With what is seen in `p`: workspaces `w`, a host `h` and the rest.
merge_old :
    (p w h x y : Bool)
    → (w ≡ true → p ≡ true)
    → ((w || p) || x) ≡ ((w || p) || y)
    → (p || (h || x)) ≡ (p || (w || (h || y)))
merge_old p w h x y i e = ground arith

merge_new :
    (p w h x y : Bool)
    → ((w || p) || x) ≡ ((w || p) || y)
    → (p || (w || (h || x))) ≡ (p || (w || (h || y)))
merge_new p w h x y e = ground arith

contains-relationships_from_seen :
    (text : UuidBytes → Text) (seen : List ℤ) (rows : List (SystemPlatform × InventoryHost))
    (r : Relationship)
    → (contains (workspaces_of seen) r || contains (relationships_from text seen rows) r)
      ≡ (contains (workspaces_of seen) r || contains (all_relationships text rows) r)
unfolding relationships_from
contains-relationships_from_seen text seen [] r = refl
contains-relationships_from_seen text seen (row ∷ rows) r =
    let org = row.0.rh_account_id in
    let p = contains (workspaces_of seen) r in
    let w = contains (workspace_relationships org) r in
    let h = contains (host_relationships text row) r in
    let xs = relationships_from text (org ∷ seen) rows in
    let x = contains xs r in
    let ys = all_relationships text rows in
    let y = contains ys r in
    let ih : ((w || p) || x) ≡ ((w || p) || y) =
      rw contains-append at (contains-relationships_from_seen text (org ∷ seen) rows r) in
    let all = contains-append₃ (workspace_relationships org) (host_relationships text row) ys r in
    elim (Bool-cases (contains seen org)) [
      | inl old ↦ rw old (
          ap (λ b. p || b) (contains-append (host_relationships text row) xs r)
          ∙ merge_old p w h x y (contains-workspaces_of seen org r old) ih
          ∙ sym (ap (λ b. p || b) all))
      | inr new ↦ rw new (
          ap (λ b. p || b)
            (contains-append₃ (workspace_relationships org) (host_relationships text row) xs r)
          ∙ merge_new p w h x y ih
          ∙ sym (ap (λ b. p || b) all))
    ]

pub contains-relationships_from :
    (text : UuidBytes → Text) (rows : List (SystemPlatform × InventoryHost)) (r : Relationship)
    → contains (relationships_from text [] rows) r ≡ contains (all_relationships text rows) r
contains-relationships_from text rows r = contains-relationships_from_seen text [] rows r
