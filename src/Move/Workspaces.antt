-- ===== src/Move/Workspaces.antt =====
-- In which workspaces the updates of a move leave the hosts.
use mathlib.Core.List.{append_cancel_right}
use inventory_access_poc.Prelude.{
  ◌≡◌, ◌≢◌, refl, sym, ap, ◌∙◌, inl, inr, Bool, true, false, not, ◌&&◌, ◌||◌, List, [], ◌∷◌, map,
  contains, ◌==◌, ==_iff, bytes_eq, arith, Bool-cases, if◌then◌else◌, ℕ, none,
}
use inventory_access_poc.Prelude.Int.{ℤ}
use inventory_access_poc.Prelude.Bytes.{Text, codes}
use inventory_access_poc.Prelude.Decimal.{format_int}
use inventory_access_poc.Prelude.Decimal.RoundTrip.{FitsInt64, format_int_injective}
use inventory_access_poc.Errors.{ok}
use inventory_access_poc.Driver.{Driver, IsReliable, UuidLibrary}
use inventory_access_poc.Database.{Answer, done, current}
use inventory_access_poc.Spice.{
  SpiceDb, IsAtomic, ObjectReference, Relationship, relationship_eq, after_updates,
}
use inventory_access_poc.Tables.{InventoryHost, UuidBytes}
use inventory_access_poc.Move.{World, workspace_of, in_workspace, hosts_of_account, move_systems}
use inventory_access_poc.Move.Success.{moves_of, printed, move_systems_succeeds}

-- Distinct accounts have distinct workspaces.
pub workspace_of-distinct :
    (from to : ℤ) → FitsInt64 from → FitsInt64 to → from ≢ to → workspace_of from ≢ workspace_of to
unfolding workspace_of
workspace_of-distinct from to f g h e = h (
    format_int_injective from to f g (
      append_cancel_right (format_int from) (format_int to) (codes "_root/ungrouped")
        (ap (λ (o : ObjectReference). o.object_id) e)))

-- The names of the hosts.
abbrev pub hosts_named : (UuidBytes → Text) → List InventoryHost → List Text
hosts_named text hs = map (λ (h : InventoryHost). text h.id) hs

-- The tests that the updates make.
pub other_workspace :
    (x y : Text) (v w : ObjectReference) → v ≢ w → (in_workspace x v == in_workspace y w) ≡ false
other_workspace x y v w d = elim (Bool-cases (in_workspace x v == in_workspace y w)) [
  | inl t ↦ absurd (
      d (ap (λ (r : Relationship). r.subject) ((==_iff (in_workspace x v) (in_workspace y w)).0 t)))
  | inr f ↦ f
]

pub same_workspace :
    (x y : Text) (w : ObjectReference) → (in_workspace y w == in_workspace x w) ≡ (x == y)
same_workspace x y w = elim (bytes_eq.dec x y) [
  | yes p ↦
      (==_iff (in_workspace y w) (in_workspace x w)).1 (ap (λ z. in_workspace z w) (sym p))
      ∙ sym ((==_iff x y).1 p)
  | no n ↦ elim (Bool-cases (in_workspace y w == in_workspace x w)) [
    | inl t ↦ absurd (
        n (
          sym (
            ap (λ (r : Relationship). r.resource.object_id)
              ((==_iff (in_workspace y w) (in_workspace x w)).0 t))))
    | inr f ↦ f ∙ ground arith
  ]
]

-- The hosts of the updates, and no others, come into the new workspace.
moves_into :
    (text : UuidBytes → Text) (from to : ℤ) (hs : List InventoryHost) (x : Text) (b : Bool)
    → workspace_of from ≢ workspace_of to
    → after_updates (moves_of text from to hs) (in_workspace x (workspace_of to)) b
      ≡ (contains (hosts_named text hs) x || b)
moves_into text from to [] x b d = refl
moves_into text from to (h ∷ hs) x b d =
    rw
      (
        other_workspace (text h.id) x (workspace_of from) (workspace_of to) d,
        same_workspace x (text h.id) (workspace_of to),
      )
      (moves_into text from to hs x (if x == text h.id then true else b) d ∙ ground arith)

-- They leave the old one.
moves_out_of :
    (text : UuidBytes → Text) (from to : ℤ) (hs : List InventoryHost) (x : Text) (b : Bool)
    → workspace_of from ≢ workspace_of to
    → after_updates (moves_of text from to hs) (in_workspace x (workspace_of from)) b
      ≡ (not (contains (hosts_named text hs) x) && b)
moves_out_of text from to [] x b d = refl
moves_out_of text from to (h ∷ hs) x b d =
    rw
      (
        other_workspace (text h.id) x (workspace_of to) (workspace_of from) (λ e. d (sym e)),
        same_workspace x (text h.id) (workspace_of from),
      )
      (moves_out_of text from to hs x (if x == text h.id then false else b) d ∙ ground arith)

module _ (S : SpiceDb) (U : UuidLibrary) (id_of : UuidBytes → U.Uuid)
    (reads : (b : UuidBytes) → U.from_bytes b ≡ ok (id_of b)) where
  -- If the database does every request, every row arrives, every id can be read, SpiceDB writes
  -- atomically and accepts the updates, and the two accounts differ, then after the move each host of
  -- the old account is in the ungrouped workspace of the new account and not in that of the old, and
  -- any other host is in these two workspaces as it was.
  pub move_systems-workspaces :
      (driver : Driver) (answers : ℕ → Answer) (from to : ℤ) (w : World S.State) (x : Text)
      → ((n : ℕ) → answers n ≡ done)
      → IsReliable driver
      → IsAtomic S
      → FitsInt64 from
      → FitsInt64 to
      → from ≢ to
      → let hs = hosts_of_account from (current w.postgres) in
        let listed = contains (hosts_named (printed S U id_of reads) hs) x in
        let after = (move_systems S U driver answers from to w).1.spice_db in
        (S.write (moves_of (printed S U id_of reads) from to hs) w.spice_db).0 ≡ none
        → (S.holds after (in_workspace x (workspace_of to))
            ≡ (listed || S.holds w.spice_db (in_workspace x (workspace_of to))))
          × (S.holds after (in_workspace x (workspace_of from))
              ≡ (not listed && S.holds w.spice_db (in_workspace x (workspace_of from))))
  move_systems-workspaces driver answers from to w x fine reliable atomic f g differ accepted =
      let text = printed S U id_of reads in
      let hs = hosts_of_account from (current w.postgres) in
      let d = workspace_of-distinct from to f g differ in
      let (_, _, sent) =
        move_systems_succeeds S U id_of reads driver answers from to w fine reliable accepted in
      let written = λ (r : Relationship).
        ap (λ s. S.holds s r) sent
        ∙ atomic.written (moves_of text from to hs) w.spice_db r accepted in
      (
        written (in_workspace x (workspace_of to))
            ∙ moves_into text from to hs x (S.holds w.spice_db (in_workspace x (workspace_of to)))
                d,
        written (in_workspace x (workspace_of from))
            ∙ moves_out_of text from to hs x
                (S.holds w.spice_db (in_workspace x (workspace_of from))) d,
      )
