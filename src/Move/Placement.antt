-- ===== src/Move/Placement.antt =====
-- The updates of a move, for a host that was in the workspace of its account.
use inventory_access_poc.Prelude.{
  ◌≡◌, ◌≢◌, refl, sym, ap, subst, inl, inr, Bool, true, List, [], ◌∷◌, map, keep, keep-yes, keep-no,
  contains, ◌==◌, ==_iff, bytes_eq, arith, Bool-cases, All, All-weaken,
}
use inventory_access_poc.Prelude.Int.{ℤ}
use inventory_access_poc.Prelude.Bytes.{Text}
use inventory_access_poc.Tables.{InventoryHost, UuidBytes}
use inventory_access_poc.Spice.{ObjectReference, Relationship, relationship_eq, after_updates}
use inventory_access_poc.Move.{workspace_of, in_workspace}
use inventory_access_poc.Move.Success.{moves_of}
use inventory_access_poc.Move.Workspaces.{hosts_named, other_workspace, same_workspace}

module _ (text : UuidBytes → Text) (from to : ℤ) where
  -- What is in a workspace other than the old one stays there.
  pub moves_of-stays :
      (hs : List InventoryHost) (x : Text) (v : ObjectReference)
      → workspace_of from ≢ v
      → after_updates (moves_of text from to hs) (in_workspace x v) true ≡ true
  moves_of-stays [] x v d = refl
  moves_of-stays (h ∷ hs) x v d =
      rw (other_workspace (text h.id) x (workspace_of from) v d)
        (ground (arith, moves_of-stays hs x v d))

  same_host :
      (x y : Text) (v w : ObjectReference)
      → (in_workspace x v == in_workspace y w) ≡ true
      → (in_workspace x w == in_workspace y w) ≡ true
  same_host x y v w h = (==_iff (in_workspace x w) (in_workspace y w)).1 (
      ap (λ (r : Relationship). in_workspace r.resource.object_id w)
        ((==_iff (in_workspace x v) (in_workspace y w)).0 h))

  -- What is in the new workspace stays there, also where it is the old one: the touch follows the
  -- deletion.
  stays_in_new :
      (hs : List InventoryHost) (x : Text)
      → after_updates (moves_of text from to hs) (in_workspace x (workspace_of to)) true ≡ true
  stays_in_new [] x = refl
  stays_in_new (h ∷ hs) x =
      elim (Bool-cases
        (in_workspace (text h.id) (workspace_of from) == in_workspace x (workspace_of to))) [
          | inl t ↦
              rw (t, same_host (text h.id) x (workspace_of from) (workspace_of to) t)
                (stays_in_new hs x)
          | inr f ↦ rw f (ground (arith, stays_in_new hs x))
        ]

  -- The hosts of the updates come into it.
  pub moves_of-comes :
      (hs : List InventoryHost) (x : Text) (b : Bool)
      → contains (hosts_named text hs) x ≡ true
      → after_updates (moves_of text from to hs) (in_workspace x (workspace_of to)) b ≡ true
  moves_of-comes [] x b h = cc
  moves_of-comes (host ∷ hs) x b h = elim (Bool-cases (x == text host.id)) [
    | inl t ↦ rw (same_workspace x (text host.id) (workspace_of to), t) (stays_in_new hs x)
    | inr f ↦ moves_of-comes hs x _ (ground arith)
  ]

-- A row that is kept is among those that are.
pub contains-keep :
    {A : Type 0} (f : A → Text) (p : A → Bool) (rows : List A)
    → All (λ r. p r ≡ true → contains (map f (keep p rows)) (f r) ≡ true) rows
contains-keep f p [] = tt
contains-keep {A} f p (r ∷ rows) =
    let named = λ (l : List A). λ (a : A). p a ≡ true → contains (map f l) (f a) ≡ true in
    elim (Bool-cases (p r)) [
      | inl t ↦
          subst (λ l. All (named l) (r ∷ rows)) (sym (keep-yes p r rows t))
            (
              (λ _. ground arith),
              All-weaken (named (keep p rows)) (named (r ∷ keep p rows))
                  (λ a h q. ground (arith, h q)) rows (contains-keep f p rows),
            )
      | inr n ↦
          subst (λ l. All (named l) (r ∷ rows)) (sym (keep-no p r rows n))
            ((λ q. absurd (ground arith)), contains-keep f p rows)
    ]
