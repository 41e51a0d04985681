-- ===== src/Move/Sent.antt =====
-- The updates that a move has to send, described apart from the loop that gathers them.
use inventory_access_poc.Prelude.{
  ◌≡◌, ap, subst, List, [], ◌∷◌, ◌++◌, map, join, keep, ◌==◌, bytes_eq,
}
use inventory_access_poc.Prelude.Int.{ℤ, int_eq}
use inventory_access_poc.Prelude.Bytes.{Text, codes}
use inventory_access_poc.Prelude.Decimal.{format_int}
use inventory_access_poc.Prelude.Joins.{keep-join_left}
use inventory_access_poc.Errors.{Result, ok, err, panic, lift, bind_ok}
use inventory_access_poc.Tables.{Tables, SystemPlatform, InventoryHost, UuidBytes}
use inventory_access_poc.Spice.{SpiceDb, Relationship, RelationshipUpdate, touch, delete}
use inventory_access_poc.Driver.{Value, int64, int32, uuid, nil, UuidLibrary, Driver}
use inventory_access_poc.Database.{Answer}
use inventory_access_poc.Move.{World, gather, host_moves, workspace_of, hosts_of_account}

-- The hosts of the systems of an account.
abbrev pub hosts_in : ℤ → Tables → List InventoryHost
hosts_in account t =
    map (λ (row : SystemPlatform × InventoryHost). row.1)
      (join (λ sp ih. sp.inventory_id == ih.id)
        (keep (λ sp. sp.rh_account_id == account) t.system_platform) t.inventory_hosts)

pub hosts_of_account-hosts_in :
    (account : ℤ) (t : Tables) → hosts_of_account account t ≡ hosts_in account t
unfolding hosts_of_account
hosts_of_account-hosts_in account t = ap (map (λ (row : SystemPlatform × InventoryHost). row.1)) (
    keep-join_left (λ sp. sp.rh_account_id == account) (λ sp ih. sp.inventory_id == ih.id)
      t.system_platform t.inventory_hosts)

-- The rows of these hosts: the id alone.
abbrev pub id_rows : List InventoryHost → List (List Value)
id_rows hs = map (λ (h : InventoryHost). uuid h.id ∷ []) hs

-- A host in the ungrouped workspace of an account.
abbrev pub ungrouped : ℤ → Text → Relationship
ungrouped account host = record {
  resource = record { object_type = codes "inventory/host"; object_id = host };
  relation = codes "workspace";
  subject = record {
    object_type = codes "workspace";
    object_id = format_int account ++ codes "_root/ungrouped";
  };
}

module _ (U : UuidLibrary) where
  -- Every row arrived with an id that can be read, and its two updates take the host of that id out
  -- of the one workspace and put it into the other, in the order of the rows.
  pub data AreMoves (from to : ℤ)
      : List (Result (List Value)) → List RelationshipUpdate → Type 0 where
    no_row : AreMoves from to [] []
    next_row :
        {b : UuidBytes} {x : U.Uuid} {vs : List Value} {rs : List (Result (List Value))}
        {us : List RelationshipUpdate}
        → U.from_bytes b ≡ ok x
        → AreMoves from to rs us
        → AreMoves from to (ok (uuid b ∷ vs) ∷ rs) (
            record { operation = delete; relationship = ungrouped from (U.to_string x) }
            ∷ record { operation = touch; relationship = ungrouped to (U.to_string x) }
            ∷ us)

  module _ (S : SpiceDb) (driver : Driver) (answers : _ → Answer) where
    -- Updates that are gathered are those of all rows.
    pub gather-AreMoves :
        (from to : ℤ) (rs : List (Result (List Value))) (w : World S.State)
        (us : List RelationshipUpdate)
        → (gather S U driver answers from to rs w).0 ≡ ok us
        → AreMoves from to rs us
    unfolding gather workspace_of
    gather-AreMoves from to [] w us h = let e : [] ≡ us = cc in subst (AreMoves from to []) e no_row
    gather-AreMoves from to (ok (uuid b ∷ vs) ∷ rs) w us h =
        let (x, e, g) = bind_ok (lift (U.from_bytes b)) _ w us h in
        let (later, f, k) = bind_ok (gather S U driver answers from to rs) _ w us g in
        let same : host_moves from to (U.to_string x) ++ later ≡ us = cc in
        subst (AreMoves from to (ok (uuid b ∷ vs) ∷ rs)) same
          (next_row e (gather-AreMoves from to rs w later f))
    gather-AreMoves from to (ok [] ∷ rs) w us h = cc
    gather-AreMoves from to (ok (int64 n ∷ vs) ∷ rs) w us h = cc
    gather-AreMoves from to (ok (int32 n ∷ vs) ∷ rs) w us h = cc
    gather-AreMoves from to (ok (nil ∷ vs) ∷ rs) w us h = cc
    gather-AreMoves from to (err x ∷ rs) w us h = cc
    gather-AreMoves from to (panic ∷ rs) w us h = cc
