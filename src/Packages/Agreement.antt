-- ===== src/Packages/Agreement.antt =====
-- The listing over host ids and the listing of an account, which looks at the groups of the hosts.
use inventory_access_poc.Prelude.{◌≡◌, ap, true, List, join, contains, ◌==◌, bytes_eq, All}
use inventory_access_poc.Prelude.Int.{ℤ, int_eq}
use inventory_access_poc.Prelude.Joins.{keep_cong, join-All, All-join, All-join_left}
use inventory_access_poc.Tables.{
  Tables, SystemPlatform, SystemPackage, RhAccount, InventoryHost, UuidBytes,
}
use inventory_access_poc.Packages.{
  Joined, on_package, systems_with_packages, joined, count_packages, is_empty, select_by_host_ids,
  select_by_account,
}

-- Among the hosts of the account's systems, the ids are those of the hosts without a group.
abbrev pub IsUngrouped : ℤ → List UuidBytes → SystemPlatform × InventoryHost → Type 0
IsUngrouped acc_id ids row =
    (row.0.rh_account_id == acc_id) ≡ true → contains ids row.1.id ≡ is_empty row.1.groups

abbrev pub AreUngrouped : ℤ → List UuidBytes → Tables → Type 0
AreUngrouped acc_id ids t =
    All (IsUngrouped acc_id ids)
      (join (λ sp ih. sp.inventory_id == ih.id) t.system_platform t.inventory_hosts)

joined-AreUngrouped :
    (acc_id : ℤ) (ids : List UuidBytes) (t : Tables)
    → AreUngrouped acc_id ids t
    → All
        (λ (r : Joined).
          (r.0.0.0.rh_account_id == acc_id) ≡ true → contains ids r.1.id ≡ is_empty r.1.groups)
        (joined t)
unfolding joined
joined-AreUngrouped acc_id ids t h =
    let on_account =
      λ (row : SystemPlatform × SystemPackage) (acc : RhAccount). row.0.rh_account_id == acc.id in
    let P = λ (sp : SystemPlatform).
      All
        (λ (ih : InventoryHost).
          (sp.inventory_id == ih.id) ≡ true → IsUngrouped acc_id ids (sp, ih))
        t.inventory_hosts in
    All-join
      (λ (row : (SystemPlatform × SystemPackage) × RhAccount) (ih : InventoryHost).
        row.0.0.inventory_id == ih.id)
      (λ r. IsUngrouped acc_id ids (r.0.0.0, r.1))
      (join on_account (systems_with_packages t) t.rh_account) t.inventory_hosts
      (All-join_left on_account (λ row. P row.0) (systems_with_packages t) t.rh_account
        (All-join_left on_package P t.system_platform t.system_package (
          join-All (λ sp ih. sp.inventory_id == ih.id) (IsUngrouped acc_id ids) t.system_platform
            t.inventory_hosts h)))

-- The listing over such ids is that of the account.
pub select_by_host_ids-select_by_account :
    (acc_id : ℤ) (ids : List UuidBytes) (t : Tables)
    → AreUngrouped acc_id ids t
    → select_by_host_ids acc_id ids t ≡ select_by_account acc_id t
unfolding select_by_host_ids select_by_account
select_by_host_ids-select_by_account acc_id ids t h = ap count_packages (
    keep_cong (λ (r : Joined). contains ids r.1.id) (λ r. is_empty r.1.groups)
      (λ r. r.0.0.0.rh_account_id == acc_id) (joined t) (joined-AreUngrouped acc_id ids t h))
