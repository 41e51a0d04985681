-- ===== src/Packages/Isolation.antt =====
-- What a listing by host ids depends on: the systems of the account, and the hosts that are listed.
use inventory_access_poc.Prelude.{◌≡◌, sym, ap, ◌∙◌, List, keep, join, contains, ◌==◌, bytes_eq}
use inventory_access_poc.Prelude.Int.{ℤ, int_eq}
use inventory_access_poc.Prelude.Joins.{keep-join_left, keep-join_right}
use inventory_access_poc.Tables.{
  Tables, SystemPlatform, SystemPackage, RhAccount, InventoryHost, UuidBytes,
}
use inventory_access_poc.Packages.{
  Joined, on_package, systems_with_packages, joined, count_packages, select_by_host_ids,
}

-- The rows of the tables that a listing may look at.
abbrev pub systems_of : ℤ → Tables → List SystemPlatform
systems_of acc_id t = keep (λ sp. sp.rh_account_id == acc_id) t.system_platform

abbrev pub listed_hosts : List UuidBytes → Tables → List InventoryHost
listed_hosts ids t = keep (λ ih. contains ids ih.id) t.inventory_hosts

-- The joins over these rows alone.
abbrev restricted :
    List SystemPlatform → List InventoryHost → List SystemPackage → List RhAccount → List Joined
restricted sps hosts spkgs accs =
    join (λ row ih. row.0.0.inventory_id == ih.id)
      (join (λ row acc. row.0.rh_account_id == acc.id) (join on_package sps spkgs) accs) hosts

pub joined-restricted :
    (acc_id : ℤ) (ids : List UuidBytes) (t : Tables)
    → keep (λ r. contains ids r.1.id) (keep (λ r. r.0.0.0.rh_account_id == acc_id) (joined t))
      ≡ restricted (systems_of acc_id t) (listed_hosts ids t) t.system_package t.rh_account
unfolding joined
joined-restricted acc_id ids t =
    let of = λ (sp : SystemPlatform). sp.rh_account_id == acc_id in
    let on_account =
      λ (row : SystemPlatform × SystemPackage) (acc : RhAccount). row.0.rh_account_id == acc.id in
    let on_host = λ (row : (SystemPlatform × SystemPackage) × RhAccount) (ih : InventoryHost).
      row.0.0.inventory_id == ih.id in
    let pairs = systems_with_packages t in
    ap (keep (λ r. contains ids r.1.id)) (
      keep-join_left (λ (row : (SystemPlatform × SystemPackage) × RhAccount). of row.0.0) on_host
        (join on_account pairs t.rh_account) t.inventory_hosts
      ∙ ap (λ rows. join on_host rows t.inventory_hosts)
          (keep-join_left (λ (row : SystemPlatform × SystemPackage). of row.0) on_account pairs
              t.rh_account
            ∙ ap (λ rows. join on_account rows t.rh_account)
                (keep-join_left of on_package t.system_platform t.system_package)))
    ∙ keep-join_right (λ ih. contains ids ih.id) on_host
        (join on_account (join on_package (systems_of acc_id t) t.system_package) t.rh_account)
        t.inventory_hosts

-- Two databases with the same packages and accounts, the same systems of the account and the same
-- listed hosts give the same counts: no other account's systems and no host that is not listed have
-- an influence.
pub select_by_host_ids_isolated :
    (acc_id : ℤ) (ids : List UuidBytes) (t t' : Tables)
    → systems_of acc_id t ≡ systems_of acc_id t'
    → listed_hosts ids t ≡ listed_hosts ids t'
    → t.system_package ≡ t'.system_package
    → t.rh_account ≡ t'.rh_account
    → select_by_host_ids acc_id ids t ≡ select_by_host_ids acc_id ids t'
unfolding select_by_host_ids
select_by_host_ids_isolated acc_id ids t t' systems hosts packages accounts = ap count_packages (
    joined-restricted acc_id ids t
    ∙ (rw (systems, hosts, packages, accounts))
    ∙ sym (joined-restricted acc_id ids t'))
