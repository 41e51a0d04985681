-- ===== src/Packages/Equivalence.antt =====
-- The statements with a common table expression or a temporary table, against `packagesByHostIDs`.
use inventory_access_poc.Prelude.{
  map-map, ◌≡◌, refl, sym, ap, ◌∙◌, List, [], ◌∷◌, map, keep, join, length, contains, All,
  All-append, ◌==◌, Eq, Ord, bytes_eq, pair_ord, fun_ext,
}
use inventory_access_poc.Prelude.Int.{ℤ, pos, int_eq, int_ord}
use inventory_access_poc.Prelude.Joins.{
  keep_comm, map-join, keep-map, length-map, count_where-map, join_one,
}
use inventory_access_poc.Tables.{
  Tables, SystemPlatform, SystemPackage, RhAccount, UuidBytes, PackageAccountData,
}
use inventory_access_poc.Grouping.{group_by, sorted_keys, insert_key, having}
use inventory_access_poc.Grouping.Totals.{group_by-keep}
use inventory_access_poc.Packages.{
  Joined, JoinedPackage, Key, key_eq, package_key, counts, is_installable, is_applicable,
  on_package, systems_with_packages, joined, count_packages, select_by_host_ids,
  select_by_host_ids_cte,
}

-- Grouping rows of which only a part counts.
module _ {K : Type 0} ⦃e : Eq K⦄ ⦃o : Ord K⦄ where
  sorted_keys-map :
      {A B : Type 0} (f : A → B) (key : B → K) (xs : List A)
      → sorted_keys key (map f xs) ≡ sorted_keys (λ x. key (f x)) xs
  unfolding sorted_keys
  sorted_keys-map f key [] = refl
  sorted_keys-map f key (x ∷ xs) = ap (insert_key (key (f x))) (sorted_keys-map f key xs)

  group_by-map :
      {A B C : Type 0} (f : A → B) (key : B → K) (result : K → List B → C) (xs : List A)
      → group_by key result (map f xs) ≡ group_by (λ x. key (f x)) (λ k g. result k (map f g)) xs
  unfolding group_by
  group_by-map f key result xs =
      ap (map (λ k. result k (having key k (map f xs)))) (sorted_keys-map f key xs)
      ∙ ap (λ g. map g (sorted_keys (λ x. key (f x)) xs))
          (fun_ext (λ k. ap (result k) (keep-map f (λ y. key y == k) xs)))

  group_by-result :
      {A C : Type 0} (key : A → K) (p q : K → List A → C) (xs : List A)
      → ((k : K) (g : List A) → p k g ≡ q k g)
      → group_by key p xs ≡ group_by key q xs
  group_by-result key p q xs h = ap (λ r. group_by key r xs) (fun_ext (λ k. fun_ext (h k)))

counts-map :
    {A B : Type 0} (f : A → B) (pkg : B → SystemPackage) (k : Key) (g : List A)
    → counts pkg k (map f g) ≡ counts (λ x. pkg (f x)) k g
counts-map f pkg k g = rw (
  length-map f g,
  count_where-map f (λ y. is_installable (pkg y)) g,
  count_where-map f (λ y. is_applicable (pkg y)) g,
)

-- The counts of rows are those of the columns that are counted.
pub count-map :
    {A B : Type 0} (f : A → B) (pair : B → SystemPlatform × SystemPackage) (xs : List A)
    → group_by (λ y. package_key (pair y)) (counts (λ y. (pair y).1)) (map f xs)
      ≡ group_by (λ x. package_key (pair (f x))) (counts (λ x. (pair (f x)).1)) xs
count-map f pair xs =
    group_by-map f (λ y. package_key (pair y)) (counts (λ y. (pair y).1)) xs
    ∙ group_by-result (λ x. package_key (pair (f x))) (λ k g. counts (λ y. (pair y).1) k (map f g))
        (counts (λ x. (pair (f x)).1)) xs (counts-map f (λ y. (pair y).1))

-- Every system belongs to one row of `rh_account`.
abbrev pub HasAccounts : Tables → Type 0
HasAccounts t =
    All (λ sp. length (keep (λ acc. sp.rh_account_id == acc.id) t.rh_account) ≡ 1) t.system_platform

pairs-HasAccounts :
    (sps : List SystemPlatform) (t : Tables)
    → All (λ sp. length (keep (λ acc. sp.rh_account_id == acc.id) t.rh_account) ≡ 1) sps
    → All
        (λ (row : SystemPlatform × SystemPackage).
          length (keep (λ acc. row.0.rh_account_id == acc.id) t.rh_account) ≡ 1)
        (join on_package sps t.system_package)
pairs-HasAccounts [] t h = tt
pairs-HasAccounts (sp ∷ sps) t h =
    All-append _ (map (λ spkg. (sp, spkg)) (keep (on_package sp) t.system_package))
      (join on_package sps t.system_package) (same (keep (on_package sp) t.system_package))
      (pairs-HasAccounts sps t h.1)
  where
    same :
        (spkgs : List SystemPackage)
        → All
            (λ (row : SystemPlatform × SystemPackage).
              length (keep (λ acc. row.0.rh_account_id == acc.id) t.rh_account) ≡ 1)
            (map (λ spkg. (sp, spkg)) spkgs)
    same [] = tt
    same (spkg ∷ spkgs) = (h.0, same spkgs)

abbrev without_account : Joined → JoinedPackage
without_account r = (r.0.0, r.1)

abbrev joined_packages : Tables → List JoinedPackage
joined_packages t =
    join (λ row ih. row.0.inventory_id == ih.id) (systems_with_packages t) t.inventory_hosts

-- The join with `rh_account` neither drops nor repeats a row.
map-without_account :
    (t : Tables) → HasAccounts t → map without_account (joined t) ≡ joined_packages t
unfolding joined
map-without_account t h =
    map-join (λ (row : (SystemPlatform × SystemPackage) × RhAccount). row.0)
      (λ row ih. row.0.inventory_id == ih.id)
      (join (λ row acc. row.0.rh_account_id == acc.id) (systems_with_packages t) t.rh_account)
      t.inventory_hosts
    ∙ ap
        (λ rows.
          join (λ (row : SystemPlatform × SystemPackage) ih. row.0.inventory_id == ih.id) rows
            t.inventory_hosts)
        (join_one (λ row acc. row.0.rh_account_id == acc.id) (systems_with_packages t) t.rh_account
          (pairs-HasAccounts t.system_platform t h))

count_packages-without_account :
    (rows : List Joined)
    → count_packages rows
      ≡ group_by
          (λ (r : JoinedPackage). package_key r.0)
          (counts (λ (r : JoinedPackage). r.0.1))
          (map without_account rows)
unfolding count_packages
count_packages-without_account rows =
    sym (count-map without_account (λ (r : JoinedPackage). r.0) rows)

-- The listing of an account is the part of a listing of all accounts that belongs to it.
pub select_by_host_ids-keep :
    (acc_id : ℤ) (ids : List UuidBytes) (t : Tables)
    → select_by_host_ids acc_id ids t
      ≡ keep (λ d. d.acc_id == acc_id) (count_packages (keep (λ r. contains ids r.1.id) (joined t)))
unfolding select_by_host_ids count_packages
select_by_host_ids-keep acc_id ids t =
    ap count_packages (
      keep_comm (λ (r : Joined). contains ids r.1.id) (λ r. r.0.0.0.rh_account_id == acc_id)
        (joined t))
    ∙ group_by-keep (λ (r : Joined). package_key r.0.0) (counts (λ (r : Joined). r.0.0.1))
        (λ k. k.0 == acc_id) (λ d. d.acc_id == acc_id) (keep (λ r. contains ids r.1.id) (joined t))
        (λ k g. refl)

abbrev pub unnamed : PackageAccountData → PackageAccountData
unnamed d = record d { pkg_name_id = pos 0 }

select_by_host_ids_cte-unnamed :
    (ids : List UuidBytes) (t : Tables)
    → select_by_host_ids_cte ids t
      ≡ map unnamed (
          group_by
            (λ (r : JoinedPackage). package_key r.0)
            (counts (λ (r : JoinedPackage). r.0.1))
            (keep (λ r. contains ids r.1.id) (joined_packages t)))
unfolding select_by_host_ids_cte group_by
select_by_host_ids_cte-unnamed ids t =
    let rows = keep (λ (r : JoinedPackage). contains ids r.1.id) (joined_packages t) in
    sym (
      map-map unnamed
        (λ k.
          counts (λ (r : JoinedPackage). r.0.1) k
            (having (λ (r : JoinedPackage). package_key r.0) k rows))
        (sorted_keys (λ (r : JoinedPackage). package_key r.0) rows))

named_equiv :
    (acc_id : ℤ) (ids : List UuidBytes) (t : Tables)
    → HasAccounts t
    → keep
        (λ d. d.acc_id == acc_id)
        (group_by
          (λ (r : JoinedPackage). package_key r.0)
          (counts (λ (r : JoinedPackage). r.0.1))
          (keep (λ r. contains ids r.1.id) (joined_packages t)))
      ≡ select_by_host_ids acc_id ids t
named_equiv acc_id ids t h =
    ap
      (λ rows.
        keep (λ d. d.acc_id == acc_id)
          (group_by (λ (r : JoinedPackage). package_key r.0) (counts (λ (r : JoinedPackage). r.0.1))
            (keep (λ r. contains ids r.1.id) rows)))
      (sym (map-without_account t h))
    ∙ ap
        (λ rows.
          keep (λ d. d.acc_id == acc_id)
            (group_by (λ (r : JoinedPackage). package_key r.0)
              (counts (λ (r : JoinedPackage). r.0.1)) rows))
        (keep-map without_account (λ r. contains ids r.1.id) (joined t))
    ∙ ap (keep (λ d. d.acc_id == acc_id))
        (sym (count_packages-without_account (keep (λ r. contains ids r.1.id) (joined t))))
    ∙ sym (select_by_host_ids-keep acc_id ids t)

-- If every system belongs to one account, then the rows of `packagesByHostIDsCTE` that belong to an
-- account are those of `packagesByHostIDs` for it, in the same order and with the same counts, but
-- each with 0 for the id of the package name. The first gives the packages of all accounts, whatever
-- account it is asked for.
pub select_by_host_ids_cte_equiv :
    (acc_id : ℤ) (ids : List UuidBytes) (t : Tables)
    → HasAccounts t
    → keep (λ d. d.acc_id == acc_id) (select_by_host_ids_cte ids t)
      ≡ map
          (λ (d : PackageAccountData). record d { pkg_name_id = pos 0 })
          (select_by_host_ids acc_id ids t)
select_by_host_ids_cte_equiv acc_id ids t h =
    ap (keep (λ d. d.acc_id == acc_id)) (select_by_host_ids_cte-unnamed ids t)
    ∙ keep-map unnamed (λ d. d.acc_id == acc_id) _
    ∙ ap (map unnamed) (named_equiv acc_id ids t h)
