-- ===== src/Packages/Bounds.antt =====
-- The rows of a listing: their order, and how their counts lie to one another.
use inventory_access_poc.Prelude.{
  ◌≤◌, ◌≡◌, refl, sym, ◌∙◌, Bool, true, List, [], ◌∷◌, map, keep, length, count_where, contains,
  All, ◌==◌, bytes_eq, pair_ord, arith, count_where-le-length,
}
use inventory_access_poc.Prelude.Int.{ℤ, int_eq, int_ord}
use inventory_access_poc.Tables.{Tables, SystemPackage, PackageAccountData, UuidBytes}
use inventory_access_poc.Grouping.{group_by, sorted_keys, having}
use inventory_access_poc.Grouping.Keys.{IsAscending, sorted_keys-IsAscending, contains-sorted_keys}
use inventory_access_poc.Packages.{
  Joined, Key, key_eq, package_key, counts, is_installable, is_applicable, joined, count_packages,
  select_by_host_ids,
}

abbrev pub result_key : PackageAccountData → Key
result_key d = (d.acc_id, d.pkg_name_id)

-- The counts of one package of an account.
pub record IsCount (acc_id : ℤ) (d : PackageAccountData) : Type 0 where
  pub account : d.acc_id ≡ acc_id
  pub some_system : 1 ≤ d.sys_installed
  pub installable_le : d.sys_installable ≤ d.sys_applicable
  pub applicable_le : d.sys_applicable ≤ d.sys_installed

installable-le-applicable :
    {A : Type 0} (pkg : A → SystemPackage) (g : List A)
    → count_where (λ r. is_installable (pkg r)) g ≤ count_where (λ r. is_applicable (pkg r)) g
installable-le-applicable pkg [] = omega arith
installable-le-applicable pkg (r ∷ g) = ground (arith, installable-le-applicable pkg g)

module _ {A : Type 0} (key : A → Key) (pkg : A → SystemPackage) where
  length-having :
      (k : Key) (xs : List A) → contains (map key xs) k ≡ true → 1 ≤ length (having key k xs)
  length-having k [] h = cc
  length-having k (x ∷ xs) h = elim (key_eq.dec k (key x)) [
    | yes p ↦ rw p (ground arith)
    | no p ↦ ground (arith, length-having k xs)
  ]

  -- What holds of the key and of the rows of every group holds of every result.
  All-map-keys :
      {B : Type 0} (P : B → Type 0) (result : Key → B) (q : Key → Bool) (ks : List Key)
      → ((k : Key) → q k ≡ true → P (result k))
      → ((k : Key) → contains ks k ≡ true → q k ≡ true)
      → All P (map result ks)
  All-map-keys P result q [] h inside = tt
  All-map-keys P result q (k ∷ ks) h inside =
      (h k (inside k (ground arith)), All-map-keys P result q ks h (λ j m. inside j (ground arith)))

  map-result_key :
      (xs : List A) (ks : List Key)
      → map result_key (map (λ k. counts pkg k (having key k xs)) ks) ≡ ks
  map-result_key xs [] = refl
  map-result_key xs (k ∷ ks) = rw (map-result_key xs ks)

  pub group_by-IsAscending :
      (xs : List A) → IsAscending (map result_key (group_by key (counts pkg) xs))
  unfolding group_by
  group_by-IsAscending xs =
      rw (map-result_key xs (sorted_keys key xs)) (sorted_keys-IsAscending key xs)

  pub group_by-IsCount :
      (acc_id : ℤ) (xs : List A)
      → ((k : Key) → contains (map key xs) k ≡ true → k.0 ≡ acc_id)
      → All (IsCount acc_id) (group_by key (counts pkg) xs)
  unfolding group_by
  group_by-IsCount acc_id xs of =
      All-map-keys (IsCount acc_id) (λ k. counts pkg k (having key k xs)) (contains (map key xs))
        (sorted_keys key xs)
        (λ k m. record {
          account = of k m;
          some_system = length-having k xs m;
          installable_le = installable-le-applicable pkg (having key k xs);
          applicable_le = count_where-le-length (λ r. is_applicable (pkg r)) (having key k xs);
        })
        (λ k m. sym (contains-sorted_keys key xs k) ∙ m)

keys_of_account :
    (acc_id : ℤ) (ids : List UuidBytes) (rows : List Joined) (k : Key)
    → contains
        (map
          (λ (r : Joined). package_key r.0.0)
          (keep (λ r. contains ids r.1.id) (keep (λ r. r.0.0.0.rh_account_id == acc_id) rows)))
        k
      ≡ true
    → k.0 ≡ acc_id
keys_of_account acc_id ids [] k h = cc
keys_of_account acc_id ids (r ∷ rows) k h = ground (arith, keys_of_account acc_id ids rows k)

-- Whatever the tables hold, the listing of an account by host ids is in strictly ascending order of
-- the packages, so that none is listed twice; every row is of that account, counts at least one
-- system, and counts no more installable than applicable and no more applicable than installed.
pub select_by_host_ids_rows :
    (acc_id : ℤ) (ids : List UuidBytes) (t : Tables)
    → IsAscending (map result_key (select_by_host_ids acc_id ids t))
      × All (IsCount acc_id) (select_by_host_ids acc_id ids t)
unfolding select_by_host_ids count_packages
select_by_host_ids_rows acc_id ids t =
    let rows =
      keep (λ r. contains ids r.1.id) (keep (λ r. r.0.0.0.rh_account_id == acc_id) (joined t)) in
    (
      group_by-IsAscending (λ (r : Joined). package_key r.0.0) (λ (r : Joined). r.0.0.1) rows,
      group_by-IsCount (λ (r : Joined). package_key r.0.0) (λ (r : Joined). r.0.0.1) acc_id rows
          (keys_of_account acc_id ids (joined t)),
    )
