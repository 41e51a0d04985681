-- ===== src/Packages/Counts.antt =====
-- The counts of a listing, package by package.
use inventory_access_poc.Prelude.{
  ℕ, ◌≡◌, refl, ap, ◌∙◌, Bool, true, false, List, [], ◌∷◌, map, keep, length, count_where, contains,
  ◌==◌, ◌&&◌, if◌then◌else◌, bytes_eq, arith, sym, fun_ext, pair_ord,
}
use inventory_access_poc.Prelude.Int.{ℤ, int_eq, int_ord}
use inventory_access_poc.Tables.{Tables, SystemPackage, PackageAccountData, UuidBytes}
use inventory_access_poc.Grouping.{group_by, sorted_keys, having}
use inventory_access_poc.Grouping.Totals.{total, total-count_where}
use inventory_access_poc.Packages.{
  update_status, no_update, installable, applicable, Joined, Key, key_eq, package_key, counts,
  joined, count_packages, select_by_host_ids,
}
use inventory_access_poc.Packages.Bounds.{result_key}

total-map :
    {A B : Type 0} (f : B → ℕ) (result : A → B) (ks : List A)
    → total f (map result ks) ≡ total (λ k. f (result k)) ks
total-map f result [] = refl
total-map f result (k ∷ ks) = omega (arith, total-map f result ks)

length-count_where : {A : Type 0} (xs : List A) → length xs ≡ count_where (λ x. true) xs
length-count_where [] = refl
length-count_where (x ∷ xs) = omega (arith, length-count_where xs)

-- What a field of the rows of one package adds up to.
abbrev pub total_of : Key → (PackageAccountData → ℕ) → List PackageAccountData → ℕ
total_of k f ds = total (λ d. if result_key d == k then f d else 0) ds

module _ {A : Type 0} (key : A → Key) (k : Key) (q : A → Bool) where
  one_group :
      (j : Key) (xs : List A)
      → (if j == k then count_where q (having key j xs) else 0)
        ≡ count_where (λ x. key x == k && q x) (having key j xs)
  one_group j [] = ground arith
  one_group j (x ∷ xs) = elim (key_eq.dec (key x) j) [
    | yes p ↦ rw p (ground (arith, one_group j xs))
    | no p ↦ ground (arith, one_group j xs)
  ]

  total_of-group_by :
      (pkg : A → SystemPackage) (f : PackageAccountData → ℕ)
      → ((j : Key) (g : List A) → f (counts pkg j g) ≡ count_where q g)
      → (xs : List A)
      → total_of k f (group_by key (counts pkg) xs) ≡ count_where (λ x. key x == k && q x) xs
  unfolding group_by
  total_of-group_by pkg f h xs =
      total-map (λ (d : PackageAccountData). if result_key d == k then f d else 0)
        (λ j. counts pkg j (having key j xs)) (sorted_keys key xs)
      ∙ ap (λ g. total g (sorted_keys key xs))
          (fun_ext
            (λ j. ap (λ n. if j == k then n else 0) (h j (having key j xs)) ∙ one_group j xs))
      ∙ total-count_where key (λ x. key x == k && q x) xs

  count_where-kept :
      (a c : A → Bool)
      → ((x : A) → key x ≡ k → a x ≡ true)
      → (xs : List A)
      → count_where (λ x. key x == k && q x) (keep c (keep a xs))
        ≡ count_where q (keep (λ x. key x == k && c x) xs)
  count_where-kept a c inside [] = refl
  count_where-kept a c inside (x ∷ xs) = elim (key_eq.dec (key x) k) [
    | yes p ↦ ground (arith, inside x p, count_where-kept a c inside xs)
    | no p ↦ ground (arith, count_where-kept a c inside xs)
  ]

-- The joined rows of a package of an account whose host is among these.
abbrev pub rows_of : Key → List UuidBytes → Tables → List Joined
rows_of k ids t =
    keep (λ r. (r.0.0.0.rh_account_id, r.0.0.1.name_id) == k && contains ids r.1.id) (joined t)

listed_as :
    (acc_id name_id : ℤ) (ids : List UuidBytes) (t : Tables) (q : Joined → Bool)
    (f : PackageAccountData → ℕ)
    → ((j : Key) (g : List Joined) → f (counts (λ (r : Joined). r.0.0.1) j g) ≡ count_where q g)
    → total_of (acc_id, name_id) f (select_by_host_ids acc_id ids t)
      ≡ count_where q (rows_of (acc_id, name_id) ids t)
unfolding select_by_host_ids count_packages
listed_as acc_id name_id ids t q f h =
    let key = λ (r : Joined). package_key r.0.0 in
    total_of-group_by key (acc_id, name_id) q (λ r. r.0.0.1) f h
      (keep (λ r. contains ids r.1.id) (keep (λ r. r.0.0.0.rh_account_id == acc_id) (joined t)))
    ∙ count_where-kept key (acc_id, name_id) q (λ r. r.0.0.0.rh_account_id == acc_id)
        (λ r. contains ids r.1.id)
        (λ r p. let e : r.0.0.0.rh_account_id ≡ acc_id = ap (λ k. k.0) p in ground arith) (joined t)

-- Whatever the tables hold, the rows of a listing that are about a package add up to these counts: as
-- installed, the joined rows of the account and the package name whose host is listed; as
-- installable, those of them whose updates have the status Installable; and as
-- applicable, those whose updates have any status but None. For a package without such rows they are 0.
pub select_by_host_ids_counts :
    (acc_id name_id : ℤ) (ids : List UuidBytes) (t : Tables)
    → let k : Key = (acc_id, name_id) in
      let listing = select_by_host_ids acc_id ids t in
      let rows = rows_of k ids t in
      (total_of k (λ d. d.sys_installed) listing ≡ length rows)
      × (total_of k (λ d. d.sys_installable) listing
          ≡ count_where
              (λ r. elim (update_status r.0.0.1.update_data) [
                | no_update ↦ false
                | installable ↦ true
                | applicable ↦ false
              ])
              rows)
      × (total_of k (λ d. d.sys_applicable) listing
          ≡ count_where
              (λ r. elim (update_status r.0.0.1.update_data) [
                | no_update ↦ false
                | installable ↦ true
                | applicable ↦ true
              ])
              rows)
select_by_host_ids_counts acc_id name_id ids t = (
  listed_as acc_id name_id ids t (λ r. true) (λ d. d.sys_installed) (λ j g. length-count_where g)
      ∙ sym (length-count_where (rows_of (acc_id, name_id) ids t)),
  listed_as acc_id name_id ids t _ (λ d. d.sys_installable) (λ j g. refl),
  listed_as acc_id name_id ids t _ (λ d. d.sys_applicable) (λ j g. refl),
)
