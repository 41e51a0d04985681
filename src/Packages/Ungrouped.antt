-- ===== src/Packages/Ungrouped.antt =====
-- The listing of an account, and the listing over the ids of the hosts that have an empty list of groups.
use inventory_access_poc.Prelude.{
  ◌≡◌, refl, sym, ap, ◌∙◌, Bool, true, false, Option, none, some, List, [], ◌∷◌, map, keep,
  contains, ◌==◌, bytes_eq, All, All-of, All-weaken, arith, Bool-cases, inl, inr, subst, fun_ext,
  keep-yes, keep-no,
}
use inventory_access_poc.Prelude.Int.{ℤ, int_eq}
use inventory_access_poc.Prelude.Bytes.{Text}
use inventory_access_poc.Prelude.Joins.{keep-join_right, All-join}
use inventory_access_poc.Tables.{
  Tables, SystemPlatform, InventoryHost, UuidBytes, PackageAccountData,
}
use inventory_access_poc.Packages.{
  Joined, joined, count_packages, is_empty, select_by_host_ids, select_by_account,
}
use inventory_access_poc.Packages.Agreement.{
  IsUngrouped, AreUngrouped, select_by_host_ids-select_by_account,
}

-- The groups are known, and there are none.
abbrev pub has_no_group : InventoryHost → Bool
has_no_group h = elim h.groups [ none ↦ false | some [] ↦ true | some (g ∷ gs) ↦ false ]

-- The counts of the packages on the hosts with no group alone, as if there were no other hosts.
abbrev pub listing_without_groups : ℤ → Tables → List PackageAccountData
listing_without_groups acc_id t =
    let hosts = keep has_no_group t.inventory_hosts in
    select_by_host_ids acc_id (map (λ h. h.id) hosts) (record t { inventory_hosts = hosts })

empty-has_no_group : (h : InventoryHost) → is_empty h.groups ≡ has_no_group h
empty-has_no_group h = go h.groups
  where
    go :
        (g : Option (List Text))
        → is_empty g ≡ elim g [ none ↦ false | some [] ↦ true | some (g ∷ gs) ↦ false ]
    go none = refl
    go (some []) = refl
    go (some (g ∷ gs)) = refl

-- The hosts that are kept are listed, and have no group.
kept_listed :
    (ids : List UuidBytes) (hs : List InventoryHost)
    → ((b : UuidBytes)
        → contains (map (λ h. h.id) (keep has_no_group hs)) b ≡ true
        → contains ids b ≡ true)
    → All (λ h. contains ids h.id ≡ is_empty h.groups) (keep has_no_group hs)
kept_listed ids [] inside = tt
kept_listed ids (h ∷ hs) inside = elim (Bool-cases (has_no_group h)) [
  | inl e ↦
      let all = keep-yes has_no_group h hs e in
      let inside' =
        subst
          (λ l.
            (b : UuidBytes)
            → contains (map (λ (h : InventoryHost). h.id) l) b ≡ true
            → contains ids b ≡ true)
          all inside in
      subst (All (λ h. contains ids h.id ≡ is_empty h.groups)) (sym all) (
        inside' h.id (ground arith) ∙ sym (empty-has_no_group h ∙ e),
        kept_listed ids hs (λ b m. inside' b (ground arith)),
      )
  | inr e ↦
      let less = keep-no has_no_group h hs e in
      subst (All (λ h. contains ids h.id ≡ is_empty h.groups)) (sym less) (
        kept_listed ids hs (λ b m.
          inside b
            (subst (λ l. contains (map (λ (h : InventoryHost). h.id) l) b ≡ true) (sym less) m)))
]

keep_twice : {A : Type 0} (p : A → Bool) (xs : List A) → keep p (keep p xs) ≡ keep p xs
keep_twice p [] = refl
keep_twice p (x ∷ xs) = ground (arith, keep_twice p xs)

joined-kept :
    (t : Tables)
    → joined (record t { inventory_hosts = keep has_no_group t.inventory_hosts })
      ≡ keep (λ r. has_no_group r.1) (joined t)
unfolding joined
joined-kept t = sym (keep-join_right has_no_group _ _ t.inventory_hosts)

select_by_account-kept :
    (acc_id : ℤ) (t : Tables)
    → select_by_account acc_id (record t { inventory_hosts = keep has_no_group t.inventory_hosts })
      ≡ select_by_account acc_id t
unfolding select_by_account
select_by_account-kept acc_id t =
    let on_account = λ (rows : List Joined). keep (λ r. r.0.0.0.rh_account_id == acc_id) rows in
    let empty : (λ (r : Joined). is_empty r.1.groups) ≡ (λ r. has_no_group r.1) =
      fun_ext (λ r. empty-has_no_group r.1) in
    ap (λ rows. count_packages (on_account (keep (λ r. is_empty r.1.groups) rows))) (joined-kept t)
    ∙ ap (λ p. count_packages (on_account (keep p (keep (λ r. has_no_group r.1) (joined t))))) empty
    ∙ ap (λ rows. count_packages (on_account rows)) (keep_twice (λ r. has_no_group r.1) (joined t))
    ∙ ap (λ p. count_packages (on_account (keep p (joined t)))) (sym empty)

-- The listing of an account counts the hosts without a group and no others.
pub select_by_account-listing_without_groups :
    (acc_id : ℤ) (t : Tables) → select_by_account acc_id t ≡ listing_without_groups acc_id t
select_by_account-listing_without_groups acc_id t =
    let hosts = keep has_no_group t.inventory_hosts in
    let ids = map (λ (h : InventoryHost). h.id) hosts in
    let t' = record t { inventory_hosts = hosts } in
    let agree : AreUngrouped acc_id ids t' =
      All-join (λ sp ih. sp.inventory_id == ih.id) (IsUngrouped acc_id ids) t.system_platform hosts
        (All-of
          (λ (sp : SystemPlatform).
            All (λ ih. (sp.inventory_id == ih.id) ≡ true → IsUngrouped acc_id ids (sp, ih)) hosts)
          (λ sp.
            All-weaken (λ h. contains ids h.id ≡ is_empty h.groups)
              (λ ih. (sp.inventory_id == ih.id) ≡ true → IsUngrouped acc_id ids (sp, ih))
              (λ ih e _ _. e) hosts (kept_listed ids t.inventory_hosts (λ b m. m)))
          t.system_platform) in
    sym (select_by_account-kept acc_id t)
    ∙ sym (select_by_host_ids-select_by_account acc_id ids t' agree)
