-- ===== src/Server/Handlers.antt =====
-- What the two servers answer, and that a listing is confined to the hosts that SpiceDB names.
use inventory_access_poc.Prelude.{
  ℕ, ◌≡◌, refl, sym, ap, ◌∙◌, inl, inr, List, [], ◌∷◌, ◌++◌, map, arith, append-nil, append_assoc,
}
use inventory_access_poc.Prelude.Bytes.{Text}
use inventory_access_poc.Errors.{Result, ok, err, panic, Result-cases}
use inventory_access_poc.Tables.{UuidBytes, PackageAccountData}
use inventory_access_poc.Database.{Answer, Connection}
use inventory_access_poc.Packages.{
  packages_by_host_ids, packages_by_account, select_by_host_ids, select_by_account,
}
use inventory_access_poc.Packages.Requests.{
  Reads, packages_by_host_ids-Reads, packages_by_account_reads,
}
use inventory_access_poc.Identity.{Context, get_identity_from_context}
use inventory_access_poc.Server.{
  Received, resource, failed, LookupResources, PackagesPayload, append_all, get_packages_payload,
  receive, pre_filter_get_content_packages, baseline_get_content_packages,
}

append_all-eq-append : (acc vs : List PackageAccountData) → append_all acc vs ≡ acc ++ vs
unfolding append_all
append_all-eq-append acc [] = sym (append-nil acc)
append_all-eq-append acc (v ∷ vs) =
    append_all-eq-append (acc ++ (v ∷ [])) vs ∙ append_assoc acc (v ∷ []) vs

-- The payload holds the rows of the listing.
pub get_packages_payload_lem :
    (rows : List PackageAccountData) → get_packages_payload rows ≡ ok (record { items = rows })
unfolding get_packages_payload
get_packages_payload_lem rows = rw (append_all-eq-append [] rows)

-- The ids are those of a stream that came to its end.
receive_ok :
    (acc : List Text) (stream : List Received) (ids : List Text)
    → receive acc stream ≡ ok ids
    → (xs : List Text) × (stream ≡ map resource xs) × (ids ≡ acc ++ xs)
unfolding receive
receive_ok acc [] ids h = ([], refl, rw append-nil (ground arith))
receive_ok acc (resource id ∷ rest) ids h =
    let (xs, e, f) = receive_ok (acc ++ (id ∷ [])) rest ids h in
    (id ∷ xs, ap (λ s. resource id ∷ s) e, f ∙ append_assoc acc (id ∷ []) xs)
receive_ok acc (failed e ∷ rest) ids h = cc

pub items_of :
    (rows : List PackageAccountData) (p : PackagesPayload)
    → ok (record { items = rows }) ≡ ok p
    → p.items ≡ rows
items_of rows p q =
    ap (λ (r : Result PackagesPayload). elim r [ ok x ↦ x.items | err e ↦ [] | panic ↦ [] ]) (sym q)

module _ (answers : ℕ → Answer) (uuid_in : Text → Result UuidBytes) where
  -- The answer to a request is the listing for the account of its identity, over the hosts that
  -- SpiceDB names for its user.
  abbrev pub IsListing : LookupResources → Context → Connection → Result PackagesPayload → Type 0
  IsListing lookup_resources ctx c r =
      let identity = get_identity_from_context ctx in
      (p : PackagesPayload)
      → r ≡ ok p
      → (names : List Text) × (lookup_resources identity.user ≡ ok (map resource names))
        × (ids : List UuidBytes) × Reads answers uuid_in names ids
        × (p.items ≡ select_by_host_ids identity.rh_account ids c.committed)

  -- A request to the pre-filter server leaves the committed tables as they are. A payload that it
  -- answers with is the listing of the account in the identity, over exactly the hosts in the
  -- stream of SpiceDB for the user in the identity, which ended with no error.
  pub pre_filter_get_content_packages-IsListing :
      (lookup_resources : LookupResources) (ctx : Context) (c : Connection)
      → let (r, c') = pre_filter_get_content_packages answers uuid_in lookup_resources ctx c in
        (c'.committed ≡ c.committed) × IsListing lookup_resources ctx c r
  unfolding pre_filter_get_content_packages
  pre_filter_get_content_packages-IsListing lookup_resources ctx c =
      let identity = get_identity_from_context ctx in
      elim (Result-cases (lookup_resources identity.user)) [
        | inl (stream, e) ↦ elim (Result-cases (receive [] stream)) [
          | inl (names, f) ↦
              let (xs, g, h) = receive_ok [] stream names f in
              let (kept, got) =
                packages_by_host_ids-Reads answers uuid_in identity.rh_account names c in
              elim (Result-cases
                (packages_by_host_ids answers uuid_in identity.rh_account names c).0) [
                  | inl (rows, k) ↦
                      let (ids, reads, listing) = got rows k in
                      rw (e, f, k, get_packages_payload_lem rows)
                        (
                          kept,
                          λ p q. (
                            names,
                            ap ok (g ∙ ap (map resource) (sym h)),
                            ids,
                            reads,
                            items_of rows p q ∙ listing,
                          ),
                        )
                  | inr (inl (x, k)) ↦ rw (e, f, k) (kept, λ p q. cc)
                  | inr (inr k) ↦ rw (e, f, k) (kept, λ p q. cc)
                ]
          | inr (inl (x, f)) ↦ rw (e, f) (refl, λ p q. cc)
          | inr (inr f) ↦ rw (e, f) (refl, λ p q. cc)
        ]
        | inr (inl (x, e)) ↦ rw e (refl, λ p q. cc)
        | inr (inr e) ↦ rw e (refl, λ p q. cc)
      ]

  -- A request to the baseline server leaves the committed tables as they are, and a payload that it
  -- answers with is the listing of the account in the identity over its hosts without a group.
  pub baseline_listing :
      (ctx : Context) (c : Connection)
      → let (r, c') = baseline_get_content_packages answers uuid_in ctx c in
        (c'.committed ≡ c.committed)
        × ((p : PackagesPayload)
            → r ≡ ok p
            → p.items ≡ select_by_account (get_identity_from_context ctx).rh_account c.committed)
  unfolding baseline_get_content_packages
  baseline_listing ctx c =
      let account = (get_identity_from_context ctx).rh_account in
      let (kept, got) = packages_by_account_reads answers uuid_in account c in
      elim (Result-cases (packages_by_account answers uuid_in account c).0) [
        | inl (rows, k) ↦
            rw (k, get_packages_payload_lem rows) (kept, λ p q. items_of rows p q ∙ got rows k)
        | inr (inl (x, k)) ↦ rw k (kept, λ p q. cc)
        | inr (inr k) ↦ rw k (kept, λ p q. cc)
      ]
