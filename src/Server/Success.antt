-- ===== src/Server/Success.antt =====
-- The two servers answer where SpiceDB and the database do what they are asked.
use inventory_access_poc.Prelude.{
  ℕ, ◌≡◌, refl, sym, ap, ◌∙◌, subst, fun_ext, List, [], ◌∷◌, ◌++◌, map, append_assoc, append-nil,
}
use inventory_access_poc.Prelude.Int.{ℤ}
use inventory_access_poc.Prelude.Bytes.{Text}
use inventory_access_poc.Errors.{Result, ok}
use inventory_access_poc.Tables.{UuidBytes}
use inventory_access_poc.Database.{Answer, done, all_done, Connection, begin_tx}
use inventory_access_poc.Packages.{
  packages_by_host_ids, packages_by_account, select_by_host_ids, select_by_account, read_ids,
}
use inventory_access_poc.Packages.Requests.{Reads}
use inventory_access_poc.Identity.{Context, get_identity_from_context}
use inventory_access_poc.Server.{
  resource, LookupResources, receive, pre_filter_get_content_packages,
  baseline_get_content_packages,
}
use inventory_access_poc.Server.Handlers.{get_packages_payload_lem}

receive_all : (acc names : List Text) → receive acc (map resource names) ≡ ok (acc ++ names)
unfolding receive
receive_all acc [] = ap ok (sym (append-nil acc))
receive_all acc (n ∷ names) =
    receive_all (acc ++ (n ∷ [])) names ∙ ap ok (append_assoc acc (n ∷ []) names)

module _ (uuid_in : Text → Result UuidBytes) where
  read_ids_ok :
      (names : List Text) (ids : List UuidBytes) (c : Connection)
      → Reads all_done uuid_in names ids
      → read_ids all_done uuid_in names c ≡ (ok ids, c)
  unfolding read_ids
  read_ids_ok [] [] c h = refl
  read_ids_ok [] (i ∷ ids) c h = absurd h
  read_ids_ok (s ∷ ss) [] c h = absurd h
  read_ids_ok (s ∷ ss) (i ∷ ids) c h = rw (h.0, read_ids_ok ss ids c h.1)

  packages_by_host_ids_ok :
      (acc_id : ℤ) (names : List Text) (ids : List UuidBytes) (c : Connection)
      → Reads all_done uuid_in names ids
      → (packages_by_host_ids all_done uuid_in acc_id names c).0
        ≡ ok (select_by_host_ids acc_id ids c.committed)
  unfolding packages_by_host_ids
  packages_by_host_ids_ok acc_id names ids c h =
      rw (read_ids_ok names ids (begin_tx all_done c).1 h)

  pre_filter_done :
      (lookup_resources : LookupResources) (ctx : Context) (c : Connection) (names : List Text)
      (ids : List UuidBytes)
      → let identity = get_identity_from_context ctx in
        lookup_resources identity.user ≡ ok (map resource names)
        → Reads all_done uuid_in names ids
        → (pre_filter_get_content_packages all_done uuid_in lookup_resources ctx c).0
          ≡ ok (record { items = select_by_host_ids identity.rh_account ids c.committed })
  unfolding pre_filter_get_content_packages
  pre_filter_done lookup_resources ctx c names ids e h =
      let identity = get_identity_from_context ctx in
      rw (
        e,
        receive_all [] names,
        packages_by_host_ids_ok identity.rh_account names ids c h,
        get_packages_payload_lem (select_by_host_ids identity.rh_account ids c.committed),
      )

  -- If SpiceDB answers with a stream of host ids that ends, PostgreSQL reads each of them as a uuid,
  -- and the database does every request, then the pre-filter server answers with the listing of the
  -- account in the identity over these hosts.
  pub pre_filter_get_content_packages_succeeds :
      (answers : ℕ → Answer) (lookup_resources : LookupResources) (ctx : Context) (c : Connection)
      (names : List Text) (ids : List UuidBytes)
      → let identity = get_identity_from_context ctx in
        ((n : ℕ) → answers n ≡ done)
        → lookup_resources identity.user ≡ ok (map resource names)
        → Reads answers uuid_in names ids
        → (pre_filter_get_content_packages answers uuid_in lookup_resources ctx c).0
          ≡ ok (record { items = select_by_host_ids identity.rh_account ids c.committed })
  pre_filter_get_content_packages_succeeds answers lookup_resources ctx c names ids fine e h =
      let identity = get_identity_from_context ctx in
      subst
        (λ a.
          Reads a uuid_in names ids
          → (pre_filter_get_content_packages a uuid_in lookup_resources ctx c).0
            ≡ ok (record { items = select_by_host_ids identity.rh_account ids c.committed }))
        (sym (fun_ext fine)) (λ h'. pre_filter_done lookup_resources ctx c names ids e h') h

  baseline_done :
      (ctx : Context) (c : Connection)
      → (baseline_get_content_packages all_done uuid_in ctx c).0
        ≡ ok (record {
          items = select_by_account (get_identity_from_context ctx).rh_account c.committed;
        })
  unfolding baseline_get_content_packages packages_by_account
  baseline_done ctx c =
      get_packages_payload_lem
        (select_by_account (get_identity_from_context ctx).rh_account c.committed)

  -- If the database does every request, the baseline server answers with the listing of the account.
  pub baseline_get_content_packages_succeeds :
      (answers : ℕ → Answer) (ctx : Context) (c : Connection)
      → ((n : ℕ) → answers n ≡ done)
      → (baseline_get_content_packages answers uuid_in ctx c).0
        ≡ ok (record {
          items = select_by_account (get_identity_from_context ctx).rh_account c.committed;
        })
  baseline_get_content_packages_succeeds answers ctx c fine =
      subst
        (λ a.
          (baseline_get_content_packages a uuid_in ctx c).0
          ≡ ok (record {
            items = select_by_account (get_identity_from_context ctx).rh_account c.committed;
          }))
        (sym (fun_ext fine)) (baseline_done ctx c)
