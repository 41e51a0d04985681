-- ===== src/Server/WithDatabase.antt =====
-- What `GetContentPackagesWithDatabase` answers.
use inventory_access_poc.Prelude.{
  ℕ, ◌≡◌, ◌≢◌, ◌+◌, map, ◌∷◌, ◌++◌, append-nil, append_assoc, sym, refl, ap, ◌∙◌, ◌⊎◌, inl, inr,
  List, [], none,
}
use inventory_access_poc.Prelude.Int.{ℤ}
use inventory_access_poc.Prelude.Bytes.{Text}
use inventory_access_poc.Errors.{Result, ok, err, panic, ◌>>=◌, lift, Action, Result-cases}
use inventory_access_poc.Tables.{Tables, UuidBytes, InventoryHost}
use inventory_access_poc.Database.{
  Answer, Answer-cases, done, Connection, current, begin_tx, query, current-open, begin_tx_cases,
}
use inventory_access_poc.Transaction.{find, finish}
use inventory_access_poc.Transaction.Atomic.{find-HasRead, finish-HasRead}
use inventory_access_poc.Packages.{packages_by_host_ids, select_by_host_ids}
use inventory_access_poc.Packages.Requests.{Reads, packages_by_host_ids-Reads}
use inventory_access_poc.Identity.{Context, get_identity_from_context, limit_host_ids}
use inventory_access_poc.Server.{
  PackagesPayload, get_packages_payload, scanned, get_ids, get_ids_from_inventory_host,
  get_content_packages_with_database,
}
use inventory_access_poc.Server.Handlers.{get_packages_payload_lem, items_of}

module _ (answers : ℕ → Answer) (uuid_in : Text → Result UuidBytes) where
  -- A payload is the listing of these hosts for the account.
  abbrev pub Lists : ℤ → List Text → Tables → Result PackagesPayload → Type 0
  Lists acc_id names t r =
      (p : PackagesPayload)
      → r ≡ ok p
      → (ids : List UuidBytes) × Reads answers uuid_in names ids
        × (p.items ≡ select_by_host_ids acc_id ids t)

  abbrev rest : ℤ → List Text → Action Connection PackagesPayload
  rest acc_id names =
      packages_by_host_ids answers uuid_in acc_id names >>= λ rows. lift (get_packages_payload rows)

  rest-Lists :
      (acc_id : ℤ) (names : List Text) (c : Connection) (t : Tables)
      → c.committed ≡ t
      → let (r, c') = rest acc_id names c in (c'.committed ≡ t) × Lists acc_id names t r
  rest-Lists acc_id names c t same =
      let (kept, got) = packages_by_host_ids-Reads answers uuid_in acc_id names c in
      elim (Result-cases (packages_by_host_ids answers uuid_in acc_id names c).0) [
        | inl (rows, k) ↦
            let (ids, reads, listing) = got rows k in
            rw (k, get_packages_payload_lem rows)
              (
                kept ∙ same,
                λ p q. (
                  ids,
                  reads,
                  items_of rows p q ∙ listing ∙ ap (select_by_host_ids acc_id ids) same,
                ),
              )
        | inr (inl (x, k)) ↦ rw k (kept ∙ same, λ p q. cc)
        | inr (inr k) ↦ rw k (kept ∙ same, λ p q. cc)
      ]

  scanned-cases :
      (r : Result (List InventoryHost)) (hosts : List InventoryHost)
      → ((x : List InventoryHost) → r ≡ ok x → x ≡ hosts)
      → ((scanned r ≡ []) × ((x : List InventoryHost) → r ≢ ok x)) ⊎ (scanned r ≡ hosts)
  unfolding scanned
  scanned-cases (ok x) hosts h = inr (h x refl)
  scanned-cases (err e) hosts h = inl (refl, λ x p. cc)
  scanned-cases panic hosts h = inl (refl, λ x p. cc)

  begun_calls : (c : Connection) → (begin_tx answers c).1.calls ≡ c.calls + 1
  unfolding begin_tx
  begun_calls c = elim (Answer-cases (answers c.calls)) [
    | inl e ↦ rw e refl
    | inr (inl (x, e)) ↦ rw e refl
    | inr (inr (x, e)) ↦ rw e refl
  ]

  begun_done : (c : Connection) → answers c.calls ≡ done → (begin_tx answers c).0 ≡ ok tt
  unfolding begin_tx
  begun_done c e = rw e refl

  found_done :
      {A : Type 0} (f : Tables → A) (c : Connection)
      → answers c.calls ≡ done
      → (find answers none f c).0 ≡ ok (f (current c))
  unfolding find query
  found_done f c e = rw e refl

  get_ids_lem :
      (text : UuidBytes → Text) (ids : List Text) (hosts : List InventoryHost)
      → get_ids ids hosts text ≡ ids ++ map (λ h. text h.id) hosts
  unfolding get_ids
  get_ids_lem text ids [] = sym (append-nil ids)
  get_ids_lem text ids (h ∷ hosts) =
      get_ids_lem text (ids ++ (text h.id ∷ [])) hosts
      ∙ append_assoc ids (text h.id ∷ []) (map (λ h. text h.id) hosts)

  ids_lem :
      (text : UuidBytes → Text) (hosts : List InventoryHost)
      → get_ids_from_inventory_host text hosts ≡ map (λ h. text h.id) hosts
  unfolding get_ids_from_inventory_host
  ids_lem text hosts = get_ids_lem text [] hosts

  -- The first transaction has failed: its beginning or its statement was not answered.
  abbrev pub IsUnheard : Connection → Type 0
  IsUnheard c = (answers c.calls ≢ done) ⊎ (answers (c.calls + 1) ≢ done)

  -- A request leaves the committed tables as they are. A payload that it answers with is the listing
  -- of the account in the identity, over the ids, in order, of the hosts that the first statement gives for
  -- the limit in the context; or, only if the beginning of the first transaction or its statement failed,
  -- over no hosts.
  pub get_content_packages_with_database-Lists :
      (first_hosts : Text → List InventoryHost → List InventoryHost) (text : UuidBytes → Text)
      (ctx : Context) (c : Connection)
      → let acc_id = (get_identity_from_context ctx).rh_account in
        let hosts = first_hosts (limit_host_ids ctx) c.committed.inventory_hosts in
        let (r, c') = get_content_packages_with_database answers uuid_in first_hosts text ctx c in
        (c'.committed ≡ c.committed)
        × (Lists acc_id (map (λ h. text h.id) hosts) c.committed r
            ⊎ (IsUnheard c × Lists acc_id [] c.committed r))
  unfolding get_content_packages_with_database
  get_content_packages_with_database-Lists first_hosts text ctx c =
      let acc_id = (get_identity_from_context ctx).rh_account in
      let f = λ (t : Tables). first_hosts (limit_host_ids ctx) t.inventory_hosts in
      let (c₁, same, begun) = begin_tx_cases answers c in
      elim begun [
        | inl (e, fresh) ↦
            let (kept, left, read) = find-HasRead answers none f c₁ in
            let m = find answers none f c₁ in
            let (after, _) =
              finish-HasRead answers (λ t x. x ≡ tt) none (ok tt) m.1 c (kept ∙ same)
                (λ _. left ∙ fresh) (λ _ x p. refl) in
            let c₃ = (finish answers none (ok tt) m.1).1 in
            let counted : c₁.calls ≡ c.calls + 1 = ap (λ p. p.1.calls) (sym e) ∙ begun_calls c in
            elim (scanned-cases m.0 (f c.committed)
              (λ x p. read x p ∙ ap f (current-open c₁ c.committed fresh))) [
                | inl (none_, unread) ↦
                    let (k, l) = rest-Lists acc_id [] c₃ c.committed after in
                    let unheard : IsUnheard c =
                      inr
                        (λ d. unread (f (current c₁)) (found_done f c₁ (ap answers counted ∙ d))) in
                    rw (e, none_, ids_lem text []) (k, inr (unheard, l))
                | inr all ↦
                    let names = map (λ (h : InventoryHost). text h.id) (f c.committed) in
                    let (k, l) = rest-Lists acc_id names c₃ c.committed after in
                    rw (e, all, ids_lem text (f c.committed)) (k, inl l)
              ]
        | inr (x, e) ↦
            let (k, l) = rest-Lists acc_id [] c₁ c.committed same in
            let unheard : IsUnheard c = inl (λ d. let p = begun_done c d in cc) in
            rw (e, ids_lem text []) (k, inr (unheard, l))
      ]
