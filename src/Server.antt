-- ===== src/Server.antt =====
-- server/server.go: the handlers of `GET /content/packages`. The database is behind `Connection`,
-- and SpiceDB answers `LookupResources` by a stream. Traces and prints are left out.
pub mod Handlers
pub mod Success
pub mod WithDatabase
use inventory_access_poc.Prelude.{
  ℕ, ◌≡◌, Bool, true, false, Option, none, some, List, [], ◌∷◌, ◌++◌, map, take,
}
use inventory_access_poc.Prelude.Int.{ℤ}
use inventory_access_poc.Prelude.Bytes.{Text}
use inventory_access_poc.Errors.{
  Error, Result, ok, err, panic, ⊤, Action, pure, lift, proceed, ◌>>=◌, ◌>>◌,
}
use inventory_access_poc.Tables.{Tables, PackageAccountData, InventoryHost, UuidBytes}
use inventory_access_poc.Database.{Answer, Connection, begin_tx}
use inventory_access_poc.Transaction.{find, handle, finish}
use inventory_access_poc.Packages.{packages_by_host_ids, packages_by_account}
use inventory_access_poc.Identity.{Context, Identity, get_identity_from_context, limit_host_ids}

-- What `Recv` returns until the end of the stream.
pub data Received : Type 0 where
  resource : Text → Received
  failed : Error → Received

-- The answer to `LookupResources` for the hosts that a user may read: an error, or a stream.
abbrev pub LookupResources : Type 0
LookupResources = Text → Result (List Received)

-- `PackagesPayload`
pub record PackagesPayload : Type 0 where
  pub items : List PackageAccountData

append_all : List PackageAccountData → List PackageAccountData → List PackageAccountData
append_all acc [] = acc
append_all acc (v ∷ vs) = append_all (acc ++ (v ∷ [])) vs

unfoldable pub get_packages_payload : List PackageAccountData → Result PackagesPayload
unfolding append_all
get_packages_payload rows = ok (record { items = append_all [] rows })

-- The loop over `lrClient.Recv()`, with the ids so far.
unfoldable pub receive : List Text → List Received → Result (List Text)
receive host_ids [] = ok host_ids
receive host_ids (resource id ∷ rest) = receive (host_ids ++ (id ∷ [])) rest
receive host_ids (failed e ∷ rest) = err e

pub get_ids : List Text → List InventoryHost → (UuidBytes → Text) → List Text
get_ids ids [] text = ids
get_ids ids (h ∷ hs) text = get_ids (ids ++ (text h.id ∷ [])) hs text

-- `getIdsFromInventoryHost`, where `text` prints a `uuid` as the database does.
unfoldable pub get_ids_from_inventory_host : (UuidBytes → Text) → List InventoryHost → List Text
unfolding get_ids
get_ids_from_inventory_host text hosts = get_ids [] hosts text

-- What the closure has put into `inventoryHosts`.
scanned : Result (List InventoryHost) → List InventoryHost
scanned (ok hosts) = hosts
scanned (err e) = []
scanned panic = []

module _ (answers : ℕ → Answer) (uuid_in : Text → Result UuidBytes) where
  -- `GetContentPackages` of the pre-filter server.
  unfoldable pub pre_filter_get_content_packages :
      LookupResources → Context → Action Connection PackagesPayload
  unfolding receive packages_by_host_ids get_packages_payload get_identity_from_context
  pre_filter_get_content_packages lookup_resources ctx = do
    let identity = get_identity_from_context ctx
    stream ← lift (lookup_resources identity.user)
    host_ids ← lift (receive [] stream)
    rows ← packages_by_host_ids answers uuid_in identity.rh_account host_ids
    lift (get_packages_payload rows)

  -- `GetContentPackages` of the baseline server.
  unfoldable pub baseline_get_content_packages : Context → Action Connection PackagesPayload
  unfolding packages_by_account get_packages_payload get_identity_from_context
  baseline_get_content_packages ctx = do
    let identity = get_identity_from_context ctx
    rows ← packages_by_account answers uuid_in identity.rh_account
    lift (get_packages_payload rows)

  -- `GetContentPackagesWithDatabase`. `first_hosts` is what `SELECT id FROM inventory.hosts LIMIT ?`
  -- gives, which has no order. The variable that the closure fills outlives the transaction, whose
  -- error is overwritten.
  unfoldable pub get_content_packages_with_database :
      (Text → List InventoryHost → List InventoryHost)
      → (UuidBytes → Text)
      → Context
      → Action Connection PackagesPayload
  unfolding begin_tx find finish scanned get_ids_from_inventory_host packages_by_host_ids
      get_packages_payload get_identity_from_context limit_host_ids
  get_content_packages_with_database first_hosts text ctx c =
      let identity = get_identity_from_context ctx in
      let limit = limit_host_ids ctx in
      let (r, c₁) = begin_tx answers c in
      let (hosts, c₂) = find answers (handle r) (λ t. first_hosts limit t.inventory_hosts) c₁ in
      let (_, c₃) = finish answers (handle r) (ok tt) c₂ in
      (packages_by_host_ids answers uuid_in identity.rh_account
            (get_ids_from_inventory_host text (scanned hosts))
          >>= λ rows. lift (get_packages_payload rows))
        c₃
