-- ===== src/Setup/Source.antt =====
-- The connection string: what it says of a configuration.
use inventory_access_poc.Prelude.{◌≡◌, ◌≢◌, refl, [], ◌∷◌, ◌++◌, All, arith}
use inventory_access_poc.Prelude.Int.{ℤ}
use inventory_access_poc.Prelude.Bytes.{Text, codes}
use inventory_access_poc.Prelude.Decimal.{format_int}
use inventory_access_poc.Prelude.Decimal.RoundTrip.{
  FitsInt64, IsNumeral, format_int-IsNumeral, format_int_injective,
}
use inventory_access_poc.Setup.{PostgresqlConfig, data_source_name}

abbrev pub HasNoSpace : Text → Type 0
HasNoSpace = All (λ c. c ≢ b' ')

-- Two texts that are cut at the first space.
cut_space :
    (s t r q : Text)
    → HasNoSpace s
    → HasNoSpace t
    → s ++ (b' ' ∷ r) ≡ t ++ (b' ' ∷ q)
    → (s ≡ t) × (r ≡ q)
cut_space [] [] r q h k e = (refl, cc)
cut_space [] (c ∷ t) r q h k e = ground (arith, k.0)
cut_space (c ∷ s) [] r q h k e = ground (arith, h.0)
cut_space (c ∷ s) (d ∷ t) r q h k e =
    let same : c ≡ d = cc in let (a, b) = cut_space s t r q h.1 k.1 cc in (rw (same, a) refl, b)

drop_prefix : (p s t : Text) → p ++ s ≡ p ++ t → s ≡ t
drop_prefix [] s t e = e
drop_prefix (c ∷ p) s t e = drop_prefix p s t cc

numeral-HasNoSpace : (s : Text) → All IsNumeral s → HasNoSpace s
numeral-HasNoSpace [] h = tt
numeral-HasNoSpace (c ∷ s) h = ((λ e. omega arith), numeral-HasNoSpace s h.1)

format_int-HasNoSpace : (n : ℤ) → HasNoSpace (format_int n)
format_int-HasNoSpace n = numeral-HasNoSpace (format_int n) (format_int-IsNumeral n)

-- The value behind a key, and what follows its space.
cut_value :
    (key s t r q : Text)
    → HasNoSpace s
    → HasNoSpace t
    → key ++ (s ++ (b' ' ∷ r)) ≡ key ++ (t ++ (b' ' ∷ q))
    → (s ≡ t) × (r ≡ q)
cut_value key s t r q h k e = cut_space s t r q h k (drop_prefix key _ _ e)

-- The connection string from each key on.
abbrev from_timeout : PostgresqlConfig → Text
from_timeout c = codes "statement_timeout=" ++ format_int c.statement_timeout_ms

abbrev from_mode : PostgresqlConfig → Text
from_mode c = codes "sslmode=" ++ (c.ssl_mode ++ (b' ' ∷ from_timeout c))

abbrev from_password : PostgresqlConfig → Text
from_password c = codes "password=" ++ (c.passwd ++ (b' ' ∷ from_mode c))

abbrev from_name : PostgresqlConfig → Text
from_name c = codes "dbname=" ++ (c.database ++ (b' ' ∷ from_password c))

abbrev from_user : PostgresqlConfig → Text
from_user c = codes "user=" ++ (c.user ++ (b' ' ∷ from_name c))

abbrev from_port : PostgresqlConfig → Text
from_port c = codes "port=" ++ (format_int c.port ++ (b' ' ∷ from_user c))

-- The texts of a connection string have no space, and its numbers have 64 bits.
abbrev pub IsPlain : PostgresqlConfig → Type 0
IsPlain c =
    HasNoSpace c.host
    × HasNoSpace c.user
    × HasNoSpace c.database
    × HasNoSpace c.passwd
    × HasNoSpace c.ssl_mode
    × FitsInt64 c.port
    × FitsInt64 c.statement_timeout_ms

-- Two configurations whose texts have no space and whose numbers have 64 bits, and which give the same
-- connection string, agree on the host, the port, the user, the database, the password, the SSL mode and
-- the timeout of a statement.
pub data_source_name_injective :
    (c d : PostgresqlConfig)
    → IsPlain c
    → IsPlain d
    → data_source_name c ≡ data_source_name d
    → (c.host ≡ d.host)
      × (c.port ≡ d.port)
      × (c.user ≡ d.user)
      × (c.database ≡ d.database)
      × (c.passwd ≡ d.passwd)
      × (c.ssl_mode ≡ d.ssl_mode)
      × (c.statement_timeout_ms ≡ d.statement_timeout_ms)
unfolding data_source_name
data_source_name_injective c d (h1, h2, h3, h4, h5, p, t) (k1, k2, k3, k4, k5, q, u) e =
    let (host, e1) = cut_value (codes "host=") c.host d.host (from_port c) (from_port d) h1 k1 e in
    let (port, e2) =
      cut_value (codes "port=") (format_int c.port) (format_int d.port) (from_user c) (from_user d)
        (format_int-HasNoSpace c.port) (format_int-HasNoSpace d.port) e1 in
    let (user, e3) = cut_value (codes "user=") c.user d.user (from_name c) (from_name d) h2 k2 e2 in
    let (database, e4) =
      cut_value (codes "dbname=") c.database d.database (from_password c) (from_password d) h3 k3
        e3 in
    let (passwd, e5) =
      cut_value (codes "password=") c.passwd d.passwd (from_mode c) (from_mode d) h4 k4 e4 in
    let (mode, e6) =
      cut_value (codes "sslmode=") c.ssl_mode d.ssl_mode (from_timeout c) (from_timeout d) h5 k5
        e5 in
    let timeout =
      drop_prefix (codes "statement_timeout=") (format_int c.statement_timeout_ms)
        (format_int d.statement_timeout_ms) e6 in
    (
      host,
      format_int_injective c.port d.port p q port,
      user,
      database,
      passwd,
      mode,
      format_int_injective c.statement_timeout_ms d.statement_timeout_ms t u timeout,
    )
