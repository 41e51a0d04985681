-- ===== src/Setup/Connections.antt =====
-- `InitDB` opens a connection each time: the configuration that it compares is with_answers a new one.
use inventory_access_poc.Prelude.{
  ℕ, ◌+◌, ◌≡◌, refl, Bool, true, false, ◌&&◌, Option, none, some, [], ◌∷◌, ◌++◌, length, nat_eq,
  ltb, arith,
}
use inventory_access_poc.Errors.{Error, ok}
use inventory_access_poc.Setup.{
  Globals, Libraries, handle_of, pg_config_of, is_pointer, is_open, call, check, open_postgresql,
  load_env_postgresql_config, connect_db,
}

-- The pointer, where there is one, is to a configuration that was allocated.
abbrev is_below : Option ℕ → ℕ → Bool
is_below none n = true
is_below (some p) n = ltb p n

abbrev pub IsAllocated : Globals → Type 0
IsAllocated g = is_below g.global_pg_config (length g.allocated) ≡ true

is_pointer-is_below : (o : Option ℕ) (n : ℕ) → is_below o n ≡ true → is_pointer o n ≡ false
is_pointer-is_below none n h = refl
is_pointer-is_below (some p) n h = ground (arith, h)

-- The libraries with other answers.
abbrev pub with_answers : Libraries → (ℕ → Option Error) → Libraries
with_answers lib answers = record lib { answers = answers }

pub connect_db_done :
    (lib : Libraries) (g : Globals)
    → IsAllocated g
    → connect_db (with_answers lib (λ n. none)) g ≡ (
      ok tt,
      record g {
        db = some (handle_of (pg_config_of g.cfg));
        global_pg_config = some (length g.allocated);
        allocated = g.allocated ++ pg_config_of g.cfg ∷ [];
        opened = g.opened ++ handle_of (pg_config_of g.cfg) ∷ [];
        calls = (((g.calls + 1) + 1) + 1) + 1;
      },
    )
unfolding connect_db load_env_postgresql_config open_postgresql check call
connect_db_done lib g h =
    let fresh : (is_open g.db && is_pointer g.global_pg_config (length g.allocated)) ≡ false =
      ground (arith, is_pointer-is_below g.global_pg_config (length g.allocated) h) in
    rw fresh refl
