-- ===== src/Launch/Args.antt =====
-- The arguments of a process. A read out of range panics.
pub mod Place
use ww_webcrawler.Prelude.{
  ℕ, ◌+◌, Bool, true, false, ◌||◌, Option, none, some, List, [], ◌∷◌, ◌++◌, Panics, done, panicked,
  ◌>>=◌, ◌==◌, leb, if◌then◌else◌, length, load_at, arith, or_panic, ap, ◌≡◌, ◌<◌, ◌^◌,
}
use ww_webcrawler.Launch.Hex.{Text, format_uint, parse_uint, parse-format_uint}

abbrev pub coord_args : ℕ
coord_args = 4

abbrev pub coord_args_neo4j : ℕ
coord_args_neo4j = 7

unfoldable pub is_coordinator : List Text → Bool
is_coordinator args = length args == coord_args || length args == coord_args_neo4j

pub too_long-is_coordinator :
    (args : List Text) → coord_args_neo4j < length args → is_coordinator args ≡ false
unfolding is_coordinator
too_long-is_coordinator args long = ground arith

unfoldable pub has_db_args : List Text → Bool
has_db_args args = leb coord_args_neo4j (length args)

abbrev pub is_empty : Text → Bool
is_empty [] = true
is_empty (c ∷ s) = false

-- `args[place] != "" && rest`
unfoldable pub filled_and : List Text → ℕ → Panics Bool → Panics Bool
filled_and args place rest =
    load_at args place >>= λ text. if is_empty text then done false else rest

unfoldable pub db_enabled : List Text → Panics Bool
unfolding has_db_args filled_and
db_enabled args =
    if has_db_args args
    then filled_and args Place.db_endpoint
        (filled_and args Place.db_user (filled_and args Place.db_pass (done true)))
    else done false

-- `ID_BASE`
abbrev pub id_base : ℕ
id_base = 16

-- `parseUint64`
unfoldable pub parse_uint64 : Text → (base : ℕ) → Panics ℕ
parse_uint64 s base = or_panic (parse_uint s base)

pub parse_uint64-format_uint : (n : ℕ) → n < 2 ^ 64 → parse_uint64 (format_uint n) id_base ≡ done n
unfolding parse_uint64
parse_uint64-format_uint n small = ap or_panic (parse-format_uint n small)

-- The identifier of the coordinator that `join` reads.
unfoldable pub raft_link : List Text → Panics ℕ
raft_link args = load_at args Place.raft_link >>= λ text. parse_uint64 text id_base

-- `idToKey`
unfoldable pub id_to_key : Text → ℕ → Text
id_to_key prefix id = prefix ++ b'-' ∷ format_uint id
