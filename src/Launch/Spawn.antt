-- ===== src/Launch/Spawn.antt =====
-- How the coordinator starts the other crawlers.
use mathlib.Core.Bool.{false≢true}
use ww_webcrawler.Prelude.{
  ℕ, zero, suc, ◌+◌, ◌-◌, ◌%◌, ◌^◌, ◌<◌, ◌≡◌, refl, sym, ◌∙◌, Bool, true, false, Option, none, some,
  List, [], ◌∷◌, ◌++◌, Panics, done, panicked, ◌>>=◌, if◌then◌else◌, length, get_elem?, map,
  load_at, take, arith,
}
use ww_webcrawler.Launch.Hex.{Text, format_uint}
use ww_webcrawler.Launch.Args.{
  coord_args, is_coordinator, has_db_args, db_enabled, filled_and, raft_link,
  too_long-is_coordinator, parse_uint64-format_uint,
}

-- The arguments of a spawned process; `id` is the Raft node of the one that spawns it.
unfoldable pub spawned_args : List Text → ℕ → List Text
unfolding has_db_args
spawned_args args id =
    if has_db_args args
    then args ++ format_uint id ∷ []
    else args ++ [] ∷ [] ∷ [] ∷ format_uint id ∷ []

module _ {S : Type 0} where
  -- The loop of `fetchClusterSessions`: what `DialPeer` returns for each peer, none for an error.
  unfoldable pub dial_peers : List (Option (S × Bool)) → List S → Panics (List S)
  dial_peers [] sessions = done sessions
  dial_peers (none ∷ peers) sessions = panicked
  dial_peers (some (s, self) ∷ peers) sessions =
      dial_peers peers (if self then sessions else sessions ++ s ∷ [])

  -- The function returns nil, whatever the loop has found.
  unfoldable pub fetch_cluster_sessions : List (Option (S × Bool)) → Panics (List S)
  unfolding dial_peers
  fetch_cluster_sessions peers = dial_peers peers [] >>= λ sessions. done []

-- The index of the session for process number `i`, for `rounds` processes from `i` on.
unfoldable pub assign_sessions : ℕ → ℕ → ℕ → List ℕ
assign_sessions zero i n = []
assign_sessions (suc rounds) i n = i % n ∷ assign_sessions rounds (i + 1) n

-- `spawnCrawlers` with `n` nodes and `sessions` found in the cluster, its own session behind them:
-- for each process that it starts, its session and its arguments.
unfoldable pub spawn_crawlers :
    {S : Type 0} → List S → S → List Text → (id n : ℕ) → List (Option S × List Text)
unfolding spawned_args assign_sessions
spawn_crawlers sessions own args id n =
    map (λ k. (get_elem? (sessions ++ own ∷ []) k, spawned_args args id))
      (assign_sessions (n - 1) 1 (length (sessions ++ own ∷ [])))

-- What a spawned process reads in its arguments.
abbrev pub Worker : List Text → ℕ → List Text → Type 0
Worker args id worker =
    (is_coordinator worker ≡ false)
    × (raft_link worker ≡ done id)
    × (db_enabled worker ≡ db_enabled args)
    × (take coord_args worker ≡ take coord_args args)

-- A process that a coordinator with a 64-bit identifier spawns is not a coordinator. It reads the
-- coordinator's identifier, has the same first four arguments, and writes to the database exactly
-- if the coordinator does.
pub spawned_args-Worker :
    (args : List Text) (id : ℕ)
    → is_coordinator args ≡ true
    → id < 2 ^ 64
    → Worker args id (spawned_args args id)
unfolding is_coordinator raft_link db_enabled spawned_args load_at filled_and has_db_args
spawned_args-Worker (a ∷ b ∷ c ∷ d ∷ []) id h small =
    (refl, parse_uint64-format_uint id small, refl, refl)
spawned_args-Worker (a ∷ b ∷ c ∷ d ∷ e ∷ f ∷ g ∷ []) id h small =
    (refl, parse_uint64-format_uint id small, refl, refl)
spawned_args-Worker (a ∷ b ∷ c ∷ d ∷ e ∷ f ∷ g ∷ x ∷ xs) id h small = absurd (
    false≢true
      (sym (too_long-is_coordinator (a ∷ b ∷ c ∷ d ∷ e ∷ f ∷ g ∷ x ∷ xs) (omega arith)) ∙ h))
spawned_args-Worker _ id h small = absurd (false≢true h)
