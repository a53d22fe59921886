-- ===== src/Tests/Launches.antt =====
-- The theorems on process arguments at a coordinator's.
use ww_webcrawler.Prelude.{
  ℕ, ◌≡◌, refl, String, string_comparable, Bool, true, false, ◌||◌, ◌<◌, ◌≤◌, ◌==◌, if◌then◌else◌,
  Option, none, some, List, [], ◌∷◌, done, load_at, Result, ok, err, arith,
}
use ww_webcrawler.Launch.Hex.{Text, format_uint, parse_uint, parse-format_uint}
use ww_webcrawler.Queue.View.{contents}
use ww_webcrawler.Sets.SyncMap.{load}
use ww_webcrawler.Crawler.State.{Crawler}
use ww_webcrawler.Crawler.NextUrl.{next_url}
use ww_webcrawler.Crawler.Pool.Invariant.{PoolFits}
use ww_webcrawler.Launch.Args.{is_coordinator, db_enabled, id_to_key, parse_uint64}
use ww_webcrawler.Launch.Stores.{World, text_comparable, store_cap, register_node}
use ww_webcrawler.Launch.Lead.{wait_for_lead, wait_for_lead_lem}
use ww_webcrawler.Launch.Join.{AddReply}
use ww_webcrawler.Launch.Main.{Surroundings, Started, crawls, run_main}
use ww_webcrawler.Launch.Main.Coordinator.{workers, one_process, coordinator_starts}
use ww_webcrawler.Crawler.System.{no_system, SystemSteps, here}
use ww_webcrawler.Launch.Main.Worker.{built, made_at_start, worker_starts}
use ww_webcrawler.Crawler.Pool.{start_pool}
use ww_webcrawler.Tests.Crawls.{env, later}
use ww_webcrawler.Launch.Spawn.{dial_peers, fetch_cluster_sessions, spawned_args}

parse-format_uint_example : parse_uint (format_uint 48879) 16 ≡ some 48879
parse-format_uint_example = parse-format_uint 48879 (omega arith)

-- `ww run crawler 10.0.0.1 p 3 /u`, shortened
abbrev coordinator : List Text
coordinator = (b'1' ∷ []) ∷ (b'p' ∷ []) ∷ (b'3' ∷ []) ∷ (b'/' ∷ b'u' ∷ []) ∷ []

coordinates : is_coordinator coordinator ≡ true
unfolding is_coordinator
coordinates = refl

-- A second node holds nothing, and both answer.
abbrev dialled : List (ℕ × Bool)
dialled = (0, true) ∷ (1, false) ∷ []

abbrev answers : List (Option (ℕ × Bool))
answers = some (0, true) ∷ some (1, false) ∷ []

abbrev nowhere : World ℕ
nowhere node = []

-- Every store takes what it is given.
abbrev always : ℕ → Bool
always node = true

abbrev key : Text
key = id_to_key (b'p' ∷ []) 48879

abbrev registered : World ℕ
registered = store_cap always 0 [] key 7 nowhere

registers : register_node always (b'p' ∷ []) 48879 7 0 answers nowhere ≡ done registered
unfolding register_node fetch_cluster_sessions dial_peers
registers = refl

-- A reply with one peer.
abbrev reply : AddReply ℕ
reply = record { error = none; nodes = ok (ok 5 ∷ []) }

abbrev worker : List Text
worker = spawned_args coordinator 48879

abbrev get : Text → Result String ℕ
get k = elim (load k (registered 0)) [ some x ↦ ok x | none ↦ err "not found" ]

found : (k : Text) (x : ℕ) → load k (registered 0) ≡ some x → get k ≡ ok x
found k x h = rw (get, h) refl

abbrev around : Surroundings ℕ
around = record {
  bootstrap = none;
  http_cap = λ k. none;
  id = 48879;
  cap = 7;
  own = 0;
  peers = answers;
  peers_later = answers;
  lead = λ n. (if n == 2 then 48879 else 0);
  get = get;
  add = λ coord. ok reply;
  took = always;
}

-- The process of another node on the coordinator's.
abbrev around_worker : Surroundings ℕ
around_worker = record around { id = 51966; cap = 8; lead = λ n. 0 }

worker_starts_example :
    (writes : Bool) × (db_enabled coordinator ≡ done writes)
    × (run_main (λ text. "/u") worker around_worker registered 0
        ≡ done (crawls (made_at_start around_worker (b'p' ∷ []) registered writes (5 ∷ []))))
    × SystemSteps env no_system (record no_system {
      sites = record { pool = start_pool (built 51966 writes) 10; applied = [] } ∷ [];
    })
worker_starts_example =
    worker_starts (λ text. "/u") always coordinator (b'p' ∷ []) 48879 7 answers nowhere registered
      around_worker dialled dialled 0 env no_system coordinates (unfold load_at in refl)
      (omega arith) refl registers found refl (λ k. refl) refl refl here

coordinator_starts_example :
    (r : Started ℕ) × (c : Crawler) × (run_main (λ text. "/u") coordinator around nowhere 3
      ≡ done (crawls r))
    × (r.spawned ≡ workers 0 coordinator 48879 3)
    × PoolFits r.pool
    × SystemSteps env no_system (one_process r.pool)
    × (contents r.pool.crawler.local_queue ≡ "/u" ∷ [])
    × (next_url env [] (λ n. 1) [] (λ url. later) r.pool.crawler ≡ done (ok "/u", c))
coordinator_starts_example =
    coordinator_starts (λ text. "/u") coordinator (b'/' ∷ b'u' ∷ []) (b'3' ∷ []) 3 around nowhere
      dialled dialled env [] [] (λ n. 1) (λ url. later) 2 3 coordinates refl (λ k. refl)
      (unfold load_at in refl) (unfold load_at in refl) (unfold parse_uint64 parse_uint in refl)
      refl refl refl (omega arith)

-- A node that leads from the third look on.
abbrev rising : ℕ → ℕ
rising n = if n == 0 || n == 1 then 7 else 48879

wait_for_lead_lem_example :
    (look : ℕ) × (look ≤ 5)
    × (rising look ≡ 48879)
    × ((m : ℕ) → m < look → (rising m == 48879) ≡ false)
    × ((looks : ℕ) → look < looks → wait_for_lead looks rising 48879 0 ≡ some look)
wait_for_lead_lem_example = wait_for_lead_lem rising 48879 5 refl
