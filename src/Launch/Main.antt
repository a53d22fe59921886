-- ===== src/Launch/Main.antt =====
-- main of crawler/main.go, from its arguments to the crawler that CrawlForever gets.
pub mod Coordinator
pub mod Worker
use ww_webcrawler.Prelude.{
  ℕ, Bool, String, string_comparable, Option, none, some, List, [], Panics, done, panicked, ◌>>=◌,
  Result, ltb, if◌then◌else◌, length, load_at,
}
use ww_webcrawler.Queue
use ww_webcrawler.Crawler.State.{new_urls, Crawler}
use ww_webcrawler.Crawler.Pool.{Pool, start_pool, max_pool_size}
use ww_webcrawler.Launch.Hex.{Text}
use ww_webcrawler.Launch.Args.{coord_args, is_coordinator, db_enabled}
use ww_webcrawler.Launch.Args.Place
use ww_webcrawler.Launch.Spawn.{fetch_cluster_sessions}
use ww_webcrawler.Launch.Stores.{World, register_node}
use ww_webcrawler.Launch.Join.{AddReply, start_raft_node}

-- The crawler that main builds: `id` is that of its Raft node.
unfoldable pub new_crawler : List Text → (id : ℕ) → Panics Crawler
unfolding db_enabled new_urls
new_crawler args id = db_enabled args >>= λ writes.
    done (record { urls = new_urls; raft_id = id; sent = []; writes_db = writes; written = [] })

-- The URL that the coordinator puts in its queue.
unfoldable pub first_url : (Text → String) → List Text → Crawler → Panics Crawler
unfolding is_coordinator Queue.put
first_url string_of args c =
    if is_coordinator args
    then (load_at args Place.url >>= λ text. Queue.put c.local_queue (string_of text) >>= λ r.
        done (record c { urls = record c.urls { local_queue = r.1 } }))
    else done c

-- What main finds around it: the errors of Bootstrap and of CapStore.Get for the HTTP capability, its
-- Raft node and the node's capability, the node of its session, what DialPeer answers at the
-- registration and at startRaftNode, the leader in the node's status at each look, CapStore.Get for
-- Raft capabilities, the call of `Add`, and the nodes whose stores take the call of `Set`.
pub record Surroundings (R : Type 0) : Type 0 where
  pub bootstrap : Option String
  pub http_cap : Text → Option String
  pub id : ℕ
  pub cap : R
  pub own : ℕ
  pub peers : List (Option (ℕ × Bool))
  pub peers_later : List (Option (ℕ × Bool))
  pub lead : ℕ → ℕ
  pub get : Text → Result String R
  pub add : R → Result String (AddReply R)
  pub took : ℕ → Bool

-- What main has made when it calls CrawlForever.
pub record Started (R : Type 0) : Type 0 where
  pub pool : Pool
  pub stores : World R
  pub spawned : List (Option ℕ × List Text)
  pub known : List R

-- How far main gets: it exits for want of arguments, it still waits for its node to lead, or it calls
-- CrawlForever.
pub data Outcome (R : Type 0) : Type 0 where
  lacks_args : Outcome R
  still_waits : Outcome R
  crawls : Started R → Outcome R

abbrev pub or_panics {ℓ} : {A : Type ℓ} → Option String → Panics A → Panics A
or_panics none rest = rest
or_panics (some e) rest = panicked

module _ {R : Type 0} where
  -- main after startRaftNode
  unfoldable pub crawl_on :
      (Text → String)
      → (args : List Text) → World R
      → Crawler
      → Option (List (Option ℕ × List Text) × List R)
      → Panics (Outcome R)
  unfolding first_url start_pool
  crawl_on string_of args stores c none = done still_waits
  crawl_on string_of args stores c (some (spawned, known)) = first_url string_of args c >>= λ c'.
      done (
        crawls (record {
          pool = start_pool c' max_pool_size;
          stores = stores;
          spawned = spawned;
          known = known;
        }))

  -- main from the registration on.
  unfoldable pub start_crawler :
      (Text → String)
      → (args : List Text) → (prefix : Text) → Surroundings R
      → World R
      → (looks : ℕ) → Crawler
      → Panics (Outcome R)
  unfolding register_node start_raft_node crawl_on fetch_cluster_sessions
  start_crawler string_of args prefix s w looks c =
      register_node s.took prefix s.id s.cap s.own s.peers w >>= λ stores.
      fetch_cluster_sessions s.peers_later >>= λ sessions.
      start_raft_node looks s.lead args prefix s.id sessions s.own s.get s.add >>= λ r.
      crawl_on string_of args stores c r

  -- main, with at most `looks` looks at the leader
  unfoldable pub run_main :
      (Text → String)
      → (args : List Text) → Surroundings R
      → World R
      → (looks : ℕ) → Panics (Outcome R)
  unfolding start_crawler new_crawler
  run_main string_of args s w looks =
      if ltb (length args) coord_args
      then done lacks_args
      else or_panics s.bootstrap (
          load_at args Place.http >>= λ key. or_panics (s.http_cap key) (
            load_at args Place.prefix >>= λ prefix.
            new_crawler args s.id >>= λ c. start_crawler string_of args prefix s w looks c))
