-- ===== src/Launch/Main/Coordinator.antt =====
-- What the first process starts with.
use mathlib.Core.Bool.{false≢true}
use ww_webcrawler.Prelude.{
  zero, suc, ◌+◌, ◌-◌, ◌<◌, ◌%◌, sym, map, replicate, get_elem?, ℕ, ◌≡◌, refl, ◌∙◌, Bool, true,
  false, String, string_comparable, Option, none, some, List, [], ◌∷◌, done, ok, ltb, length,
  load_at, arith,
}
use ww_webcrawler.Queue
use ww_webcrawler.Queue.{QueueError, UniqueQueue}
use ww_webcrawler.Crawler.System.{System, no_system, SystemSteps, here, next, starts, seeds}
use ww_webcrawler.Queue.View.{contents}
use ww_webcrawler.Queue.Put.{after_put}
use ww_webcrawler.Queue.Put.Corners.{put_empty}
use ww_webcrawler.Crawler.State.{new_urls, Crawler, Env}
use ww_webcrawler.Sets.Time.{Time}
use ww_webcrawler.Crawler.NextUrl.{next_url}
use ww_webcrawler.Crawler.NextUrl.Cases.{next_url_local}
use ww_webcrawler.Crawler.Pool.Invariant.{PoolFits, start_pool-PoolFits}
use ww_webcrawler.Crawler.Valid.{UrlsFit, new_urls-UrlsFit, with_queue-UrlsFit}
use ww_webcrawler.Crawler.Pool.{Pool, start_pool, max_pool_size}
use ww_webcrawler.Launch.Hex.{Text}
use ww_webcrawler.Launch.Args.{
  coord_args, is_coordinator, db_enabled, has_db_args, filled_and, too_long-is_coordinator,
  parse_uint64,
}
use ww_webcrawler.Launch.Args.Place
use ww_webcrawler.Launch.Spawn.{
  dial_peers, fetch_cluster_sessions, assign_sessions, spawned_args, spawn_crawlers,
}
use ww_webcrawler.Launch.Lead.{wait_for_lead, wait_for_lead_lem}
use ww_webcrawler.Launch.Join.{start_raft_node}
use ww_webcrawler.Launch.Stores.{World, store_cap, register_node}
use ww_webcrawler.Launch.Args.{id_to_key}
use ww_webcrawler.Launch.Main.{
  new_crawler, first_url, Surroundings, Started, crawls, start_crawler, run_main,
}

first_url_coordinator :
    (string_of : Text → String) (args : List Text) (text : Text) (c : Crawler)
    → is_coordinator args ≡ true
    → load_at args Place.url ≡ done text
    → UrlsFit c.urls
    → c.local_queue.size ≡ 0
    → (q : UniqueQueue String) × (Queue.put c.local_queue (string_of text) ≡ done (none, q))
      × (first_url string_of args c ≡ done (record c { urls = record c.urls { local_queue = q } }))
      × UrlsFit (record c.urls { local_queue = q })
      × (contents q ≡ string_of text ∷ [])
unfolding first_url
first_url_coordinator string_of args text c h t v e =
    let (put_done, holds, valid) = put_empty c.local_queue (string_of text) v.queue_fits.valid e in
    let q = after_put c.local_queue (string_of text) in
    (
      q,
      put_done,
      rw (h, t, put_done) refl,
      with_queue-UrlsFit c.urls q v (record { valid = valid; fits = v.queue_fits.fits }),
      holds,
    )

-- A system of one process that has applied no item.
abbrev pub one_process : Pool → System
one_process p = record { log = []; sites = record { pool = p; applied = [] } ∷ [] }

-- A system of one process whose crawler is new, after the first `Put`.
seeded :
    (env : Env) (c : Crawler) (size : ℕ) (url : String) (e : Option QueueError)
    (q : UniqueQueue String)
    → c.urls ≡ new_urls
    → c.sent ≡ []
    → Queue.put c.local_queue url ≡ done (e, q)
    → SystemSteps env no_system
        (one_process (start_pool (record c { urls = record c.urls { local_queue = q } }) size))
unfolding start_pool
seeded env c size url e q fresh quiet called =
    next (next here (starts c size fresh quiet)) (
      seeds [] [] (record { pool = start_pool c size; applied = [] }) size url e q refl refl called)

all_args :
    (a b c d e f g : Text)
    → (writes : Bool) × (db_enabled (a ∷ b ∷ c ∷ d ∷ e ∷ f ∷ g ∷ []) ≡ done writes)
unfolding db_enabled has_db_args filled_and load_at
all_args a b c d [] f g = (false, refl)
all_args a b c d (x ∷ e) [] g = (false, refl)
all_args a b c d (x ∷ e) (y ∷ f) [] = (false, refl)
all_args a b c d (x ∷ e) (y ∷ f) (z ∷ g) = (true, refl)

-- What a coordinator's arguments hold.
pub coordinator_args :
    (args : List Text)
    → is_coordinator args ≡ true
    → (key : Text) × (prefix : Text) × (writes : Bool) × (load_at args Place.http ≡ done key)
      × (load_at args Place.prefix ≡ done prefix)
      × (db_enabled args ≡ done writes)
      × (ltb (length args) coord_args ≡ false)
unfolding is_coordinator load_at db_enabled has_db_args filled_and
coordinator_args (a ∷ b ∷ c ∷ d ∷ []) h = (a, b, false, refl, refl, refl, refl)
coordinator_args (a ∷ b ∷ c ∷ d ∷ e ∷ f ∷ g ∷ []) h =
    let (writes, known) = all_args a b c d e f g in (a, b, writes, refl, refl, known, refl)
coordinator_args (a ∷ b ∷ c ∷ d ∷ e ∷ f ∷ g ∷ x ∷ xs) h = absurd (
    false≢true
      (sym (too_long-is_coordinator (a ∷ b ∷ c ∷ d ∷ e ∷ f ∷ g ∷ x ∷ xs) (omega arith)) ∙ h))
coordinator_args _ h = absurd (false≢true h)

spawn_own :
    {S : Type 0} (own : S) (args : List Text) (rounds i : ℕ)
    → map {B = Option S × List Text}
        (λ k. (get_elem? (own ∷ []) k, args))
        (assign_sessions rounds i 1)
      ≡ replicate rounds (some own, args)
unfolding assign_sessions
spawn_own own args zero i = refl
spawn_own own args (suc rounds) i =
    let first : i % 1 ≡ 0 = omega arith in rw (first, spawn_own own args rounds (i + 1)) refl

dial_all :
    {S : Type 0} (found : List (S × Bool)) (sessions : List S)
    → (all : List S) × (dial_peers (map (λ p. some p) found) sessions ≡ done all)
unfolding dial_peers
dial_all [] sessions = (sessions, refl)
dial_all ((s, self) ∷ found) sessions = dial_all found _

-- A cluster all of whose peers answer.
pub fetch_all :
    {S : Type 0} (found : List (S × Bool))
    → fetch_cluster_sessions (map (λ p. some p) found) ≡ done []
unfolding fetch_cluster_sessions
fetch_all found = let (all, e) = dial_all found [] in rw e refl

-- The processes of a coordinator that reads `n` nodes.
abbrev pub workers : {S : Type 0} → S → List Text → (id n : ℕ) → List (Option S × List Text)
workers own args id n = replicate (n - 1) (some own, spawned_args args id)

-- A coordinator starts, where Bootstrap and the HTTP capability give no error, every peer answers
-- DialPeer, the number of nodes can be read, and its node leads at a look that the loop reaches. It
-- spawns one process fewer than there are nodes, all of them on its own session; its pool is
-- consistent, and a state that a system of processes reaches. Its queue holds the URL of its
-- arguments alone, which its first NextUrl returns.
pub coordinator_starts :
    {R : Type 0} (string_of : Text → String) (args : List Text) (url text : Text) (n : ℕ)
    (s : Surroundings R) (w : World R) (found found_later : List (ℕ × Bool)) (env : Env)
    (keys claims : List String) (draw : ℕ → ℕ) (now : String → Time) (k looks : ℕ)
    → is_coordinator args ≡ true
    → s.bootstrap ≡ none
    → ((key : Text) → s.http_cap key ≡ none)
    → load_at args Place.url ≡ done url
    → load_at args Place.nodes ≡ done text
    → parse_uint64 text 10 ≡ done n
    → s.peers ≡ map (λ p. some p) found
    → s.peers_later ≡ map (λ p. some p) found_later
    → s.lead k ≡ s.id
    → k < looks
    → (r : Started R) × (c : Crawler) × (run_main string_of args s w looks ≡ done (crawls r))
      × (r.spawned ≡ workers s.own args s.id n)
      × PoolFits r.pool
      × SystemSteps env no_system (one_process r.pool)
      × (contents r.pool.crawler.local_queue ≡ string_of url ∷ [])
      × (next_url env keys draw claims now r.pool.crawler ≡ done (ok (string_of url), c))
unfolding run_main start_crawler new_crawler register_node start_raft_node spawn_crawlers new_urls
coordinator_starts {R} string_of args url text n s w found found_later env keys claims draw now k
      looks coordinates booted capable has_url has_nodes parsed dialled dialled_later leads
      enough_looks =
    let (key, prefix, writes, has_key, has_prefix, db, enough) =
      coordinator_args args coordinates in
    let c0 : Crawler = record {
      urls = new_urls;
      raft_id = s.id;
      sent = [];
      writes_db = writes;
      written = [];
    } in
    let (q, called, put_first, fits, holds) =
      first_url_coordinator string_of args url c0 coordinates has_url new_urls-UrlsFit refl in
    let c : Crawler = record c0 { urls = record c0.urls { local_queue = q } } in
    let r : Started R = record {
      pool = start_pool c max_pool_size;
      stores = store_cap s.took s.own [] (id_to_key prefix s.id) s.cap w;
      spawned = workers s.own args s.id n;
      known = [];
    } in
    let (look, first, led, earlier, waited) = wait_for_lead_lem s.lead s.id k leads in
    let waits : wait_for_lead looks s.lead s.id 0 ≡ some look = waited looks (omega arith) in
    let (q', answered, left, valid) =
      next_url_local env keys claims draw now c (string_of url) [] fits holds in
    (
      r,
      _,
      rw (enough, booted, has_key, capable key, has_prefix, db)
          (rw (dialled, fetch_all found)
            (rw (dialled_later, fetch_all found_later)
              (rw (coordinates, waits, has_nodes, parsed, put_first)
                (rw (spawn_own s.own (spawned_args args s.id) (n - 1) 1) refl)))),
      refl,
      start_pool-PoolFits c max_pool_size fits,
      seeded env c0 max_pool_size (string_of url) none q refl refl called,
      holds,
      answered,
    )
