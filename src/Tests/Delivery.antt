-- ===== src/Tests/Delivery.antt =====
-- A page from one crawler to another, and the recovery of an expired claim.
use ww_webcrawler.Prelude.{
  ℕ, length, false, ◌≡◌, refl, String, true, ◌||◌, none, List, [], ◌∷◌, done, Result, ok, err, map,
  ◌++◌, ◌=?◌, string_comparable, arith,
}
use ww_webcrawler.Sets.SyncMap.{load, store, delete, Visits}
use ww_webcrawler.Sets.Time.{before, add_seconds}
use ww_webcrawler.Sets.Set
use ww_webcrawler.Sets.TimedSet
use ww_webcrawler.Crawler.Link.{Link, extract_links}
use ww_webcrawler.Crawler.Link.Extract.{groups, link_of}
use ww_webcrawler.Crawler.Known.{is_known}
use ww_webcrawler.Crawler.Delivery.{page_shared}
use ww_webcrawler.Crawler.NextUrl.Recovery.{next_url_recovers}
use ww_webcrawler.Tests.Codec.{codes_json, codes_json-RoundTrips}
use ww_webcrawler.Tests.Pages.{front, relative}
use ww_webcrawler.Crawler.Message.{Item}
use ww_webcrawler.Crawler.State.{is_none, Urls, Crawler, Env}
use ww_webcrawler.Crawler.Handlers.Log.{apply_log}
use ww_webcrawler.Sets.SyncMap.{elem}
use ww_webcrawler.Crawler.Claims.{process_response}
use ww_webcrawler.Crawler.Claims.Sort.{fresh_refs}
use ww_webcrawler.Crawler.Claims.Evict.{is_expired}
use ww_webcrawler.Crawler.NextUrl.{NextError, no_new_urls, next_url}
use ww_webcrawler.Tests.Crawls.{
  env, later, busy, dry, busy-UrlsFit, dry-UrlsFit, claims-Visits, crawler,
}
use ww_webcrawler.Crawler.Exclusion.{claimed_again}
use ww_webcrawler.Crawler.Handlers.{on_new_value}
use ww_webcrawler.Crawler.Valid.{UrlsFit}
use ww_webcrawler.Crawler.Database.{LoginInfo, write_refs_to_db, register_refs}
use ww_webcrawler.Crawler.Database.Posts.{posting, page_written}
use ww_webcrawler.Tests.Pages.{deliver, page}

-- `dry` after the eviction of the claim
abbrev pooled : Urls
pooled = record dry {
  global_pool = record { count = 1; sm = ("/c", true) ∷ [] };
  claimed = record { count = 0; sm = [] };
}

evicted :
    next_url env [] (λ n. 1) ("/c" ∷ []) (λ url. later) (crawler dry)
    ≡ done (err no_new_urls, crawler pooled)
unfolding next_url Set.size TimedSet.size load before add_seconds Set.put TimedSet.pop store delete
evicted = refl

pooled-Visits : Visits pooled.global_pool.sm ("/c" ∷ [])
unfolding load
pooled-Visits = record { all_keys = λ k. ground arith; once = refl }

abbrev pub codes_env : Env
codes_env = record { json = codes_json; put_item = λ before item. none; may_linger = false }

next_url_recovers_example :
    let failed : Result NextError String = err no_new_urls in
    (failed ≡ err no_new_urls)
    × ((k : String) × (c'' : Crawler) × (next_url env
            ("/c" ∷ [])
            (λ n. 1)
            []
            (λ url. later)
            (crawler pooled)
          ≡ done (ok k, c''))
        × (is_expired (load k busy.claimed.sm) later ≡ true))
next_url_recovers_example =
    next_url_recovers env [] ("/c" ∷ []) ("/c" ∷ []) [] (λ n. 1) (λ n. 1) (λ url. later)
      (λ url. later) (crawler dry) (crawler pooled) (err no_new_urls) "/c" dry-UrlsFit refl refl
      claims-Visits (omega arith) (unfold load before add_seconds in refl) evicted pooled-Visits
      (λ m. omega arith)

page_shared_example :
    (to : List Link) × (c' : Crawler) × (items : List Item) × (u' : Urls) × (extract_links
        (λ ls. ls)
        (groups front)
        (map groups (relative ∷ []))
      ≡ done (link_of front, to))
    × (process_response codes_env
          (crawler busy)
          "/a"
          (λ ls. ls)
          (groups front)
          (map groups (relative ∷ []))
        ≡ done c')
    × (c'.sent ≡ [] ++ items)
    × (apply_log codes_json (λ n url. later) 0 dry items ≡ done u')
    × ((k : String) → Set.has u'.visited k ≡ ("/a" =? k) || Set.has dry.visited k)
    × ((k : String)
        → is_known u' k ≡ ("/a" =? k) || elem k (fresh_refs busy.visited to) || is_known dry k)
page_shared_example =
    page_shared codes_env (crawler busy) "/a" (λ ls. ls) front (relative ∷ []) (λ n url. later) 0
      dry codes_json-RoundTrips busy-UrlsFit dry-UrlsFit

-- A pool with one URL.
abbrev sole : Urls
sole = record dry { global_pool = record { count = 1; sm = ("/p", true) ∷ [] } }

sole-UrlsFit : UrlsFit sole
unfolding load
sole-UrlsFit = record {
  queue_fits = dry-UrlsFit.queue_fits;
  pool_valid = record { is_map = (refl, tt); counted = refl };
  claimed_valid = dry-UrlsFit.claimed_valid;
  visited_valid = dry-UrlsFit.visited_valid;
}

claimed_again_example :
    (c' : Crawler) × (item : Item) × (u : Urls) × (d' : Crawler) × (next_url codes_env
        ("/p" ∷ [])
        (λ n. 1)
        []
        (λ url. later)
        (crawler sole)
      ≡ done (ok "/p", c'))
    × (c'.sent ≡ [] ++ item ∷ [])
    × (on_new_value codes_json (λ url. later) sole item ≡ done (none, u))
    × (next_url codes_env
          ("/p" ∷ [])
          (λ n. 1)
          []
          (λ url. later)
          (record (crawler sole) { urls = u })
        ≡ done (ok "/p", d'))
claimed_again_example =
    claimed_again codes_env "/p" [] [] (λ n. 1) (λ n. 1) (λ url. later) (λ url. later)
      (λ url. later) (crawler sole) (crawler sole) codes_json-RoundTrips sole-UrlsFit sole-UrlsFit
      refl refl refl refl (λ m. omega arith) (λ m. omega arith)

abbrev login : LoginInfo
login = record { endpoint = "http://db"; username = "neo4j"; password = "x" }

-- A crawler that writes to the database.
abbrev writing : Crawler
writing = record (crawler busy) { writes_db = true }

-- A request that holds the number of the statements.
abbrev listed : List String → List ℕ
listed stmts = length stmts ∷ []

page_written_example :
    (to : List Link) × (c' : Crawler) × (extract_links
        (λ ls. ls)
        (groups front)
        (map groups (relative ∷ []))
      ≡ done (link_of front, to))
    × (process_response codes_env writing "/a"
          (λ ls. ls)
          (groups front)
          (map groups (relative ∷ []))
        ≡ done c')
    × (c'.written ≡ [] ++ (link_of front, to) ∷ [])
    × (is_none (
          write_refs_to_db
            (register_refs (
              posting deliver
                (λ body. none)
                (λ b. none)
                (λ url hs body. ok page)
                listed
                (λ t. t)
                login
                (λ e. e)))
            (link_of front, to))
        ≡ true)
page_written_example =
    page_written deliver (λ body. none) (λ b. none) (λ url hs body. ok page) listed (λ t. t) login
      (λ e. e) codes_env writing "/a" (λ ls. ls) front (relative ∷ []) busy-UrlsFit refl refl
      (λ b. refl) (λ e b. refl) (λ body. refl) (λ b. refl)
