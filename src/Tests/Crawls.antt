-- ===== src/Tests/Crawls.antt =====
-- The theorems on crawlers at a few URLs.
use mathlib.Core.List.{Perm}
use mathlib.Core.List.Perm
use ww_webcrawler.Prelude.{
  ℕ, zero, suc, ◌+◌, ◌^◌, ◌≡◌, refl, String, true, false, ◌||◌, none, List, [], ◌∷◌, done, Result,
  ok, err, pos, replicate, if◌then◌else◌, ◌=?◌, string_comparable, arith,
}
use ww_webcrawler.Sets.SyncMap.{load, Visits}
use ww_webcrawler.Sets.Time.{Time}
use ww_webcrawler.Sets.Set
use ww_webcrawler.Crawler.Link.{Link}
use ww_webcrawler.Crawler.Message.{Message, Item, Json}
use ww_webcrawler.Crawler.State.{Urls, new_urls, Crawler, Env}
use ww_webcrawler.Crawler.Valid.{QueueFits, UrlsFit}
use ww_webcrawler.Crawler.Handlers.{on_url_visit}
use ww_webcrawler.Crawler.Handlers.Membership.{Visited, on_url_visit_lem}
use ww_webcrawler.Crawler.Handlers.Log.{apply_log, visited_agreement}
use ww_webcrawler.Crawler.Claims.{sort_and_send, evict_claims}
use ww_webcrawler.Crawler.Claims.Sort.{LinksSent, sort_and_send_lem}
use ww_webcrawler.Crawler.Claims.Evict.{is_expired, evict_all}
use ww_webcrawler.Crawler.NextUrl.{next_url}
use ww_webcrawler.Crawler.NextUrl.Cases.{ClaimedOne, next_url_pool, next_url_twice}

-- A message of one URL, in two bytes: its type, and which URL.
abbrev url_of : ℕ → String
url_of zero = "/a"
url_of (suc zero) = "/b"
url_of (suc (suc n)) = "/c"

abbrev read_bytes : List ℕ → Result String Message
read_bytes (t ∷ n ∷ []) = ok (record { message_type = pos t; urls = url_of n ∷ [] })
read_bytes _ = err "unexpected end of JSON input"

abbrev pub bytes : Json
bytes = record { marshal = λ m. ok (1 ∷ 0 ∷ []); unmarshal = read_bytes }

abbrev pub env : Env
env = record { json = bytes; put_item = λ before item. none; may_linger = false }

abbrev pub visit_a : Item
visit_a = record { key = []; value = 0 ∷ 0 ∷ [] }

abbrev pub claim_b : Item
claim_b = record { key = []; value = 1 ∷ 1 ∷ [] }

abbrev pub monday : Time
monday = record { sec = 2 ^ 63 + 63852969600; nsec = 0 }

abbrev pub later : Time
later = record { sec = 2 ^ 63 + 63852970600; nsec = 0 }

-- Two URLs are queued, two are in the pool, one is claimed and one is visited.
abbrev pub busy : Urls
busy = record {
  local_queue = record {
    capacity = 40;
    size = 2;
    head = 0;
    tail = 2;
    items = "" ∷ "/a" ∷ "/b" ∷ replicate 37 "";
  };
  global_pool = record { count = 2; sm = ("/p", true) ∷ ("/q", true) ∷ [] };
  claimed = record { count = 1; sm = ("/c", monday) ∷ [] };
  visited = record { count = 1; sm = ("/v", true) ∷ [] };
}

abbrev pub idle : Urls
idle = record busy {
  local_queue = record { capacity = 40; size = 0; head = 39; tail = 39; items = replicate 40 "" };
}

abbrev pub dry : Urls
dry = record idle { global_pool = record { count = 0; sm = [] } }

busy_queue-QueueFits : QueueFits busy.local_queue
busy_queue-QueueFits = record { valid = ground arith; fits = refl }

idle_queue-QueueFits : QueueFits idle.local_queue
idle_queue-QueueFits = record { valid = ground arith; fits = refl }

pub busy-UrlsFit : UrlsFit busy
unfolding load
busy-UrlsFit = record {
  queue_fits = busy_queue-QueueFits;
  pool_valid = record { is_map = (refl, (refl, tt)); counted = refl };
  claimed_valid = record { is_map = (refl, tt); counted = refl };
  visited_valid = record { is_map = (refl, tt); counted = refl };
}

pub idle-UrlsFit : UrlsFit idle
idle-UrlsFit = record {
  queue_fits = idle_queue-QueueFits;
  pool_valid = busy-UrlsFit.pool_valid;
  claimed_valid = busy-UrlsFit.claimed_valid;
  visited_valid = busy-UrlsFit.visited_valid;
}

pub dry-UrlsFit : UrlsFit dry
dry-UrlsFit = record {
  queue_fits = idle_queue-QueueFits;
  pool_valid = record { is_map = tt; counted = refl };
  claimed_valid = busy-UrlsFit.claimed_valid;
  visited_valid = busy-UrlsFit.visited_valid;
}

pub pool-Visits : Visits idle.global_pool.sm ("/q" ∷ "/p" ∷ [])
unfolding load
pool-Visits = record { all_keys = λ k. ground arith; once = refl }

pub claims-Visits : Visits busy.claimed.sm ("/c" ∷ [])
unfolding load
claims-Visits = record { all_keys = λ k. ground arith; once = refl }

abbrev pub crawler : Urls → Crawler
crawler u = record { urls = u; raft_id = 48879; sent = []; writes_db = false; written = [] }

on_url_visit_lem_example :
    (u' : Urls) × (on_url_visit busy ("/c" ∷ "/a" ∷ []) ≡ done u')
    × Visited busy ("/c" ∷ "/a" ∷ []) u'
on_url_visit_lem_example = on_url_visit_lem busy ("/c" ∷ "/a" ∷ []) busy-UrlsFit

visited_agreement_example :
    (u : Urls) × (u' : Urls) × (apply_log bytes
        (λ n url. monday)
        0
        new_urls
        (visit_a ∷ claim_b ∷ [])
      ≡ done u)
    × (apply_log bytes (λ n url. later) 0 new_urls (claim_b ∷ visit_a ∷ []) ≡ done u')
    × ((k : String) → Set.has u.visited k ≡ Set.has u'.visited k)
visited_agreement_example =
    visited_agreement bytes (λ n url. monday) (λ n url. later) (visit_a ∷ claim_b ∷ [])
      (claim_b ∷ visit_a ∷ []) swapped
  where
    swapped : Perm (visit_a ∷ claim_b ∷ []) (claim_b ∷ visit_a ∷ [])
    swapped = Perm.swap claim_b visit_a []

abbrev pub links : List Link
links =
    record { proto = "https"; domain = "x"; path = "/y" }
    ∷ record { proto = ""; domain = ""; path = "/v" }
    ∷ []

sort_and_send_lem_example :
    (c' : Crawler) × (sort_and_send env (crawler busy) links ≡ done (none, c'))
    × LinksSent env (crawler busy) links c'
sort_and_send_lem_example = sort_and_send_lem env (crawler busy) links busy-UrlsFit

evict_all_example :
    let u' = evict_claims ("/c" ∷ []) (λ url. later) busy in
    UrlsFit u'
    × ((k : String)
        → load k u'.claimed.sm
          ≡ (if is_expired (load k busy.claimed.sm) later then none else load k busy.claimed.sm))
    × ((k : String)
        → Set.has u'.global_pool k
          ≡ is_expired (load k busy.claimed.sm) later || Set.has busy.global_pool k)
    × (u'.visited ≡ busy.visited)
    × (u'.local_queue ≡ busy.local_queue)
evict_all_example = evict_all (λ url. later) ("/c" ∷ []) busy busy-UrlsFit claims-Visits

next_url_pool_example :
    (k : String) × (pool : Set.Set String) × (c' : Crawler) × (next_url env
        ("/q" ∷ "/p" ∷ [])
        (λ n. 5)
        []
        (λ url. later)
        (crawler idle)
      ≡ done (ok k, c'))
    × (Set.has idle.global_pool k ≡ true)
    × ((i : String) → Set.has pool i ≡ (if k =? i then false else Set.has idle.global_pool i))
    × ClaimedOne env (crawler (record idle { global_pool = pool })) k c'
next_url_pool_example =
    next_url_pool env "/q" ("/p" ∷ []) [] (λ n. 5) (λ url. later) (crawler idle) idle-UrlsFit refl
      pool-Visits (omega arith) (λ m. omega arith)

next_url_twice_example :
    (k : String) × (c' : Crawler) × (c'' : Crawler) × (next_url env
        ("/q" ∷ "/p" ∷ [])
        (λ n. 5)
        []
        (λ url. later)
        (crawler idle)
      ≡ done (ok k, c'))
    × (next_url env [] (λ n. 7) [] (λ url. later) c' ≡ done (ok k, c''))
next_url_twice_example =
    next_url_twice env "/q" ("/p" ∷ []) [] [] [] (λ n. 5) (λ n. 7) (λ url. later) (λ url. later)
      (crawler idle) idle-UrlsFit refl pool-Visits (omega arith) (λ m. omega arith)
