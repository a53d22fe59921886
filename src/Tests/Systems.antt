-- ===== src/Tests/Systems.antt =====
-- Two processes with their goroutines, of which the first starts with a URL.
use ww_webcrawler.Prelude.{
  ◌≡◌, refl, length, ◌||◌, ◌++◌, map, true, Option, String, string_comparable, none, List, [], ◌∷◌,
  done, ok, replicate, load_at, store_at, Each, arith,
}
use ww_webcrawler.Queue
use ww_webcrawler.Queue.{UniqueQueue, find_duplicate, new_unique_queue, inc_size}
use ww_webcrawler.Sets.Set
use ww_webcrawler.Sets.SyncMap.{elem}
use ww_webcrawler.Services.Client.{Answer, http_get}
use ww_webcrawler.Crawler.Link.{Link, extract_links}
use ww_webcrawler.Crawler.Link.Extract.{groups, link_of}
use ww_webcrawler.Crawler.Message.{Item, visit, as_item, from_item, little_endian}
use ww_webcrawler.Crawler.State.{Urls, new_urls, Crawler}
use ww_webcrawler.Crawler.Valid.{UrlsFit, new_urls-UrlsFit, with_queue-UrlsFit}
use ww_webcrawler.Crawler.Handlers.Log.{item_visits, log_visits, on_new_value_lem}
use ww_webcrawler.Crawler.Handlers.{MessageError, on_new_value}
use ww_webcrawler.Crawler.Claims.{process_response}
use ww_webcrawler.Crawler.Claims.Sort.{LinksSent}
use ww_webcrawler.Crawler.Response.{reported, process_response_lem}
use ww_webcrawler.Crawler.NextUrl.{next_url}
use ww_webcrawler.Crawler.Pool.{
  Pool, asking, offering, for_turn, receiving, handling, fetching, returning, start_pool, Step,
}
use ww_webcrawler.Crawler.Pool.Step.{
  asks, hands_over, fills, filled, takes_turn, fetches_page, responds, processes,
}
use ww_webcrawler.Crawler.Cluster.Origin.{has_sent_visit}
use ww_webcrawler.Crawler.System.{
  Site, System, no_system, is_own, SystemSteps, starts, seeds, moves, commits, applies, here, next,
  member_of,
}
use ww_webcrawler.Crawler.System.Agreement.{system_agreement}
use ww_webcrawler.Crawler.System.Answered.{request_spreads}
use ww_webcrawler.Tests.Codec.{codes_json, codes_json-RoundTrips, write}
use ww_webcrawler.Tests.Crawls.{crawler, later}
use ww_webcrawler.Tests.Delivery.{codes_env}
use ww_webcrawler.Tests.Pages.{front}

abbrev first_queue : UniqueQueue String
first_queue = record {
  capacity = 40;
  size = 2;
  head = 39;
  tail = 0;
  items = "/a" ∷ replicate 39 "";
}

first_put : Queue.put new_urls.local_queue "/a" ≡ done (none, first_queue)
unfolding new_urls new_unique_queue Queue.put find_duplicate inc_size load_at store_at
first_put = refl

abbrev queued : Urls
queued = record new_urls { local_queue = first_queue }

abbrev taken : Urls
taken = record new_urls { local_queue = record first_queue { size = 0; head = 0 } }

taken_first :
    next_url codes_env [] (λ n. 1) [] (λ url. later) (crawler queued)
    ≡ done (ok "/a", crawler taken)
unfolding next_url Queue.get load_at
taken_first = refl

taken-UrlsFit : UrlsFit taken
unfolding new_urls
taken-UrlsFit =
    with_queue-UrlsFit new_urls taken.local_queue new_urls-UrlsFit
      (record { valid = ground arith; fits = refl })

abbrev idle_site : Site
idle_site = record { pool = start_pool (crawler new_urls) 1; applied = [] }

-- A process that has applied nothing, and an idle one.
abbrev beside : Pool → System
beside p = record { log = []; sites = record { pool = p; applied = [] } ∷ idle_site ∷ [] }

after_step :
    {p q : Pool}
    → SystemSteps codes_env no_system (beside p)
    → (step : Step codes_env p q) → is_own step ≡ true
    → SystemSteps codes_env no_system (beside q)
after_step {p} {q} steps step own =
    next steps (moves [] (idle_site ∷ []) (record { pool = p; applied = [] }) q refl step own)

abbrev seeded : Pool
seeded = start_pool (crawler queued) 1

abbrev offers : Pool
offers = record seeded { crawler = crawler taken; looper = offering "/a" }

abbrev fetches : Pool
fetches = record offers { looper = asking; sender = for_turn; fetches = fetching "/a" ∷ [] }

abbrev answer : Answer
answer = ok (ok (record { status = 200; error = ok ""; body = ok [] }))

abbrev handles : Pool
handles = record fetches { processor = handling (http_get "/a" answer).1; fetches = returning ∷ [] }

offers-SystemSteps : SystemSteps codes_env no_system (beside offers)
unfolding start_pool is_own
offers-SystemSteps =
    after_step
      (next
        (next (next here (starts (crawler new_urls) 1 refl refl))
          (starts (crawler new_urls) 1 refl refl))
        (seeds [] (idle_site ∷ []) idle_site 1 "/a" none first_queue refl refl first_put))
      (asks [] (λ n. 1) [] (λ url. later) (ok "/a") (crawler taken) refl refl (λ m. omega arith)
        taken_first)
      refl

fetches-SystemSteps : SystemSteps codes_env no_system (beside fetches)
unfolding start_pool is_own
fetches-SystemSteps =
    after_step
      (after_step
        (after_step (after_step offers-SystemSteps (fills 0 refl (omega arith)) refl) (filled refl)
          refl)
        (takes_turn 0 refl refl) refl)
      (hands_over "/a" refl refl) refl

handles-SystemSteps : SystemSteps codes_env no_system (beside handles)
unfolding is_own start_pool
handles-SystemSteps =
    after_step (after_step fetches-SystemSteps (fetches_page [] [] "/a" answer refl) refl)
      (responds [] [] (http_get "/a" answer).1 refl refl) refl

abbrev page_done :
    (to : List Link) × (c : Crawler) × (extract_links (λ ls. ls) (groups front) []
      ≡ done (link_of front, to))
    × (process_response codes_env (crawler taken) "/a" (λ ls. ls) (groups front) [] ≡ done c)
    × LinksSent codes_env (reported codes_env (crawler taken) "/a" (link_of front) to) to c
page_done = process_response_lem codes_env (crawler taken) "/a" (λ ls. ls) front [] taken-UrlsFit

abbrev visit_item : Item
visit_item = record {
  key = little_endian 8 48879;
  value = write (record { message_type = visit; urls = "/a" ∷ [] });
}

abbrev heard :
    (e : Option MessageError) × (u : Urls) × (on_new_value codes_json
        (λ url. later)
        page_done.1.urls
        visit_item
      ≡ done (e, u))
    × UrlsFit u
    × ((k : String)
        → Set.has u.visited k
          ≡ elem k (item_visits (from_item codes_json visit_item))
            || Set.has page_done.1.urls.visited k)
heard = on_new_value_lem codes_json (λ url. later) page_done.1.urls visit_item page_done.4.fits

abbrev handled : Pool
handled = record handles { crawler = page_done.1; processor = receiving }

handled-SystemSteps : SystemSteps codes_env no_system (beside handled)
unfolding is_own http_get start_pool
handled-SystemSteps =
    after_step handles-SystemSteps
      (processes (λ ls. ls) front [] (http_get "/a" answer).1 page_done.1 refl page_done.3) refl

abbrev knows : Site
knows = record {
  pool = record handled { crawler = record page_done.1 { urls = heard.1 } };
  applied = visit_item ∷ [];
}

-- The first process has crawled its URL and applied its own visit.
abbrev system : System
system = record { log = visit_item ∷ []; sites = knows ∷ idle_site ∷ [] }

system-SystemSteps : SystemSteps codes_env no_system system
unfolding as_item
system-SystemSteps =
    let site : Site = record { pool = handled; applied = [] } in
    next
      (next handled-SystemSteps
        (commits [] (idle_site ∷ []) site [] _ visit_item refl page_done.4.told refl))
      (applies [] (idle_site ∷ []) site visit_item [] (λ url. later) heard.0 heard.1 refl refl
        heard.2)

system_agreement_example :
    ((k : String) → Set.has heard.1.visited k ≡ elem k (log_visits codes_json (visit_item ∷ [])))
    × ((rest : List Item) × (visit_item ∷ [] ≡ (visit_item ∷ []) ++ rest))
    × ((k : String)
        → Set.has heard.1.visited k ≡ true
        → has_sent_visit codes_json (map member_of system.sites) k ≡ true)
    × ((k : String) → Set.has heard.1.visited k ≡ true → Set.has heard.1.visited k ≡ true)
system_agreement_example =
    system_agreement codes_env system [] (idle_site ∷ []) [] (idle_site ∷ []) knows knows
      system-SystemSteps refl refl (omega arith)

request_spreads_example :
    (t : System) × SystemSteps codes_env (beside fetches) t
    × (length t.sites ≡ 2)
    × Each (λ n. Set.has n.pool.crawler.visited "/a" ≡ true) t.sites
request_spreads_example =
    request_spreads codes_env (λ r. front) (λ r. []) (λ url. later) (beside fetches) []
      (idle_site ∷ []) (record { pool = fetches; applied = [] }) [] [] "/a" answer
      codes_json-RoundTrips (λ earlier item read. refl) fetches-SystemSteps refl
      (unfold start_pool in refl) refl (unfold http_get in refl)
