-- ===== src/Tests/Pools.antt =====
-- The theorems on goroutines at a crawler with two turns.
use ww_webcrawler.Prelude.{
  ℕ, ◌+◌, ◌<◌, ◌≤◌, ◌≡◌, ◌≢◌, refl, String, true, false, List, [], ◌∷◌, map, done, panicked, ok,
  err, load_at, arith,
}
use ww_webcrawler.Queue
use ww_webcrawler.Sets.Time.{Time}
use ww_webcrawler.Services.Client.{Answer, http_get, nil_response}
use ww_webcrawler.Crawler.Link.{Link}
use ww_webcrawler.Crawler.Link.Extract.{Match, groups}
use ww_webcrawler.Crawler.Message.{Item}
use ww_webcrawler.Crawler.State.{Urls}
use ww_webcrawler.Crawler.Claims.{process_response}
use ww_webcrawler.Crawler.Handlers.{on_new_value}
use ww_webcrawler.Crawler.NextUrl.{next_url}
use ww_webcrawler.Crawler.Pool.{
  asking, offering, filling, for_turn, receiving, handling, Fetch, fetching, answering, returning,
  Pool, Processor, Sender, start_pool, Steps, here, next,
}
use ww_webcrawler.Crawler.Pool.Step.{asks, hands_over, fills, filled, takes_turn, for_turn_ends}
use ww_webcrawler.Crawler.Pool.Invariant.{tally}
use ww_webcrawler.Crawler.Pool.Safety.{requests_bounded, reachable_no_panic}
use ww_webcrawler.Crawler.Pool.Progress.{offer_taken, request_served}
use ww_webcrawler.Crawler.Pool.Leak.{responses_stuck}
use ww_webcrawler.Tests.Pages.{front}
use ww_webcrawler.Tests.Crawls.{env, busy, busy-UrlsFit, crawler, later}

-- `busy` without the URL that NextUrl returns
abbrev less_busy : Urls
less_busy = record busy { local_queue = record busy.local_queue { size = 1; head = 1 } }

asked :
    next_url env [] (λ n. 1) [] (λ url. later) (crawler busy) ≡ done (ok "/a", crawler less_busy)
unfolding next_url Queue.get load_at
asked = refl

abbrev offers : Pool
offers = record {
  crawler = crawler less_busy;
  cancelled = false;
  size = 2;
  turns = 0;
  looper = offering "/a";
  sender = filling 0;
  processor = receiving;
  evicting = true;
  fetches = [];
}

offers-Steps : Steps env (start_pool (crawler busy) 2) offers
unfolding start_pool
offers-Steps = next here (
    asks [] (λ n. 1) [] (λ url. later) (ok "/a") (crawler less_busy) refl refl (λ m. omega arith)
      asked)

abbrev requests : Pool
requests = record offers {
  turns = 1;
  looper = asking;
  sender = for_turn;
  fetches = fetching "/a" ∷ [];
}

requests-Steps : Steps env (start_pool (crawler busy) 2) requests
requests-Steps =
    next
      (next
        (next (next (next offers-Steps (fills 0 refl (omega arith))) (fills 1 refl (omega arith)))
          (filled refl))
        (takes_turn 1 refl refl))
      (hands_over "/a" refl refl)

requests_bounded_example : (1 + 1 ≤ 2) × (requests.cancelled ≡ false → tally requests ≡ 2)
requests_bounded_example =
    requests_bounded env (crawler busy) 2 requests busy-UrlsFit requests-Steps

reachable_no_panic_example :
    ((keys claims : List String) (draw : ℕ → ℕ) (now : String → Time)
      → ((m : ℕ) → 0 < draw m)
      → next_url env keys draw claims now requests.crawler ≢ panicked)
    × ((now : String → Time) (item : Item)
        → on_new_value env.json now requests.crawler.urls item ≢ panicked)
    × ((origin : String) (arrange : List Link → List Link) (page : Match) (ms : List Match)
        → process_response env requests.crawler origin arrange (groups page) (map groups ms)
          ≢ panicked)
reachable_no_panic_example =
    reachable_no_panic env (crawler busy) 2 requests busy-UrlsFit requests-Steps

abbrev refused : String → Answer
refused url = err "refused"

offer_taken_example :
    (q : Pool) × Steps env offers q
    × (q.looper ≡ asking)
    × ((rest : List Fetch) × (q.fetches ≡ fetching "/a" ∷ rest))
offer_taken_example =
    offer_taken env refused (λ r. front) (λ r. []) (crawler busy) 2 offers "/a" busy-UrlsFit
      (omega arith) offers-Steps refl refl

request_served_example :
    (q : Pool) × Steps env requests q
    × (q.processor ≡ handling (http_get "/a" (err "refused")).1)
    × (q.fetches ≡ returning ∷ [])
request_served_example =
    request_served env refused (λ r. front) (λ r. []) (crawler busy) 2 requests [] [] "/a"
      busy-UrlsFit requests-Steps refl refl

-- A request whose response comes after the end.
abbrev over : Pool
over = record requests {
  cancelled = true;
  processor = Processor.stopped;
  fetches = answering nil_response ∷ [];
}

abbrev over_later : Pool
over_later = record over { sender = Sender.stopped }

responses_stuck_example : (over_later.processor ≡ Processor.stopped) × (1 ≤ 1)
responses_stuck_example =
    responses_stuck {env = env} {p = over} (next here (for_turn_ends refl refl)) refl
