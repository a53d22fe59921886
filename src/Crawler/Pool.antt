-- ===== src/Crawler/Pool.antt =====
-- The goroutines of CrawlForever in crawler/crawler.go, and the channels between them, as a step
-- relation. `turn` is a buffered channel, `Requests` and `Responses` have no buffer: a send and its
-- receive are one step. A call of the crawler's functions is one step.
pub mod Invariant
pub mod Safety
pub mod Progress
pub mod Leak
use ww_webcrawler.Prelude.{
  ℕ, suc, ◌+◌, ◌<◌, ◌≡◌, Bool, true, false, String, Option, List, [], ◌∷◌, ◌++◌, map, done, Result,
  ok, err,
}
use ww_webcrawler.Sets.Time.{Time}
use ww_webcrawler.Services.Client.{Response, Answer, http_get}
use ww_webcrawler.Crawler.Link.{Link}
use ww_webcrawler.Crawler.Link.Extract.{Match, groups}
use ww_webcrawler.Crawler.Message.{Item}
use ww_webcrawler.Crawler.State.{Urls, Crawler, Env}
use ww_webcrawler.Crawler.Claims.{process_response, evict_claims}
use ww_webcrawler.Crawler.Handlers.{MessageError, on_new_value}
use ww_webcrawler.Crawler.NextUrl.{NextError, next_url}

-- main.go: the maximum of simultaneous requests
abbrev pub max_pool_size : ℕ
max_pool_size = 10

-- The loop of CrawlForever: at its head, in the `select` that hands a URL over, or returned.
pub data Looper : Type 0 where
  asking : Looper
  offering : String → Looper
  stopped : Looper

-- sendRequests: filling `turn`, waiting for a turn, waiting for a URL, or returned.
pub data Sender : Type 0 where
  filling : (i : ℕ) → Sender
  for_turn for_url : Sender
  stopped : Sender

-- processResponses: waiting for a response, with one, or returned.
pub data Processor : Type 0 where
  receiving : Processor
  handling : Response → Processor
  stopped : Processor

-- A goroutine that sendRequests has started: before its request, at the send of the response, or in
-- the deferred function.
pub data Fetch : Type 0 where
  fetching : String → Fetch
  answering : Response → Fetch
  returning : Fetch

pub record Pool : Type 0 where
  pub crawler : Crawler
  -- whether the context is done
  pub cancelled : Bool
  pub size : ℕ
  -- the tokens in `turn`
  pub turns : ℕ
  pub looper : Looper
  pub sender : Sender
  pub processor : Processor
  -- whether evictClaimsForever runs
  pub evicting : Bool
  pub fetches : List Fetch

unfoldable pub start_pool : Crawler → (size : ℕ) → Pool
start_pool c size = record {
  crawler = c;
  cancelled = false;
  size = size;
  turns = 0;
  looper = asking;
  sender = filling 0;
  processor = receiving;
  evicting = true;
  fetches = [];
}

-- The loop after the result of `NextUrl`: an error makes it sleep and start again.
abbrev pub after_next : Result NextError String → Looper
after_next (ok url) = offering url
after_next (err e) = asking

pub data Step (env : Env) (p : Pool) : Pool → Type 0 where
  -- the loop of CrawlForever
  asks :
      (keys : List String) (draw : ℕ → ℕ) (claims : List String) (now : String → Time)
      (r : Result NextError String) (c : Crawler)
      → p.looper ≡ asking
      → p.cancelled ≡ false
      → ((m : ℕ) → 0 < draw m)
      → next_url env keys draw claims now p.crawler ≡ done (r, c)
      → Step env p (record p { crawler = c; looper = after_next r })
  asking_ends :
      p.looper ≡ asking → p.cancelled ≡ true → Step env p (record p { looper = Looper.stopped })
  offering_ends :
      (url : String)
      → p.looper ≡ offering url
      → p.cancelled ≡ true
      → Step env p (record p { looper = Looper.stopped })
  hands_over :
      (url : String)
      → p.looper ≡ offering url
      → p.sender ≡ for_url
      → Step env p
          (record p { looper = asking; sender = for_turn; fetches = fetching url ∷ p.fetches })
  -- the loops of sendRequests
  fills :
      (i : ℕ)
      → p.sender ≡ filling i
      → i < p.size
      → Step env p (record p { turns = p.turns + 1; sender = filling (i + 1) })
  filled : p.sender ≡ filling p.size → Step env p (record p { sender = for_turn })
  takes_turn :
      (n : ℕ)
      → p.sender ≡ for_turn
      → p.turns ≡ suc n
      → Step env p (record p { turns = n; sender = for_url })
  for_turn_ends :
      p.sender ≡ for_turn → p.cancelled ≡ true → Step env p (record p { sender = Sender.stopped })
  for_url_ends :
      p.sender ≡ for_url → p.cancelled ≡ true → Step env p (record p { sender = Sender.stopped })
  -- a goroutine of sendRequests
  fetches_page :
      (before after : List Fetch) (url : String) (answer : Answer)
      → p.fetches ≡ before ++ fetching url ∷ after
      → Step env p (record p { fetches = before ++ answering (http_get url answer).1 ∷ after })
  responds :
      (before after : List Fetch) (r : Response)
      → p.fetches ≡ before ++ answering r ∷ after
      → p.processor ≡ receiving
      → Step env p (record p { processor = handling r; fetches = before ++ returning ∷ after })
  returns_turn :
      (before after : List Fetch)
      → p.fetches ≡ before ++ returning ∷ after
      → p.turns < p.size
      → Step env p (record p { turns = p.turns + 1; fetches = before ++ after })
  returning_ends :
      (before after : List Fetch)
      → p.fetches ≡ before ++ returning ∷ after
      → p.cancelled ≡ true
      → Step env p (record p { fetches = before ++ after })
  -- processResponses
  processes :
      (arrange : List Link → List Link) (page : Match) (ms : List Match) (r : Response)
      (c : Crawler)
      → p.processor ≡ handling r
      → process_response env p.crawler r.origin arrange (groups page) (map groups ms) ≡ done c
      → Step env p (record p { crawler = c; processor = receiving })
  receiving_ends :
      p.processor ≡ receiving
      → p.cancelled ≡ true
      → Step env p (record p { processor = Processor.stopped })
  -- evictClaimsForever
  evicts :
      (keys : List String) (now : String → Time)
      → p.evicting ≡ true
      → Step env p
          (record p { crawler = record p.crawler { urls = evict_claims keys now p.crawler.urls } })
  evicting_ends :
      p.evicting ≡ true → p.cancelled ≡ true → Step env p (record p { evicting = false })
  -- an item of the log, and the end of the context
  receives_item :
      (now : String → Time) (item : Item) (e : Option MessageError) (u : Urls)
      → on_new_value env.json now p.crawler.urls item ≡ done (e, u)
      → Step env p (record p { crawler = record p.crawler { urls = u } })
  cancels : Step env p (record p { cancelled = true })

pub data Steps (env : Env) (p : Pool) : Pool → Type 0 where
  here : Steps env p p
  next : {q r : Pool} → Steps env p q → Step env q r → Steps env p r
