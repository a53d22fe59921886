-- ===== src/Crawler/NextUrl.antt =====
-- `NextUrl`: where the next URL to crawl comes from.
pub mod Cases
pub mod Total
pub mod Keeps
pub mod Recovery
use ww_webcrawler.Prelude.{
  string_comparable, ℕ, Bool, true, false, String, Option, none, some, List, [], ◌∷◌, Panics, done,
  ◌>>=◌, Result, ok, err, ltb, is_positive, if◌then◌else◌,
}
use ww_webcrawler.Queue
use ww_webcrawler.Queue.{QueueError, queue_full, queue_empty, queue_duplicate}
use ww_webcrawler.Sets.Set
use ww_webcrawler.Sets.Time.{Time}
use ww_webcrawler.Sets.TimedSet
use ww_webcrawler.Crawler.State.{Urls, Crawler, Env}
use ww_webcrawler.Crawler.Claims.{claim_urls, evict_claims}

pub data NextError : Type 0 where
  local_queue_error : QueueError → NextError
  pool_emptied no_new_urls : NextError

abbrev pub local_result : Result QueueError String → Result NextError String
local_result (ok url) = ok url
local_result (err e) = err (local_queue_error e)

-- The order and the draws are those of `PopRandom` on the global pool.
unfoldable pub claim_from_pool :
    Env → (keys : List String) → (ℕ → ℕ) → Crawler → Panics (Result NextError String × Crawler)
unfolding claim_urls
claim_from_pool env keys draw c = Set.pop_random keys draw c.global_pool >>= λ popped.
    let c' = record c { urls = record c.urls { global_pool = popped.2 } } in
    let claimed = claim_urls env c' (popped.0 ∷ []) in
    if popped.1 then (claimed >>= λ r. done (ok popped.0, r.1)) else done (err pool_emptied, c')

-- `claims` is the order of the eviction's `Range`, and `now` the clock's readings in it.
unfoldable pub next_url :
    Env
    → (keys : List String) → (ℕ → ℕ)
    → (claims : List String) → (now : String → Time) → Crawler
    → Panics (Result NextError String × Crawler)
unfolding claim_from_pool evict_claims
next_url env keys draw claims now c =
    if ltb 0 c.local_queue.size
    then (Queue.get c.local_queue >>= λ r.
        done (local_result r.0, record c { urls = record c.urls { local_queue = r.1 } }))
    else if is_positive (Set.size c.global_pool)
    then claim_from_pool env keys draw c
    else if is_positive (TimedSet.size c.claimed)
    then done (err no_new_urls, record c { urls = evict_claims claims now c.urls })
    else done (err no_new_urls, c)
