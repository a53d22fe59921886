-- ===== src/Crawler/Pool/Safety.antt =====
-- What holds in every state that the goroutines reach.
use ww_webcrawler.Prelude.{
  ℕ, ◌+◌, ◌<◌, ◌≤◌, ◌≡◌, ◌≢◌, panicked, ◌∙◌, false, String, List, map, length, arith,
}
use ww_webcrawler.Sets.Time.{Time}
use ww_webcrawler.Crawler.Link.{Link}
use ww_webcrawler.Crawler.Link.Extract.{Match, groups}
use ww_webcrawler.Crawler.Message.{Item}
use ww_webcrawler.Crawler.State.{Crawler, Env}
use ww_webcrawler.Crawler.Valid.{UrlsFit}
use ww_webcrawler.Crawler.Claims.{process_response}
use ww_webcrawler.Crawler.Handlers.{on_new_value}
use ww_webcrawler.Crawler.Handlers.Log.{on_new_value_lem}
use ww_webcrawler.Crawler.NextUrl.{next_url}
use ww_webcrawler.Crawler.NextUrl.Total.{next_url_total}
use ww_webcrawler.Crawler.Response.{process_response_lem}
use ww_webcrawler.Crawler.Pool.{Pool, start_pool, Steps}
use ww_webcrawler.Crawler.Pool.Invariant.{tally, start_pool-PoolFits, Steps-PoolFits, Steps-size}

-- From a crawler with consistent URLs, whatever the goroutines do and in whatever order: the
-- goroutines with a request and the turns in the channel are together never more than the size of
-- the pool. Until the context is done no turn is lost: they and the turns of sendRequests are as
-- many as the size.
pub requests_bounded :
    (env : Env) (c : Crawler) (size : ℕ) (p : Pool)
    → UrlsFit c.urls
    → Steps env (start_pool c size) p
    → (p.turns + length p.fetches ≤ size) × (p.cancelled ≡ false → tally p ≡ size)
unfolding start_pool
requests_bounded env c size p v steps =
    let f = Steps-PoolFits steps (start_pool-PoolFits c size v) in
    let same = Steps-size steps in (omega (arith, f.tally_le, same), λ on. f.tally_eq on ∙ same)

-- From a crawler with consistent URLs, in every state that the goroutines reach: the call of
-- `NextUrl` does not panic, as long as no draw is 0, nor does the handling of any item of the log
-- or of any page of seven submatches each.
pub reachable_no_panic :
    (env : Env) (c : Crawler) (size : ℕ) (p : Pool)
    → UrlsFit c.urls
    → Steps env (start_pool c size) p
    → ((keys claims : List String) (draw : ℕ → ℕ) (now : String → Time)
        → ((m : ℕ) → 0 < draw m)
        → next_url env keys draw claims now p.crawler ≢ panicked)
      × ((now : String → Time) (item : Item)
          → on_new_value env.json now p.crawler.urls item ≢ panicked)
      × ((origin : String) (arrange : List Link → List Link) (page : Match) (ms : List Match)
          → process_response env p.crawler origin arrange (groups page) (map groups ms) ≢ panicked)
unfolding start_pool
reachable_no_panic env c size p v steps =
    let f = (Steps-PoolFits steps (start_pool-PoolFits c size v)).fits in
    (
      λ keys claims draw now draws e.
          let (r, c', called, fits, seen, told) =
            next_url_total env keys draw claims now p.crawler f draws in
          cc,
      λ now item e.
          let (x, u, called, fits, seen) = on_new_value_lem env.json now p.crawler.urls item f in
          cc,
      λ origin arrange page ms e.
          let (to, c', found, called, sent) =
            process_response_lem env p.crawler origin arrange page ms f in
          cc,
    )
