-- ===== src/Crawler/System.antt =====
-- Several processes of crawler/main.go, each with all the goroutines of its CrawlForever, over one
-- log: the step relation of Crawler/Pool in place of the calls that Crawler/Cluster takes of a
-- crawler.
pub mod Refine
pub mod Agreement
pub mod Spread
pub mod Answered
use ww_webcrawler.Prelude.{
  ℕ, ◌≡◌, Bool, true, false, Option, List, [], ◌∷◌, ◌++◌, String, string_comparable, map, done,
}
use ww_webcrawler.Queue
use ww_webcrawler.Queue.{QueueError, UniqueQueue}
use ww_webcrawler.Sets.Time.{Time}
use ww_webcrawler.Crawler.Message.{Item}
use ww_webcrawler.Crawler.State.{Urls, new_urls, Crawler, Env, is_put}
use ww_webcrawler.Crawler.Handlers.{MessageError, on_new_value}
use ww_webcrawler.Crawler.Pool.{Pool, start_pool, Step, receives_item}
use ww_webcrawler.Crawler.Cluster.{Member, Cluster}

-- A process: its goroutines, and the items of the log that its Raft node has given it.
pub record Site : Type 0 where
  pub pool : Pool
  pub applied : List Item

pub record System : Type 0 where
  pub log : List Item
  pub sites : List Site

abbrev pub no_system : System
no_system = record { log = []; sites = [] }

-- Whether a step is one of the process itself, or an item of the log that arrives.
unfoldable pub is_own : {env : Env} {p q : Pool} → Step env p q → Bool
is_own (receives_item now item e u called) = false
is_own _ = true

pub data SystemStep (env : Env) (s : System) : System → Type 0 where
  starts :
      (c : Crawler) (size : ℕ)
      → c.urls ≡ new_urls
      → c.sent ≡ []
      → SystemStep env s
          (record s { sites = record { pool = start_pool c size; applied = [] } ∷ s.sites })
  -- the `Put` of the first URL in crawler/main.go, before any goroutine runs
  seeds :
      (before after : List Site) (m : Site) (size : ℕ) (url : String) (e : Option QueueError)
      (q : UniqueQueue String)
      → s.sites ≡ before ++ m ∷ after
      → m.pool ≡ start_pool m.pool.crawler size
      → Queue.put m.pool.crawler.local_queue url ≡ done (e, q)
      → SystemStep env s (record s {
        sites =
            before
            ++ record m {
              pool =
                  start_pool
                    (record m.pool.crawler {
                      urls = record m.pool.crawler.urls { local_queue = q };
                    })
                    size;
            }
              ∷ after;
      })
  moves :
      (before after : List Site) (m : Site) (p : Pool)
      → s.sites ≡ before ++ m ∷ after
      → (step : Step env m.pool p) → is_own step ≡ true
      → SystemStep env s (record s { sites = before ++ record m { pool = p } ∷ after })
  commits :
      (before after : List Site) (m : Site) (earlier later : List Item) (item : Item)
      → s.sites ≡ before ++ m ∷ after
      → m.pool.crawler.sent ≡ earlier ++ item ∷ later
      → is_put env earlier item ≡ true
      → SystemStep env s (record s { log = s.log ++ item ∷ [] })
  applies :
      (before after : List Site) (m : Site) (item : Item) (rest : List Item) (now : String → Time)
      (e : Option MessageError) (u : Urls)
      → s.sites ≡ before ++ m ∷ after
      → s.log ≡ m.applied ++ item ∷ rest
      → on_new_value env.json now m.pool.crawler.urls item ≡ done (e, u)
      → SystemStep env s (record s {
        sites =
            before
            ++ record {
              pool = record m.pool { crawler = record m.pool.crawler { urls = u } };
              applied = m.applied ++ item ∷ [];
            }
              ∷ after;
      })

pub data SystemSteps (env : Env) (s : System) : System → Type 0 where
  here : SystemSteps env s s
  next : {t u : System} → SystemSteps env s t → SystemStep env t u → SystemSteps env s u

-- The crawler of a process, without its goroutines.
unfoldable pub member_of : Site → Member
member_of m = record { crawler = m.pool.crawler; applied = m.applied }

unfoldable pub cluster_of : System → Cluster
unfolding member_of
cluster_of s = record { log = s.log; members = map member_of s.sites }
