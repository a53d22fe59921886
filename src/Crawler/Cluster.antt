-- ===== src/Crawler/Cluster.antt =====
-- Several crawlers over one log, as a step relation: the calls of crawler/crawler.go that a crawler
-- makes by itself, and what the Raft library promises. It commits items that some crawler has put,
-- without an error or where the environment lets them linger, in one order, and gives each crawler the committed items in that order. A crawler starts, as in
-- crawler/main.go, with new URLs and nothing put.
pub mod Agreement
pub mod Origin
pub mod Kept
use ww_webcrawler.Prelude.{
  ℕ, true, ◌<◌, ◌≡◌, String, string_comparable, Option, List, [], ◌∷◌, ◌++◌, map, done, Result,
}
use ww_webcrawler.Queue
use ww_webcrawler.Queue.{QueueError, UniqueQueue}
use ww_webcrawler.Sets.Time.{Time}
use ww_webcrawler.Crawler.Link.{Link}
use ww_webcrawler.Crawler.Link.Extract.{Match, groups}
use ww_webcrawler.Crawler.Message.{Item}
use ww_webcrawler.Crawler.State.{Urls, new_urls, Crawler, Env, is_put}
use ww_webcrawler.Crawler.Claims.{process_response, evict_claims}
use ww_webcrawler.Crawler.Handlers.{MessageError, on_new_value}
use ww_webcrawler.Crawler.NextUrl.{NextError, next_url}

-- What a crawler does by itself: `seeds` is the `Put` of the first URL in crawler/main.go.
pub data Act (env : Env) (c : Crawler) : Crawler → Type 0 where
  seeds :
      (url : String) (e : Option QueueError) (q : UniqueQueue String)
      → Queue.put c.local_queue url ≡ done (e, q)
      → Act env c (record c { urls = record c.urls { local_queue = q } })
  chooses :
      (keys : List String) (draw : ℕ → ℕ) (claims : List String) (now : String → Time)
      (r : Result NextError String) (c' : Crawler)
      → ((m : ℕ) → 0 < draw m)
      → next_url env keys draw claims now c ≡ done (r, c')
      → Act env c c'
  processes :
      (origin : String) (arrange : List Link → List Link) (page : Match) (ms : List Match)
      (c' : Crawler)
      → process_response env c origin arrange (groups page) (map groups ms) ≡ done c'
      → Act env c c'
  evicts :
      (keys : List String) (now : String → Time)
      → Act env c (record c { urls = evict_claims keys now c.urls })

-- A crawler, with the items of the log that its Raft node has given it.
pub record Member : Type 0 where
  pub crawler : Crawler
  pub applied : List Item

pub record Cluster : Type 0 where
  pub log : List Item
  pub members : List Member

abbrev pub no_cluster : Cluster
no_cluster = record { log = []; members = [] }

pub data ClusterStep (env : Env) (s : Cluster) : Cluster → Type 0 where
  starts :
      (c : Crawler)
      → c.urls ≡ new_urls
      → c.sent ≡ []
      → ClusterStep env s (record s { members = record { crawler = c; applied = [] } ∷ s.members })
  acts :
      (before after : List Member) (m : Member) (c : Crawler)
      → s.members ≡ before ++ m ∷ after
      → Act env m.crawler c
      → ClusterStep env s (record s { members = before ++ record m { crawler = c } ∷ after })
  commits :
      (before after : List Member) (m : Member) (earlier later : List Item) (item : Item)
      → s.members ≡ before ++ m ∷ after
      → m.crawler.sent ≡ earlier ++ item ∷ later
      → is_put env earlier item ≡ true
      → ClusterStep env s (record s { log = s.log ++ item ∷ [] })
  applies :
      (before after : List Member) (m : Member) (item : Item) (rest : List Item)
      (now : String → Time) (e : Option MessageError) (u : Urls)
      → s.members ≡ before ++ m ∷ after
      → s.log ≡ m.applied ++ item ∷ rest
      → on_new_value env.json now m.crawler.urls item ≡ done (e, u)
      → ClusterStep env s (record s {
        members =
            before
            ++ record { crawler = record m.crawler { urls = u }; applied = m.applied ++ item ∷ [] }
              ∷ after;
      })

pub data ClusterSteps (env : Env) (s : Cluster) : Cluster → Type 0 where
  here : ClusterSteps env s s
  next : {t u : Cluster} → ClusterSteps env s t → ClusterStep env t u → ClusterSteps env s u
