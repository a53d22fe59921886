-- ===== src/Crawler/System/Agreement.antt =====
-- What all processes with their goroutines agree on.
use ww_webcrawler.Prelude.{◌≤◌, ◌≡◌, true, String, string_comparable, List, ◌∷◌, ◌++◌, map, length}
use ww_webcrawler.Sets.SyncMap.{elem}
use ww_webcrawler.Sets.Set
use ww_webcrawler.Crawler.Message.{Item}
use ww_webcrawler.Crawler.State.{Env}
use ww_webcrawler.Crawler.Handlers.Log.{log_visits}
use ww_webcrawler.Crawler.Cluster.Agreement.{cluster_agreement}
use ww_webcrawler.Crawler.Cluster.Origin.{has_sent_visit, visited_was_sent}
use ww_webcrawler.Crawler.System.{Site, System, no_system, SystemSteps, member_of, cluster_of}
use ww_webcrawler.Crawler.System.Refine.{member_at, system_refines}

-- In every state that processes with their goroutines reach over one log: the visited URLs of a
-- process are those of the visits among the items that it has applied, which begin the log, and some
-- process has put a visit of each. So of two processes, the one that has applied no more items than
-- the other has visited no URL that the other has not.
pub system_agreement :
    (env : Env) (s : System) (before after before' after' : List Site) (m m' : Site)
    → SystemSteps env no_system s
    → s.sites ≡ before ++ m ∷ after
    → s.sites ≡ before' ++ m' ∷ after'
    → length m.applied ≤ length m'.applied
    → ((k : String) → Set.has m.pool.crawler.visited k ≡ elem k (log_visits env.json m.applied))
      × ((rest : List Item) × (s.log ≡ m.applied ++ rest))
      × ((k : String)
          → Set.has m.pool.crawler.visited k ≡ true
          → has_sent_visit env.json (map member_of s.sites) k ≡ true)
      × ((k : String)
          → Set.has m.pool.crawler.visited k ≡ true
          → Set.has m'.pool.crawler.visited k ≡ true)
unfolding member_of cluster_of
system_agreement env s before after before' after' m m' steps at at' no_more =
    let run = (system_refines env s steps).0 in
    let here = member_at s before after m at in
    let (seen, begins, shared) =
      cluster_agreement env (cluster_of s) (map member_of before) (map member_of after)
        (map member_of before') (map member_of after') (member_of m) (member_of m') run here
        (member_at s before' after' m' at') no_more in
    (
      seen,
      begins,
      λ k visited.
          visited_was_sent env (cluster_of s) (map member_of before) (map member_of after)
            (member_of m) k run here visited,
      shared,
    )
