-- ===== src/Crawler/System/Refine.antt =====
-- What the goroutines of the processes do is what Crawler/Cluster and Crawler/Pool say of a crawler.
use ww_webcrawler.Prelude.{
  ℕ, ◌≡◌, refl, sym, ap, subst, ◌∙◌, true, ◌⊎◌, inl, inr, List, [], ◌∷◌, ◌++◌, map, Each,
  member-Each, replaced-Each,
}
use mathlib.Core.Bool.{false≢true}
use ww_webcrawler.Crawler.Message.{Item}
use ww_webcrawler.Crawler.State.{Crawler, Env}
use ww_webcrawler.Crawler.Valid.{UrlsFit, new_urls-UrlsFit, put-UrlsFit}
use ww_webcrawler.Crawler.Pool.Invariant.{PoolFits, start_pool-PoolFits, Steps-PoolFits}
use ww_webcrawler.Crawler.Pool.{
  Pool, start_pool, Step, Steps, asks, asking_ends, offering_ends, hands_over, fills, filled,
  takes_turn, for_turn_ends, for_url_ends, fetches_page, responds, returns_turn, returning_ends,
  processes, receiving_ends, evicts, evicting_ends, receives_item, cancels,
}
use ww_webcrawler.Crawler.Cluster.{Act, Cluster, no_cluster, ClusterStep, ClusterSteps}
use ww_webcrawler.Crawler.System.{
  Site, System, no_system, is_own, SystemStep, starts, seeds, moves, commits, applies, SystemSteps,
  here, next, member_of, cluster_of,
}

-- A step of a process is a call of its crawler, or leaves its crawler as it is.
own-Act :
    {env : Env} {p q : Pool} (step : Step env p q)
    → is_own step ≡ true
    → Act env p.crawler q.crawler ⊎ (q.crawler ≡ p.crawler)
unfolding is_own
own-Act (asks keys draw claims now r c asking on draws called) own =
    inl (Act.chooses keys draw claims now r c draws called)
own-Act (asking_ends a b) own = inr refl
own-Act (offering_ends url a b) own = inr refl
own-Act (hands_over url a b) own = inr refl
own-Act (fills i a b) own = inr refl
own-Act (filled a) own = inr refl
own-Act (takes_turn n a b) own = inr refl
own-Act (for_turn_ends a b) own = inr refl
own-Act (for_url_ends a b) own = inr refl
own-Act (fetches_page before after url answer a) own = inr refl
own-Act (responds before after r a b) own = inr refl
own-Act (returns_turn before after a b) own = inr refl
own-Act (returning_ends before after a b) own = inr refl
own-Act (processes arrange page ms r c a called) own =
    inl (Act.processes r.origin arrange page ms c called)
own-Act (receiving_ends a b) own = inr refl
own-Act (evicts keys now a) own = inl (Act.evicts keys now)
own-Act (evicting_ends a b) own = inr refl
own-Act (receives_item now item e u called) own = absurd (false≢true own)
own-Act cancels own = inr refl

map-append :
    (before after : List Site) (m : Site)
    → map member_of (before ++ m ∷ after)
      ≡ map member_of before ++ member_of m ∷ map member_of after
map-append [] after m = refl
map-append (x ∷ before) after m = ap (◌∷◌ (member_of x)) (map-append before after m)

-- The cluster of a system, with one of its processes in the middle.
cluster_of-append :
    (log : List Item) (before after : List Site) (m : Site)
    → cluster_of (record { log = log; sites = before ++ m ∷ after })
      ≡ (record { log = log; members = map member_of before ++ member_of m ∷ map member_of after })
unfolding cluster_of
cluster_of-append log before after m =
    ap (λ ms. let c : Cluster = record { log = log; members = ms } in c) (map-append before after m)

pub member_at :
    (s : System) (before after : List Site) (m : Site)
    → s.sites ≡ before ++ m ∷ after
    → (cluster_of s).members ≡ map member_of before ++ member_of m ∷ map member_of after
unfolding cluster_of
member_at s before after m at = ap (map member_of) at ∙ map-append before after m

-- A step that changes one member of the cluster.
replaced :
    {env : Env} (s : System) (before after : List Site) (m : Site)
    → ClusterSteps env no_cluster (cluster_of s)
    → ClusterStep env (cluster_of s) (record {
      log = s.log;
      members = map member_of before ++ member_of m ∷ map member_of after;
    })
    → ClusterSteps env no_cluster (cluster_of (record s { sites = before ++ m ∷ after }))
replaced {env} s before after m steps step =
    subst (ClusterSteps env no_cluster) (sym (cluster_of-append s.log before after m))
      (ClusterSteps.next steps step)

same_members :
    (s : System) (before after : List Site) (m : Site) (p : Pool)
    → s.sites ≡ before ++ m ∷ after
    → p.crawler ≡ m.pool.crawler
    → map member_of s.sites ≡ map member_of (before ++ record m { pool = p } ∷ after)
unfolding member_of
same_members s before after m p at same =
    ap (map member_of) at
    ∙ map-append before after m
    ∙ ap
        (λ c.
          map member_of before ++ record { crawler = c; applied = m.applied } ∷ map member_of after)
        (sym same)
    ∙ sym (map-append before after (record m { pool = p }))

SystemStep-ClusterSteps :
    {env : Env} {s t : System}
    → ClusterSteps env no_cluster (cluster_of s)
    → SystemStep env s t
    → ClusterSteps env no_cluster (cluster_of t)
unfolding cluster_of member_of start_pool
SystemStep-ClusterSteps {env} {s} steps (starts c size fresh quiet) =
    ClusterSteps.next steps (ClusterStep.starts c fresh quiet)
SystemStep-ClusterSteps {env} {s} steps (seeds before after m size url e q at idle called) =
    replaced s before after _ steps (
      ClusterStep.acts (map member_of before) (map member_of after) (member_of m) _
        (member_at s before after m at) (Act.seeds url e q called))
SystemStep-ClusterSteps {env} {s} steps (moves before after m p at step own) =
    elim (own-Act step own) [
      | inl act ↦
          replaced s before after (record m { pool = p }) steps
            (ClusterStep.acts (map member_of before) (map member_of after) (member_of m) p.crawler
              (member_at s before after m at) act)
      | inr same ↦
          subst (ClusterSteps env no_cluster)
            (ap (λ ms. let c : Cluster = record { log = s.log; members = ms } in c)
              (same_members s before after m p at same))
            steps
    ]
SystemStep-ClusterSteps {env} {s} steps (commits before after m earlier later item at from taken) =
    ClusterSteps.next steps (
      ClusterStep.commits (map member_of before) (map member_of after) (member_of m) earlier later
        item (member_at s before after m at) from taken)
SystemStep-ClusterSteps {env} {s} steps (applies before after m item rest now e u at more called) =
    replaced s before after _ steps (
      ClusterStep.applies (map member_of before) (map member_of after) (member_of m) item rest now e
        u (member_at s before after m at) more called)

-- The goroutines of a process have reached its state from a start of CrawlForever with consistent URLs.
pub record Reached (env : Env) (m : Site) : Type 0 where
  pub crawler : Crawler
  pub size : ℕ
  pub fits : UrlsFit crawler.urls
  pub steps : Steps env (start_pool crawler size) m.pool

pub Reached-PoolFits : {env : Env} (m : Site) → Reached env m → PoolFits m.pool
unfolding start_pool
Reached-PoolFits m r = Steps-PoolFits r.steps (start_pool-PoolFits r.crawler r.size r.fits)

SystemStep-Reached :
    {env : Env} {s t : System}
    → Each (Reached env) s.sites
    → SystemStep env s t
    → Each (Reached env) t.sites
SystemStep-Reached all (starts c size fresh quiet) = (
  record {
    crawler = c;
    size = size;
    fits = subst UrlsFit (sym fresh) new_urls-UrlsFit;
    steps = Steps.here;
  },
  all,
)
SystemStep-Reached {env} {s} all (seeds before after m size url e q at idle called) =
    let all' = subst (Each (Reached env)) at all in
    let r = member-Each (Reached env) before after m all' in
    replaced-Each (Reached env) before after m _
      (record {
        crawler = record m.pool.crawler { urls = record m.pool.crawler.urls { local_queue = q } };
        size = size;
        fits = put-UrlsFit m.pool.crawler.urls url e q (Reached-PoolFits m r).fits called;
        steps = Steps.here;
      })
      all'
SystemStep-Reached {env} {s} all (moves before after m p at step own) =
    let all' = subst (Each (Reached env)) at all in
    let r = member-Each (Reached env) before after m all' in
    replaced-Each (Reached env) before after m _
      (record {
        crawler = r.crawler;
        size = r.size;
        fits = r.fits;
        steps = Steps.next r.steps step;
      })
      all'
SystemStep-Reached all (commits before after m earlier later item at from taken) = all
SystemStep-Reached {env} {s} all (applies before after m item rest now e u at more called) =
    let all' = subst (Each (Reached env)) at all in
    let r = member-Each (Reached env) before after m all' in
    replaced-Each (Reached env) before after m _
      (record {
        crawler = r.crawler;
        size = r.size;
        fits = r.fits;
        steps = Steps.next r.steps (receives_item now item e u called);
      })
      all'

-- Several processes, each with all the goroutines of its CrawlForever, in every state that they reach
-- over one log: the crawlers are in a state that a cluster reaches from none, and the goroutines of
-- each process are in a state that they reach from a start of CrawlForever with consistent URLs.
pub system_refines :
    (env : Env) (s : System)
    → SystemSteps env no_system s
    → ClusterSteps env no_cluster (cluster_of s) × Each (Reached env) s.sites
unfolding cluster_of
system_refines env s here = (ClusterSteps.here, tt)
system_refines env s (next steps step) =
    let (earlier, all) = system_refines env _ steps in
    (SystemStep-ClusterSteps earlier step, SystemStep-Reached all step)
