-- ===== src/Crawler/Cluster/Kept.antt =====
-- What becomes of the URLs that the log mentions.
use ww_webcrawler.Prelude.{
  ◌≡◌, refl, sym, ap, subst, ◌∙◌, true, false, ◌||◌, String, string_comparable, List, [], ◌∷◌, ◌++◌,
  append_assoc, arith,
}
use ww_webcrawler.Sets.SyncMap.{load, elem, is_some}
use ww_webcrawler.Sets.Set
use ww_webcrawler.Sets.TimedSet
use ww_webcrawler.Sets.TimedSet.{TimedSet}
use ww_webcrawler.Crawler.Message.{Item, Json, from_item}
use ww_webcrawler.Crawler.State.{Urls, new_urls, Crawler, Env}
use ww_webcrawler.Crawler.Valid.{UrlsFit, new_urls-UrlsFit, put-UrlsFit}
use ww_webcrawler.Crawler.Claims.Evict.{evict_claims_lem}
use ww_webcrawler.Crawler.Handlers.Log.{elem-append, on_new_value_lem}
use ww_webcrawler.Crawler.Known.{
  is_known, item_urls, log_urls, log_urls-append, on_new_value-is_known,
}
use ww_webcrawler.Crawler.Exchange.{RoundTrips}
use ww_webcrawler.Crawler.NextUrl.Keeps.{Kept, Kept-same, next_url-Kept, evict_claims-is_known}
use ww_webcrawler.Crawler.Response.{process_response_lem}
use ww_webcrawler.Crawler.Cluster.{
  Act, seeds, chooses, processes, evicts, Member, Cluster, no_cluster, ClusterStep, starts, acts,
  commits, applies, ClusterSteps, here, next,
}
use ww_webcrawler.Prelude.{Each, member-Each, replaced-Each}

-- What a crawler does by itself.
Act-Kept :
    {env : Env} {c c' : Crawler}
    → RoundTrips env.json
    → Act env c c'
    → UrlsFit c.urls
    → Kept env c c'
unfolding is_known
Act-Kept {env} {c} trips (seeds url e q called) v =
    Kept-same env c (record c.urls { local_queue = q }) (put-UrlsFit c.urls url e q v called)
      (λ k. refl)
Act-Kept {env} {c} trips (chooses keys draw claims now r c' draws called) v =
    let (r', d, e, kept) = next_url-Kept env trips keys draw claims now c v draws in
    let same : d ≡ c' = cc in subst (Kept env c) same kept
Act-Kept {env} {c} trips (processes origin arrange page ms c' called) v =
    let (to, d, found, e, m) = process_response_lem env c origin arrange page ms v in
    let same : d ≡ c' = cc in
    subst (Kept env c) same (record {
      fits = m.fits;
      items = _;
      told = m.told ∙ append_assoc c.sent _ _;
      keeps = λ k h. ground (
        arith,
        h,
        ap (λ s. Set.has s k) m.same_visited,
        ap (λ (s : TimedSet String). is_some (load k s.sm)) m.same_claimed,
        ap (λ s. Set.has s k) m.same_pool,
      );
      adds_none = λ k h. ground (
        arith,
        h,
        ap (λ s. Set.has s k) m.same_visited,
        ap (λ (s : TimedSet String). is_some (load k s.sm)) m.same_claimed,
        ap (λ s. Set.has s k) m.same_pool,
      );
    })
Act-Kept {env} {c} trips (evicts keys now) v =
    Kept-same env c _ (evict_claims_lem now keys c.urls v).fits
      (evict_claims-is_known keys now c.urls v)

-- A member knows only URLs of the items that it has applied, and those that it does not know it has
-- put a message about.
pub record Retains (json : Json) (m : Member) : Type 0 where
  pub fits : UrlsFit m.crawler.urls
  pub from_log :
      (k : String) → is_known m.crawler.urls k ≡ true → elem k (log_urls json m.applied) ≡ true
  pub retained :
      (k : String)
      → elem k (log_urls json m.applied) ≡ true
      → (is_known m.crawler.urls k || elem k (log_urls json m.crawler.sent)) ≡ true

none_known : (k : String) → is_known new_urls k ≡ false
unfolding is_known Set.has new_urls Set.new_set TimedSet.new_timed_set load
none_known k = refl

start-Retains :
    (json : Json) (c : Crawler)
    → c.urls ≡ new_urls
    → Retains json (record { crawler = c; applied = [] })
start-Retains json c fresh = record {
  fits = subst UrlsFit (sym fresh) new_urls-UrlsFit;
  from_log = λ k h. sym (none_known k) ∙ ap (λ u. is_known u k) (sym fresh) ∙ h;
  retained = λ k h. cc;
}

act-Retains :
    {env : Env} (m : Member) (c : Crawler)
    → Kept env m.crawler c
    → Retains env.json m
    → Retains env.json (record m { crawler = c })
act-Retains {env} m c kept r = record {
  fits = kept.fits;
  from_log = λ k h. r.from_log k (kept.adds_none k h);
  retained = λ k h. ground (
    arith,
    h,
    r.retained k,
    kept.keeps k,
    ap (λ l. elem k (log_urls env.json l)) kept.told,
    log_urls-append env.json k m.crawler.sent kept.items,
  );
}

apply-Retains :
    {json : Json} (m : Member) (item : Item) (u : Urls)
    → UrlsFit u
    → ((k : String)
        → is_known u k ≡ elem k (item_urls (from_item json item)) || is_known m.crawler.urls k)
    → Retains json m
    → Retains json
        (record { crawler = record m.crawler { urls = u }; applied = m.applied ++ item ∷ [] })
apply-Retains {json} m item u v known r = record {
  fits = v;
  from_log = λ k h. ground (
    arith,
    h,
    known k,
    r.from_log k,
    log_urls-append json k m.applied (item ∷ []),
    elem-append k (item_urls (from_item json item)) [],
  );
  retained = λ k h. ground (
    arith,
    h,
    known k,
    r.retained k,
    log_urls-append json k m.applied (item ∷ []),
    elem-append k (item_urls (from_item json item)) [],
  );
}

ClusterStep-Retains :
    {env : Env} {s t : Cluster}
    → RoundTrips env.json
    → ClusterStep env s t
    → Each (Retains env.json) s.members
    → Each (Retains env.json) t.members
ClusterStep-Retains {env} trips (starts c fresh quiet) h = (start-Retains env.json c fresh, h)
ClusterStep-Retains {env} trips (acts before after m c at act) h =
    let all = subst (Each (Retains env.json)) at h in
    let r = member-Each (Retains env.json) before after m all in
    replaced-Each (Retains env.json) before after m _
      (act-Retains m c (Act-Kept trips act r.fits) r) all
ClusterStep-Retains trips (commits before after m earlier later item at from taken) h = h
ClusterStep-Retains {env} trips (applies before after m item rest now e u at more called) h =
    let all = subst (Each (Retains env.json)) at h in
    let r = member-Each (Retains env.json) before after m all in
    let (e', u', called', fits, seen) = on_new_value_lem env.json now m.crawler.urls item r.fits in
    let same : u' ≡ u = cc in
    replaced-Each (Retains env.json) before after m _
      (apply-Retains m item u (subst UrlsFit same fits)
        (on_new_value-is_known env.json now m.crawler.urls item e u r.fits called) r)
      all

ClusterSteps-Retains :
    {env : Env} {t : Cluster}
    → RoundTrips env.json
    → ClusterSteps env no_cluster t
    → Each (Retains env.json) t.members
ClusterSteps-Retains trips here = tt
ClusterSteps-Retains trips (next steps step) =
    ClusterStep-Retains trips step (ClusterSteps-Retains trips steps)

-- In every state that a cluster reaches from none, where a message is read back from its encoding: a
-- crawler knows (visited, claimed or in the pool) only URLs that the items it has applied mention.
-- A URL that they mention and that it does not know is in a message that it has put itself.
pub nothing_lost :
    (env : Env) (s : Cluster) (before after : List Member) (m : Member) (k : String)
    → RoundTrips env.json
    → ClusterSteps env no_cluster s
    → s.members ≡ before ++ m ∷ after
    → (is_known m.crawler.urls k ≡ true → elem k (log_urls env.json m.applied) ≡ true)
      × (elem k (log_urls env.json m.applied) ≡ true
          → (is_known m.crawler.urls k || elem k (log_urls env.json m.crawler.sent)) ≡ true)
nothing_lost env s before after m k trips steps at =
    let r =
      member-Each (Retains env.json) before after m
        (subst (Each (Retains env.json)) at (ClusterSteps-Retains trips steps)) in
    (r.from_log k, r.retained k)
