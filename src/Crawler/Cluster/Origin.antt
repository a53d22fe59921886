-- ===== src/Crawler/Cluster/Origin.antt =====
-- Where the visited URLs of a cluster come from.
use mathlib.Core.Bool.{false≢true}
use ww_webcrawler.Prelude.{
  ◌≡◌, refl, sym, ap, subst, ◌∙◌, Bool, Bool-cases, inl, inr, true, false, ◌||◌, String,
  string_comparable, List, [], ◌∷◌, ◌++◌, append_assoc, append-nil, arith,
}
use ww_webcrawler.Sets.SyncMap.{elem}
use ww_webcrawler.Sets.Set
use ww_webcrawler.Crawler.Message.{Item, Json, from_item}
use ww_webcrawler.Crawler.State.{Crawler, Env}
use ww_webcrawler.Crawler.Valid.{UrlsFit}
use ww_webcrawler.Crawler.Handlers.Log.{item_visits, log_visits, elem-append}
use ww_webcrawler.Crawler.NextUrl.Total.{next_url_total}
use ww_webcrawler.Crawler.Response.{process_response_lem}
use ww_webcrawler.Crawler.Cluster.{
  Act, seeds, chooses, processes, evicts, Member, Cluster, no_cluster, ClusterStep, starts, acts,
  commits, applies, ClusterSteps, here, next,
}
use ww_webcrawler.Prelude.{member-Each}
use ww_webcrawler.Crawler.Cluster.Agreement.{
  Follows, AllFollow, log_visits-append, ClusterSteps_lem,
}

-- What a crawler does by itself only adds to what it has sent.
Act-sent :
    {env : Env} {c c' : Crawler}
    → Act env c c'
    → UrlsFit c.urls
    → (items : List Item) × (c'.sent ≡ c.sent ++ items)
Act-sent {env} {c} (seeds url e q called) v = ([], sym (append-nil c.sent))
Act-sent {env} {c} (chooses keys draw claims now r c' draws called) v =
    let (r', d, e, fits, seen, told) = next_url_total env keys draw claims now c v draws in
    let same : d ≡ c' = cc in
    subst (λ x. (items : List Item) × (x.sent ≡ c.sent ++ items)) same told
Act-sent {env} {c} (processes origin arrange page ms c' called) v =
    let (to, d, found, e, made) = process_response_lem env c origin arrange page ms v in
    let same : d ≡ c' = cc in (_, ap (λ x. x.sent) (sym same) ∙ made.told ∙ append_assoc c.sent _ _)
Act-sent {env} {c} (evicts keys now) v = ([], sym (append-nil c.sent))

-- Whether some member has put a visit of `k`.
unfoldable pub has_sent_visit : Json → List Member → String → Bool
has_sent_visit json [] k = false
has_sent_visit json (m ∷ ms) k = elem k (log_visits json m.crawler.sent) || has_sent_visit json ms k

module _ (json : Json) (k : String) where
  sent_by_member :
      (before after : List Member) (m : Member)
      → elem k (log_visits json m.crawler.sent) ≡ true
      → has_sent_visit json (before ++ m ∷ after) k ≡ true
  unfolding has_sent_visit
  sent_by_member [] after m h = rw h refl
  sent_by_member (x ∷ before) after m h = ground (arith, sent_by_member before after m h)

  sent_after :
      (before after : List Member) (m m' : Member)
      → (elem k (log_visits json m.crawler.sent) ≡ true
          → elem k (log_visits json m'.crawler.sent) ≡ true)
      → has_sent_visit json (before ++ m ∷ after) k ≡ true
      → has_sent_visit json (before ++ m' ∷ after) k ≡ true
  unfolding has_sent_visit
  sent_after [] after m m' grows h = ground (arith, grows)
  sent_after (x ∷ before) after m m' grows h = ground (arith, sent_after before after m m' grows)

  ClusterStep-sent :
      {env : Env} {s t : Cluster}
      → ClusterStep env s t
      → AllFollow env.json s.log s.members
      → (elem k (log_visits json s.log) ≡ true → has_sent_visit json s.members k ≡ true)
      → elem k (log_visits json t.log) ≡ true
      → has_sent_visit json t.members k ≡ true
  unfolding has_sent_visit
  ClusterStep-sent (starts c fresh quiet) all ih h = ground (arith, ih h)
  ClusterStep-sent {env} {s} (acts before after m c at act) all ih h =
      let f =
        member-Each (Follows env.json s.log) before after m
          (subst (AllFollow env.json s.log) at all) in
      let (items, told) = Act-sent act f.fits in
      sent_after before after m (record m { crawler = c })
        (λ g.
          ap (λ l. elem k (log_visits json l)) told
          ∙ log_visits-append json k m.crawler.sent items
          ∙ rw g refl)
        (subst (λ ms. has_sent_visit json ms k ≡ true) at (ih h))
  ClusterStep-sent {env} {s} (commits before after m earlier later item at from taken) all ih h =
      elim (Bool-cases (elem k (item_visits (from_item json item)))) [
        | inl said ↦
            subst (λ ms. has_sent_visit json ms k ≡ true) (sym at)
              (sent_by_member before after m (
                ap (λ l. elem k (log_visits json l)) from
                ∙ ground (
                  arith,
                  said,
                  log_visits-append json k earlier (item ∷ later),
                  elem-append k (item_visits (from_item json item)) (log_visits json later),
                )))
        | inr silent ↦ ih (
            ground (
              arith,
              h,
              silent,
              log_visits-append json k s.log (item ∷ []),
              elem-append k (item_visits (from_item json item)) [],
            ))
      ]
  ClusterStep-sent {env} {s} (applies before after m item rest now e u at more called) all ih h =
      sent_after before after m _ (λ g. g) (subst (λ ms. has_sent_visit json ms k ≡ true) at (ih h))

  ClusterSteps-sent :
      {env : Env} {t : Cluster}
      → ClusterSteps env no_cluster t
      → elem k (log_visits json t.log) ≡ true
      → has_sent_visit json t.members k ≡ true
  ClusterSteps-sent here h = absurd (false≢true h)
  ClusterSteps-sent (next steps step) h =
      ClusterStep-sent step (ClusterSteps_lem steps tt) (ClusterSteps-sent steps) h

-- In every state that a cluster reaches from none: a URL that some crawler has marked as visited is
-- in a visit message that one of the crawlers has put.
pub visited_was_sent :
    (env : Env) (s : Cluster) (before after : List Member) (m : Member) (k : String)
    → ClusterSteps env no_cluster s
    → s.members ≡ before ++ m ∷ after
    → Set.has m.crawler.visited k ≡ true
    → has_sent_visit env.json s.members k ≡ true
visited_was_sent env s before after m k steps at visited =
    let f =
      member-Each (Follows env.json s.log) before after m
        (subst (AllFollow env.json s.log) at (ClusterSteps_lem steps tt)) in
    ClusterSteps-sent env.json k steps (
      ap (λ l. elem k (log_visits env.json l)) f.prefix
      ∙ log_visits-append env.json k m.applied f.left
      ∙ rw (sym (f.seen k) ∙ visited) refl)
