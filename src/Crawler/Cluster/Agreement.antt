-- ===== src/Crawler/Cluster/Agreement.antt =====
-- What the crawlers of a cluster agree on.
use ww_webcrawler.Prelude.{
  ◌≤◌, ◌≡◌, refl, sym, ap, subst, ◌∙◌, true, false, ◌||◌, String, string_comparable, List, [], ◌∷◌,
  ◌++◌, append_assoc, length, arith,
}
use ww_webcrawler.Sets.SyncMap.{load, elem}
use ww_webcrawler.Sets.Set
use ww_webcrawler.Crawler.Message.{Item, Json, from_item}
use ww_webcrawler.Crawler.State.{new_urls, Crawler, Env}
use ww_webcrawler.Crawler.Valid.{UrlsFit, new_urls-UrlsFit, put-UrlsFit}
use ww_webcrawler.Crawler.Claims.Evict.{evict_claims_lem}
use ww_webcrawler.Crawler.Handlers.Log.{item_visits, log_visits, elem-append, on_new_value_lem}
use ww_webcrawler.Crawler.NextUrl.Total.{next_url_total}
use ww_webcrawler.Crawler.Response.{process_response_lem}
use ww_webcrawler.Crawler.Cluster.{
  Act, seeds, chooses, processes, evicts, Member, Cluster, no_cluster, ClusterStep, starts, acts,
  commits, applies, ClusterSteps, here, next,
}
use ww_webcrawler.Prelude.{Each, member-Each, replaced-Each, weaker-Each}

-- What a crawler does by itself keeps its URLs consistent and marks none as visited.
Act_lem :
    {env : Env} {c c' : Crawler}
    → Act env c c'
    → UrlsFit c.urls
    → UrlsFit c'.urls × (c'.visited ≡ c.visited)
Act_lem {env} {c} (seeds url e q called) v = (put-UrlsFit c.urls url e q v called, refl)
Act_lem {env} {c} (chooses keys draw claims now r c' draws called) v =
    let (r', d, e, fits, seen, told) = next_url_total env keys draw claims now c v draws in
    let same : d ≡ c' = cc in
    subst (λ x. UrlsFit x.urls × (x.visited ≡ c.visited)) same (fits, seen)
Act_lem {env} {c} (processes origin arrange page ms c' called) v =
    let (to, d, found, e, sent) = process_response_lem env c origin arrange page ms v in
    let same : d ≡ c' = cc in
    subst (λ x. UrlsFit x.urls × (x.visited ≡ c.visited)) same (sent.fits, sent.same_visited)
Act_lem {env} {c} (evicts keys now) v =
    let m = evict_claims_lem now keys c.urls v in (m.fits, m.same_visited)

-- The URLs of a member are what the log that it has applied makes them.
pub record Follows (json : Json) (log : List Item) (m : Member) : Type 0 where
  pub fits : UrlsFit m.crawler.urls
  pub left : List Item
  pub prefix : log ≡ m.applied ++ left
  pub seen : (k : String) → Set.has m.crawler.visited k ≡ elem k (log_visits json m.applied)

abbrev pub AllFollow : Json → List Item → List Member → Type 0
AllFollow json log = Each (Follows json log)

-- A longer log.
longer-Follows :
    (json : Json) (log : List Item) (item : Item) (m : Member)
    → Follows json log m
    → Follows json (log ++ item ∷ []) m
longer-Follows json log item m f = record {
  fits = f.fits;
  left = f.left ++ item ∷ [];
  prefix = ap (λ l. l ++ item ∷ []) f.prefix ∙ append_assoc m.applied f.left (item ∷ []);
  seen = f.seen;
}

pub log_visits-append :
    (json : Json) (k : String) (xs ys : List Item)
    → elem k (log_visits json (xs ++ ys))
      ≡ elem k (log_visits json xs) || elem k (log_visits json ys)
log_visits-append json k [] ys = refl
log_visits-append json k (x ∷ xs) ys = ground (
  arith,
  log_visits-append json k xs ys,
  elem-append k (item_visits (from_item json x)) (log_visits json xs),
  elem-append k (item_visits (from_item json x)) (log_visits json (xs ++ ys)),
)

none_visited : (k : String) → Set.has new_urls.visited k ≡ false
unfolding Set.has new_urls Set.new_set load
none_visited k = refl

ClusterStep_lem :
    {env : Env} {s t : Cluster}
    → ClusterStep env s t
    → AllFollow env.json s.log s.members
    → AllFollow env.json t.log t.members
ClusterStep_lem {env} {s} (starts c fresh quiet) h = (
  record {
    fits = subst UrlsFit (sym fresh) new_urls-UrlsFit;
    left = s.log;
    prefix = refl;
    seen = λ k. ap (λ u. Set.has u.visited k) fresh ∙ none_visited k;
  },
  h,
)
ClusterStep_lem {env} {s} (acts before after m c at act) h =
    let here' = subst (AllFollow env.json s.log) at h in
    let f = member-Each (Follows env.json s.log) before after m here' in
    let (fits, seen) = Act_lem act f.fits in
    replaced-Each (Follows env.json s.log) before after m _
      (record {
        fits = fits;
        left = f.left;
        prefix = f.prefix;
        seen = λ k. ap (λ v. Set.has v k) seen ∙ f.seen k;
      })
      here'
ClusterStep_lem {env} {s} (commits before after m earlier later item at from taken) h =
    weaker-Each _ _ s.members (longer-Follows env.json s.log item) h
ClusterStep_lem {env} {s} (applies before after m item rest now e u at more called) h =
    let here' = subst (AllFollow env.json s.log) at h in
    let f = member-Each (Follows env.json s.log) before after m here' in
    let (e', u', called', fits, seen) = on_new_value_lem env.json now m.crawler.urls item f.fits in
    let same : u' ≡ u = cc in
    replaced-Each (Follows env.json s.log) before after m _
      (record {
        fits = subst UrlsFit same fits;
        left = rest;
        prefix = more ∙ sym (append_assoc m.applied (item ∷ []) rest);
        seen = λ k.
            ap (λ v. Set.has v.visited k) (sym same)
            ∙ ground (
              arith,
              seen k,
              f.seen k,
              log_visits-append env.json k m.applied (item ∷ []),
              elem-append k (item_visits (from_item env.json item)) [],
            );
      })
      here'

pub ClusterSteps_lem :
    {env : Env} {s t : Cluster}
    → ClusterSteps env s t
    → AllFollow env.json s.log s.members
    → AllFollow env.json t.log t.members
ClusterSteps_lem here h = h
ClusterSteps_lem (next steps step) h = ClusterStep_lem step (ClusterSteps_lem steps h)

-- Of two beginnings of one list the shorter begins the longer.
common_prefix :
    (xs ys l m : List Item)
    → xs ++ l ≡ ys ++ m
    → length xs ≤ length ys
    → (zs : List Item) × (ys ≡ xs ++ zs)
common_prefix [] ys l m e h = (ys, refl)
common_prefix (x ∷ xs) [] l m e h = absurd (omega (arith, h))
common_prefix (x ∷ xs) (y ∷ ys) l m e h =
    let (zs, k) = common_prefix xs ys l m (cc) (omega (arith, h)) in (zs, cc)

-- In every state that a cluster reaches from none, whatever its crawlers do and in whatever order:
-- the visited URLs of a crawler are those of the visits among the items that it has applied, which
-- begin the log. So of two crawlers, the one that has applied no more items than the other has
-- visited no URL that the other has not.
pub cluster_agreement :
    (env : Env) (s : Cluster) (before after before' after' : List Member) (m m' : Member)
    → ClusterSteps env no_cluster s
    → s.members ≡ before ++ m ∷ after
    → s.members ≡ before' ++ m' ∷ after'
    → length m.applied ≤ length m'.applied
    → ((k : String) → Set.has m.crawler.visited k ≡ elem k (log_visits env.json m.applied))
      × ((rest : List Item) × (s.log ≡ m.applied ++ rest))
      × ((k : String) → Set.has m.crawler.visited k ≡ true → Set.has m'.crawler.visited k ≡ true)
cluster_agreement env s before after before' after' m m' steps at at' no_more =
    let all = ClusterSteps_lem steps tt in
    let f =
      member-Each (Follows env.json s.log) before after m
        (subst (AllFollow env.json s.log) at all) in
    let f' =
      member-Each (Follows env.json s.log) before' after' m'
        (subst (AllFollow env.json s.log) at' all) in
    let (zs, longer) =
      common_prefix m.applied m'.applied f.left f'.left (sym f.prefix ∙ f'.prefix) no_more in
    (
      f.seen,
      (f.left, f.prefix),
      λ k h.
          f'.seen k
          ∙ ap (λ l. elem k (log_visits env.json l)) longer
          ∙ log_visits-append env.json k m.applied zs
          ∙ rw (sym (f.seen k) ∙ h) refl,
    )
