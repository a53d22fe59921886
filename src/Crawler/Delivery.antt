-- ===== src/Crawler/Delivery.antt =====
-- From one crawler to another: what the items that a crawler sends make of another that applies them.
use mathlib.Core.Logic.{∥∥₁_elim}
use mathlib.Core.Bool.{Bool-set, or-false}
use ww_webcrawler.Prelude.{
  ℕ, ◌+◌, ◌≡◌, append_assoc, refl, ap, ◌∙◌, ◌||◌, String, List, [], ◌∷◌, ◌++◌, map, done, length,
  ◌=?◌, string_comparable, arith,
}
use ww_webcrawler.Sets.SyncMap.{elem}
use ww_webcrawler.Sets.Set
use ww_webcrawler.Sets.Time.{Time}
use ww_webcrawler.Crawler.Link.{Link, extract_links}
use ww_webcrawler.Crawler.Link.Extract.{Match, groups, link_of}
use ww_webcrawler.Crawler.Message.{Item, Json, visit, claim, report}
use ww_webcrawler.Crawler.State.{Urls, Crawler, Env}
use ww_webcrawler.Crawler.Valid.{UrlsFit}
use ww_webcrawler.Crawler.Handlers.{on_url_claim, on_url_report, on_message}
use ww_webcrawler.Crawler.Handlers.Membership.{
  Visited, Claimed, Reported, on_url_visit_lem, on_url_claim_lem, on_url_report_lem,
}
use ww_webcrawler.Crawler.Handlers.Log.{apply_log, elem-append}
use ww_webcrawler.Crawler.Claims.{process_response}
use ww_webcrawler.Crawler.Claims.Sent.{items_of}
use ww_webcrawler.Crawler.Claims.Sort.{fresh_refs}
use ww_webcrawler.Crawler.Response.{process_response_lem}
use ww_webcrawler.Crawler.Known.{
  is_known, Visited-is_known, Claimed-is_known, Reported-is_known, elem-perm,
}
use ww_webcrawler.Crawler.Exchange.{RoundTrips, apply_log-append, apply_one, apply_none}

-- What the delivery of a message of `urls` makes of a crawler.
record Delivered (u : Urls) (urls : List String) (visits : List String) (u' : Urls) : Type 0 where
  fits : UrlsFit u'
  visited : (k : String) → Set.has u'.visited k ≡ elem k visits || Set.has u.visited k
  known : (k : String) → is_known u' k ≡ elem k urls || is_known u k

Delivered-none : (u : Urls) → UrlsFit u → Delivered u [] [] u
Delivered-none u v = record { fits = v; visited = λ k. refl; known = λ k. refl }

Visited-Delivered :
    (u : Urls) (urls : List String) (u' : Urls) → Visited u urls u' → Delivered u urls urls u'
Visited-Delivered u urls u' m = record {
  fits = m.fits;
  visited = m.now_visited;
  known = Visited-is_known u urls u' m;
}

Claimed-Delivered :
    (now : String → Time) (u : Urls) (urls : List String) (u' : Urls)
    → Claimed now u urls u'
    → Delivered u urls [] u'
Claimed-Delivered now u urls u' m = record {
  fits = m.fits;
  visited = m.same_visited;
  known = Claimed-is_known now u urls u' m;
}

Reported-Delivered :
    (u : Urls) (urls : List String) (u' : Urls) → Reported u urls u' → Delivered u urls [] u'
Reported-Delivered u urls u' m = record {
  fits = m.fits;
  visited = m.same_visited;
  known = Reported-is_known u urls u' m;
}

module _ (json : Json) (trips : RoundTrips json) (now : ℕ → String → Time) (id : ℕ) where
  deliver_visits :
      (n : ℕ) (u : Urls) (urls : List String)
      → UrlsFit u
      → (u' : Urls) × (apply_log json now n u (items_of json id visit urls) ≡ done u')
        × Delivered u urls urls u'
  unfolding on_message
  deliver_visits n u [] v = (u, apply_none json now n u, Delivered-none u v)
  deliver_visits n u (url ∷ urls) v =
      let (u', h, made) = on_url_visit_lem u (url ∷ urls) v in
      (
        u',
        apply_one json trips now n id u visit url urls ∙ rw h refl,
        Visited-Delivered u (url ∷ urls) u' made,
      )

  deliver_claims :
      (n : ℕ) (u : Urls) (urls : List String)
      → UrlsFit u
      → (u' : Urls) × (apply_log json now n u (items_of json id claim urls) ≡ done u')
        × Delivered u urls [] u'
  unfolding on_message
  deliver_claims n u [] v = (u, apply_none json now n u, Delivered-none u v)
  deliver_claims n u (url ∷ urls) v = (
    on_url_claim (now n) u (url ∷ urls),
    apply_one json trips now n id u claim url urls,
    Claimed-Delivered (now n) u (url ∷ urls) _ (on_url_claim_lem (now n) u (url ∷ urls) v),
  )

  deliver_reports :
      (n : ℕ) (u : Urls) (urls : List String)
      → UrlsFit u
      → (u' : Urls) × (apply_log json now n u (items_of json id report urls) ≡ done u')
        × Delivered u urls [] u'
  unfolding on_message
  deliver_reports n u [] v = (u, apply_none json now n u, Delivered-none u v)
  deliver_reports n u (url ∷ urls) v = (
    on_url_report u (url ∷ urls),
    apply_one json trips now n id u report url urls,
    Reported-Delivered u (url ∷ urls) _ (on_url_report_lem u (url ∷ urls) v),
  )

  -- The four messages of a page, in order.
  deliver_page :
      (n : ℕ) (u : Urls) (origin : String) (taken refused left : List String)
      → UrlsFit u
      → (u' : Urls) × (apply_log json now n u (
            items_of json id visit (origin ∷ [])
            ++ (items_of json id claim taken
                ++ (items_of json id report refused ++ items_of json id report left)))
          ≡ done u')
        × ((k : String) → Set.has u'.visited k ≡ (origin =? k) || Set.has u.visited k)
        × ((k : String)
            → is_known u' k ≡ (origin =? k) || elem k (taken ++ (refused ++ left)) || is_known u k)
  deliver_page n u origin taken refused left v =
      let (u1, h1, d1) = deliver_visits n u (origin ∷ []) v in
      let n1 = n + length (items_of json id visit (origin ∷ [])) in
      let (u2, h2, d2) = deliver_claims n1 u1 taken d1.fits in
      let n2 = n1 + length (items_of json id claim taken) in
      let (u3, h3, d3) = deliver_reports n2 u2 refused d2.fits in
      let n3 = n2 + length (items_of json id report refused) in
      let (u4, h4, d4) = deliver_reports n3 u3 left d3.fits in
      (
        u4,
        apply_log-append json now n u u1 u4 _ _ h1 (
            apply_log-append json now n1 u1 u2 u4 _ _ h2
              (apply_log-append json now n2 u2 u3 u4 _ _ h3 h4)),
        λ k.
            d4.visited k
            ∙ d3.visited k
            ∙ d2.visited k
            ∙ d1.visited k
            ∙ ap (λ b. b || Set.has u.visited k) (or-false (origin =? k)),
        λ k. ground (
          arith,
          d1.known k,
          d2.known k,
          d3.known k,
          d4.known k,
          elem-append k taken (refused ++ left),
          elem-append k refused left,
        ),
      )

-- A crawler with consistent URLs handles a page of seven submatches, and another with consistent
-- URLs applies the items sent for it, in order and at any times, where a message is read back from
-- its encoding. Neither panics. The other then has visited the page besides what it had, and knows
-- exactly (visited, claimed or in the pool) the page, the links that the first had not visited, and
-- what it knew before.
pub page_shared :
    (env : Env) (c : Crawler) (origin : String) (arrange : List Link → List Link) (page : Match)
    (ms : List Match) (now : ℕ → String → Time) (n : ℕ) (u : Urls)
    → RoundTrips env.json
    → UrlsFit c.urls
    → UrlsFit u
    → (to : List Link) × (c' : Crawler) × (items : List Item) × (u' : Urls) × (extract_links arrange
          (groups page)
          (map groups ms)
        ≡ done (link_of page, to))
      × (process_response env c origin arrange (groups page) (map groups ms) ≡ done c')
      × (c'.sent ≡ c.sent ++ items)
      × (apply_log env.json now n u items ≡ done u')
      × ((k : String) → Set.has u'.visited k ≡ (origin =? k) || Set.has u.visited k)
      × ((k : String)
          → is_known u' k ≡ (origin =? k) || elem k (fresh_refs c.visited to) || is_known u k)
page_shared env c origin arrange page ms now n u trips v w =
    let (to, c', found, handled, m) = process_response_lem env c origin arrange page ms v in
    let (u', applied, seen, known) =
      deliver_page env.json trips now c.raft_id n u origin m.taken m.refused m.left w in
    (
      to,
      c',
      _,
      u',
      found,
      handled,
      m.told ∙ append_assoc c.sent (items_of env.json c.raft_id visit (origin ∷ [])) _,
      applied,
      seen,
      λ k.
          known k
          ∙ ap (λ b. (origin =? k) || b || is_known u k)
              (∥∥₁_elim m.split (Bool-set _ _) (λ d. elem-perm k d)),
    )
