-- ===== src/Crawler/Exclusion.antt =====
-- What a claim of one crawler keeps another from: nothing that is in its pool.
use ww_webcrawler.Prelude.{
  ℕ, ◌<◌, ◌≡◌, refl, sym, ap, subst, ◌∙◌, true, Bool-cases, inl, inr, String, string_comparable,
  none, List, [], ◌∷◌, ◌++◌, done, ok, ◌=?◌, arith,
}
use ww_webcrawler.Sets.SyncMap.{load, Visits}
use ww_webcrawler.Sets.Time.{Time}
use ww_webcrawler.Sets.Set
use ww_webcrawler.Sets.Set.{Set}
use ww_webcrawler.Crawler.Message.{Item, claim}
use ww_webcrawler.Crawler.State.{Urls, Crawler, Env}
use ww_webcrawler.Crawler.Valid.{UrlsFit}
use ww_webcrawler.Crawler.Handlers.{on_url_claim, on_message, on_new_value}
use ww_webcrawler.Crawler.Claims.Sent.{items_of}
use ww_webcrawler.Crawler.Handlers.Membership.{on_url_claim_lem}
use ww_webcrawler.Crawler.Exchange.{RoundTrips, items_of_one, on_new_value-ok}
use ww_webcrawler.Crawler.NextUrl.{next_url}
use ww_webcrawler.Crawler.NextUrl.Cases.{next_url_pool}

single-Visits : (url : String) (s : Set String) → s.sm ≡ (url, true) ∷ [] → Visits s.sm (url ∷ [])
unfolding load
single-Visits url s e = rw e (record { all_keys = λ k. ground arith; once = refl })

single_only :
    (url k : String) (s : Set String) → s.sm ≡ (url, true) ∷ [] → Set.has s k ≡ true → k ≡ url
unfolding Set.has load
single_only url k s e h = elim (Bool-cases (url =? k)) [
  | inl same ↦ sym ((string_comparable.beq_iff url k).0 same)
  | inr other ↦ cc (rw (e, other) at h)
]

next_url_single :
    (env : Env) (url : String) (claims : List String) (draw : ℕ → ℕ) (now : String → Time)
    (c : Crawler)
    → UrlsFit c.urls
    → c.local_queue.size ≡ 0
    → c.global_pool.sm ≡ (url, true) ∷ []
    → ((m : ℕ) → 0 < draw m)
    → (c' : Crawler) × (next_url env (url ∷ []) draw claims now c ≡ done (ok url, c'))
      × (c'.sent ≡ c.sent ++ items_of env.json c.raft_id claim (url ∷ []))
next_url_single env url claims draw now c v e pool draws =
    let (k, left, c', called, there, others, made) =
      next_url_pool env url [] claims draw now c v e (single-Visits url c.global_pool pool)
        (rw pool (omega arith)) draws in
    let same : k ≡ url = single_only url k c.global_pool pool there in
    (
      c',
      subst (λ i. next_url env (url ∷ []) draw claims now c ≡ done (ok i, c')) same called,
      subst (λ i. c'.sent ≡ c.sent ++ items_of env.json c.raft_id claim (i ∷ [])) same made.told,
    )

-- Two crawlers with consistent URLs and empty local queues have the same single URL in their pools,
-- no draw is 0, and a message is read back from its encoding. The first takes the URL and claims
-- it; the second applies the claim, and then its NextUrl returns the URL as well.
pub claimed_again :
    (env : Env) (url : String) (claims claims' : List String) (draw draw' : ℕ → ℕ)
    (now now' received : String → Time) (c d : Crawler)
    → RoundTrips env.json
    → UrlsFit c.urls
    → UrlsFit d.urls
    → c.local_queue.size ≡ 0
    → d.local_queue.size ≡ 0
    → c.global_pool.sm ≡ (url, true) ∷ []
    → d.global_pool.sm ≡ (url, true) ∷ []
    → ((m : ℕ) → 0 < draw m)
    → ((m : ℕ) → 0 < draw' m)
    → (c' : Crawler) × (item : Item) × (u : Urls) × (d' : Crawler) × (next_url env
          (url ∷ [])
          draw
          claims
          now
          c
        ≡ done (ok url, c'))
      × (c'.sent ≡ c.sent ++ item ∷ [])
      × (on_new_value env.json received d.urls item ≡ done (none, u))
      × (next_url env (url ∷ []) draw' claims' now' (record d { urls = u }) ≡ done (ok url, d'))
unfolding on_message
claimed_again env url claims claims' draw draw' now now' received c d trips v w e e' pool pool'
      draws draws' =
    let (c', first, told) = next_url_single env url claims draw now c v e pool draws in
    let (item, one, read) = items_of_one env.json c.raft_id claim url [] trips in
    let u = on_url_claim received d.urls (url ∷ []) in
    let m = on_url_claim_lem received d.urls (url ∷ []) w in
    let (d', second, told') =
      next_url_single env url claims' draw' now' (record d { urls = u }) m.fits
        (ap (λ q. q.size) m.same_queue ∙ e') (ap (λ s. s.sm) m.same_pool ∙ pool') draws' in
    (
      c',
      item,
      u,
      d',
      first,
      told ∙ ap (◌++◌ c.sent) one,
      on_new_value-ok env.json received d.urls item _ read,
      second,
    )
