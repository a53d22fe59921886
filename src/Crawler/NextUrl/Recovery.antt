-- ===== src/Crawler/NextUrl/Recovery.antt =====
-- The call of `NextUrl` after an eviction.
use mathlib.Core.Bool.{false≢true, or-false}
use ww_webcrawler.Prelude.{
  ltb, le→ltb, is_positive, ℕ, ◌+◌, ◌^◌, ◌<◌, ◌≤◌, ◌≡◌, ◌∙◌, sym, subst, refl, ap, true, false,
  ◌||◌, Bool-cases, inl, inr, String, Option, none, some, List, [], ◌∷◌, done, Result, ok, err,
  length, string_comparable, arith,
}
use ww_webcrawler.Sets.SyncMap.{load, length-store, Visits}
use ww_webcrawler.Sets.Set
use ww_webcrawler.Sets.TimedSet
use ww_webcrawler.Sets.Time.{Time, before, add_seconds}
use ww_webcrawler.Crawler.State.{Urls, Crawler, Env, claim_timeout}
use ww_webcrawler.Crawler.Claims.{evict_claim, evict_claims}
use ww_webcrawler.Crawler.Claims.Evict.{is_expired, evict_all}
use ww_webcrawler.Crawler.NextUrl.{NextError, no_new_urls, next_url}
use ww_webcrawler.Crawler.NextUrl.Cases.{next_url_pool}
use ww_webcrawler.Crawler.Valid.{UrlsFit}

length-evict_claim :
    (u : Urls) (url : String) (claim : Option Time) (now : Time)
    → length (evict_claim u url claim now).global_pool.sm ≤ length u.global_pool.sm + 1
unfolding evict_claim Set.put
length-evict_claim u url none now = omega arith
length-evict_claim u url (some date) now =
    elim (Bool-cases (before (add_seconds date claim_timeout) now)) [
      | inl old ↦ rw old (ground (arith, length-store url true u.global_pool.sm))
      | inr young ↦ rw young (omega arith)
    ]

length-evict_claims :
    (keys : List String) (now : String → Time) (u : Urls)
    → length (evict_claims keys now u).global_pool.sm ≤ length u.global_pool.sm + length keys
unfolding evict_claims
length-evict_claims [] now u = omega arith
length-evict_claims (url ∷ keys) now u =
    let v = evict_claim u url (load url u.claimed.sm) (now url) in
    omega (
      arith,
      length-evict_claims keys now v,
      length-evict_claim u url (load url u.claimed.sm) (now url),
    )

claims_left :
    (m : List (String × Time)) (url : String) (now : Time)
    → is_expired (load url m) now ≡ true
    → 0 < length m
unfolding load
claims_left [] url now h = cc
claims_left (x ∷ m) url now h = omega arith

-- With the queue and the pool empty and some claims, the call evicts and fails.
next_url_dry :
    (env : Env) (keys claims : List String) (draw : ℕ → ℕ) (now : String → Time) (c : Crawler)
    → UrlsFit c.urls
    → c.local_queue.size ≡ 0
    → c.global_pool.sm ≡ []
    → 0 < length c.claimed.sm
    → length c.claimed.sm < 2 ^ 31
    → next_url env keys draw claims now c
      ≡ done (err no_new_urls, record c { urls = evict_claims claims now c.urls })
unfolding next_url
next_url_dry env keys claims draw now c v e nothing some_claims small =
    let idle : ltb 0 c.local_queue.size ≡ false = le→ltb 0 _ (omega arith) in
    let dry : is_positive (Set.size c.global_pool) ≡ false =
      rw (Set.Laws.size_lem c.global_pool v.pool_valid (rw nothing (omega arith)), nothing)
        (ground arith) in
    let claimed : is_positive (TimedSet.size c.claimed) ≡ true =
      rw (TimedSet.Laws.size_lem c.claimed v.claimed_valid small) (ground arith) in
    rw (idle, dry, claimed) refl

-- A call of `NextUrl` on an empty queue and a pool that holds some URL.
next_url_pooled :
    (env : Env) (keys claims : List String) (draw : ℕ → ℕ) (now : String → Time) (c : Crawler)
    (url : String)
    → UrlsFit c.urls
    → c.local_queue.size ≡ 0
    → Visits c.global_pool.sm keys
    → length c.global_pool.sm < 2 ^ 31
    → ((m : ℕ) → 0 < draw m)
    → Set.has c.global_pool url ≡ true
    → (k : String) × (c' : Crawler) × (next_url env keys draw claims now c ≡ done (ok k, c'))
      × (Set.has c.global_pool k ≡ true)
unfolding Set.has
next_url_pooled env [] claims draw now c url v e visits small draws there =
    absurd (false≢true (visits.all_keys url ∙ there))
next_url_pooled env (j ∷ js) claims draw now c url v e visits small draws there =
    let (k, pool, c', called, held, others, made) =
      next_url_pool env j js claims draw now c v e visits small draws in
    (k, c', called, unfold Set.has in held)

-- With consistent URLs, an empty local queue, an empty pool, fewer than 2 ^ 31 claims and one of them
-- expired, a call of `NextUrl` fails, and the next call, in whatever order it visits the pool and as
-- long as none of its draws is 0, returns a URL whose claim had expired.
pub next_url_recovers :
    (env : Env) (keys keys' claims claims' : List String) (draw draw' : ℕ → ℕ)
    (now now' : String → Time) (c c' : Crawler) (r : Result NextError String) (url : String)
    → UrlsFit c.urls
    → c.local_queue.size ≡ 0
    → c.global_pool.sm ≡ []
    → Visits c.claimed.sm claims
    → length c.claimed.sm < 2 ^ 31
    → is_expired (load url c.claimed.sm) (now url) ≡ true
    → next_url env keys draw claims now c ≡ done (r, c')
    → Visits c'.global_pool.sm keys'
    → ((m : ℕ) → 0 < draw' m)
    → (r ≡ err no_new_urls)
      × ((k : String) × (c'' : Crawler) × (next_url env keys' draw' claims' now' c'
            ≡ done (ok k, c''))
          × (is_expired (load k c.claimed.sm) (now k) ≡ true))
next_url_recovers env keys keys' claims claims' draw draw' now now' c c' r url v e nothing visits
      small old called visits' draws' =
    let evicts =
      next_url_dry env keys claims draw now c v e nothing
        (claims_left c.claimed.sm url (now url) old) small in
    let (fits, remaining, pooled, seen, queue) = evict_all now claims c.urls v visits in
    let same : record c { urls = evict_claims claims now c.urls } ≡ c' = cc in
    let bound : length (evict_claims claims now c.urls).global_pool.sm < 2 ^ 31 =
      omega (arith, length-evict_claims claims now c.urls, ap length nothing, visits.once) in
    let from_pool : (k : String)
        → Set.has (evict_claims claims now c.urls).global_pool k
          ≡ is_expired (load k c.claimed.sm) (now k) =
      λ k.
        pooled k
        ∙ ap (λ b. is_expired (load k c.claimed.sm) (now k) || b) (unpooled k)
        ∙ or-false _ in
    let expired : (k : String)
        → Set.has c'.global_pool k ≡ true
        → is_expired (load k c.claimed.sm) (now k) ≡ true =
      λ k held. sym (from_pool k) ∙ subst (λ d. Set.has d.global_pool k ≡ true) (sym same) held in
    let (k, c'', again, held) =
      next_url_pooled env keys' claims' draw' now' c' url (subst (λ d. UrlsFit d.urls) same fits)
        (subst (λ d. d.local_queue.size ≡ 0) same (ap (λ q. q.size) queue ∙ e)) visits'
        (subst (λ d. length d.global_pool.sm < 2 ^ 31) same bound) draws'
        (subst (λ d. Set.has d.global_pool url ≡ true) same (from_pool url ∙ old)) in
    (cc, (k, c'', again, expired k held))
  where
    unpooled : (k : String) → Set.has c.global_pool k ≡ false
    unpooled k = unfold Set.has load in rw nothing refl
