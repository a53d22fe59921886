-- ===== src/Crawler/NextUrl/Total.antt =====
-- `NextUrl` on consistent URLs, whatever the containers hold and in whatever order they are visited.
use ww_webcrawler.Prelude.{
  ℕ, ◌+◌, ◌%◌, ◌<◌, ◌≡◌, ◌∙◌, ◌++◌, sym, append_assoc, append-nil, refl, false, ◌==◌, ltb, String,
  List, [], ◌∷◌, done, Result, Bool-cases, inl, inr, ℤ, magnitude, is_positive, string_comparable,
  arith,
}
use ww_webcrawler.Queue.Get.{get_refines}
use ww_webcrawler.Queue.Capacity.{capacity-get}
use ww_webcrawler.Sets.Set
use ww_webcrawler.Sets.Time.{Time}
use ww_webcrawler.Sets.TimedSet
use ww_webcrawler.Crawler.Message.{Item}
use ww_webcrawler.Crawler.State.{Crawler, Env}
use ww_webcrawler.Crawler.Claims.{evict_claims}
use ww_webcrawler.Crawler.Claims.Sent.{claim_urls_lem}
use ww_webcrawler.Crawler.Claims.Evict.{evict_claims_lem}
use ww_webcrawler.Crawler.NextUrl.{
  NextError, local_result, no_new_urls, pool_emptied, claim_from_pool, next_url,
}
use ww_webcrawler.Crawler.Valid.{UrlsFit}

pub walk_total :
    (s : ℤ) (draw : ℕ → ℕ) (n : ℕ) (k : String) (keys : List String)
    → ((m : ℕ) → 0 < draw m)
    → (r : String) × (Set.walk s draw n k keys ≡ done r)
unfolding Set.walk
walk_total s draw n k [] h = (k, refl)
walk_total s draw n k (j ∷ js) h =
    let nonzero : (draw n == 0) ≡ false = ground (arith, h n) in
    elim (Bool-cases (magnitude s % draw n == 0)) [
      | inl stop ↦ (j, rw (nonzero, stop))
      | inr more ↦ let (r, e) = walk_total s draw (n + 1) j js h in (r, rw (nonzero, more) e)
    ]

nothing : (c : Crawler) → (items : List Item) × (c.sent ≡ c.sent ++ items)
nothing c = ([], sym (append-nil c.sent))

claim_from_pool_total :
    (env : Env) (keys : List String) (draw : ℕ → ℕ) (c : Crawler)
    → UrlsFit c.urls
    → ((m : ℕ) → 0 < draw m)
    → (r : Result NextError String) × (c' : Crawler) × (claim_from_pool env keys draw c
        ≡ done (r, c'))
      × UrlsFit c'.urls
      × (c'.visited ≡ c.visited)
      × ((items : List Item) × (c'.sent ≡ c.sent ++ items))
unfolding claim_from_pool Set.pop_random
claim_from_pool_total env keys draw c v h =
    let (k, walked) = walk_total (Set.size c.global_pool) draw 0 "" keys h in
    let popped = Set.pop c.global_pool k in
    let left = record c { urls = record c.urls { global_pool = popped.1 } } in
    let fits : UrlsFit left.urls = record {
      queue_fits = v.queue_fits;
      pool_valid = (Set.Laws.pop_lem c.global_pool k v.pool_valid).1;
      claimed_valid = v.claimed_valid;
      visited_valid = v.visited_valid;
    } in
    let (e, c', made, m) = claim_urls_lem env left (k ∷ []) fits in
    elim (Bool-cases popped.0) [
      | inl there ↦ (
        Result.ok k,
        c',
        rw (walked, there, made),
        m.fits,
        m.same_visited,
        (_, m.told ∙ append_assoc c.sent _ _),
      )
      | inr gone ↦ (Result.err pool_emptied, left, rw (walked, gone), fits, refl, nothing c)
    ]

-- On consistent URLs `NextUrl` never panics, as long as no draw is 0, and leaves consistent URLs,
-- with the same ones visited. It only adds to what is sent.
pub next_url_total :
    (env : Env) (keys : List String) (draw : ℕ → ℕ) (claims : List String) (now : String → Time)
    (c : Crawler)
    → UrlsFit c.urls
    → ((m : ℕ) → 0 < draw m)
    → (r : Result NextError String) × (c' : Crawler) × (next_url env keys draw claims now c
        ≡ done (r, c'))
      × UrlsFit c'.urls
      × (c'.visited ≡ c.visited)
      × ((items : List Item) × (c'.sent ≡ c.sent ++ items))
unfolding next_url
next_url_total env keys draw claims now c v h = elim (Bool-cases (ltb 0 c.local_queue.size)) [
  | inl busy ↦
      let (r, q, got, view, valid, exact) = get_refines c.local_queue v.queue_fits.valid in
      (
        local_result r,
        record c { urls = record c.urls { local_queue = q } },
        rw (busy, got),
        record {
          queue_fits = record {
            valid = valid;
            fits = capacity-get c.local_queue got ∙ v.queue_fits.fits;
          };
          pool_valid = v.pool_valid;
          claimed_valid = v.claimed_valid;
          visited_valid = v.visited_valid;
        },
        refl,
        nothing c,
      )
  | inr idle ↦ elim (Bool-cases (is_positive (Set.size c.global_pool))) [
    | inl filled ↦
        let (r, c', e, fits, seen, told) = claim_from_pool_total env keys draw c v h in
        (r, c', rw (idle, filled) e, fits, seen, told)
    | inr dry ↦ elim (Bool-cases (is_positive (TimedSet.size c.claimed))) [
      | inl some_claims ↦ (
        Result.err no_new_urls,
        record c { urls = evict_claims claims now c.urls },
        rw (idle, dry, some_claims),
        (evict_claims_lem now claims c.urls v).fits,
        (evict_claims_lem now claims c.urls v).same_visited,
        nothing c,
      )
      | inr no_claims ↦ (Result.err no_new_urls, c, rw (idle, dry, no_claims), v, refl, nothing c)
    ]
  ]
]
