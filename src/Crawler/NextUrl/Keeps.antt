-- ===== src/Crawler/NextUrl/Keeps.antt =====
-- No URL leaves a crawler's knowledge unannounced.
use mathlib.Core.Logic.{∥∥₁_elim}
use mathlib.Core.Bool.{Bool-set, or-false}
use ww_webcrawler.Prelude.{
  ℕ, ◌<◌, ◌≡◌, ◌∙◌, ◌++◌, sym, ap, append_assoc, append-nil, refl, Bool, true, false, ◌&&◌, ◌||◌,
  ◌=?◌, ltb, String, List, [], ◌∷◌, done, Result, Option, none, some, if◌then◌else◌, Bool-cases,
  inl, inr, is_positive, string_comparable, arith,
}
use ww_webcrawler.Queue.Get.{get_refines}
use ww_webcrawler.Queue.Capacity.{capacity-get}
use ww_webcrawler.Sets.SyncMap.{load, elem, is_some}
use ww_webcrawler.Sets.Set
use ww_webcrawler.Sets.Time.{Time}
use ww_webcrawler.Sets.TimedSet
use ww_webcrawler.Crawler.Message.{Item, claim, report}
use ww_webcrawler.Crawler.State.{Urls, Crawler, Env}
use ww_webcrawler.Crawler.Claims.{evict_claims}
use ww_webcrawler.Crawler.Claims.Sent.{items_of, ClaimsMade, claim_urls_lem}
use ww_webcrawler.Crawler.Claims.Evict.{is_expired, evict_claims_lem}
use ww_webcrawler.Crawler.Known.{is_known, log_urls, log_urls-append, elem-perm}
use ww_webcrawler.Crawler.Handlers.Log.{elem-append}
use ww_webcrawler.Crawler.Exchange.{RoundTrips, items_of-log_urls}
use ww_webcrawler.Crawler.NextUrl.{
  NextError, local_result, no_new_urls, pool_emptied, claim_from_pool, next_url,
}
use ww_webcrawler.Crawler.NextUrl.Total.{walk_total}
use ww_webcrawler.Crawler.Valid.{UrlsFit, with_queue-UrlsFit}

evicted_claim :
    (chosen pooled : Bool) (claim : Option Time) (now : Time)
    → (is_some (if chosen && is_expired claim now then none else claim)
        || (chosen && is_expired claim now || pooled))
      ≡ is_some claim || pooled
evicted_claim chosen pooled none now = ground arith
evicted_claim chosen pooled (some t) now = ground arith

-- An eviction moves URLs about.
pub evict_claims-is_known :
    (keys : List String) (now : String → Time) (u : Urls)
    → UrlsFit u
    → (k : String) → is_known (evict_claims keys now u) k ≡ is_known u k
unfolding is_known
evict_claims-is_known keys now u v k =
    let m = evict_claims_lem now keys u v in
    ground (
      arith,
      ap (λ s. Set.has s k) m.same_visited,
      m.pooled k,
      ap is_some (m.remaining k),
      evicted_claim (elem k keys) (Set.has u.global_pool k) (load k u.claimed.sm) (now k),
    )

-- A crawler `c'` still knows the URLs that `c` knows, or has put a message that mentions them since,
-- and knows no others.
pub record Kept (env : Env) (c c' : Crawler) : Type 0 where
  pub fits : UrlsFit c'.urls
  pub items : List Item
  pub told : c'.sent ≡ c.sent ++ items
  pub keeps :
      (k : String)
      → is_known c.urls k ≡ true
      → (is_known c'.urls k || elem k (log_urls env.json items)) ≡ true
  pub adds_none : (k : String) → is_known c'.urls k ≡ true → is_known c.urls k ≡ true

-- Nothing is put, and the same URLs are known.
pub Kept-same :
    (env : Env) (c : Crawler) (u : Urls)
    → UrlsFit u
    → ((k : String) → is_known u k ≡ is_known c.urls k)
    → Kept env c (record c { urls = u })
Kept-same env c u v same = record {
  fits = v;
  items = [];
  told = sym (append-nil c.sent);
  keeps = λ k h. rw (same k, h) refl;
  adds_none = λ k h. sym (same k) ∙ h;
}

module _ (env : Env) (trips : RoundTrips env.json) where
  -- A claim of `k` mentions it.
  claimed_mentions :
      (c : Crawler) (k : String) (c' : Crawler) (m : ClaimsMade env c (k ∷ []) c')
      → (j : String)
      → elem j (
          log_urls env.json (
            items_of env.json c.raft_id claim m.taken ++ items_of env.json c.raft_id report m.left))
        ≡ (k =? j)
  claimed_mentions c k c' m j =
      log_urls-append env.json j (items_of env.json c.raft_id claim m.taken) _
      ∙ rw
          (
            items_of-log_urls env.json c.raft_id claim m.taken trips refl j,
            items_of-log_urls env.json c.raft_id report m.left trips refl j,
          )
          (sym (elem-append j m.taken m.left)
            ∙ ∥∥₁_elim m.split (Bool-set _ _) (λ d. elem-perm j d)
            ∙ or-false (k =? j))

  -- A URL that is popped from the pool and claimed.
  claimed-Kept :
      (c : Crawler) (k : String) (pool : Set.Set String) (c' : Crawler)
      → Set.has c.global_pool k ≡ true
      → ((i : String) → Set.has pool i ≡ (if k =? i then false else Set.has c.global_pool i))
      → ClaimsMade env (record c { urls = record c.urls { global_pool = pool } }) (k ∷ []) c'
      → Kept env c c'
  unfolding is_known
  claimed-Kept c k pool c' there others m =
      let left = record c { urls = record c.urls { global_pool = pool } } in
      record {
        fits = m.fits;
        items =
            items_of env.json c.raft_id claim m.taken ++ items_of env.json c.raft_id report m.left;
        told = m.told ∙ append_assoc c.sent _ _;
        keeps = λ i h. ground (
          arith,
          h,
          others i,
          ap (λ s. Set.has s i) m.same_visited,
          ap (λ (s : TimedSet.TimedSet String). is_some (load i s.sm)) m.same_claimed,
          ap (λ s. Set.has s i) m.same_pool,
          claimed_mentions left k c' m i,
        );
        adds_none = λ i h. ground (
          arith,
          h,
          others i,
          ap (λ s. Set.has s i) m.same_visited,
          ap (λ (s : TimedSet.TimedSet String). is_some (load i s.sm)) m.same_claimed,
          ap (λ s. Set.has s i) m.same_pool,
        );
      }

  not_pooled :
      (u : Urls) (k : String) (pool : Set.Set String)
      → Set.has u.global_pool k ≡ false
      → ((i : String) → Set.has pool i ≡ (if k =? i then false else Set.has u.global_pool i))
      → (i : String) → is_known (record u { global_pool = pool }) i ≡ is_known u i
  unfolding is_known
  not_pooled u k pool absent others i =
      ground (arith, others i, absent, string_comparable.beq_iff k i)

  pub claim_from_pool-Kept :
      (keys : List String) (draw : ℕ → ℕ) (c : Crawler)
      → UrlsFit c.urls
      → ((m : ℕ) → 0 < draw m)
      → (r : Result NextError String) × (c' : Crawler) × (claim_from_pool env keys draw c
          ≡ done (r, c'))
        × Kept env c c'
  unfolding claim_from_pool Set.pop_random
  claim_from_pool-Kept keys draw c v h =
      let (k, walked) = walk_total (Set.size c.global_pool) draw 0 "" keys h in
      let popped = Set.pop c.global_pool k in
      let left = record c { urls = record c.urls { global_pool = popped.1 } } in
      let (there, pool_ok, others) = Set.Laws.pop_lem c.global_pool k v.pool_valid in
      let fits : UrlsFit left.urls = record {
        queue_fits = v.queue_fits;
        pool_valid = pool_ok;
        claimed_valid = v.claimed_valid;
        visited_valid = v.visited_valid;
      } in
      let (e, c', made, m) = claim_urls_lem env left (k ∷ []) fits in
      elim (Bool-cases popped.0) [
        | inl found ↦ (
          Result.ok k,
          c',
          rw (walked, found, made),
          (claimed-Kept c k popped.1 c' (sym there ∙ found) others m),
        )
        | inr gone ↦ (
          Result.err pool_emptied,
          left,
          rw (walked, gone),
          Kept-same env c left.urls fits (not_pooled c.urls k popped.1 (sym there ∙ gone) others),
        )
      ]

  -- `NextUrl` on consistent URLs, as long as no draw is 0, where a message is read back from its
  -- encoding.
  pub next_url-Kept :
      (keys : List String) (draw : ℕ → ℕ) (claims : List String) (now : String → Time) (c : Crawler)
      → UrlsFit c.urls
      → ((m : ℕ) → 0 < draw m)
      → (r : Result NextError String) × (c' : Crawler) × (next_url env keys draw claims now c
          ≡ done (r, c'))
        × Kept env c c'
  unfolding next_url
  next_url-Kept keys draw claims now c v h = elim (Bool-cases (ltb 0 c.local_queue.size)) [
    | inl busy ↦
        let (r, q, got, view, valid, exact) = get_refines c.local_queue v.queue_fits.valid in
        (
          local_result r,
          record c { urls = record c.urls { local_queue = q } },
          rw (busy, got),
          Kept-same env c (record c.urls { local_queue = q })
              (with_queue-UrlsFit c.urls q v (record {
                valid = valid;
                fits = capacity-get c.local_queue got ∙ v.queue_fits.fits;
              }))
              (unfold is_known in λ k. refl),
        )
    | inr idle ↦ elim (Bool-cases (is_positive (Set.size c.global_pool))) [
      | inl filled ↦
          let (r, c', e, kept) = claim_from_pool-Kept keys draw c v h in
          (r, c', rw (idle, filled) e, kept)
      | inr dry ↦ elim (Bool-cases (is_positive (TimedSet.size c.claimed))) [
        | inl some_claims ↦ (
          Result.err no_new_urls,
          record c { urls = evict_claims claims now c.urls },
          rw (idle, dry, some_claims),
          Kept-same env c _ (evict_claims_lem now claims c.urls v).fits
              (evict_claims-is_known claims now c.urls v),
        )
        | inr no_claims ↦ (
          Result.err no_new_urls,
          c,
          rw (idle, dry, no_claims),
          Kept-same env c c.urls v (λ k. refl),
        )
      ]
    ]
  ]
