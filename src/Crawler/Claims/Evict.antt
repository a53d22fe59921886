-- ===== src/Crawler/Claims/Evict.antt =====
-- `evictClaims`: expired claims go back to the pool, in whatever order they are visited.
use ww_webcrawler.Prelude.{
  ◌≡◌, refl, ap, ◌∙◌, Bool, true, false, ◌&&◌, ◌||◌, String, Option, none, some, List, [], ◌∷◌,
  ◌=?◌, if◌then◌else◌, Bool-cases, inl, inr, string_comparable, arith,
}
use ww_webcrawler.Sets.SyncMap.{load, elem, is_some, Visits}
use ww_webcrawler.Sets.Set
use ww_webcrawler.Sets.Time.{Time, before, add_seconds}
use ww_webcrawler.Sets.TimedSet
use ww_webcrawler.Crawler.State.{Urls, claim_timeout}
use ww_webcrawler.Crawler.Claims.{evict_claim, evict_claims}
use ww_webcrawler.Crawler.Valid.{UrlsFit}

-- Whether a claim's time, if there is a claim, is more than the timeout before `now`.
abbrev pub is_expired : Option Time → Time → Bool
is_expired none now = false
is_expired (some claim_date) now = before (add_seconds claim_date claim_timeout) now

-- What the visits of `keys` make of `u`.
pub record Evicted (now : String → Time) (u : Urls) (keys : List String) (u' : Urls) : Type 0 where
  pub fits : UrlsFit u'
  pub remaining :
      (k : String)
      → load k u'.claimed.sm ≡ (
          if elem k keys && is_expired (load k u.claimed.sm) (now k)
          then none
          else load k u.claimed.sm)
  pub pooled :
      (k : String)
      → Set.has u'.global_pool k
        ≡ elem k keys && is_expired (load k u.claimed.sm) (now k) || Set.has u.global_pool k
  pub same_visited : u'.visited ≡ u.visited
  pub same_queue : u'.local_queue ≡ u.local_queue

evict_claim_lem :
    (now : String → Time) (u : Urls) (url : String)
    → UrlsFit u
    → Evicted now u (url ∷ []) (evict_claim u url (load url u.claimed.sm) (now url))
evict_claim_lem now u url v = by_claim (load url u.claimed.sm) refl
  where
    nothing : is_expired (load url u.claimed.sm) (now url) ≡ false → Evicted now u (url ∷ []) u
    nothing fresh = record {
      fits = v;
      remaining = λ k. ground (arith, string_comparable.beq_iff url k);
      pooled = λ k. ground (arith, string_comparable.beq_iff url k);
      same_visited = refl;
      same_queue = refl;
    }

    moved : Urls
    moved = record u {
      claimed = (TimedSet.pop u.claimed url).1;
      global_pool = Set.put u.global_pool url;
    }

    expired : is_expired (load url u.claimed.sm) (now url) ≡ true → Evicted now u (url ∷ []) moved
    expired old =
        let (was, claimed_ok, loads) = TimedSet.Laws.load-pop u.claimed url v.claimed_valid in
        let (pool_ok, has) = Set.Laws.put_lem u.global_pool url v.pool_valid in
        record {
          fits = record {
            queue_fits = v.queue_fits;
            pool_valid = pool_ok;
            claimed_valid = claimed_ok;
            visited_valid = v.visited_valid;
          };
          remaining = λ k. ground (arith, loads k, string_comparable.beq_iff url k);
          pooled = λ k. ground (arith, has k, string_comparable.beq_iff url k);
          same_visited = refl;
          same_queue = refl;
        }

    by_claim :
        (claim : Option Time)
        → load url u.claimed.sm ≡ claim
        → Evicted now u (url ∷ []) (evict_claim u url claim (now url))
    by_claim none e = unfold evict_claim in nothing (rw e)
    by_claim (some date) e =
        unfold evict_claim in
        elim (Bool-cases (before (add_seconds date claim_timeout) (now url))) [
          | inl old ↦ rw old (expired (rw (e, old)))
          | inr young ↦ rw young (nothing (rw (e, young)))
        ]

-- Two rounds of eviction of one URL, by whether each visits it.
two_rounds :
    (b e : Bool) (l l1 : Option Time) (now : Time)
    → l1 ≡ (if (b || false) && is_expired l now then none else l)
    → ((if e && is_expired l1 now then none else l1)
        ≡ (if (b || e) && is_expired l now then none else l))
      × ((e && is_expired l1 now || (b || false) && is_expired l now)
          ≡ (b || e) && is_expired l now)
two_rounds false false l l1 now h = rw h (refl, refl)
two_rounds false true l l1 now h =
    rw h (elim (Bool-cases (is_expired l now)) [
      | inl x ↦ rw x (refl, refl)
      | inr x ↦ rw x (refl, refl)
    ])
two_rounds true e l l1 now h = elim (Bool-cases (is_expired l now)) [
  | inl x ↦ evicted e x
  | inr x ↦ kept e x
]
  where
    evicted :
        (e : Bool)
        → is_expired l now ≡ true
        → ((if e && is_expired l1 now then none else l1) ≡ (if is_expired l now then none else l))
          × ((e && is_expired l1 now || is_expired l now) ≡ is_expired l now)
    evicted true x = rw h (rw x (refl, refl))
    evicted false x = rw h (rw x (refl, refl))

    kept :
        (e : Bool)
        → is_expired l now ≡ false
        → ((if e && is_expired l1 now then none else l1) ≡ (if is_expired l now then none else l))
          × ((e && is_expired l1 now || is_expired l now) ≡ is_expired l now)
    kept true x = rw h (rw x (rw x (refl, refl)))
    kept false x = rw h (rw x (refl, refl))

-- The visits of a `Range` move exactly the expired ones among the visited claims from the claims
-- to the pool. Every other claim keeps its time, and the visited URLs and the queue do not change.
pub evict_claims_lem :
    (now : String → Time) (keys : List String) (u : Urls)
    → UrlsFit u
    → Evicted now u keys (evict_claims keys now u)
unfolding evict_claims
evict_claims_lem now [] u v = record {
  fits = v;
  remaining = λ k. refl;
  pooled = λ k. refl;
  same_visited = refl;
  same_queue = refl;
}
evict_claims_lem now (url ∷ keys) u v =
    let step = evict_claim u url (load url u.claimed.sm) (now url) in
    let first = evict_claim_lem now u url v in
    let rest = evict_claims_lem now keys step first.fits in
    record {
      fits = rest.fits;
      remaining = λ k.
          rest.remaining k
          ∙ (two_rounds (url =? k) (elem k keys) (load k u.claimed.sm) (load k step.claimed.sm)
              (now k) (first.remaining k)).0;
      pooled = λ k. ground (
        arith,
        rest.pooled k,
        first.pooled k,
        (two_rounds (url =? k) (elem k keys) (load k u.claimed.sm) (load k step.claimed.sm) (now k)
            (first.remaining k)).1,
      );
      same_visited = rest.same_visited ∙ first.same_visited;
      same_queue = rest.same_queue ∙ first.same_queue;
    }

some_expired : (l : Option Time) (now : Time) → (is_some l && is_expired l now) ≡ is_expired l now
some_expired none now = refl
some_expired (some date) now = refl

-- From consistent URLs, a whole `Range` over the claims, in whatever order: exactly the expired
-- claims leave, and they are in the pool beside what it held. The visited URLs and the queue stay.
pub evict_all :
    (now : String → Time) (keys : List String) (u : Urls)
    → UrlsFit u
    → Visits u.claimed.sm keys
    → let u' = evict_claims keys now u in
      UrlsFit u'
      × ((k : String)
          → load k u'.claimed.sm
            ≡ (if is_expired (load k u.claimed.sm) (now k) then none else load k u.claimed.sm))
      × ((k : String)
          → Set.has u'.global_pool k
            ≡ is_expired (load k u.claimed.sm) (now k) || Set.has u.global_pool k)
      × (u'.visited ≡ u.visited)
      × (u'.local_queue ≡ u.local_queue)
evict_all now keys u v visits =
    let f = evict_claims_lem now keys u v in
    let chosen : (k : String)
        → (elem k keys && is_expired (load k u.claimed.sm) (now k))
          ≡ is_expired (load k u.claimed.sm) (now k) =
      λ k.
        ap (λ b. b && is_expired (load k u.claimed.sm) (now k)) (visits.all_keys k)
        ∙ some_expired (load k u.claimed.sm) (now k) in
    (
      f.fits,
      λ k. f.remaining k ∙ ap (λ b. if b then none else load k u.claimed.sm) (chosen k),
      λ k. f.pooled k ∙ ap (λ b. b || Set.has u.global_pool k) (chosen k),
      f.same_visited,
      f.same_queue,
    )
