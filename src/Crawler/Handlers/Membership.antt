-- ===== src/Crawler/Handlers/Membership.antt =====
-- What the handlers make of a message's URLs, by membership in each of the four containers.
use ww_webcrawler.Prelude.{
  ◌≡◌, refl, ◌∙◌, ◌&&◌, ◌||◌, not, String, none, some, List, [], ◌∷◌, done, if◌then◌else◌,
  Bool-cases, inl, inr, string_comparable, arith,
}
use ww_webcrawler.Sets.SyncMap.{load, elem}
use ww_webcrawler.Sets.Time.{Time}
use ww_webcrawler.Sets.Set
use ww_webcrawler.Sets.TimedSet
use ww_webcrawler.Crawler.State.{Urls}
use ww_webcrawler.Crawler.Handlers.{
  visit_url, on_url_visit, claim_url, on_url_claim, report_url, on_url_report,
}
use ww_webcrawler.Crawler.Valid.{UrlsFit, remove_fits}

-- What the visits of `urls` make of `u`.
pub record Visited (u : Urls) (urls : List String) (u' : Urls) : Type 0 where
  pub fits : UrlsFit u'
  pub now_visited : (k : String) → Set.has u'.visited k ≡ elem k urls || Set.has u.visited k
  pub unclaimed :
      (k : String) → load k u'.claimed.sm ≡ (if elem k urls then none else load k u.claimed.sm)
  pub same_pool : u'.global_pool ≡ u.global_pool

visit_url_lem :
    (u : Urls) (url : String)
    → UrlsFit u
    → (u' : Urls) × (visit_url u url ≡ done u') × Visited u (url ∷ []) u'
unfolding visit_url
visit_url_lem u url v =
    let (q, h, fits) = remove_fits u.local_queue url v.queue_fits in
    let (visited_ok, visited) = Set.Laws.put_lem u.visited url v.visited_valid in
    let (was, claimed_ok, claimed) = TimedSet.Laws.load-pop u.claimed url v.claimed_valid in
    (
      record u {
        local_queue = q;
        claimed = (TimedSet.pop u.claimed url).1;
        visited = Set.put u.visited url;
      },
      rw h,
      record {
        fits = record {
          queue_fits = fits;
          pool_valid = v.pool_valid;
          claimed_valid = claimed_ok;
          visited_valid = visited_ok;
        };
        now_visited = λ k. ground (arith, visited k);
        unclaimed = λ k. ground (arith, claimed k);
        same_pool = refl;
      },
    )

-- From consistent URLs the visits of a message never panic, and leave consistent URLs. Afterwards
-- exactly the message's URLs and those visited before are visited, the message's URLs are claimed
-- no more, and the other claims and the global pool are as before.
pub on_url_visit_lem :
    (u : Urls) (urls : List String)
    → UrlsFit u
    → (u' : Urls) × (on_url_visit u urls ≡ done u') × Visited u urls u'
unfolding on_url_visit
on_url_visit_lem u [] v =
    (u, refl, record { fits = v; now_visited = λ k. refl; unclaimed = λ k. refl; same_pool = refl })
on_url_visit_lem u (url ∷ urls) v =
    let (w, h, first) = visit_url_lem u url v in
    let (u', e, rest) = on_url_visit_lem w urls first.fits in
    (
      u',
      rw h e,
      record {
        fits = rest.fits;
        now_visited = λ k. ground (arith, first.now_visited k, rest.now_visited k);
        unclaimed = λ k. ground (arith, first.unclaimed k, rest.unclaimed k);
        same_pool = rest.same_pool ∙ first.same_pool;
      },
    )

-- What claims of `urls` make of `u`; `now url` is the time of the claim of `url`.
pub record Claimed (now : String → Time) (u : Urls) (urls : List String) (u' : Urls) : Type 0 where
  pub fits : UrlsFit u'
  pub same_visited : (k : String) → Set.has u'.visited k ≡ Set.has u.visited k
  pub now_claimed :
      (k : String)
      → load k u'.claimed.sm
        ≡ (if elem k urls && not (Set.has u.visited k) then some (now k) else load k u.claimed.sm)
  pub same_pool : u'.global_pool ≡ u.global_pool
  pub same_queue : u'.local_queue ≡ u.local_queue

claim_url_lem :
    (now : String → Time) (u : Urls) (url : String)
    → UrlsFit u
    → Claimed now u (url ∷ []) (claim_url now u url)
unfolding claim_url
claim_url_lem now u url v = elim (Bool-cases (Set.has u.visited url)) [
  | inl seen ↦
      let (ok, has) = Set.Laws.put_lem u.visited url v.visited_valid in
      rw seen (record {
        fits = record {
          queue_fits = v.queue_fits;
          pool_valid = v.pool_valid;
          claimed_valid = v.claimed_valid;
          visited_valid = ok;
        };
        same_visited = λ k. ground (arith, has k, string_comparable.beq_iff url k);
        now_claimed = λ k. ground (arith, string_comparable.beq_iff url k);
        same_pool = refl;
        same_queue = refl;
      })
  | inr unseen ↦
      let (ok, loads) = TimedSet.Laws.load-put u.claimed url (now url) v.claimed_valid in
      rw unseen (record {
        fits = record {
          queue_fits = v.queue_fits;
          pool_valid = v.pool_valid;
          claimed_valid = ok;
          visited_valid = v.visited_valid;
        };
        same_visited = λ k. refl;
        now_claimed = λ k. ground (arith, loads k, string_comparable.beq_iff url k);
        same_pool = refl;
        same_queue = refl;
      })
]

-- From consistent URLs, claims put exactly those URLs of the message that are not visited among the
-- claimed ones, each at its time, and leave consistent URLs. Which URLs are visited, the pool and
-- the queue do not change.
pub on_url_claim_lem :
    (now : String → Time) (u : Urls) (urls : List String)
    → UrlsFit u
    → Claimed now u urls (on_url_claim now u urls)
unfolding on_url_claim
on_url_claim_lem now u [] v = record {
  fits = v;
  same_visited = λ k. refl;
  now_claimed = λ k. refl;
  same_pool = refl;
  same_queue = refl;
}
on_url_claim_lem now u (url ∷ urls) v =
    let first = claim_url_lem now u url v in
    let rest = on_url_claim_lem now (claim_url now u url) urls first.fits in
    record {
      fits = rest.fits;
      same_visited = λ k. rest.same_visited k ∙ first.same_visited k;
      now_claimed =
          λ k. ground (arith, first.now_claimed k, rest.now_claimed k, first.same_visited k);
      same_pool = rest.same_pool ∙ first.same_pool;
      same_queue = rest.same_queue ∙ first.same_queue;
    }

-- What reports of `urls` make of `u`.
pub record Reported (u : Urls) (urls : List String) (u' : Urls) : Type 0 where
  pub fits : UrlsFit u'
  pub same_visited : (k : String) → Set.has u'.visited k ≡ Set.has u.visited k
  pub now_pooled :
      (k : String)
      → Set.has u'.global_pool k
        ≡ elem k urls && not (Set.has u.visited k) || Set.has u.global_pool k
  pub same_claims : u'.claimed ≡ u.claimed
  pub same_queue : u'.local_queue ≡ u.local_queue

report_url_lem : (u : Urls) (url : String) → UrlsFit u → Reported u (url ∷ []) (report_url u url)
unfolding report_url
report_url_lem u url v = elim (Bool-cases (Set.has u.visited url)) [
  | inl seen ↦
      let (ok, has) = Set.Laws.put_lem u.visited url v.visited_valid in
      rw seen (record {
        fits = record {
          queue_fits = v.queue_fits;
          pool_valid = v.pool_valid;
          claimed_valid = v.claimed_valid;
          visited_valid = ok;
        };
        same_visited = λ k. ground (arith, has k, string_comparable.beq_iff url k);
        now_pooled = λ k. ground (arith, string_comparable.beq_iff url k);
        same_claims = refl;
        same_queue = refl;
      })
  | inr unseen ↦
      let (ok, has) = Set.Laws.put_lem u.global_pool url v.pool_valid in
      rw unseen (record {
        fits = record {
          queue_fits = v.queue_fits;
          pool_valid = ok;
          claimed_valid = v.claimed_valid;
          visited_valid = v.visited_valid;
        };
        same_visited = λ k. refl;
        now_pooled = λ k. ground (arith, has k, string_comparable.beq_iff url k);
        same_claims = refl;
        same_queue = refl;
      })
]

-- From consistent URLs, reports put exactly those URLs of the message that are not visited in the
-- pool, and leave consistent URLs. Which URLs are visited, the claims and the queue do not change.
pub on_url_report_lem :
    (u : Urls) (urls : List String) → UrlsFit u → Reported u urls (on_url_report u urls)
unfolding on_url_report
on_url_report_lem u [] v = record {
  fits = v;
  same_visited = λ k. refl;
  now_pooled = λ k. refl;
  same_claims = refl;
  same_queue = refl;
}
on_url_report_lem u (url ∷ urls) v =
    let first = report_url_lem u url v in
    let rest = on_url_report_lem (report_url u url) urls first.fits in
    record {
      fits = rest.fits;
      same_visited = λ k. rest.same_visited k ∙ first.same_visited k;
      now_pooled = λ k. ground (arith, first.now_pooled k, rest.now_pooled k, first.same_visited k);
      same_claims = rest.same_claims ∙ first.same_claims;
      same_queue = rest.same_queue ∙ first.same_queue;
    }
