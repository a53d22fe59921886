-- ===== src/Crawler/NextUrl/Cases.antt =====
-- Where `NextUrl` finds a URL, and what it leaves.
use mathlib.Core.Bool.{or-false}
use ww_webcrawler.Prelude.{
  ℕ, ◌^◌, ◌<◌, ◌≡◌, refl, sym, ap, subst, ◌∙◌, true, false, ◌||◌, String, Option, List, [], ◌∷◌,
  ◌++◌, ◌=?◌, done, Result, ok, err, pos, ltb, lt→ltb, le→ltb, is_positive, if◌then◌else◌,
  Bool-cases, inl, inr, length, string_comparable, arith,
}
use ww_webcrawler.Queue.{UniqueQueue, QueueError}
use ww_webcrawler.Queue.View.{contents, length-contents}
use ww_webcrawler.Queue.Fifo
use ww_webcrawler.Queue.Get.{get_refines}
use ww_webcrawler.Queue.Put.{after_put}
use ww_webcrawler.Queue.Put.Corners.{put_empty}
use ww_webcrawler.Crawler.Message.{claim}
use ww_webcrawler.Sets.Set.Random.{pop_random_lem}
use ww_webcrawler.Crawler.Claims.Evict.{is_expired, evict_all}
use ww_webcrawler.Queue.Capacity.{capacity-get}
use ww_webcrawler.Sets.SyncMap.{load, Visits}
use ww_webcrawler.Sets.Set
use ww_webcrawler.Sets.Time.{Time}
use ww_webcrawler.Sets.TimedSet
use ww_webcrawler.Crawler.State.{Urls, Crawler, Env}
use ww_webcrawler.Crawler.Claims.{send_msg, report_urls, claim_urls, evict_claims}
use ww_webcrawler.Crawler.Claims.Sent.{items_of, send_msg_lem}
use ww_webcrawler.Crawler.NextUrl.{no_new_urls, claim_from_pool, next_url}
use ww_webcrawler.Crawler.Valid.{QueueFits, UrlsFit}

size_pos :
    (q : UniqueQueue String) (url : String) (rest : List String)
    → QueueFits q
    → contents q ≡ url ∷ rest
    → 0 < q.size
size_pos q url rest v e = omega (arith, ap length e, length-contents q, v.valid.size_covers)

module _ (env : Env) (keys claims : List String) (draw : ℕ → ℕ) (now : String → Time) where
  pop_ok :
      (xs : List String) (url : String) (rest ys : List String) (r : Result QueueError String)
      → xs ≡ url ∷ rest
      → (r, ys) ≡ Fifo.pop xs
      → (r ≡ ok url) × (ys ≡ rest)
  pop_ok xs url rest ys r e h = ground arith

  -- For a crawler with consistent URLs whose local queue holds some: the oldest of them is the next
  -- URL, and is taken out of the queue. Nothing else changes.
  pub next_url_local :
      (c : Crawler) (url : String) (rest : List String)
      → UrlsFit c.urls
      → contents c.local_queue ≡ url ∷ rest
      → (q : UniqueQueue String) × (next_url env keys draw claims now c
          ≡ done (ok url, record c { urls = record c.urls { local_queue = q } }))
        × (contents q ≡ rest)
        × QueueFits q
  unfolding next_url
  next_url_local c url rest v e =
      let (r, q, h, view, valid, exact) = get_refines c.local_queue v.queue_fits.valid in
      let (is_ok, left) = pop_ok (contents c.local_queue) url rest (contents q) r e view in
      let busy : ltb 0 c.local_queue.size ≡ true =
        lt→ltb 0 c.local_queue.size (size_pos c.local_queue url rest v.queue_fits e) in
      (
        q,
        rw (busy, h, is_ok),
        left,
        record { valid = valid; fits = capacity-get c.local_queue h ∙ v.queue_fits.fits },
      )

-- What the claim of `k` into an empty queue makes of `c`.
pub record ClaimedOne (env : Env) (c : Crawler) (k : String) (c' : Crawler) : Type 0 where
  pub fits : UrlsFit c'.urls
  pub queued : contents c'.local_queue ≡ k ∷ []
  pub told : c'.sent ≡ c.sent ++ items_of env.json c.raft_id claim (k ∷ [])
  pub same_pool : c'.global_pool ≡ c.global_pool
  pub same_claimed : c'.claimed ≡ c.claimed
  pub same_visited : c'.visited ≡ c.visited

claim_one :
    (env : Env) (c : Crawler) (k : String)
    → UrlsFit c.urls
    → c.local_queue.size ≡ 0
    → (e : Option String) × (c' : Crawler) × (claim_urls env c (k ∷ []) ≡ done (e, c'))
      × ClaimedOne env c k c'
unfolding claim_urls
claim_one env c k v e =
    let (h, holds, valid) = put_empty c.local_queue k v.queue_fits.valid e in
    let q = after_put c.local_queue k in
    let queued = record c { urls = record c.urls { local_queue = q } } in
    let sent = send_msg env queued claim (k ∷ []) in
    (
      sent.0,
      (report_urls env sent.1 []).1,
      rw h,
      subst (ClaimedOne env c k) (sym (send_msg_lem env queued claim (k ∷ []))) (record {
        fits = record {
          queue_fits = record { valid = valid; fits = v.queue_fits.fits };
          pool_valid = v.pool_valid;
          claimed_valid = v.claimed_valid;
          visited_valid = v.visited_valid;
        };
        queued = holds;
        told = refl;
        same_pool = refl;
        same_claimed = refl;
        same_visited = refl;
      }),
    )

-- For a crawler with consistent URLs, an empty local queue and a pool of one URL or more and fewer
-- than 2 ^ 31, as long as no draw is 0: `NextUrl` takes a URL out of the pool, whichever the walk
-- ends on, and no other. It claims the URL, which also puts it in the local queue, and returns it.
pub next_url_pool :
    (env : Env) (j : String) (js claims : List String) (draw : ℕ → ℕ) (now : String → Time)
    (c : Crawler)
    → UrlsFit c.urls
    → c.local_queue.size ≡ 0
    → Visits c.global_pool.sm (j ∷ js)
    → length c.global_pool.sm < 2 ^ 31
    → ((m : ℕ) → 0 < draw m)
    → (k : String) × (pool : Set.Set String) × (c' : Crawler) × (next_url env
          (j ∷ js)
          draw
          claims
          now
          c
        ≡ done (ok k, c'))
      × (Set.has c.global_pool k ≡ true)
      × ((i : String) → Set.has pool i ≡ (if k =? i then false else Set.has c.global_pool i))
      × ClaimedOne env (record c { urls = record c.urls { global_pool = pool } }) k c'
unfolding next_url claim_from_pool
next_url_pool env j js claims draw now c v e visits small h =
    let (k, pool, popped, there, pool_ok, others) =
      pop_random_lem c.global_pool j js draw v.pool_valid visits h in
    let c1 = record c { urls = record c.urls { global_pool = pool } } in
    let (x, c', made, m) =
      claim_one env c1 k
        (record {
          queue_fits = v.queue_fits;
          pool_valid = pool_ok;
          claimed_valid = v.claimed_valid;
          visited_valid = v.visited_valid;
        })
        e in
    let idle : ltb 0 c.local_queue.size ≡ false = le→ltb 0 _ (omega arith) in
    let filled : is_positive (Set.size c.global_pool) ≡ true =
      rw (Set.Laws.size_lem c.global_pool v.pool_valid small, ← visits.once) (ground arith) in
    (k, pool, c', rw (idle, filled, popped) (rw made), there, others, m)

-- For a crawler with consistent URLs, an empty local queue and a pool of one URL or more and fewer
-- than 2 ^ 31, as long as no draw of the first call is 0: two calls of `NextUrl` in a row return
-- the same URL. The first one claims it, which also puts it in the queue.
pub next_url_twice :
    (env : Env) (j : String) (js : List String) (keys claims claims' : List String)
    (draw draw' : ℕ → ℕ) (now now' : String → Time) (c : Crawler)
    → UrlsFit c.urls
    → c.local_queue.size ≡ 0
    → Visits c.global_pool.sm (j ∷ js)
    → length c.global_pool.sm < 2 ^ 31
    → ((m : ℕ) → 0 < draw m)
    → (k : String) × (c' : Crawler) × (c'' : Crawler) × (next_url env (j ∷ js) draw claims now c
        ≡ done (ok k, c'))
      × (next_url env keys draw' claims' now' c' ≡ done (ok k, c''))
next_url_twice env j js keys claims claims' draw draw' now now' c v e visits small h =
    let (k, pool, c', first, there, others, m) =
      next_url_pool env j js claims draw now c v e visits small h in
    let (q, second, left, fits) =
      next_url_local env keys claims' draw' now' c' k [] m.fits m.queued in
    (k, c', record c' { urls = record c'.urls { local_queue = q } }, first, second)

no_entries : (m : List (String × Time)) → is_positive (pos (length m)) ≡ false → m ≡ []
no_entries [] h = refl
no_entries (x ∷ m) h = absurd (ground arith)

-- For a crawler with consistent URLs, an empty queue, an empty pool and fewer than 2 ^ 31 claims:
-- `NextUrl` returns an error and puts exactly the expired claims in the pool.
pub next_url_evicts :
    (env : Env) (keys claims : List String) (draw : ℕ → ℕ) (now : String → Time) (c : Crawler)
    → UrlsFit c.urls
    → c.local_queue.size ≡ 0
    → c.global_pool.sm ≡ []
    → Visits c.claimed.sm claims
    → length c.claimed.sm < 2 ^ 31
    → (u : Urls) × (next_url env keys draw claims now c
        ≡ done (err no_new_urls, record c { urls = u }))
      × UrlsFit u
      × ((k : String) → Set.has u.global_pool k ≡ is_expired (load k c.claimed.sm) (now k))
unfolding next_url load
next_url_evicts env keys claims draw now c v e nothing visits small =
    elim (Bool-cases (is_positive (TimedSet.size c.claimed))) [
      | inl some_claims ↦
          let (fits, remaining, pooled, seen, queue) = evict_all now claims c.urls v visits in
          (
            evict_claims claims now c.urls,
            rw (idle, dry, some_claims),
            fits,
            λ k.
                pooled k
                ∙ ap (λ b. is_expired (load k c.claimed.sm) (now k) || b) (unpooled k)
                ∙ or-false _,
          )
      | inr no_claims ↦
          (c.urls, rw (idle, dry, no_claims), v, λ k. unpooled k ∙ rw (unclaimed no_claims))
    ]
  where
    idle : ltb 0 c.local_queue.size ≡ false
    idle = le→ltb 0 _ (omega arith)

    dry : is_positive (Set.size c.global_pool) ≡ false
    dry =
        rw (Set.Laws.size_lem c.global_pool v.pool_valid (rw nothing (omega arith)), nothing)
          (ground arith)

    unpooled : (k : String) → Set.has c.global_pool k ≡ false
    unpooled k = unfold Set.has load in rw nothing refl

    unclaimed : is_positive (TimedSet.size c.claimed) ≡ false → c.claimed.sm ≡ []
    unclaimed h =
        no_entries c.claimed.sm (rw (TimedSet.Laws.size_lem c.claimed v.claimed_valid small) at h)
