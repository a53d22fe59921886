-- ===== src/Crawler/Claims/Sort.antt =====
-- `sortAndSend`: every link that is not visited is claimed or reported.
use mathlib.Core.List.{Perm}
use mathlib.Core.List.Perm
use ww_webcrawler.Prelude.{
  ℕ, ◌+◌, ◌-◌, ◌%◌, ◌/◌, ◌≤◌, ◌≡◌, subst, false, ◌&&◌, String, none, List, [], ◌∷◌, ◌++◌,
  append-nil, append_assoc, done, if◌then◌else◌, ltb, ◌==◌, Bool-cases, inl, inr, length,
  length-append, le→ltb, length-perm, string_comparable, arith,
}
use ww_webcrawler.Queue.View.{contents}
use ww_webcrawler.Sets.Set
use ww_webcrawler.Sets.Set.{Set}
use ww_webcrawler.Crawler.Link.{Link, to_string}
use ww_webcrawler.Crawler.Message.{claim, report}
use ww_webcrawler.Crawler.State.{Crawler, Env, queue_cap}
use ww_webcrawler.Crawler.Claims.{report_urls, sort_urls, sort_and_send}
use ww_webcrawler.Crawler.Claims.Put.{move_middle}
use ww_webcrawler.Crawler.Valid.{size_fits, UrlsFit}
use ww_webcrawler.Crawler.Claims.Sent.{items_of, send_msg_lem, claim_urls_lem}

-- The URLs of the links that are not visited, in order.
abbrev pub fresh_refs : Set String → List Link → List String
fresh_refs visited [] = []
fresh_refs visited (link ∷ links) =
    if Set.has visited (to_string link)
    then fresh_refs visited links
    else to_string link ∷ fresh_refs visited links

sort_urls_lem :
    (free : ℕ) (visited : Set String) (i : ℕ) (links : List Link) (claimed unclaimed : List String)
    → length claimed ≤ free
    → let r = sort_urls free visited i links claimed unclaimed in
      Perm (r.0 ++ r.1) (claimed ++ (unclaimed ++ fresh_refs visited links)) × (length r.0 ≤ free)
unfolding sort_urls
sort_urls_lem free visited i [] claimed unclaimed h = (rw (append-nil unclaimed) (Perm.refl _), h)
sort_urls_lem free visited i (link ∷ links) claimed unclaimed h =
    elim (Bool-cases (Set.has visited ref)) [
      | inl seen ↦ rw seen (sort_urls_lem free visited (i + 1) links claimed unclaimed h)
      | inr unseen ↦ elim (Bool-cases (ltb (length claimed) free && i % 3 == 0)) [
        | inl chosen ↦
            let (p, l) =
              sort_urls_lem free visited (i + 1) links (claimed ++ ref ∷ []) unclaimed
                (ground (arith, length-append claimed (ref ∷ []))) in
            rw (unseen, chosen) (Perm.trans p (move_middle ref claimed unclaimed _), l)
        | inr passed ↦
            let (p, l) =
              sort_urls_lem free visited (i + 1) links claimed (unclaimed ++ ref ∷ []) h in
            let r = sort_urls free visited (i + 1) links claimed (unclaimed ++ ref ∷ []) in
            rw (unseen, passed)
              (
                subst (λ ys. Perm (r.0 ++ r.1) (claimed ++ ys))
                    (append_assoc unclaimed (ref ∷ []) _) p,
                l,
              )
      ]
    ]
  where
    ref : String
    ref = to_string link

-- Only a link whose index is divisible by 3 is claimed.
sort_urls_third :
    (free : ℕ) (visited : Set String) (i : ℕ) (links : List Link) (claimed unclaimed : List String)
    → length (sort_urls free visited i links claimed unclaimed).0 + (i + 2) / 3
      ≤ length claimed + (i + length links + 2) / 3
unfolding sort_urls
sort_urls_third free visited i [] claimed unclaimed = omega arith
sort_urls_third free visited i (link ∷ links) claimed unclaimed = ground (
  arith,
  length-append claimed (to_string link ∷ []),
  sort_urls_third free visited (i + 1) links claimed unclaimed,
  sort_urls_third free visited (i + 1) links (claimed ++ to_string link ∷ []) unclaimed,
  sort_urls_third free visited (i + 1) links claimed (unclaimed ++ to_string link ∷ []),
)

-- What `sortAndSend` makes of `c`: `taken` are claimed, `refused` and `left` are reported.
pub record LinksSent (env : Env) (c : Crawler) (links : List Link) (c' : Crawler) : Type 0 where
  pub fits : UrlsFit c'.urls
  pub taken : List String
  pub refused : List String
  pub left : List String
  pub split : Perm (taken ++ (refused ++ left)) (fresh_refs c.visited links)
  pub within : length taken + length refused + c.local_queue.size ≤ queue_cap
  pub third : length taken + length refused ≤ (length links + 2) / 3
  pub queued : contents c'.local_queue ≡ contents c.local_queue ++ taken
  pub told :
      c'.sent
      ≡ c.sent
        ++ (items_of env.json c.raft_id claim taken
            ++ (items_of env.json c.raft_id report refused
                ++ items_of env.json c.raft_id report left))
  pub same_pool : c'.global_pool ≡ c.global_pool
  pub same_claimed : c'.claimed ≡ c.claimed
  pub same_visited : c'.visited ≡ c.visited
  pub same_written : c'.written ≡ c.written

-- For a crawler with consistent URLs, `sortAndSend` never panics and returns no error. Each link
-- that is not visited is claimed and queued, or reported; visited links are dropped. It tries to
-- claim no more than the free slots, nor more than every third of the links, rounded up, and leaves
-- consistent URLs and what is written as it is.
pub sort_and_send_lem :
    (env : Env) (c : Crawler) (links : List Link)
    → UrlsFit c.urls
    → (c' : Crawler) × (sort_and_send env c links ≡ done (none, c')) × LinksSent env c links c'
unfolding sort_and_send
sort_and_send_lem env c links v =
    let free = queue_cap - c.local_queue.size in
    let sorted = sort_urls free c.visited 0 links [] [] in
    let (split, bound) = sort_urls_lem free c.visited 0 links [] [] (omega arith) in
    let (e, c1, h, m) = claim_urls_lem env c sorted.0 v in
    let room : ltb queue_cap c.local_queue.size ≡ false = le→ltb _ _ (size_fits v.queue_fits) in
    (
      (report_urls env c1 sorted.1).1,
      rw (room, h),
      rw (send_msg_lem env c1 report sorted.1) (record {
        fits = m.fits;
        taken = m.taken;
        refused = m.left;
        left = sorted.1;
        split =
            Perm.trans
              (subst (λ ys. Perm ys (sorted.0 ++ sorted.1)) (append_assoc m.taken m.left sorted.1)
                (Perm.append_right sorted.1 m.split))
              split;
        within = omega (
          arith,
          length-perm m.split,
          length-append m.taken m.left,
          bound,
          size_fits v.queue_fits,
        );
        third = omega (
          arith,
          length-perm m.split,
          length-append m.taken m.left,
          sort_urls_third free c.visited 0 links [] [],
        );
        queued = m.queued;
        told = rw (m.told, m.same_id) (simp append_assoc);
        same_pool = m.same_pool;
        same_claimed = m.same_claimed;
        same_visited = m.same_visited;
        same_written = m.same_written;
      }),
    )
