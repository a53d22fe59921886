-- ===== src/Crawler/Race.antt =====
-- evictClaims and onUrlVisit of crawler/crawler.go in two goroutines: each call of a container is a
-- step of its own, so that the calls of the one fall between those of the other.
pub mod Keeps
use ww_webcrawler.Prelude.{
  ◌≡◌, refl, ap, ◌∙◌, Bool, true, false, ◌||◌, String, string_comparable, beq_self, Option, some,
  List, [], ◌∷◌, Panics, done, ◌>>=◌, ◌=?◌, if◌then◌else◌, arith,
}
use ww_webcrawler.Queue
use ww_webcrawler.Sets.SyncMap.{load}
use ww_webcrawler.Sets.Time.{Time}
use ww_webcrawler.Sets.Set
use ww_webcrawler.Sets.TimedSet
use ww_webcrawler.Crawler.State.{Urls}
use ww_webcrawler.Crawler.Valid.{UrlsFit, remove_fits}
use ww_webcrawler.Crawler.Claims.Evict.{is_expired}

-- evictClaims: before the look at the next claim, before the `Pop` of an expired one, and before the
-- `Put` to the pool; with the claims that are left.
pub data Evictor : Type 0 where
  looking : List String → Evictor
  popping pooling : String → List String → Evictor

-- onUrlVisit: before the `Put` to the visited URLs, before the `Pop` of the claim, and before the
-- `Remove` from the queue; with the URLs that are left.
pub data Visitor : Type 0 where
  marking : List String → Visitor
  unclaiming removing : String → List String → Visitor

-- `now` is the clock's reading when a claim is looked at.
unfoldable pub evict_move : (now : String → Time) → Evictor → Urls → Evictor × Urls
evict_move now (looking []) u = (looking [], u)
evict_move now (looking (url ∷ keys)) u =
    (if is_expired (load url u.claimed.sm) (now url) then popping url keys else looking keys, u)
evict_move now (popping url keys) u =
    (pooling url keys, record u { claimed = (TimedSet.pop u.claimed url).1 })
evict_move now (pooling url keys) u =
    (looking keys, record u { global_pool = Set.put u.global_pool url })

unfoldable pub visit_move : Visitor → Urls → Panics (Visitor × Urls)
visit_move (marking []) u = done (marking [], u)
visit_move (marking (url ∷ urls)) u =
    done (unclaiming url urls, record u { visited = Set.put u.visited url })
visit_move (unclaiming url urls) u =
    done (removing url urls, record u { claimed = (TimedSet.pop u.claimed url).1 })
visit_move (removing url urls) u = Queue.remove u.local_queue url >>= λ queue.
    done (marking urls, record u { local_queue = queue })

-- The two under a schedule, which says whether the next step is the visitor's.
unfoldable pub interleave :
    (now : String → Time) → List Bool → Evictor → Visitor → Urls → Panics (Evictor × Visitor × Urls)
unfolding evict_move visit_move
interleave now [] e v u = done (e, v, u)
interleave now (false ∷ turns) e v u =
    interleave now turns (evict_move now e u).0 v (evict_move now e u).1
interleave now (true ∷ turns) e v u = visit_move v u >>= λ r. interleave now turns e r.0 r.1

-- From consistent URLs: evictClaims has looked at an expired claim when the visit of its URL is
-- handled, and goes on after that. Neither panics, and the URL is visited and in the pool.
pub visited_pooled :
    (now : String → Time) (u : Urls) (url : String)
    → UrlsFit u
    → is_expired (load url u.claimed.sm) (now url) ≡ true
    → (u' : Urls) × (interleave now
          (false ∷ true ∷ true ∷ true ∷ false ∷ false ∷ [])
          (looking (url ∷ []))
          (marking (url ∷ []))
          u
        ≡ done (looking [], marking [], u'))
      × (Set.has u'.visited url ≡ true)
      × (Set.has u'.global_pool url ≡ true)
unfolding interleave
visited_pooled now u url v old =
    let (q, removed, fits) = remove_fits u.local_queue url v.queue_fits in
    (
      record {
        local_queue = q;
        global_pool = Set.put u.global_pool url;
        claimed = (TimedSet.pop (TimedSet.pop u.claimed url).1 url).1;
        visited = Set.put u.visited url;
      },
      rw (old, removed) refl,
      (Set.Laws.put_lem u.visited url v.visited_valid).1 url ∙ rw (beq_self url) refl,
      (Set.Laws.put_lem u.global_pool url v.pool_valid).1 url ∙ rw (beq_self url) refl,
    )
