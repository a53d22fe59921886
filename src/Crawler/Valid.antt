-- ===== src/Crawler/Valid.antt =====
-- The invariant of a crawler's URLs: each container is consistent, the queue of the right capacity.
use ww_webcrawler.Prelude.{
  ◌≤◌, ◌≡◌, refl, subst, ◌∙◌, String, Option, done, string_comparable, arith,
}
use ww_webcrawler.Queue
use ww_webcrawler.Queue.{UniqueQueue, QueueError, new_unique_queue}
use ww_webcrawler.Queue.View
use ww_webcrawler.Queue.View.{contents}
use ww_webcrawler.Queue.Runs.{new_unique_queue-IsValid, PutOutcome-IsValid}
use ww_webcrawler.Queue.Put.{put_refines, PutOutcome}
use ww_webcrawler.Queue.Remove.{remove_total}
use ww_webcrawler.Queue.Capacity.{capacity-put, capacity-remove}
use ww_webcrawler.Sets.Set
use ww_webcrawler.Sets.TimedSet
use ww_webcrawler.Crawler.State.{Urls, new_urls, queue_cap}

pub record QueueFits (q : UniqueQueue String) : Type 0 where
  pub valid : View.IsValid q
  pub fits : q.capacity ≡ queue_cap

pub size_fits : {q : UniqueQueue String} → QueueFits q → q.size ≤ queue_cap
size_fits v = omega (arith, v.valid.size_in, v.fits)

pub record UrlsFit (u : Urls) : Type 0 where
  pub queue_fits : QueueFits u.local_queue
  pub pool_valid : Set.Laws.IsValid u.global_pool
  pub claimed_valid : TimedSet.Laws.IsValid u.claimed
  pub visited_valid : Set.Laws.IsValid u.visited

pub new_urls-UrlsFit : UrlsFit new_urls
unfolding new_urls
new_urls-UrlsFit = record {
  queue_fits = record { valid = (new_unique_queue-IsValid queue_cap (omega arith)).0; fits = refl };
  pool_valid = Set.Laws.new_set-IsValid;
  claimed_valid = TimedSet.Laws.new_timed_set-IsValid;
  visited_valid = Set.Laws.new_set-IsValid;
}

pub put_fits :
    (q : UniqueQueue String) (url : String)
    → QueueFits q
    → (e : Option QueueError) × (q' : UniqueQueue String) × (Queue.put q url ≡ done (e, q'))
      × PutOutcome q url q' e
      × QueueFits q'
put_fits q url v =
    let (e, q', h, o) = put_refines q url v.valid in
    (
      e,
      q',
      h,
      o,
      record {
        valid = PutOutcome-IsValid q url q' e v.valid o;
        fits = capacity-put q url h ∙ v.fits;
      },
    )

pub with_queue-UrlsFit :
    (u : Urls) (q : UniqueQueue String)
    → UrlsFit u
    → QueueFits q
    → UrlsFit (record u { local_queue = q })
with_queue-UrlsFit u q v w = record {
  queue_fits = w;
  pool_valid = v.pool_valid;
  claimed_valid = v.claimed_valid;
  visited_valid = v.visited_valid;
}

-- A `put` to the local queue.
pub put-UrlsFit :
    (u : Urls) (url : String) (e : Option QueueError) (q : UniqueQueue String)
    → UrlsFit u
    → Queue.put u.local_queue url ≡ done (e, q)
    → UrlsFit (record u { local_queue = q })
put-UrlsFit u url e q v called =
    let (e', q', called', o, w) = put_fits u.local_queue url v.queue_fits in
    let same : q' ≡ q = cc in with_queue-UrlsFit u q v (subst QueueFits same w)

pub remove_fits :
    (q : UniqueQueue String) (url : String)
    → QueueFits q
    → (q' : UniqueQueue String) × (Queue.remove q url ≡ done q') × QueueFits q'
remove_fits q url v =
    let (q', h, valid) = remove_total q url v.valid in
    (q', h, record { valid = valid; fits = capacity-remove q url h ∙ v.fits })
