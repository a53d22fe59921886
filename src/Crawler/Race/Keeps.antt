-- ===== src/Crawler/Race/Keeps.antt =====
-- What holds whatever the order of the calls.
use ww_webcrawler.Prelude.{
  ◌≡◌, refl, sym, ap, ◌∙◌, Bool, true, false, ◌||◌, String, string_comparable, beq_self, List, [],
  ◌∷◌, done, ◌=?◌, Bool-cases, inl, inr, arith,
}
use ww_webcrawler.Sets.SyncMap.{load, is_some}
use ww_webcrawler.Sets.Time.{Time}
use ww_webcrawler.Sets.Set
use ww_webcrawler.Sets.Set.{Set}
use ww_webcrawler.Sets.TimedSet
use ww_webcrawler.Crawler.State.{Urls}
use ww_webcrawler.Crawler.Valid.{UrlsFit, remove_fits, with_queue-UrlsFit}
use ww_webcrawler.Crawler.Known.{is_known}
use ww_webcrawler.Crawler.Claims.Evict.{is_expired}
use ww_webcrawler.Crawler.Race.{
  Evictor, looking, popping, pooling, Visitor, marking, unclaiming, removing, evict_move,
  visit_move, interleave,
}

-- Whether evictClaims holds the URL between the `Pop` and the `Put`.
abbrev pub in_hand : Evictor → String → Bool
in_hand (looking keys) k = false
in_hand (popping url keys) k = false
in_hand (pooling url keys) k = url =? k

-- A URL whose claim onUrlVisit is about to pop is visited.
abbrev Marked : Visitor → Set String → Type 0
Marked (marking urls) visited = Unit {0}
Marked (unclaiming url urls) visited = Set.has visited url ≡ true
Marked (removing url urls) visited = Unit {0}

-- After some steps from the URLs `s`.
record Between (s : Urls) (e : Evictor) (v : Visitor) (u : Urls) : Type 0 where
  fits : UrlsFit u
  marked : Marked v u.visited
  stays : (k : String) → Set.has s.visited k ≡ true → Set.has u.visited k ≡ true
  keeps : (k : String) → is_known s k ≡ true → (is_known u k || in_hand e k) ≡ true

evict_move-Between :
    (now : String → Time) (s : Urls) (e : Evictor) (v : Visitor) (u : Urls)
    → Between s e v u
    → Between s (evict_move now e u).0 v (evict_move now e u).1
unfolding evict_move is_known
evict_move-Between now s (looking []) v u b = b
evict_move-Between now s (looking (url ∷ keys)) v u b =
    elim (Bool-cases (is_expired (load url u.claimed.sm) (now url))) [
      | inl old ↦
          rw old (record { fits = b.fits; marked = b.marked; stays = b.stays; keeps = b.keeps })
      | inr young ↦
          rw young (record { fits = b.fits; marked = b.marked; stays = b.stays; keeps = b.keeps })
    ]
evict_move-Between now s (popping url keys) v u b =
    let (was, claimed_ok, loads) = TimedSet.Laws.load-pop u.claimed url b.fits.claimed_valid in
    record {
      fits = record {
        queue_fits = b.fits.queue_fits;
        pool_valid = b.fits.pool_valid;
        claimed_valid = claimed_ok;
        visited_valid = b.fits.visited_valid;
      };
      marked = b.marked;
      stays = b.stays;
      keeps = λ k h. ground (arith, b.keeps k h, loads k, ap is_some (loads k));
    }
evict_move-Between now s (pooling url keys) v u b =
    let (pool_ok, has) = Set.Laws.put_lem u.global_pool url b.fits.pool_valid in
    record {
      fits = record {
        queue_fits = b.fits.queue_fits;
        pool_valid = pool_ok;
        claimed_valid = b.fits.claimed_valid;
        visited_valid = b.fits.visited_valid;
      };
      marked = b.marked;
      stays = b.stays;
      keeps = λ k h. ground (arith, b.keeps k h, has k);
    }

visit_move-Between :
    (s : Urls) (e : Evictor) (v : Visitor) (u : Urls)
    → Between s e v u
    → (v' : Visitor) × (u' : Urls) × (visit_move v u ≡ done (v', u')) × Between s e v' u'
unfolding visit_move is_known
visit_move-Between s e (marking []) u b = (marking [], u, refl, b)
visit_move-Between s e (marking (url ∷ urls)) u b =
    let (visited_ok, has) = Set.Laws.put_lem u.visited url b.fits.visited_valid in
    (
      unclaiming url urls,
      record u { visited = Set.put u.visited url },
      refl,
      record {
        fits = record {
          queue_fits = b.fits.queue_fits;
          pool_valid = b.fits.pool_valid;
          claimed_valid = b.fits.claimed_valid;
          visited_valid = visited_ok;
        };
        marked = has url ∙ rw (beq_self url) refl;
        stays = λ k h. ground (arith, b.stays k h, has k);
        keeps = λ k h. ground (arith, b.keeps k h, has k);
      },
    )
visit_move-Between s e (unclaiming url urls) u b =
    let (was, claimed_ok, loads) = TimedSet.Laws.load-pop u.claimed url b.fits.claimed_valid in
    (
      removing url urls,
      record u { claimed = (TimedSet.pop u.claimed url).1 },
      refl,
      record {
        fits = record {
          queue_fits = b.fits.queue_fits;
          pool_valid = b.fits.pool_valid;
          claimed_valid = claimed_ok;
          visited_valid = b.fits.visited_valid;
        };
        marked = tt;
        stays = b.stays;
        keeps = λ k h. elim (Bool-cases (url =? k)) [
          | inl same ↦
              let at : url ≡ k = (string_comparable.beq_iff url k).0 same in
              let seen : Set.has u.visited k ≡ true = ap (Set.has u.visited) (sym at) ∙ b.marked in
              rw seen refl
          | inr other ↦ ground (arith, b.keeps k h, loads k, ap is_some (loads k), other)
        ];
      },
    )
visit_move-Between s e (removing url urls) u b =
    let (q, removed, fits) = remove_fits u.local_queue url b.fits.queue_fits in
    (
      marking urls,
      record u { local_queue = q },
      rw removed refl,
      record {
        fits = with_queue-UrlsFit u q b.fits fits;
        marked = tt;
        stays = b.stays;
        keeps = b.keeps;
      },
    )

interleave-Between :
    (now : String → Time) (turns : List Bool) (s : Urls) (e : Evictor) (v : Visitor) (u : Urls)
    → Between s e v u
    → (e' : Evictor) × (v' : Visitor) × (u' : Urls) × (interleave now turns e v u
        ≡ done (e', v', u'))
      × Between s e' v' u'
unfolding interleave
interleave-Between now [] s e v u b = (e, v, u, refl, b)
interleave-Between now (false ∷ turns) s e v u b =
    interleave-Between now turns s (evict_move now e u).0 v (evict_move now e u).1
      (evict_move-Between now s e v u b)
interleave-Between now (true ∷ turns) s e v u b =
    let (v', u', moved, b') = visit_move-Between s e v u b in
    let (e'', v'', u'', ran, b'') = interleave-Between now turns s e v' u' b' in
    (e'', v'', u'', rw moved ran, b'')

-- From consistent URLs, evictClaims and the handling of a visit message do not panic, whatever the
-- order of their calls of the containers, and leave consistent URLs at each point. No visited URL is
-- forgotten, and a URL that was visited, claimed or in the pool is so still, unless evictClaims is
-- between its `Pop` and its `Put`.
pub interleave_keeps :
    (now : String → Time) (turns : List Bool) (keys urls : List String) (s : Urls)
    → UrlsFit s
    → (e : Evictor) × (v : Visitor) × (u : Urls) × (interleave now turns
          (looking keys)
          (marking urls)
          s
        ≡ done (e, v, u))
      × UrlsFit u
      × ((k : String) → Set.has s.visited k ≡ true → Set.has u.visited k ≡ true)
      × ((k : String) → is_known s k ≡ true → (is_known u k || in_hand e k) ≡ true)
interleave_keeps now turns keys urls s fits =
    let start : Between s (looking keys) (marking urls) s = record {
      fits = fits;
      marked = tt;
      stays = λ k h. h;
      keeps = λ k h. rw h refl;
    } in
    let (e, v, u, ran, b) = interleave-Between now turns s (looking keys) (marking urls) s start in
    (e, v, u, ran, b.fits, b.stays, b.keeps)
