-- ===== src/Crawler/Pool/Leak.antt =====
-- What becomes of the goroutines at the send of their responses when the context is done.
use ww_webcrawler.Prelude.{ℕ, suc, ◌+◌, ◌≤◌, ◌≡◌, refl, ap, List, [], ◌∷◌, ◌++◌, arith}
use ww_webcrawler.Crawler.State.{Env}
use ww_webcrawler.Crawler.Pool.{
  Processor, Fetch, fetching, answering, returning, Pool, Step, Steps, here, next,
}
use ww_webcrawler.Crawler.Pool.Step.{
  asks, asking_ends, offering_ends, hands_over, fills, filled, takes_turn, for_turn_ends,
  for_url_ends, fetches_page, responds, returns_turn, returning_ends, processes, receiving_ends,
  evicts, evicting_ends, receives_item, cancels,
}

-- The goroutines at the send of a response.
abbrev pub answering_count : List Fetch → ℕ
answering_count [] = 0
answering_count (fetching url ∷ fs) = answering_count fs
answering_count (answering r ∷ fs) = suc (answering_count fs)
answering_count (returning ∷ fs) = answering_count fs

answering_count-append :
    (xs ys : List Fetch) → answering_count (xs ++ ys) ≡ answering_count xs + answering_count ys
answering_count-append [] ys = omega arith
answering_count-append (fetching url ∷ xs) ys = answering_count-append xs ys
answering_count-append (answering r ∷ xs) ys = omega (arith, answering_count-append xs ys)
answering_count-append (returning ∷ xs) ys = answering_count-append xs ys

Step-stuck :
    {env : Env} {p q : Pool}
    → Step env p q
    → p.processor ≡ Processor.stopped
    → (q.processor ≡ Processor.stopped) × (answering_count p.fetches ≤ answering_count q.fetches)
Step-stuck (asks keys draw claims now r c at on draws called) s = (s, omega arith)
Step-stuck (asking_ends at off) s = (s, omega arith)
Step-stuck (offering_ends url at off) s = (s, omega arith)
Step-stuck (hands_over url at there) s = (s, omega arith)
Step-stuck (fills i at room) s = (s, omega arith)
Step-stuck (filled at) s = (s, omega arith)
Step-stuck (takes_turn n at some_left) s = (s, omega arith)
Step-stuck (for_turn_ends at off) s = (s, omega arith)
Step-stuck (for_url_ends at off) s = (s, omega arith)
Step-stuck (fetches_page before after url answer at) s = (
  s,
  omega (
    arith,
    ap answering_count at,
    answering_count-append before (fetching url ∷ after),
    answering_count-append before _,
  ),
)
Step-stuck (responds before after r at there) s = cc
Step-stuck (returns_turn before after at room) s = (
  s,
  omega (
    arith,
    ap answering_count at,
    answering_count-append before (returning ∷ after),
    answering_count-append before after,
  ),
)
Step-stuck (returning_ends before after at off) s = (
  s,
  omega (
    arith,
    ap answering_count at,
    answering_count-append before (returning ∷ after),
    answering_count-append before after,
  ),
)
Step-stuck (processes arrange page ms r c at called) s = cc
Step-stuck (receiving_ends at off) s = (refl, omega arith)
Step-stuck (evicts keys now at) s = (s, omega arith)
Step-stuck (evicting_ends at off) s = (s, omega arith)
Step-stuck (receives_item now item e u called) s = (s, omega arith)
Step-stuck cancels s = (s, omega arith)

-- Once processResponses has returned it does not come back, and the number of goroutines at the
-- send of a response never falls.
pub responses_stuck :
    {env : Env} {p q : Pool}
    → Steps env p q
    → p.processor ≡ Processor.stopped
    → (q.processor ≡ Processor.stopped) × (answering_count p.fetches ≤ answering_count q.fetches)
responses_stuck here s = (s, omega arith)
responses_stuck (next steps step) s =
    let (t, more) = responses_stuck steps s in
    let (u, yet_more) = Step-stuck step t in (u, omega (arith, more, yet_more))
