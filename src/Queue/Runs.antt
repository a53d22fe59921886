-- ===== src/Queue/Runs.antt =====
-- Any history of calls on a new queue.
use ww_webcrawler.Prelude.{
  ℕ, ◌<◌, ◌≡◌, refl, ◌∙◌, sym, ap, Option, none, some, List, [], ◌∷◌, ◌++◌, append-nil,
  append_assoc, Comparable, Panics, done, ◌>>=◌, Result, ok, err, length-replicate, arith,
}
use ww_webcrawler.Queue.{
  UniqueQueue, QueueError, queue_full, queue_empty, queue_duplicate, new_unique_queue, get, put,
  remove,
}
use ww_webcrawler.Queue.View.{IsValid, contents}
use ww_webcrawler.Queue.Fifo
use ww_webcrawler.Queue.Get.{get_refines}
use ww_webcrawler.Queue.Put.{put_refines, PutOutcome}
use ww_webcrawler.Queue.Remove.{remove_total}

pub data Call (A : Type 0) : Type 0 where
  gets : Call A
  puts : A → Call A
  removes : A → Call A

module _ {A : Type 0} ⦃c : Comparable A⦄ where
  pub new_unique_queue-IsValid :
      (capacity : ℕ)
      → 0 < capacity
      → IsValid (new_unique_queue {A = A} capacity)
        × (contents (new_unique_queue {A = A} capacity) ≡ [])
  unfolding new_unique_queue
  new_unique_queue-IsValid capacity h =
      (ground (arith, length-replicate capacity c.nil_value), refl)

  -- The state after a call, whatever the call returns.
  unfoldable pub step : UniqueQueue A → Call A → Panics (UniqueQueue A)
  step u gets = get u >>= λ r. done r.1
  step u (puts t) = put u t >>= λ r. done r.1
  step u (removes t) = remove u t

  unfoldable pub run : UniqueQueue A → List (Call A) → Panics (UniqueQueue A)
  run u [] = done u
  run u (call ∷ calls) = step u call >>= λ u'. run u' calls

  pub PutOutcome-IsValid :
      (u : UniqueQueue A) (t : A) (u' : UniqueQueue A) (e : Option QueueError)
      → IsValid u
      → PutOutcome u t u' e
      → IsValid u'
  PutOutcome-IsValid u t u' none v o = o.1
  PutOutcome-IsValid u t u' (some queue_full) v o = rw o.0 v
  PutOutcome-IsValid u t u' (some queue_duplicate) v o = rw o.0 v
  PutOutcome-IsValid u t u' (some queue_empty) v o = absurd o

  pub step_total :
      (u : UniqueQueue A) (call : Call A)
      → IsValid u
      → (u' : UniqueQueue A) × (step u call ≡ done u') × IsValid u'
  unfolding step
  step_total u gets v = let (r, u', e, view, v', exact) = get_refines u v in (u', rw e, v')
  step_total u (puts t) v =
      let (r, u', e, o) = put_refines u t v in (u', rw e, PutOutcome-IsValid u t u' r v o)
  step_total u (removes t) v = remove_total u t v

  run-IsValid :
      (u : UniqueQueue A) (calls : List (Call A))
      → IsValid u
      → (u' : UniqueQueue A) × (run u calls ≡ done u') × IsValid u'
  unfolding run
  run-IsValid u [] v = (u, refl, v)
  run-IsValid u (call ∷ calls) v =
      let (u', e, v') = step_total u call v in
      let (w, f, v'') = run-IsValid u' calls v' in (w, rw e f, v'')

  -- No history of puts, gets and removes on a new queue of capacity at least 1 panics, and each
  -- leaves a valid queue.
  pub run_new_total :
      (capacity : ℕ) (calls : List (Call A))
      → 0 < capacity
      → (u : UniqueQueue A) × (run (new_unique_queue capacity) calls ≡ done u) × IsValid u
  run_new_total capacity calls h =
      run-IsValid (new_unique_queue capacity) calls (new_unique_queue-IsValid capacity h).0

  abbrev taken : Result QueueError A → List A
  taken (ok x) = x ∷ []
  taken (err e) = []

  abbrev accepted : A → Option QueueError → List A
  accepted t none = t ∷ []
  accepted t (some e) = []

  -- A producer's puts (`some`) and a consumer's gets (`none`) in one order: the items accepted,
  -- the items handed out, and the last queue.
  unfoldable pub traffic :
      UniqueQueue A → List (Option A) → Panics (List A × List A × UniqueQueue A)
  traffic u [] = done ([], [], u)
  traffic u (none ∷ calls) =
      get u >>= λ r. traffic r.1 calls >>= λ w. done (w.0, taken r.0 ++ w.1, w.2)
  traffic u (some t ∷ calls) =
      put u t >>= λ r. traffic r.1 calls >>= λ w. done (accepted t r.0 ++ w.0, w.1, w.2)

  pop-taken :
      (xs ys : List A) (r : Result QueueError A) → (r, ys) ≡ Fifo.pop xs → xs ≡ taken r ++ ys
  pop-taken [] ys r e = rw (ap (λ p. taken p.0 ++ p.1) e)
  pop-taken (x ∷ xs) ys r e = rw (ap (λ p. taken p.0 ++ p.1) e)

  contents-accepted :
      (u : UniqueQueue A) (t : A) (u' : UniqueQueue A) (e : Option QueueError)
      → PutOutcome u t u' e
      → contents u ++ accepted t e ≡ contents u'
  contents-accepted u t u' none o = sym o.0
  contents-accepted u t u' (some queue_full) o = append-nil (contents u) ∙ ap contents (sym o.0)
  contents-accepted u t u' (some queue_duplicate) o =
      append-nil (contents u) ∙ ap contents (sym o.0)
  contents-accepted u t u' (some queue_empty) o = absurd o

  -- First in, first out: on a valid queue a producer's puts and a consumer's gets, in any order,
  -- never panic. The items handed out are the first of those that the queue held and then accepted,
  -- in order, the rest are still in it, and it is valid.
  pub traffic_fifo :
      (u : UniqueQueue A) (calls : List (Option A))
      → IsValid u
      → (ins : List A) × (outs : List A) × (u' : UniqueQueue A) × (traffic u calls
          ≡ done (ins, outs, u'))
        × (contents u ++ ins ≡ outs ++ contents u')
        × IsValid u'
  unfolding traffic
  traffic_fifo u [] v = ([], [], u, refl, append-nil (contents u), v)
  traffic_fifo u (none ∷ calls) v =
      let (r, u', e, view, v', exact) = get_refines u v in
      let (ins, outs, w, f, order, v'') = traffic_fifo u' calls v' in
      (
        ins,
        taken r ++ outs,
        w,
        rw (e, f),
        ap (λ xs. xs ++ ins) (pop-taken (contents u) (contents u') r view)
            ∙ append_assoc (taken r) (contents u') ins
            ∙ ap (◌++◌ (taken r)) order
            ∙ sym (append_assoc (taken r) outs (contents w)),
        v'',
      )
  traffic_fifo u (some t ∷ calls) v =
      let (e, u', g, o) = put_refines u t v in
      let (ins, outs, w, f, order, v'') = traffic_fifo u' calls (PutOutcome-IsValid u t u' e v o) in
      (
        accepted t e ++ ins,
        outs,
        w,
        rw (g, f),
        sym (append_assoc (contents u) (accepted t e) ins)
            ∙ ap (λ xs. xs ++ ins) (contents-accepted u t u' e o)
            ∙ order,
        v'',
      )
