-- ===== src/Crawler/Pool/Invariant.antt =====
-- What every step of the goroutines keeps.
use ww_webcrawler.Prelude.{
  ℕ, suc, ◌+◌, ◌-◌, ◌≤◌, ◌≡◌, refl, ◌∙◌, ap, subst, Bool, true, false, List, ◌∷◌, ◌++◌, length,
  length-append, arith,
}
use ww_webcrawler.Crawler.State.{Crawler, Env}
use ww_webcrawler.Crawler.Valid.{UrlsFit}
use ww_webcrawler.Crawler.Claims.Evict.{evict_claims_lem}
use ww_webcrawler.Crawler.Handlers.Log.{on_new_value_lem}
use ww_webcrawler.Crawler.NextUrl.Total.{next_url_total}
use ww_webcrawler.Crawler.Response.{process_response_lem}
use ww_webcrawler.Crawler.Pool.{
  Looper, asking, Sender, filling, for_turn, for_url, Processor, receiving, handling, Fetch,
  fetching, Pool, start_pool, Step, Steps, here, next,
}
use ww_webcrawler.Crawler.Pool.Step.{
  asks, asking_ends, offering_ends, hands_over, fills, filled, takes_turn, for_turn_ends,
  for_url_ends, fetches_page, responds, returns_turn, returning_ends, processes, receiving_ends,
  evicts, evicting_ends, receives_item, cancels,
}

-- The turns that `sendRequests` has still to fill in, or holds.
abbrev pub pending : ℕ → Sender → ℕ
pending size (filling i) = size - i
pending size for_turn = 0
pending size for_url = 1
pending size Sender.stopped = 0

abbrev pub InRange : ℕ → Sender → Type 0
InRange size (filling i) = i ≤ size
InRange size for_turn = Unit {0}
InRange size for_url = Unit {0}
InRange size Sender.stopped = Unit {0}

abbrev pub tally : Pool → ℕ
tally p = p.turns + length p.fetches + pending p.size p.sender

abbrev pub is_sending : Sender → Bool
is_sending (filling i) = true
is_sending for_turn = true
is_sending for_url = true
is_sending Sender.stopped = false

abbrev pub is_processing : Processor → Bool
is_processing receiving = true
is_processing (handling r) = true
is_processing Processor.stopped = false

-- Every turn is in the channel, with a goroutine, or with `sendRequests`, until the context is done.
pub record PoolFits (p : Pool) : Type 0 where
  pub fits : UrlsFit p.crawler.urls
  pub filling_in : InRange p.size p.sender
  pub tally_le : tally p ≤ p.size
  pub tally_eq : p.cancelled ≡ false → tally p ≡ p.size
  pub sending : p.cancelled ≡ false → is_sending p.sender ≡ true
  pub processing : p.cancelled ≡ false → is_processing p.processor ≡ true

pub start_pool-PoolFits : (c : Crawler) (size : ℕ) → UrlsFit c.urls → PoolFits (start_pool c size)
unfolding start_pool
start_pool-PoolFits c size v = record {
  fits = v;
  filling_in = omega arith;
  tally_le = omega arith;
  tally_eq = λ e. omega arith;
  sending = λ e. refl;
  processing = λ e. refl;
}

-- The lengths around one goroutine of the list.
length_swap :
    (before after : List Fetch) (f g : Fetch) (fs : List Fetch)
    → fs ≡ before ++ f ∷ after
    → length (before ++ g ∷ after) ≡ length fs
length_swap before after f g fs e =
    omega (arith, ap length e, length-append before (f ∷ after), length-append before (g ∷ after))

length_remove :
    (before after : List Fetch) (f : Fetch) (fs : List Fetch)
    → fs ≡ before ++ f ∷ after
    → suc (length (before ++ after)) ≡ length fs
length_remove before after f fs e =
    omega (arith, ap length e, length-append before (f ∷ after), length-append before after)

module _ {p : Pool} (v : PoolFits p) where
  -- The crawler and the loop of CrawlForever have no part in the turns.
  with_crawler :
      (c : Crawler) (l : Looper) (e : Bool)
      → UrlsFit c.urls
      → PoolFits (record p { crawler = c; looper = l; evicting = e })
  with_crawler c l e f = record {
    fits = f;
    filling_in = v.filling_in;
    tally_le = v.tally_le;
    tally_eq = v.tally_eq;
    sending = v.sending;
    processing = v.processing;
  }

  -- The goroutines move turns about.
  with_fetches :
      (turns : ℕ) (fs : List Fetch)
      → turns + length fs ≡ p.turns + length p.fetches
      → PoolFits (record p { turns = turns; fetches = fs })
  with_fetches turns fs e = record {
    fits = v.fits;
    filling_in = v.filling_in;
    tally_le = omega (arith, e, v.tally_le);
    tally_eq = λ on. omega (arith, e, v.tally_eq on);
    sending = v.sending;
    processing = v.processing;
  }

  with_processor : (q : Processor) → is_processing q ≡ true → PoolFits (record p { processor = q })
  with_processor q e = record {
    fits = v.fits;
    filling_in = v.filling_in;
    tally_le = v.tally_le;
    tally_eq = v.tally_eq;
    sending = v.sending;
    processing = λ on. e;
  }

  with_sender :
      (turns : ℕ) (fs : List Fetch) (s : Sender)
      → turns + length fs + pending p.size s ≡ tally p
      → is_sending s ≡ true
      → InRange p.size s
      → PoolFits (record p { turns = turns; fetches = fs; sender = s })
  with_sender turns fs s e i r = record {
    fits = v.fits;
    filling_in = r;
    tally_le = omega (arith, e, v.tally_le);
    tally_eq = λ on. e ∙ v.tally_eq on;
    sending = λ on. i;
    processing = v.processing;
  }

  -- Once the context is done turns may be lost.
  when_cancelled :
      (s : Sender) (q : Processor) (fs : List Fetch)
      → p.cancelled ≡ true
      → p.turns + length fs + pending p.size s ≤ tally p
      → InRange p.size s
      → PoolFits (record p { sender = s; processor = q; fetches = fs })
  when_cancelled s q fs off e r = record {
    fits = v.fits;
    filling_in = r;
    tally_le = omega (arith, e, v.tally_le);
    tally_eq = λ on. cc;
    sending = λ on. cc;
    processing = λ on. cc;
  }

pub Step-PoolFits : {env : Env} {p q : Pool} → Step env p q → PoolFits p → PoolFits q
Step-PoolFits {env} {p} (asks keys draw claims now r c at on draws called) v =
    let (r', c', e, fits, seen, told) =
      next_url_total env keys draw claims now p.crawler v.fits draws in
    let same : c' ≡ c = cc in with_crawler v c _ p.evicting (subst (λ d. UrlsFit d.urls) same fits)
Step-PoolFits {p} (asking_ends at off) v = with_crawler v p.crawler Looper.stopped p.evicting v.fits
Step-PoolFits {p} (offering_ends url at off) v =
    with_crawler v p.crawler Looper.stopped p.evicting v.fits
Step-PoolFits {p} (hands_over url at there) v =
    with_crawler
      (with_sender v p.turns (fetching url ∷ p.fetches) for_turn (rw there (omega arith)) refl tt)
      p.crawler asking p.evicting v.fits
Step-PoolFits {p} (fills i at room) v =
    with_sender v (p.turns + 1) p.fetches (filling (i + 1)) (rw at (omega arith)) refl (omega arith)
Step-PoolFits {p} (filled at) v =
    with_sender v p.turns p.fetches for_turn (rw at (omega arith)) refl tt
Step-PoolFits {p} (takes_turn n at some_left) v =
    with_sender v n p.fetches for_url (rw (at, some_left) (omega arith)) refl tt
Step-PoolFits {p} (for_turn_ends at off) v =
    when_cancelled v Sender.stopped p.processor p.fetches off (omega arith) tt
Step-PoolFits {p} (for_url_ends at off) v =
    when_cancelled v Sender.stopped p.processor p.fetches off (omega arith) tt
Step-PoolFits {p} (fetches_page before after url answer at) v =
    with_fetches v p.turns _ (omega (arith, length_swap before after _ _ p.fetches at))
Step-PoolFits {p} (responds before after r at there) v =
    with_processor
      (with_fetches v p.turns _ (omega (arith, length_swap before after _ _ p.fetches at)))
      (handling r) refl
Step-PoolFits {p} (returns_turn before after at room) v =
    with_fetches v (p.turns + 1) _ (omega (arith, length_remove before after _ p.fetches at))
Step-PoolFits {p} (returning_ends before after at off) v =
    when_cancelled v p.sender p.processor _ off
      (omega (arith, length_remove before after _ p.fetches at)) v.filling_in
Step-PoolFits {env} {p} (processes arrange page ms r c at called) v =
    let (to, c', found, e, sent) =
      process_response_lem env p.crawler r.origin arrange page ms v.fits in
    let same : c' ≡ c = cc in
    with_processor
      (with_crawler v c p.looper p.evicting (subst (λ d. UrlsFit d.urls) same sent.fits)) receiving
      refl
Step-PoolFits {p} (receiving_ends at off) v =
    when_cancelled v p.sender Processor.stopped p.fetches off (omega arith) v.filling_in
Step-PoolFits {p} (evicts keys now at) v =
    with_crawler v _ p.looper p.evicting (evict_claims_lem now keys p.crawler.urls v.fits).fits
Step-PoolFits {p} (evicting_ends at off) v = with_crawler v p.crawler p.looper false v.fits
Step-PoolFits {env} {p} (receives_item now item e u called) v =
    let (e', u', f, fits, seen) = on_new_value_lem env.json now p.crawler.urls item v.fits in
    let same : u' ≡ u = cc in with_crawler v _ p.looper p.evicting (subst UrlsFit same fits)
Step-PoolFits cancels v = record {
  fits = v.fits;
  filling_in = v.filling_in;
  tally_le = v.tally_le;
  tally_eq = λ on. cc;
  sending = λ on. cc;
  processing = λ on. cc;
}

pub Steps-PoolFits : {env : Env} {p q : Pool} → Steps env p q → PoolFits p → PoolFits q
Steps-PoolFits here v = v
Steps-PoolFits (next steps step) v = Step-PoolFits step (Steps-PoolFits steps v)

Step-size : {env : Env} {p q : Pool} → Step env p q → q.size ≡ p.size
Step-size (asks keys draw claims now r c at on draws called) = refl
Step-size (asking_ends at off) = refl
Step-size (offering_ends url at off) = refl
Step-size (hands_over url at there) = refl
Step-size (fills i at room) = refl
Step-size (filled at) = refl
Step-size (takes_turn n at some_left) = refl
Step-size (for_turn_ends at off) = refl
Step-size (for_url_ends at off) = refl
Step-size (fetches_page before after url answer at) = refl
Step-size (responds before after r at there) = refl
Step-size (returns_turn before after at room) = refl
Step-size (returning_ends before after at off) = refl
Step-size (processes arrange page ms r c at called) = refl
Step-size (receiving_ends at off) = refl
Step-size (evicts keys now at) = refl
Step-size (evicting_ends at off) = refl
Step-size (receives_item now item e u called) = refl
Step-size cancels = refl

pub Steps-size : {env : Env} {p q : Pool} → Steps env p q → q.size ≡ p.size
Steps-size here = refl
Steps-size (next steps step) = Step-size step ∙ Steps-size steps
