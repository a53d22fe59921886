-- ===== src/Crawler/Pool/Progress.antt =====
-- The goroutines do not wait for one another forever.
use mathlib.Core.Bool.{false≢true}
use ww_webcrawler.Prelude.{
  ℕ, zero, suc, ◌+◌, ◌-◌, ◌<◌, ◌≤◌, ◌≡◌, refl, subst, ap, ◌∙◌, false, String, List, [], ◌∷◌, ◌++◌,
  length, arith,
}
use ww_webcrawler.Services.Client.{Response, Answer, http_get}
use ww_webcrawler.Crawler.Link.Extract.{Match}
use ww_webcrawler.Crawler.State.{Crawler, Env}
use ww_webcrawler.Crawler.Valid.{UrlsFit}
use ww_webcrawler.Crawler.Response.{process_response_lem}
use ww_webcrawler.Crawler.Pool.{
  asking, offering, Sender, filling, for_turn, for_url, Processor, receiving, handling, Fetch,
  fetching, answering, returning, Pool, start_pool, Steps, here, next,
}
use ww_webcrawler.Crawler.Pool.Step.{
  hands_over, fills, filled, takes_turn, fetches_page, responds, returns_turn, processes,
}
use ww_webcrawler.Crawler.Pool.Invariant.{
  PoolFits, pending, Steps-size, Steps-PoolFits, start_pool-PoolFits,
}

append-Steps : {env : Env} {p q r : Pool} → Steps env p q → Steps env q r → Steps env p r
append-Steps a here = a
append-Steps a (next b step) = next (append-Steps a b) step

-- The web and the regular expressions answer in any way: `answer` for a URL, and for a response the
-- submatches of its origin and of its body.
module _ (env : Env) (answer : String → Answer) (page : Response → Match)
    (ms : Response → List Match) where
  -- The processor gets ready to receive; only the crawler changes besides.
  free_processor :
      (p : Pool) (x : Processor)
      → p.processor ≡ x
      → PoolFits p
      → p.cancelled ≡ false
      → (c : Crawler) × Steps env p (record p { crawler = c; processor = receiving })
  free_processor p receiving at v on =
      (p.crawler, subst (λ x. Steps env p (record p { processor = x })) at here)
  free_processor p (handling r) at v on =
      let (to, c, found, called, sent) =
        process_response_lem env p.crawler r.origin (λ ls. ls) (page r) (ms r) v.fits in
      (c, next here (processes (λ ls. ls) (page r) (ms r) r c at called))
  free_processor p Processor.stopped at v on = absurd (false≢true (rw at at v.processing on))

  -- The first goroutine gives its turn back.
  Freed : Pool → List Fetch → Type 0
  Freed p rest =
      (c : Crawler) × (x : Processor) × Steps env p
        (record p { crawler = c; processor = x; turns = p.turns + 1; fetches = rest })

  free_answering :
      (p : Pool) (r : Response) (rest : List Fetch)
      → p.fetches ≡ answering r ∷ rest
      → PoolFits p
      → p.cancelled ≡ false
      → Freed p rest
  unfolding Freed
  free_answering p r rest at v on =
      let (c, steps) = free_processor p p.processor refl v on in
      (
        c,
        handling r,
        next (next steps (responds [] rest r at refl))
            (returns_turn [] rest refl (omega (arith, v.tally_le, ap length at))),
      )

  free_turn :
      (p : Pool) (f : Fetch) (rest : List Fetch)
      → p.fetches ≡ f ∷ rest
      → PoolFits p
      → p.cancelled ≡ false
      → Freed p rest
  unfolding Freed
  free_turn p returning rest at v on = (
    p.crawler,
    p.processor,
    next here (returns_turn [] rest at (omega (arith, v.tally_le, ap length at))),
  )
  free_turn p (answering r) rest at v on = free_answering p r rest at v on
  free_turn p (fetching url) rest at v on =
      let got = (http_get url (answer url)).1 in
      let fetched : Pool = record p { fetches = answering got ∷ rest } in
      let first : Steps env p fetched = next here (fetches_page [] rest url (answer url) at) in
      let (c, x, steps) = free_answering fetched got rest refl (Steps-PoolFits first v) on in
      (c, x, append-Steps first steps)

  -- `sendRequests` gets to the receive of a URL, while the loop of CrawlForever stands still.
  record Ready (p : Pool) : Type 0 where
    state : Pool
    steps : Steps env p state
    waiting : state.sender ≡ for_url
    same_looper : state.looper ≡ p.looper

  resume : {p q : Pool} → Steps env p q → q.looper ≡ p.looper → Ready q → Ready p
  resume steps same ready = record {
    state = ready.state;
    steps = append-Steps steps ready.steps;
    waiting = ready.waiting;
    same_looper = ready.same_looper ∙ same;
  }

  from_turn :
      (p : Pool) (turns : ℕ) (fs : List Fetch)
      → p.turns ≡ turns
      → p.fetches ≡ fs
      → p.sender ≡ for_turn
      → PoolFits p
      → p.cancelled ≡ false
      → 0 < p.size
      → Ready p
  unfolding Freed
  from_turn p (suc n) fs e at there v on some_size = record {
    state = record p { turns = n; sender = for_url };
    steps = next here (takes_turn n there e);
    waiting = refl;
    same_looper = refl;
  }
  from_turn p zero [] e at there v on some_size =
      absurd (omega (arith, v.tally_eq on, ap length at, ap (pending p.size) there))
  from_turn p zero (f ∷ rest) e at there v on some_size =
      let (c, x, freed) = free_turn p f rest at v on in
      record {
        state = record p {
          crawler = c;
          processor = x;
          turns = 0;
          fetches = rest;
          sender = for_url;
        };
        steps = next freed (takes_turn 0 there (omega arith));
        waiting = refl;
        same_looper = refl;
      }

  -- The filling of the channel, with `left` turns to go.
  from_filling :
      (left : ℕ) (p : Pool) (i : ℕ)
      → p.sender ≡ filling i
      → i + left ≡ p.size
      → PoolFits p
      → p.cancelled ≡ false
      → 0 < p.size
      → Ready p
  from_filling zero p i there e v on some_size =
      let all : p.sender ≡ filling p.size = there ∙ ap filling (omega (arith, e)) in
      let ends : Steps env p (record p { sender = for_turn }) = next here (filled all) in
      resume ends refl (
        from_turn (record p { sender = for_turn }) p.turns p.fetches refl refl refl
          (Steps-PoolFits ends v) on some_size)
  from_filling (suc left) p i there e v on some_size =
      let more : Steps env p (record p { turns = p.turns + 1; sender = filling (i + 1) }) =
        next here (fills i there (omega (arith, e))) in
      resume more refl (
        from_filling left (record p { turns = p.turns + 1; sender = filling (i + 1) }) (i + 1) refl
          (omega (arith, e)) (Steps-PoolFits more v) on some_size)

  free_sender :
      (p : Pool) (s : Sender)
      → p.sender ≡ s
      → PoolFits p
      → p.cancelled ≡ false
      → 0 < p.size
      → Ready p
  free_sender p (filling i) at v on some_size =
      let inside : i ≤ p.size = rw at at v.filling_in in
      from_filling (p.size - i) p i at (omega (arith, inside)) v on some_size
  free_sender p for_turn at v on some_size =
      from_turn p p.turns p.fetches refl refl at v on some_size
  free_sender p for_url at v on some_size = record {
    state = p;
    steps = here;
    waiting = at;
    same_looper = refl;
  }
  free_sender p Sender.stopped at v on some_size = absurd (false≢true (rw at at v.sending on))

  -- From a crawler with consistent URLs and a pool of at least one request, in every state that the
  -- goroutines reach before the context is done, where the loop of CrawlForever waits with a URL:
  -- whatever the web and the regular expressions answer, there are steps after which a goroutine
  -- has the URL and the loop goes on.
  pub offer_taken :
      (c : Crawler) (size : ℕ) (p : Pool) (url : String)
      → UrlsFit c.urls
      → 0 < size
      → Steps env (start_pool c size) p
      → p.cancelled ≡ false
      → p.looper ≡ offering url
      → (q : Pool) × Steps env p q
        × (q.looper ≡ asking)
        × ((rest : List Fetch) × (q.fetches ≡ fetching url ∷ rest))
  unfolding start_pool
  offer_taken c size p url f some_size steps on at =
      let v = Steps-PoolFits steps (start_pool-PoolFits c size f) in
      let r = free_sender p p.sender refl v on (rw (Steps-size steps) some_size) in
      (
        record r.state {
          looper = asking;
          sender = for_turn;
          fetches = fetching url ∷ r.state.fetches;
        },
        next r.steps (hands_over url (r.same_looper ∙ at) r.waiting),
        refl,
        (r.state.fetches, refl),
      )

  -- From a crawler with consistent URLs, in every state that the goroutines reach before the
  -- context is done, where a goroutine has a URL: whatever the web and the regular expressions
  -- answer, there are steps after which the response to it is being processed and its goroutine is
  -- in the deferred function.
  pub request_served :
      (c : Crawler) (size : ℕ) (p : Pool) (before after : List Fetch) (url : String)
      → UrlsFit c.urls
      → Steps env (start_pool c size) p
      → p.cancelled ≡ false
      → p.fetches ≡ before ++ fetching url ∷ after
      → (q : Pool) × Steps env p q
        × (q.processor ≡ handling (http_get url (answer url)).1)
        × (q.fetches ≡ before ++ returning ∷ after)
  unfolding start_pool
  request_served c size p before after url f steps on at =
      let got = (http_get url (answer url)).1 in
      let fetched : Pool = record p { fetches = before ++ answering got ∷ after } in
      let first : Steps env p fetched = next here (fetches_page before after url (answer url) at) in
      let v = Steps-PoolFits first (Steps-PoolFits steps (start_pool-PoolFits c size f)) in
      let (c', ready) = free_processor fetched fetched.processor refl v on in
      (
        record fetched {
          crawler = c';
          processor = handling got;
          fetches = before ++ returning ∷ after;
        },
        append-Steps first (next ready (responds before after got refl refl)),
        refl,
        refl,
      )
