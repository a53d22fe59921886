-- ===== src/Crawler/System/Answered.antt =====
-- From a goroutine of sendRequests with a URL to every process.
use mathlib.Core.Bool.{false≢true}
use ww_webcrawler.Prelude.{
  [], ℕ, ◌≡◌, refl, sym, ap, ◌∙◌, true, false, String, string_comparable, none, Result, ok, err,
  List, ◌∷◌, ◌++◌, length, Each, subst,
}
use ww_webcrawler.Sets.Time.{Time}
use ww_webcrawler.Sets.Set
use ww_webcrawler.Services.Client.{Response, Answer, from_fields, http_get}
use ww_webcrawler.Crawler.Link.Extract.{Match}
use ww_webcrawler.Crawler.Message.{Item, visit, from_item}
use ww_webcrawler.Crawler.State.{Env}
use ww_webcrawler.Crawler.Exchange.{RoundTrips}
use ww_webcrawler.Crawler.Response.{process_response_lem}
use ww_webcrawler.Crawler.Pool.{
  Pool, Processor, receiving, handling, Fetch, fetching, answering, returning, fetches_page,
  responds, processes,
}
use ww_webcrawler.Crawler.System.{Site, System, no_system, is_own, moves, SystemSteps, here, next}
use ww_webcrawler.Crawler.System.Spread.{
  append-SystemSteps, same_length, site-PoolFits, page_spreads,
}

-- A `Get` without an error has the URL for its response's origin.
get_origin :
    (url : String) (a : Answer) → (http_get url a).0 ≡ none → (http_get url a).1.origin ≡ url
unfolding http_get
get_origin url (err e) h = cc
get_origin url (ok (err e)) h = cc
get_origin url (ok (ok r)) h = fields r.error r.body h
  where
    fields :
        (error : Result String String) (body : Result String (List ℕ))
        → (from_fields url r.status error body).0 ≡ none
        → (from_fields url r.status error body).1.origin ≡ url
    fields (err e) body k = cc
    fields (ok text) (err e) k = cc
    fields (ok text) (ok body) k = refl

module _ (env : Env) (page : Response → Match) (ms : Response → List Match) where
  -- A process whose processResponses is ready to receive, with the same goroutines.
  Ready : System → List Site → List Site → List Fetch → Type 0
  Ready s before after fs =
      (t : System) × (n : Site) × SystemSteps env s t
      × (t.sites ≡ before ++ n ∷ after)
      × (n.pool.processor ≡ receiving)
      × (n.pool.fetches ≡ fs)

  site-Ready :
      (s : System) (before after : List Site) (m : Site) (x : Processor)
      → m.pool.processor ≡ x
      → SystemSteps env no_system s
      → s.sites ≡ before ++ m ∷ after
      → m.pool.cancelled ≡ false
      → Ready s before after m.pool.fetches
  unfolding Ready is_own
  site-Ready s before after m receiving busy steps at on = (s, m, here, at, busy, refl)
  site-Ready s before after m (handling r) busy steps at on =
      let (to, c, found, called, made) =
        process_response_lem env m.pool.crawler r.origin (λ ls. ls) (page r) (ms r)
          (site-PoolFits before after m steps at).fits in
      let n : Site = record m { pool = record m.pool { crawler = c; processor = receiving } } in
      (
        record s { sites = before ++ n ∷ after },
        n,
        next here (
            moves before after m n.pool at (processes (λ ls. ls) (page r) (ms r) r c busy called)
              refl),
        refl,
        refl,
        refl,
      )
  site-Ready s before after m Processor.stopped busy steps at on =
      absurd (false≢true (rw busy at (site-PoolFits before after m steps at).processing on))

  -- In every state that processes with their goroutines reach over one log, where a message is read
  -- back from its encoding and PutItem returns no error for a visit of the URL: if a process whose
  -- context is not done has a goroutine with the URL, and the call of the HTTP capability for it
  -- makes no error, then whatever else the web and the regular expressions answer (pages of seven
  -- submatches), there are steps after which every process has visited the URL.
  pub request_spreads :
      (now : String → Time) (s : System) (before after : List Site) (m : Site)
      (earlier later : List Fetch) (url : String) (answer : Answer)
      → RoundTrips env.json
      → ((earlier : List Item) (item : Item)
          → from_item env.json item ≡ ok (record { message_type = visit; urls = url ∷ [] })
          → env.put_item earlier item ≡ none)
      → SystemSteps env no_system s
      → s.sites ≡ before ++ m ∷ after
      → m.pool.cancelled ≡ false
      → m.pool.fetches ≡ earlier ++ fetching url ∷ later
      → (http_get url answer).0 ≡ none
      → (t : System) × SystemSteps env s t
        × (length t.sites ≡ length s.sites)
        × Each (λ n. Set.has n.pool.crawler.visited url ≡ true) t.sites
  unfolding Ready is_own
  request_spreads now s before after m earlier later url answer trips puts steps at on asked
        answered =
      let (t, n, first, at', free, same) =
        site-Ready s before after m m.pool.processor refl steps at on in
      let r = (http_get url answer).1 in
      let p : Pool = record n.pool { fetches = earlier ++ answering r ∷ later } in
      let q : Pool = record p { processor = handling r; fetches = earlier ++ returning ∷ later } in
      let arrives : SystemSteps env t
          (record t { sites = before ++ record n { pool = q } ∷ after }) =
        next
          (next here (
            moves before after n p at' (fetches_page earlier later url answer (same ∙ asked)) refl))
          (moves before after (record n { pool = p }) q refl (responds earlier later r refl free)
            refl) in
      let begun = append-SystemSteps first arrives in
      let (u, rest, sites, each) =
        page_spreads env now (λ ls. ls) (page r) (ms r) _ before after (record n { pool = q }) r
          trips
          (λ e i read. puts e i (
            subst (λ k. from_item env.json i ≡ ok (record { message_type = visit; urls = k ∷ [] }))
              (get_origin url answer answered) read))
          (append-SystemSteps steps begun) refl refl in
      (
        u,
        append-SystemSteps begun rest,
        sites ∙ same_length before after (record n { pool = q }) m ∙ ap length (sym at),
        subst (λ k. Each (λ n. Set.has n.pool.crawler.visited k ≡ true) u.sites)
            (get_origin url answer answered) each,
      )
