-- ===== src/Crawler/System/Spread.antt =====
-- How a visited page gets known: processResponse, the log, and onNewValue of every process.
use ww_webcrawler.Prelude.{
  none, ◌≡◌, refl, sym, ap, subst, ◌∙◌, true, ok, beq_self, String, string_comparable, List, [],
  ◌∷◌, ◌++◌, length, length-append, append_assoc, append-nil, Each, member-Each, append-Each,
  placed-Each, arith,
}
use ww_webcrawler.Sets.SyncMap.{elem}
use ww_webcrawler.Sets.Time.{Time}
use ww_webcrawler.Sets.Set
use ww_webcrawler.Services.Client.{Response}
use ww_webcrawler.Crawler.Link.{Link}
use ww_webcrawler.Crawler.Link.Extract.{Match}
use ww_webcrawler.Crawler.Message.{Item, visit, claim, report, from_item}
use ww_webcrawler.Crawler.State.{Env}
use ww_webcrawler.Crawler.Pool.Invariant.{PoolFits}
use ww_webcrawler.Crawler.Handlers.Log.{log_visits, on_new_value_lem}
use ww_webcrawler.Crawler.Claims.Sent.{items_of}
use ww_webcrawler.Crawler.Exchange.{RoundTrips, items_of_one}
use ww_webcrawler.Crawler.Response.{process_response_lem}
use ww_webcrawler.Crawler.Pool.{receiving, handling, processes}
use ww_webcrawler.Crawler.Cluster.Agreement.{log_visits-append}
use ww_webcrawler.Crawler.System.{
  Site, System, no_system, is_own, moves, commits, applies, SystemSteps, here, next,
}
use ww_webcrawler.Crawler.System.Refine.{Reached, Reached-PoolFits, system_refines}
use ww_webcrawler.Crawler.System.Agreement.{system_agreement}

pub append-SystemSteps :
    {env : Env} {s t u : System} → SystemSteps env s t → SystemSteps env t u → SystemSteps env s u
append-SystemSteps first here = first
append-SystemSteps first (next steps step) = next (append-SystemSteps first steps) step

pub same_length :
    {A : Type 0} (before after : List A) (x y : A)
    → length (before ++ x ∷ after) ≡ length (before ++ y ∷ after)
same_length before after x y =
    length-append before (x ∷ after) ∙ sym (length-append before (y ∷ after))

pub site-PoolFits :
    {env : Env} {s : System} (before after : List Site) (m : Site)
    → SystemSteps env no_system s
    → s.sites ≡ before ++ m ∷ after
    → PoolFits m.pool
site-PoolFits {env} {s} before after m steps at =
    let all = subst (Each (Reached env)) at (system_refines env s steps).1 in
    Reached-PoolFits m (member-Each (Reached env) before after m all)

module _ {env : Env} (now : String → Time) where
  -- A process can apply the rest of the log.
  catch_up :
      (rest : List Item) (s : System) (before after : List Site) (m : Site)
      → SystemSteps env no_system s
      → s.sites ≡ before ++ m ∷ after
      → s.log ≡ m.applied ++ rest
      → (t : System) × (n : Site) × SystemSteps env s t
        × (t.sites ≡ before ++ n ∷ after)
        × (t.log ≡ s.log)
        × (n.applied ≡ s.log)
  catch_up [] s before after m steps at log =
      (s, m, here, at, refl, sym (log ∙ append-nil m.applied))
  catch_up (item ∷ rest) s before after m steps at log =
      let (e, u, called, fits, seen) =
        on_new_value_lem env.json now m.pool.crawler.urls item
          (site-PoolFits before after m steps at).fits in
      let step = applies before after m item rest now e u at log called in
      let (t, n, later, at', same, all) =
        catch_up rest _ before after _ (next steps step) refl
          (log ∙ sym (append_assoc m.applied (item ∷ []) rest)) in
      (t, n, append-SystemSteps (next here step) later, at', same, all)

  -- All processes can, those before `after` have.
  catch_all :
      (after : List Site) (s : System) (before : List Site) (l : List Item)
      → SystemSteps env no_system s
      → s.sites ≡ before ++ after
      → s.log ≡ l
      → Each (λ n. n.applied ≡ l) before
      → (t : System) × SystemSteps env s t
        × (length t.sites ≡ length s.sites)
        × (t.log ≡ l)
        × Each (λ n. n.applied ≡ l) t.sites
  catch_all [] s before l steps at log h =
      (s, here, refl, log, subst (Each (λ n. n.applied ≡ l)) (sym (at ∙ append-nil before)) h)
  catch_all (m ∷ after) s before l steps at log h =
      let (seen, (rest, begins), told, shared) =
        system_agreement env s before after before after m m steps at at (omega arith) in
      let (t, n, first, at', same, all) = catch_up rest s before after m steps at begins in
      let (u, second, sites, log', each) =
        catch_all after t (before ++ n ∷ []) l (append-SystemSteps steps first)
          (at' ∙ sym (append_assoc before (n ∷ []) after)) (same ∙ log)
          (append-Each (λ n. n.applied ≡ l) before n h (all ∙ log)) in
      (
        u,
        append-SystemSteps first second,
        sites ∙ ap length at' ∙ same_length before after n m ∙ ap length (sym at),
        log',
        each,
      )

-- The log with a visit at its end.
visits_last :
    (env : Env) (l : List Item) (item : Item) (k : String)
    → from_item env.json item ≡ ok (record { message_type = visit; urls = k ∷ [] })
    → elem k (log_visits env.json (l ++ item ∷ [])) ≡ true
visits_last env l item k read =
    log_visits-append env.json k l (item ∷ []) ∙ rw (read, beq_self k) (ground arith)

-- In every state that processes with their goroutines reach over one log, where a message is read
-- back from its encoding and PutItem takes every visit of a response's origin without an error: if
-- the processResponses of a process has a response, then whatever the
-- regular expressions answer on it (pages of seven submatches), and whatever the other goroutines
-- wait for, there are steps after which every process has visited the response's origin.
pub page_spreads :
    (env : Env) (now : String → Time) (arrange : List Link → List Link) (page : Match)
    (ms : List Match) (s : System) (before after : List Site) (m : Site) (r : Response)
    → RoundTrips env.json
    → ((earlier : List Item) (item : Item)
        → from_item env.json item ≡ ok (record { message_type = visit; urls = r.origin ∷ [] })
        → env.put_item earlier item ≡ none)
    → SystemSteps env no_system s
    → s.sites ≡ before ++ m ∷ after
    → m.pool.processor ≡ handling r
    → (t : System) × SystemSteps env s t
      × (length t.sites ≡ length s.sites)
      × Each (λ n. Set.has n.pool.crawler.visited r.origin ≡ true) t.sites
unfolding is_own
page_spreads env now arrange page ms s before after m r trips puts steps at busy =
    let c = m.pool.crawler in
    let (to, c', found, called, made) =
      process_response_lem env c r.origin arrange page ms
        (site-PoolFits before after m steps at).fits in
    let (item, one, read) = items_of_one env.json c.raft_id visit r.origin [] trips in
    let tail : List Item =
      items_of env.json c.raft_id claim made.taken
      ++ (items_of env.json c.raft_id report made.refused
          ++ items_of env.json c.raft_id report made.left) in
    let put_visit : c'.sent ≡ c.sent ++ item ∷ tail =
      made.told
      ∙ append_assoc c.sent (items_of env.json c.raft_id visit (r.origin ∷ [])) tail
      ∙ ap (λ l. c.sent ++ (l ++ tail)) one in
    let m' : Site = record m { pool = record m.pool { crawler = c'; processor = receiving } } in
    let first : SystemSteps env s _ =
      next
        (next here
          (moves before after m m'.pool at (processes arrange page ms r c' busy called) refl))
        (commits before after m' c.sent tail item refl put_visit
          (rw (puts c.sent item read) refl)) in
    let (t, second, sites, log, each) =
      catch_all now (before ++ m' ∷ after) _ [] (s.log ++ item ∷ [])
        (append-SystemSteps steps first) refl refl tt in
    let reached = append-SystemSteps steps (append-SystemSteps first second) in
    (
      t,
      append-SystemSteps first second,
      sites ∙ same_length before after m' m ∙ ap length (sym at),
      placed-Each (λ n. n.applied ≡ s.log ++ item ∷ [])
          (λ n. Set.has n.pool.crawler.visited r.origin ≡ true) [] t.sites
          (λ b a n e applied.
            (system_agreement env t b a b a n n reached e e (omega arith)).0 r.origin
            ∙ ap (λ l. elem r.origin (log_visits env.json l)) applied
            ∙ visits_last env s.log item r.origin read)
          each,
    )
