-- ===== src/Crawler/Response.antt =====
-- `processResponse` on consistent URLs: what a page makes of the crawler.
use ww_webcrawler.Prelude.{
  ◌≡◌, refl, ap, ◌∙◌, Bool, true, false, String, List, [], ◌∷◌, ◌++◌, map, done, ◌>>=◌,
  if◌then◌else◌,
}
use ww_webcrawler.Crawler.Link.{Link, extract_links}
use ww_webcrawler.Crawler.Link.Extract.{Match, groups, link_of, extract_links_total}
use ww_webcrawler.Crawler.Message.{visit}
use ww_webcrawler.Crawler.State.{Crawler, Env}
use ww_webcrawler.Crawler.Valid.{UrlsFit}
use ww_webcrawler.Crawler.Claims.{report_visits, sort_and_send, process_response}
use ww_webcrawler.Crawler.Claims.Sent.{items_of, send_msg_lem}
use ww_webcrawler.Crawler.Claims.Sort.{LinksSent, sort_and_send_lem}

-- The crawler when it sorts the links: the visit is reported, and the database written.
abbrev pub reported : Env → Crawler → String → Link → List Link → Crawler
reported env c origin from to = record c {
  sent = c.sent ++ items_of env.json c.raft_id visit (origin ∷ []);
  written = if c.writes_db then c.written ++ (from, to) ∷ [] else c.written;
}

write_if :
    (b : Bool) (c : Crawler) (written : List (Link × List Link))
    → (if b then record c { written = written } else c)
      ≡ record c { written = if b then written else c.written }
write_if true c written = refl
write_if false c written = refl

-- `processResponse` never panics on consistent URLs and matches of seven submatches: it reports the
-- visit of the origin, writes the links to the database if there is one, and then sorts and sends
-- the links that the page holds.
pub process_response_lem :
    (env : Env) (c : Crawler) (origin : String) (arrange : List Link → List Link) (page : Match)
    (ms : List Match)
    → UrlsFit c.urls
    → (to : List Link) × (c' : Crawler) × (extract_links arrange (groups page) (map groups ms)
        ≡ done (link_of page, to))
      × (process_response env c origin arrange (groups page) (map groups ms) ≡ done c')
      × LinksSent env (reported env c origin (link_of page) to) to c'
unfolding process_response report_visits
process_response_lem env c origin arrange page ms v =
    let (to, found) = extract_links_total arrange page ms in
    let d = reported env c origin (link_of page) to in
    let (c', sorted, made) = sort_and_send_lem env d to v in
    (
      to,
      c',
      found,
      rw (found, send_msg_lem env c visit (origin ∷ []))
          (ap (λ d. sort_and_send env d to >>= λ r. done r.1) (write_if c.writes_db _ _)
            ∙ rw sorted refl),
      made,
    )
