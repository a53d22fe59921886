-- ===== src/Crawler/Database/Posts.antt =====
-- A crawler's database behind the HTTP capability: from the links to the request that net/http sends.
use Prim.Native.String.{◌++◌ as append}
use ww_webcrawler.Prelude.{
  ℕ, ◌≡◌, refl, ap, ◌∙◌, Bool, true, false, String, string_comparable, Option, none, some, List, [],
  ◌∷◌, ◌++◌, map, done, Result, ok, err, ◌=?◌, Bool-cases, inl, inr, if◌then◌else◌, ap₂,
}
use ww_webcrawler.Sets.SyncMap.{load, IsMap}
use ww_webcrawler.Services.Client.{Answer, PostParams, new_basic_auth}
use ww_webcrawler.Services.Server.{Built, HttpResponse, received, seen, handle_post, plain_slots}
use ww_webcrawler.Services.Server.Post.{post_roundtrip, post_refused}
use ww_webcrawler.Crawler.Link.{Link, extract_links, nil_link, link_comparable, to_string}
use ww_webcrawler.Crawler.Link.Extract.{Match, groups, link_of, spelled}
use ww_webcrawler.Crawler.State.{Crawler, Env, is_none}
use ww_webcrawler.Crawler.Valid.{UrlsFit}
use ww_webcrawler.Crawler.Claims.{process_response}
use ww_webcrawler.Crawler.Response.{process_response_lem}
use ww_webcrawler.Crawler.Database.{
  LoginInfo, login_headers, query_params, visit_query, reference_query, page_node, ref_statements,
  link_statements, named, run_queries, checked, register_refs, write_refs_to_db, ref_statements_lem,
}

-- A query through the capability: the server's `Post` with the client's parameters.
abbrev pub served :
    (deliver : Option String × Option Built → Answer)
    → (set_body : List ℕ → Option String) → (set_response : Built → Option String)
    → (send : String → List (String × String) → List ℕ → Result String HttpResponse) → PostParams
    → Answer
served deliver set_body set_response send p = deliver (
    handle_post (plain_slots set_body set_response) (ok p.url) (ok (some p.headers))
      (ok (some p.body)) send)

login_headers-IsMap : (base64 : String → String) (li : LoginInfo) → IsMap (login_headers base64 li)
unfolding login_headers load
login_headers-IsMap base64 li = (refl, (refl, (refl, tt)))

checked-seen : (c : ℕ) (b : Result String (List ℕ)) → (checked (none, seen "" c b)).0 ≡ none
unfolding checked
checked-seen c (ok body) = refl
checked-seen c (err e) = refl

-- The node of a page in the graph database, by its address, domain and path.
abbrev field : (name : String) → (value : String) → String
field name value = append name (append ": \"" (append value "\""))

abbrev node : Link → String
node l = append ":WebPage {" (
    append (field "url" (spelled l)) (
      append ", "
        (append (field "domain" l.domain) (append ", " (append (field "path" l.path) "}")))))

abbrev merging : Link → String
merging l = append "MERGE (" (append (node l) ")")

abbrev referring : Link → Link → String
referring src l = append "MATCH (fromPage" (
    append (node src) (
      append ")\n\t\tMATCH (toPage"
        (append (node l) ")\n\t\tMERGE (fromPage)-[:REFERENCES]->(toPage)")))

abbrev references : Link → List Link → List String
references src [] = []
references src (l ∷ ls) =
    if l =? nil_link then references src ls else merging l ∷ referring src l ∷ references src ls

-- What a crawler writes of a page: the statement on the page itself, and on each link that is not nil
-- that with the reference to it.
abbrev pub page_statements : Link → List Link → List String
page_statements src dsts = merging src ∷ references src dsts

visit_query-merging : (l : Link) → visit_query l ≡ merging l
unfolding visit_query page_node to_string
visit_query-merging l = refl

reference_query-referring : (src l : Link) → reference_query src l ≡ referring src l
unfolding reference_query page_node to_string
reference_query-referring src l = refl

link_statements-references :
    (src : Link) (ls : List Link) → link_statements src (named ls) ≡ references src ls
link_statements-references src [] = refl
link_statements-references src (l ∷ ls) = elim (Bool-cases (l =? nil_link)) [
  | inl nil ↦ rw nil (link_statements-references src ls)
  | inr real ↦ rw real (
      rw (visit_query-merging l, reference_query-referring src l, link_statements-references src ls)
        refl)
]

written_statements :
    (src : Link) (ls : List Link)
    → ref_statements src ls (visit_query src ∷ []) ≡ page_statements src ls
written_statements src ls =
    ref_statements_lem src ls (visit_query src ∷ [])
    ∙ ap₂ (λ s rest. s ∷ rest) (visit_query-merging src) (link_statements-references src ls)

-- The headers of a request to the database: Basic authentication, and JSON both ways.
abbrev pub json_headers : (base64 : String → String) → LoginInfo → List (String × String)
json_headers base64 li =
    ("Authorization", append "Basic " (base64 (append li.username (append ":" li.password))))
    ∷ ("Accept", "application/json;charset=UTF-8")
    ∷ ("Content-Type", "application/json")
    ∷ []

abbrev pub is_answered : Result String HttpResponse → Bool
is_answered (ok r) = true
is_answered (err e) = false

headers_lem :
    (base64 : String → String) (li : LoginInfo) → login_headers base64 li ≡ json_headers base64 li
unfolding login_headers new_basic_auth
headers_lem base64 li = refl

module _ (deliver : Option String × Option Built → Answer) (set_body : List ℕ → Option String)
    (set_response : Built → Option String)
    (send : String → List (String × String) → List ℕ → Result String HttpResponse)
    (marshal : List String → List ℕ) (base64 : String → String) (li : LoginInfo)
    (failure : String → String) where
  -- The database through the HTTP capability.
  abbrev pub posting : List String → Answer
  posting stmts = served deliver set_body set_response send (query_params marshal base64 li stmts)

  checked_post :
      ((b : Built) → deliver (none, some b) ≡ ok (ok (received b)))
      → ((e : String) (b : Option Built) → deliver (some e, b) ≡ err (failure e))
      → ((body : List ℕ) → set_body body ≡ none)
      → ((b : Built) → set_response b ≡ none)
      → (stmts : List String)
      → is_none (run_queries posting stmts).0
        ≡ is_answered (send li.endpoint (json_headers base64 li) (marshal stmts))
  unfolding run_queries checked query_params
  checked_post delivers fails sets responds stmts =
      by_reply (send li.endpoint (login_headers base64 li) (marshal stmts)) refl
      ∙ ap (λ hs. is_answered (send li.endpoint hs (marshal stmts))) (headers_lem base64 li)
    where
      by_reply :
          (r : Result String HttpResponse)
          → send li.endpoint (login_headers base64 li) (marshal stmts) ≡ r
          → is_none (run_queries posting stmts).0
            ≡ is_answered (send li.endpoint (login_headers base64 li) (marshal stmts))
      by_reply (ok r) h =
          rw
            (
              h,
              post_roundtrip deliver set_body set_response li.endpoint (login_headers base64 li)
                  (marshal stmts) send r delivers sets responds (login_headers-IsMap base64 li) h,
              checked-seen r.status_code r.read_body,
            )
            refl
      by_reply (err e) h =
          rw
            (
              h,
              post_refused deliver set_body set_response li.endpoint (login_headers base64 li)
                  (marshal stmts) send e failure fails (login_headers-IsMap base64 li) h,
            )
            refl

  -- A crawler with consistent URLs and a database handles a page of seven submatches, whose own link
  -- is not the nil link. It does not panic and starts one write to the database, of the page's link
  -- and the links found. Where no call of Cap'n Proto fails, `deliver` hands over a response that is
  -- set, and an error of a handler as an error: the write logs no error exactly if net/http answers,
  -- with whatever status and body, a request to the endpoint with the login's headers and the
  -- statements on the page, on each link found that is not nil, and on the references to them.
  pub page_written :
      (env : Env) (c : Crawler) (origin : String) (arrange : List Link → List Link) (page : Match)
      (ms : List Match)
      → UrlsFit c.urls
      → c.writes_db ≡ true
      → (link_of page =? nil_link) ≡ false
      → ((b : Built) → deliver (none, some b) ≡ ok (ok (received b)))
      → ((e : String) (b : Option Built) → deliver (some e, b) ≡ err (failure e))
      → ((body : List ℕ) → set_body body ≡ none)
      → ((b : Built) → set_response b ≡ none)
      → (to : List Link) × (c' : Crawler) × (extract_links arrange (groups page) (map groups ms)
          ≡ done (link_of page, to))
        × (process_response env c origin arrange (groups page) (map groups ms) ≡ done c')
        × (c'.written ≡ c.written ++ (link_of page, to) ∷ [])
        × (is_none (write_refs_to_db (register_refs posting) (link_of page, to))
            ≡ is_answered (
                send li.endpoint
                  (json_headers base64 li)
                  (marshal (page_statements (link_of page) to))))
  unfolding write_refs_to_db register_refs
  page_written env c origin arrange page ms v writes real delivers fails sets responds =
      let (to, c', found, handled, m) = process_response_lem env c origin arrange page ms v in
      (
        to,
        c',
        found,
        handled,
        m.same_written ∙ rw writes refl,
        rw (real, written_statements (link_of page) to)
            (checked_post delivers fails sets responds (page_statements (link_of page) to)),
      )
