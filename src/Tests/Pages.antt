-- ===== src/Tests/Pages.antt =====
-- The theorems on pages, the database and the HTTP service at small inputs.
use ww_webcrawler.Prelude.{
  ◌≡◌, refl, true, not, ◌&&◌, String, Option, none, some, List, [], ◌∷◌, map, done, ok, err, ◌=?◌,
  string_comparable,
}
use ww_webcrawler.Services.Client.{Response, Answer, http_get, http_post, post_params}
use ww_webcrawler.Services.Server.{
  Built, HttpResponse, Slots, handle_get, handle_post, received, get_roundtrip,
}
use ww_webcrawler.Services.Server.Post.{post_roundtrip}
use ww_webcrawler.Sets.SyncMap.{elem, load, IsMap}
use ww_webcrawler.Crawler.Link.{Link, nil_link, link_comparable, extract_links}
use ww_webcrawler.Crawler.Link.Extract.{Match, groups, link_of, wanted, extract_links_lem}
use ww_webcrawler.Crawler.State.{is_none}
use ww_webcrawler.Crawler.Database.{
  register_refs, visit_query, link_statements, answers_well, register_refs_lem,
}

abbrev pub front : Match
front = record {
  whole = "http://a.org:80/front";
  link = "http://a.org:80/front";
  proto = "http://";
  domain = "a.org:80";
  part = "a.";
  port = ":80";
  path = "/front";
}

abbrev pub relative : Match
relative = record {
  whole = "<a href=\"/news\"";
  link = "/news";
  proto = "";
  domain = "";
  part = "";
  port = "";
  path = "/news";
}

extract_links_lem_example :
    (to : List Link) × (extract_links
        (λ ls. ls)
        (groups front)
        (map groups (relative ∷ relative ∷ front ∷ []))
      ≡ done (link_of front, to))
    × ((l : Link) → elem l to ≡ wanted (link_of front) (relative ∷ relative ∷ front ∷ []) l)
extract_links_lem_example =
    extract_links_lem (λ ls. ls) front (relative ∷ relative ∷ front ∷ []) (λ ls l. refl)

-- A database that takes every query.
abbrev agreeable : List String → Answer
agreeable stmts = ok (ok (record { status = 200; error = ok ""; body = ok (b'{' ∷ []) }))

abbrev news : Link
news = record (link_of front) { path = "/news" }

register_refs_lem_example :
    is_none (register_refs agreeable (link_of front) (nil_link ∷ news ∷ []))
    ≡ not (link_of front =? nil_link)
      && answers_well
          (λ s b. true)
          (agreeable (visit_query (link_of front) ∷ link_statements (link_of front) (news ∷ [])))
register_refs_lem_example = register_refs_lem agreeable (link_of front) (nil_link ∷ news ∷ [])

-- The delivery of what a handler returns.
abbrev pub deliver : Option String × Option Built → Answer
deliver (some e, b) = err e
deliver (none, none) = err "no response"
deliver (none, some b) = ok (ok (received b))

abbrev pub page : HttpResponse
page = record { status_code = 404; read_body = ok (b'n' ∷ b'o' ∷ []) }

abbrev pub slots : Slots
slots = record {
  alloc_results = none;
  alloc_response = none;
  set_body = λ body. none;
  set_response = λ b. none;
}

abbrev missing : Response
missing = record { body = b'n' ∷ b'o' ∷ []; status = 404; error = ""; origin = "http://a.org:80/x" }

get_roundtrip_example :
    http_get "http://a.org:80/x"
      (deliver (handle_get slots (ok "http://a.org:80/x") (λ url. ok page)))
    ≡ (none, missing)
get_roundtrip_example =
    get_roundtrip deliver (λ body. none) (λ b. none) "http://a.org:80/x" (λ url. ok page) page
      (λ b. refl) (λ body. refl) (λ b. refl) refl

abbrev given : List (String × String)
given = ("accept", "json") ∷ ("host", "a") ∷ []

given-IsMap : IsMap given
unfolding load
given-IsMap = (refl, (refl, tt))

post_roundtrip_example :
    let p = post_params "http://a.org:80/x" given (1 ∷ []) in
    http_post (
      deliver (
        handle_post slots
          (ok p.url)
          (ok (some p.headers))
          (ok (some p.body))
          (λ url hs body. ok page)))
    ≡ (none, record missing { origin = "" })
post_roundtrip_example =
    post_roundtrip deliver (λ body. none) (λ b. none) "http://a.org:80/x" given (1 ∷ [])
      (λ url hs body. ok page) page (λ b. refl) (λ body. refl) (λ b. refl) given-IsMap refl
