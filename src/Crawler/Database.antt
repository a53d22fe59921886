-- ===== src/Crawler/Database.antt =====
-- crawler/neo4j.go: the statements that a crawler sends to its database, and their answers.
pub mod Posts
use Prim.Native.String.{◌++◌ as append}
use ww_webcrawler.Prelude.{
  ℕ, ◌≡◌, refl, sym, ◌∙◌, append-nil, append_assoc, Bool, true, false, ◌&&◌, ◌||◌, not, String,
  Option, none, some, List, [], ◌∷◌, ◌++◌, Result, ok, err, if◌then◌else◌, ◌==◌, ◌=?◌, Bool-cases,
  inl, inr, string_comparable,
}
use ww_webcrawler.Services.Client.{
  Response, nil_response, Answer, from_fields, http_post, PostParams, post_params, new_basic_auth,
}
use ww_webcrawler.Crawler.State.{is_none}
use ww_webcrawler.Crawler.Link.{Link, nil_link, link_comparable, to_string}

abbrev pub status_ok : ℕ
status_ok = 200

pub record LoginInfo : Type 0 where
  pub endpoint : String
  pub username : String
  pub password : String

unfoldable pub default_headers :
    (base64 : String → String) → String → String → List (String × String)
unfolding new_basic_auth
default_headers base64 username password =
    ("Authorization", new_basic_auth base64 username password)
    ∷ ("Accept", "application/json;charset=UTF-8")
    ∷ ("Content-Type", "application/json")
    ∷ []

unfoldable pub login_headers : (base64 : String → String) → LoginInfo → List (String × String)
unfolding default_headers
login_headers base64 li = default_headers base64 li.username li.password

-- The call of `Post` that `runQueries` makes; `marshal` is encoding/json on the statements.
unfoldable pub query_params :
    (marshal : List String → List ℕ)
    → (base64 : String → String) → LoginInfo
    → List String
    → PostParams
unfolding login_headers post_params
query_params marshal base64 li stmts =
    post_params li.endpoint (login_headers base64 li) (marshal stmts)

-- `fmt.Sprintf` with `%s`
abbrev quoted : String → String → String
quoted label s = append label (append ": \"" (append s "\""))

unfoldable pub page_node : Link → String
page_node page = append ":WebPage {" (
    append (quoted "url" (to_string page)) (
      append ", " (
        append (quoted "domain" page.domain) (append ", " (append (quoted "path" page.path) "}")))))

unfoldable pub node_exists_query : Link → String
unfolding page_node
node_exists_query page = append "MATCH (a" (append (page_node page) ") RETURN a")

unfoldable pub visit_query : Link → String
unfolding page_node
visit_query page = append "MERGE (" (append (page_node page) ")")

unfoldable pub reference_query : Link → Link → String
unfolding page_node
reference_query src dst = append "MATCH (fromPage" (
    append (page_node src) (
      append ")\n\t\tMATCH (toPage"
        (append (page_node dst) ")\n\t\tMERGE (fromPage)-[:REFERENCES]->(toPage)")))

-- The loop of `RegisterRefs`.
unfoldable pub ref_statements : Link → List Link → List String → List String
ref_statements src [] stmts = stmts
ref_statements src (dst ∷ dsts) stmts =
    ref_statements src dsts
      (if dst =? nil_link then stmts else stmts ++ visit_query dst ∷ reference_query src dst ∷ [])

-- What `runQueries` returns for what `Post` does.
unfoldable pub checked : Option String × Response → Option String × Response
checked (some e, r) = (some e, nil_response)
checked (none, r) = if r.error =? "" then (none, r) else (some r.error, r)

-- `query` is the answer to the call with the parameters `query_params` of the statements.
unfoldable pub run_queries : (query : List String → Answer) → List String → Option String × Response
unfolding checked http_post
run_queries query stmts = checked (http_post (query stmts))

unfoldable pub register_refs : (query : List String → Answer) → Link → List Link → Option String
unfolding run_queries ref_statements
register_refs query src dsts =
    if src =? nil_link
    then some "nil src link"
    else (run_queries query (ref_statements src dsts (visit_query src ∷ []))).0

-- crawler.go: the goroutine that `processResponse` starts, with the arguments of its call. It logs the
-- error that it is given here.
unfoldable pub write_refs_to_db :
    (db_write : Link → List Link → Option String) → Link × List Link → Option String
write_refs_to_db db_write (src, dsts) = db_write src dsts

unfoldable pub register_visit : (query : List String → Answer) → Link → Link → Option String
unfolding run_queries
register_visit query src dst = (run_queries query (visit_query dst ∷ [])).0

-- The answer of `PageExists` for the result of its query.
unfoldable pub exists_by : (no_matches : List ℕ → Bool) → Option String × Response → Bool
exists_by no_matches (some e, r) = false
exists_by no_matches (none, r) =
    not (r.error =? "") || not (r.status == status_ok) || not (no_matches r.body)

-- `no_matches` is `strings.HasPrefix` of a body, for the prefix of an answer without matches.
unfoldable pub page_exists :
    (no_matches : List ℕ → Bool) → (query : List String → Answer) → Link → Bool
unfolding run_queries node_exists_query exists_by
page_exists no_matches query page =
    exists_by no_matches (run_queries query (node_exists_query page ∷ []))

abbrev fields_well : (ℕ → List ℕ → Bool) → ℕ → Result String String → Result String (List ℕ) → Bool
fields_well test s (err e) b = false
fields_well test s (ok text) (err e) = false
fields_well test s (ok text) (ok b) = text =? "" && test s b

-- A response arrived without an error text, and `test` holds of its status and its body.
abbrev pub answers_well : (test : ℕ → List ℕ → Bool) → Answer → Bool
answers_well test (err e) = false
answers_well test (ok (err e)) = false
answers_well test (ok (ok r)) = fields_well test r.status r.error r.body

-- The links that are not nil.
abbrev pub named : List Link → List Link
named [] = []
named (l ∷ ls) = if l =? nil_link then named ls else l ∷ named ls

-- Each page and its reference from the source.
abbrev pub link_statements : Link → List Link → List String
link_statements src [] = []
link_statements src (l ∷ ls) = visit_query l ∷ reference_query src l ∷ link_statements src ls

pub ref_statements_lem :
    (src : Link) (dsts : List Link) (stmts : List String)
    → ref_statements src dsts stmts ≡ stmts ++ link_statements src (named dsts)
unfolding ref_statements
ref_statements_lem src [] stmts = sym (append-nil stmts)
ref_statements_lem src (dst ∷ dsts) stmts = elim (Bool-cases (dst =? nil_link)) [
  | inl nil ↦ rw nil (ref_statements_lem src dsts stmts)
  | inr real ↦ rw real (
      ref_statements_lem src dsts (stmts ++ visit_query dst ∷ reference_query src dst ∷ [])
      ∙ append_assoc stmts (visit_query dst ∷ reference_query src dst ∷ []) _)
]

checked-is_none : (a : Answer) → is_none (checked (http_post a)).0 ≡ answers_well (λ s b. true) a
unfolding checked http_post
checked-is_none (err e) = refl
checked-is_none (ok (err e)) = refl
checked-is_none (ok (ok r)) = by_fields r.status r.error r.body
  where
    by_fields :
        (s : ℕ) (t : Result String String) (b : Result String (List ℕ))
        → is_none (checked (from_fields "" s t b)).0 ≡ fields_well (λ s b. true) s t b
    by_fields s (err e) b = refl
    by_fields s (ok text) (err e) = refl
    by_fields s (ok text) (ok b) = elim (Bool-cases (text =? "")) [
      | inl e ↦ rw e refl
      | inr e ↦ rw e refl
    ]

-- `RegisterRefs` succeeds exactly if the source is not the nil link and the database answers, with
-- no error text, one call: it merges the source, then each page that is not nil and the reference
-- to it, in order.
pub register_refs_lem :
    (query : List String → Answer) (src : Link) (dsts : List Link)
    → is_none (register_refs query src dsts)
      ≡ not (src =? nil_link)
        && answers_well (λ s b. true) (query (visit_query src ∷ link_statements src (named dsts)))
unfolding register_refs run_queries
register_refs_lem query src dsts = elim (Bool-cases (src =? nil_link)) [
  | inl nil ↦ rw nil refl
  | inr real ↦
      rw (real, ref_statements_lem src dsts (visit_query src ∷ []))
        (checked-is_none (query (visit_query src ∷ link_statements src (named dsts))))
]

exists_by_lem :
    (no_matches : List ℕ → Bool) (a : Answer)
    → exists_by no_matches (checked (http_post a))
      ≡ answers_well (λ s b. not (s == status_ok) || not (no_matches b)) a
unfolding exists_by checked http_post
exists_by_lem no_matches (err e) = refl
exists_by_lem no_matches (ok (err e)) = refl
exists_by_lem no_matches (ok (ok r)) = by_fields r.status r.error r.body
  where
    test : ℕ → List ℕ → Bool
    test s b = not (s == status_ok) || not (no_matches b)

    by_fields :
        (s : ℕ) (t : Result String String) (b : Result String (List ℕ))
        → exists_by no_matches (checked (from_fields "" s t b)) ≡ fields_well test s t b
    by_fields s (err e) b = refl
    by_fields s (ok text) (err e) = refl
    by_fields s (ok text) (ok b) = elim (Bool-cases (text =? "")) [
      | inl e ↦ rw (e, e) refl
      | inr e ↦ rw e refl
    ]

-- `PageExists` says yes exactly if the database answers its query without an error text, and with a
-- status other than 200 or a body that does not start as one without matches.
pub page_exists_lem :
    (no_matches : List ℕ → Bool) (query : List String → Answer) (page : Link)
    → page_exists no_matches query page
      ≡ answers_well
          (λ s b. not (s == status_ok) || not (no_matches b))
          (query (node_exists_query page ∷ []))
unfolding page_exists run_queries
page_exists_lem no_matches query page =
    exists_by_lem no_matches (query (node_exists_query page ∷ []))
