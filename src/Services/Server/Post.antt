-- ===== src/Services/Server/Post.antt =====
-- A `Post` from the client to net/http and back.
use mathlib.Core.Bool.{false≢true}
use ww_webcrawler.Prelude.{
  err, ℕ, ◌+◌, ◌≡◌, refl, sym, ap, subst, ◌∙◌, true, String, string_comparable, beq_self, ◌=?◌,
  Bool-cases, inl, inr, Option, none, some, List, [], ◌∷◌, ◌++◌, append_assoc, append-nil, Result,
  ok, length, set, replicate, length-append,
}
use ww_webcrawler.Sets.SyncMap.{load, store, IsMap, is_some}
use ww_webcrawler.Services.Client.{nil_response, Answer, fill_headers, post_params, http_post}
use ww_webcrawler.Services.Server.{
  respond, Built, HttpResponse, received, seen, collect_headers, with_url, handle_post, plain_slots,
  read-respond,
}

module _ {A : Type 0} where
  set_next :
      (before after : List A) (x y : A)
      → set (before ++ x ∷ after) (length before) y ≡ before ++ y ∷ after
  set_next [] after x y = refl
  set_next (b ∷ before) after x y = ap (◌∷◌ b) (set_next before after x y)

-- The loop of `Post` fills all its slots.
fill_headers_lem :
    (before hs : List (String × String)) (blank : String × String)
    → fill_headers (length before) hs (before ++ replicate (length hs) blank) ≡ before ++ hs
unfolding fill_headers
fill_headers_lem before [] blank = refl
fill_headers_lem before (h ∷ hs) blank =
    ap (fill_headers (length before + 1) hs) (set_next before (replicate (length hs) blank) blank h)
    ∙ ap (fill_headers (length before + 1) hs)
        (sym (append_assoc before (h ∷ []) (replicate (length hs) blank)))
    ∙ subst
        (λ n.
          fill_headers n hs ((before ++ h ∷ []) ++ replicate (length hs) blank)
          ≡ (before ++ h ∷ []) ++ hs)
        (length-append before (h ∷ [])) (fill_headers_lem (before ++ h ∷ []) hs blank)
    ∙ append_assoc before (h ∷ []) hs

module _ {V : Type 0} where
  store_fresh :
      (k : String) (v : V) (m : List (String × V))
      → load k m ≡ none
      → store k v m ≡ m ++ (k, v) ∷ []
  unfolding load store
  store_fresh k v [] h = refl
  store_fresh k v ((j, w) ∷ m) h = elim (Bool-cases (j =? k)) [
    | inl same ↦ cc (rw same at h)
    | inr other ↦ rw other (ap (◌∷◌ (j, w)) (store_fresh k v m (rw other at h)))
  ]

  load_there :
      (k : String) (v : V) (before after : List (String × V))
      → is_some (load k (before ++ (k, v) ∷ after)) ≡ true
  unfolding load
  load_there k v [] after = rw (beq_self k) refl
  load_there k v ((j, w) ∷ before) after = elim (Bool-cases (j =? k)) [
    | inl same ↦ rw same refl
    | inr other ↦ rw other (load_there k v before after)
  ]

  fresh_key :
      (k : String) (v : V) (before after : List (String × V))
      → IsMap (before ++ (k, v) ∷ after)
      → load k before ≡ none
  unfolding load
  fresh_key k v [] after d = refl
  fresh_key k v ((j, w) ∷ before) after d = elim (Bool-cases (j =? k)) [
    | inl same ↦
        let e : j ≡ k = (string_comparable.beq_iff j k).0 same in
        let missing : load k (before ++ (k, v) ∷ after) ≡ none =
          subst (λ i. load i (before ++ (k, v) ∷ after) ≡ none) e d.0 in
        absurd (false≢true (sym (ap is_some missing) ∙ load_there k v before after))
    | inr other ↦ rw other (fresh_key k v before after d.1)
  ]

-- The server's map holds the headers, if no two have the same key.
collect_headers_lem :
    (before hs : List (String × String))
    → IsMap (before ++ hs)
    → collect_headers hs before ≡ before ++ hs
unfolding collect_headers
collect_headers_lem before [] d = sym (append-nil before)
collect_headers_lem before ((k, v) ∷ hs) d =
    ap (collect_headers hs) (store_fresh k v before (fresh_key k v before hs d))
    ∙ collect_headers_lem (before ++ (k, v) ∷ []) hs
        (subst IsMap (sym (append_assoc before ((k, v) ∷ []) hs)) d)
    ∙ append_assoc before ((k, v) ∷ []) hs

-- The client's headers at the server.
headers_arrive :
    (headers : List (String × String))
    → IsMap headers
    → collect_headers (fill_headers 0 headers (replicate (length headers) ("", ""))) [] ≡ headers
headers_arrive headers distinct =
    ap (λ hs. collect_headers hs []) (fill_headers_lem [] headers ("", ""))
    ∙ collect_headers_lem [] headers distinct

-- The client's `Post` against the server's, with headers of different keys: where no call of Cap'n
-- Proto fails and `deliver` hands over a response that is set, net/http gets the URL, the headers
-- and the body of the caller, and the caller sees the body and the status of the reply, or an
-- empty response and no error if the body cannot be read.
pub post_roundtrip :
    (deliver : Option String × Option Built → Answer) (set_body : List ℕ → Option String)
    (set_response : Built → Option String) (url : String) (headers : List (String × String))
    (body : List ℕ) (send : String → List (String × String) → List ℕ → Result String HttpResponse)
    (r : HttpResponse)
    → ((b : Built) → deliver (none, some b) ≡ ok (ok (received b)))
    → ((body : List ℕ) → set_body body ≡ none)
    → ((b : Built) → set_response b ≡ none)
    → IsMap headers
    → send url headers body ≡ ok r
    → let p = post_params url headers body in
      http_post (
        deliver (
          handle_post
            (plain_slots set_body set_response)
            (ok p.url)
            (ok (some p.headers))
            (ok (some p.body))
            send))
      ≡ (none, seen "" r.status_code r.read_body)
unfolding handle_post with_url http_post post_params
post_roundtrip deliver set_body set_response url headers body send r delivers sets responds distinct
      replied =
    rw (headers_arrive headers distinct, replied)
      (read-respond deliver set_body set_response "" r.status_code r.read_body delivers sets
        responds)

-- Where net/http fails instead, so does the call.
pub post_refused :
    (deliver : Option String × Option Built → Answer) (set_body : List ℕ → Option String)
    (set_response : Built → Option String) (url : String) (headers : List (String × String))
    (body : List ℕ) (send : String → List (String × String) → List ℕ → Result String HttpResponse)
    (e : String) (failure : String → String)
    → ((e : String) (b : Option Built) → deliver (some e, b) ≡ err (failure e))
    → IsMap headers
    → send url headers body ≡ err e
    → let p = post_params url headers body in
      http_post (
        deliver (
          handle_post
            (plain_slots set_body set_response)
            (ok p.url)
            (ok (some p.headers))
            (ok (some p.body))
            send))
      ≡ (some (failure e), nil_response)
unfolding handle_post with_url respond http_post post_params
post_refused deliver set_body set_response url headers body send e failure fails distinct refused =
    rw (headers_arrive headers distinct, refused) (rw (fails e) refl)
