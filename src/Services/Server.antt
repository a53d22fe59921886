-- ===== src/Services/Server.antt =====
-- services/http/pkg/server/http.go: the handlers of the HTTP capability. The calls of Cap'n Proto
-- and of net/http are arguments, by what they answer.
pub mod Post
use ww_webcrawler.Prelude.{
  ℕ, ◌%◌, ◌^◌, ◌≡◌, refl, String, Option, none, some, List, [], ◌∷◌, Result, ok, err,
  string_comparable,
}
use ww_webcrawler.Sets.SyncMap.{store}
use ww_webcrawler.Services.Client
use ww_webcrawler.Services.Client.{Response, Received, Answer, read_answer}

-- The response under construction.
pub record Built : Type 0 where
  pub status : ℕ
  pub error : String
  pub body : List ℕ

abbrev pub new_built : Built
new_built = record { status = 0; error = ""; body = [] }

-- `*http.Response`: the status code, and what reading its body to the end gives.
pub record HttpResponse : Type 0 where
  pub status_code : ℕ
  pub read_body : Result String (List ℕ)

-- What the calls of Cap'n Proto answer, an error's text or none; `set_response` answers a response.
pub record Slots : Type 0 where
  pub alloc_results : Option String
  pub alloc_response : Option String
  pub set_body : List ℕ → Option String
  pub set_response : Built → Option String

-- `buildResponse`, whose error its callers ignore
unfoldable pub build_response : Slots → Built → HttpResponse → Option String × Built
build_response slots b r = elim r.read_body [
  | err e ↦ (some e, b)
  | ok body ↦ elim (slots.set_body body) [
    | some e ↦ (some e, b)
    | none ↦ (none, record b { body = body; status = r.status_code % 2 ^ 32 })
  ]
]

-- The end of both handlers: the error returned and the response set.
unfoldable pub respond : Slots → Result String HttpResponse → Option String × Option Built
unfolding build_response
respond slots (err e) = (some e, some (record new_built { error = e }))
respond slots (ok r) =
    let b = (build_response slots new_built r).1 in (slots.set_response b, some b)

-- The start of both: the allocations and the URL.
unfoldable pub with_url :
    Slots
    → Result String String
    → (String → Option String × Option Built)
    → Option String × Option Built
with_url slots url handle = elim slots.alloc_results [
  | some e ↦ (some e, none)
  | none ↦ elim slots.alloc_response [
    | some e ↦ (some e, none)
    | none ↦ elim url [ err e ↦ (some e, none) | ok u ↦ handle u ]
  ]
]

-- `http_get` is `http.Get`.
unfoldable pub handle_get :
    Slots
    → Result String String
    → (http_get : String → Result String HttpResponse) → Option String × Option Built
unfolding with_url respond
handle_get slots url http_get = with_url slots url (λ u. respond slots (http_get u))

-- The loop over the headers, of which the valid ones are given: a later value replaces an earlier.
unfoldable pub collect_headers :
    List (String × String) → List (String × String) → List (String × String)
collect_headers [] headers = headers
collect_headers ((k, v) ∷ rest) headers = collect_headers rest (store k v headers)

abbrev body_or_empty : Option (List ℕ) → List ℕ
body_or_empty none = []
body_or_empty (some body) = body

-- `headers` and `body` are those of the call, `none` where it has none; `send` is `NewRequest`, the
-- adding of the headers and `Do`.
unfoldable pub handle_post :
    Slots
    → Result String String
    → Result String (Option (List (String × String)))
    → Result String (Option (List ℕ))
    → (send : String → List (String × String) → List ℕ → Result String HttpResponse)
    → Option String × Option Built
unfolding with_url collect_headers respond
handle_post slots url headers body send = with_url slots url (λ u. elim headers [
  | err e ↦ (some e, none)
  | ok given ↦ elim body [
    | err e ↦ (some e, none)
    | ok b ↦ respond slots (send u (collect_headers (given_or_empty given) []) (body_or_empty b))
  ]
])
  where
    given_or_empty : Option (List (String × String)) → List (String × String)
    given_or_empty none = []
    given_or_empty (some hs) = hs

-- A response that a handler has set, as its caller receives it.
abbrev pub received : Built → Received
received b = record { status = b.status; error = ok b.error; body = ok b.body }

-- What a caller of `Get` should see of a reply: nothing of it if its body cannot be read.
abbrev pub seen : String → ℕ → Result String (List ℕ) → Response
seen url code (ok body) = record { body = body; status = code % 2 ^ 32; error = ""; origin = url }
seen url code (err e) = record { body = []; status = 0; error = ""; origin = url }

abbrev pub plain_slots :
    (set_body : List ℕ → Option String) (set_response : Built → Option String) → Slots
plain_slots set_body set_response = record {
  alloc_results = none;
  alloc_response = none;
  set_body = set_body;
  set_response = set_response;
}

-- The end of a handler, as its caller reads it.
pub read-respond :
    (deliver : Option String × Option Built → Answer) (set_body : List ℕ → Option String)
    (set_response : Built → Option String) (origin : String) (c : ℕ) (b : Result String (List ℕ))
    → ((b : Built) → deliver (none, some b) ≡ ok (ok (received b)))
    → ((body : List ℕ) → set_body body ≡ none)
    → ((b : Built) → set_response b ≡ none)
    → read_answer origin (
        deliver (
          respond
            (plain_slots set_body set_response)
            (ok (record { status_code = c; read_body = b }))))
      ≡ (none, seen origin c b)
unfolding respond build_response read_answer
read-respond deliver set_body set_response origin c (err e) delivers sets responds =
    rw (responds new_built, delivers new_built) refl
read-respond deliver set_body set_response origin c (ok body) delivers sets responds =
    let b : Built = record new_built { body = body; status = c % 2 ^ 32 } in
    rw (sets body) (rw (responds b, delivers b) refl)

-- The client's `Get` against the server's: where no call of Cap'n Proto fails and `deliver` hands
-- over a response that is set, the caller sees the body and the status of the reply. It is told of
-- no error if the body cannot be read: the response is empty.
pub get_roundtrip :
    (deliver : Option String × Option Built → Answer) (set_body : List ℕ → Option String)
    (set_response : Built → Option String) (url : String)
    (get : String → Result String HttpResponse) (r : HttpResponse)
    → ((b : Built) → deliver (none, some b) ≡ ok (ok (received b)))
    → ((body : List ℕ) → set_body body ≡ none)
    → ((b : Built) → set_response b ≡ none)
    → get url ≡ ok r
    → let slots : Slots = record {
      alloc_results = none;
      alloc_response = none;
      set_body = set_body;
      set_response = set_response;
    } in
      Client.http_get url (deliver (handle_get slots (ok url) get))
      ≡ (none, seen url r.status_code r.read_body)
unfolding handle_get with_url Client.http_get
get_roundtrip deliver set_body set_response url get r delivers sets responds replied = rw replied (
    read-respond deliver set_body set_response url r.status_code r.read_body delivers sets responds)
