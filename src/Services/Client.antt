-- ===== src/Services/Client.antt =====
-- services/http/pkg/http.go: what a caller of the HTTP capability makes of the answer to a call.
use Prim.Native.String.{◌++◌ as append}
use ww_webcrawler.Prelude.{
  ◌∷◌, ◌+◌, set, replicate, length, ℕ, String, Option, none, some, List, [], Result, ok, err,
}

pub record Response : Type 0 where
  pub body : List ℕ
  pub status : ℕ
  pub error : String
  pub origin : String

-- `Response{}`, which stands beside an error
abbrev pub nil_response : Response
nil_response = record { body = []; status = 0; error = ""; origin = "" }

-- A response as it is received. Its readers of pointers can fail, with the error's text.
pub record Received : Type 0 where
  pub status : ℕ
  pub error : Result String String
  pub body : Result String (List ℕ)

-- The answer to a call: `f.Struct()`, and in it `res.Response()`.
abbrev pub Answer : Type 0
Answer = Result String (Result String Received)

-- The error and the response, with its origin, that the fields of an answer make.
abbrev pub from_fields :
    (origin : String) → ℕ → Result String String → Result String (List ℕ) → Option String × Response
from_fields origin status (err e) body = (some e, nil_response)
from_fields origin status (ok text) (err e) = (some e, nil_response)
from_fields origin status (ok text) (ok body) =
    (none, record { body = body; status = status; error = text; origin = origin })

unfoldable pub read_answer : (origin : String) → Answer → Option String × Response
read_answer origin (err e) = (some e, nil_response)
read_answer origin (ok (err e)) = (some e, nil_response)
read_answer origin (ok (ok r)) = from_fields origin r.status r.error r.body

-- `Get`, with the answer to its call
unfoldable pub http_get : (url : String) → Answer → Option String × Response
unfolding read_answer
http_get url answer = read_answer url answer

-- `Post`, with the answer to its call: it leaves the origin empty.
unfoldable pub http_post : Answer → Option String × Response
unfolding read_answer
http_post answer = read_answer "" answer

-- The parameters of a call of `post`.
pub record PostParams : Type 0 where
  pub headers : List (String × String)
  pub body : List ℕ
  pub url : String

-- The loop over the headers, from the place `i` on.
unfoldable pub fill_headers :
    ℕ → List (String × String) → List (String × String) → List (String × String)
fill_headers i [] slots = slots
fill_headers i (h ∷ hs) slots = fill_headers (i + 1) hs (set slots i h)

-- What `Post` fills in; `headers` is the map in the order of the range. Where Cap'n Proto cannot
-- take a parameter, the call's answer is an error.
unfoldable pub post_params : (url : String) → List (String × String) → List ℕ → PostParams
unfolding fill_headers
post_params url headers body = record {
  headers = fill_headers 0 headers (replicate (length headers) ("", ""));
  body = body;
  url = url;
}

-- `base64` is `base64.StdEncoding.EncodeToString` of the bytes of a string.
unfoldable pub new_basic_auth : (base64 : String → String) → String → String → String
new_basic_auth base64 user password = append "Basic " (base64 (append user (append ":" password)))
