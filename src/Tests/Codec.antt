-- ===== src/Tests/Codec.antt =====
-- A concrete encoding of messages: the type, then each URL's characters, ended by a 0.
use Prim.Native.Nat.{Ordering, compare}
use Prim.Native.Char.{Char, char, code, nul}
use ww_webcrawler.Prelude.{
  ℕ, zero, suc, ◌≡◌, refl, ap, String, Option, none, some, List, [], ◌∷◌, Result, ok, err, ℤ, pos,
  negsuc,
}
use ww_webcrawler.Crawler.Message.{Message, Json}
use ww_webcrawler.Crawler.Exchange.{RoundTrips}

-- `IsLt` and `IsScalar`, in tests that are not yet computed
abbrev Below : Ordering → Type 0
Below Ordering.lt = Unit
Below Ordering.eq = ⊥
Below Ordering.gt = ⊥

abbrev Both : Ordering → Ordering → Type 0
Both Ordering.lt o = Below o
Both Ordering.eq o = ⊥
Both Ordering.gt o = ⊥

abbrev Scalar : Ordering → Ordering → Ordering → Type 0
Scalar Ordering.lt o p = Unit
Scalar Ordering.eq o p = Both o p
Scalar Ordering.gt o p = Both o p

abbrev is_both : (o p : Ordering) → Option (Both o p)
is_both Ordering.lt Ordering.lt = some tt
is_both Ordering.lt _ = none
is_both _ p = none

abbrev is_scalar : (o p q : Ordering) → Option (Scalar o p q)
is_scalar Ordering.lt p q = some tt
is_scalar Ordering.eq p q = is_both p q
is_scalar Ordering.gt p q = is_both p q

is_both-some : (o p : Ordering) (h : Both o p) → is_both o p ≡ some h
is_both-some Ordering.lt Ordering.lt h = refl
is_both-some Ordering.lt Ordering.eq h = absurd h
is_both-some Ordering.lt Ordering.gt h = absurd h
is_both-some Ordering.eq p h = absurd h
is_both-some Ordering.gt p h = absurd h

is_scalar-some : (o p q : Ordering) (h : Scalar o p q) → is_scalar o p q ≡ some h
is_scalar-some Ordering.lt p q h = refl
is_scalar-some Ordering.eq p q h = is_both-some p q h
is_scalar-some Ordering.gt p q h = is_both-some p q h

abbrev to_char : ℕ → Char
to_char n = elim (is_scalar (compare n 55296) (compare 57343 n) (compare n 1114112)) [
  | some h ↦ char n h
  | none ↦ nul
]

to_char-code : (c : Char) → to_char (code c) ≡ c
to_char-code (char n h) =
    rw (to_char, is_scalar-some (compare n 55296) (compare 57343 n) (compare n 1114112) h) refl

abbrev write_text : String → List ℕ → List ℕ
write_text String.[] rest = zero ∷ rest
write_text (String.◌∷◌ c s) rest = suc (code c) ∷ write_text s rest

abbrev write_texts : List String → List ℕ
write_texts [] = []
write_texts (s ∷ texts) = write_text s (write_texts texts)

abbrev push : Char → List String → List String
push c [] = String.◌∷◌ c "" ∷ []
push c (s ∷ texts) = String.◌∷◌ c s ∷ texts

abbrev read_texts : List ℕ → List String
read_texts [] = []
read_texts (zero ∷ codes) = "" ∷ read_texts codes
read_texts (suc n ∷ codes) = push (to_char n) (read_texts codes)

read-write_text :
    (s : String) (rest : List ℕ) → read_texts (write_text s rest) ≡ s ∷ read_texts rest
read-write_text String.[] rest = refl
read-write_text (String.◌∷◌ c s) rest = rw (to_char-code c, read-write_text s rest) refl

read-write_texts : (texts : List String) → read_texts (write_texts texts) ≡ texts
read-write_texts [] = refl
read-write_texts (s ∷ texts) =
    rw (read-write_text s (write_texts texts)) (ap (◌∷◌ s) (read-write_texts texts))

abbrev pub write : Message → List ℕ
write m = elim m.message_type [
  | pos n ↦ 0 ∷ n ∷ write_texts m.urls
  | negsuc n ↦ 1 ∷ n ∷ write_texts m.urls
]

abbrev read : List ℕ → Result String Message
read (zero ∷ n ∷ codes) = ok (record { message_type = pos n; urls = read_texts codes })
read (suc sign ∷ n ∷ codes) = ok (record { message_type = negsuc n; urls = read_texts codes })
read _ = err "unexpected end of JSON input"

abbrev pub codes_json : Json
codes_json = record { marshal = λ m. ok (write m); unmarshal = read }

read-write :
    (t : ℤ) (urls : List String)
    → let m : Message = record { message_type = t; urls = urls } in read (write m) ≡ ok m
read-write (pos n) urls = rw (read-write_texts urls) refl
read-write (negsuc n) urls = rw (read-write_texts urls) refl

pub codes_json-RoundTrips : RoundTrips codes_json
codes_json-RoundTrips = record {
  read_back = λ m. (write m, refl, read-write m.message_type m.urls);
}
