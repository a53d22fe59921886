-- ===== src/Crawler/Exchange.antt =====
-- Items of the log, where a message is read back from its encoding.
use ww_webcrawler.Prelude.{
  ℕ, ℤ, ◌+◌, ◌||◌, true, append-nil, ◌≡◌, refl, ap, String, Option, List, [], ◌∷◌, ◌++◌, Panics,
  done, panicked, subst, ◌>>=◌, ok, length, string_comparable, arith,
}
use ww_webcrawler.Sets.Time.{Time}
use ww_webcrawler.Crawler.Message.{
  visit, claim, report, Message, Item, Json, as_item, from_item, little_endian,
}
use ww_webcrawler.Crawler.State.{Urls}
use ww_webcrawler.Crawler.Known.{log_urls}
use ww_webcrawler.Sets.SyncMap.{elem}
use ww_webcrawler.Crawler.Handlers.{is_type, MessageError, on_message, on_new_value}
use ww_webcrawler.Crawler.Handlers.Log.{apply_log}
use ww_webcrawler.Crawler.Claims.Sent.{items_of}

-- What the crawlers rely on: a message is read back from its encoding.
pub record RoundTrips (json : Json) : Type 0 where
  pub read_back :
      (m : Message) → (bytes : List ℕ) × (json.marshal m ≡ ok bytes) × (json.unmarshal bytes ≡ ok m)

pub apply_log-append :
    (json : Json) (now : ℕ → String → Time) (n : ℕ) (u v w : Urls) (xs ys : List Item)
    → apply_log json now n u xs ≡ done v
    → apply_log json now (n + length xs) v ys ≡ done w
    → apply_log json now n u (xs ++ ys) ≡ done w
unfolding apply_log
apply_log-append json now n u v w [] ys h k =
    let same : u ≡ v = cc in
    rw same (subst (λ m. apply_log json now m v ys ≡ done w) (omega arith) k)
apply_log-append json now n u v w (x ∷ xs) ys h k =
    go (on_new_value json (now n) u x)
      (λ u' f.
        apply_log-append json now (n + 1) u' v w xs ys f
          (subst (λ m. apply_log json now m v ys ≡ done w) (omega arith) k))
      h
  where
    go :
        (m : Panics (Option MessageError × Urls))
        → ((u' : Urls)
            → apply_log json now (n + 1) u' xs ≡ done v
            → apply_log json now (n + 1) u' (xs ++ ys) ≡ done w)
        → (m >>= λ r. apply_log json now (n + 1) r.1 xs) ≡ done v
        → (m >>= λ r. apply_log json now (n + 1) r.1 (xs ++ ys)) ≡ done w
    go (done r) rest f = rest r.1 f
    go panicked rest f = cc

pub items_of_one :
    (json : Json) (id : ℕ) (t : ℤ) (url : String) (urls : List String)
    → RoundTrips json
    → let m : Message = record { message_type = t; urls = url ∷ urls } in
      (item : Item) × (items_of json id t (url ∷ urls) ≡ item ∷ []) × (from_item json item ≡ ok m)
unfolding as_item from_item
items_of_one json id t url urls trips =
    let (bytes, written, read) = trips.read_back (record { message_type = t; urls = url ∷ urls }) in
    (record { key = little_endian 8 id; value = bytes }, rw (written, as_item), read)

pub on_new_value-ok :
    (json : Json) (now : String → Time) (u : Urls) (item : Item) (m : Message)
    → from_item json item ≡ ok m
    → on_new_value json now u item ≡ on_message now u m.message_type m.urls
unfolding on_new_value
on_new_value-ok json now u item m h = rw (h, on_new_value)

-- An item that holds a message is handled as the message.
pub apply_one :
    (json : Json) (trips : RoundTrips json) (now : ℕ → String → Time) (n id : ℕ) (u : Urls) (t : ℤ)
    (url : String) (urls : List String)
    → apply_log json now n u (items_of json id t (url ∷ urls))
      ≡ (on_message (now n) u t (url ∷ urls) >>= λ r. done r.1)
unfolding apply_log
apply_one json trips now n id u t url urls =
    let (item, single, read) = items_of_one json id t url urls trips in
    rw single (rw (on_new_value-ok json (now n) u item _ read) refl)

pub apply_none :
    (json : Json) (now : ℕ → String → Time) (n : ℕ) (u : Urls) → apply_log json now n u [] ≡ done u
unfolding apply_log
apply_none json now n u = refl

-- What the items of a message mention.
pub items_of-log_urls :
    (json : Json) (id : ℕ) (t : ℤ) (urls : List String)
    → RoundTrips json
    → (is_type t visit || is_type t claim || is_type t report) ≡ true
    → (k : String) → elem k (log_urls json (items_of json id t urls)) ≡ elem k urls
items_of-log_urls json id t [] trips known k = refl
items_of-log_urls json id t (url ∷ urls) trips known k =
    let (item, single, read) = items_of_one json id t url urls trips in
    rw (single, read, known) (ap (elem k) (append-nil (url ∷ urls)))
