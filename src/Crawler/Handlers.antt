-- ===== src/Crawler/Handlers.antt =====
-- The handlers of messages from the shared log.
pub mod Log
pub mod Membership
use ww_webcrawler.Prelude.{
  string_comparable, ℕ, Bool, true, false, not, String, Option, none, some, List, [], ◌∷◌, Panics,
  done, ◌>>=◌, Result, ok, err, ℤ, pos, negsuc, ◌==◌, if◌then◌else◌,
}
use ww_webcrawler.Queue
use ww_webcrawler.Sets.Set
use ww_webcrawler.Sets.Time.{Time}
use ww_webcrawler.Sets.TimedSet
use ww_webcrawler.Crawler.Message.{Message, Item, Json, from_item, visit, claim, report}
use ww_webcrawler.Crawler.State.{Urls}

-- The loop body for one URL.
unfoldable pub visit_url : Urls → String → Panics Urls
visit_url u url = Queue.remove u.local_queue url >>= λ queue. done (record u {
  local_queue = queue;
  claimed = (TimedSet.pop u.claimed url).1;
  visited = Set.put u.visited url;
})

unfoldable pub on_url_visit : Urls → List String → Panics Urls
unfolding visit_url
on_url_visit u [] = done u
on_url_visit u (url ∷ urls) = visit_url u url >>= λ u'. on_url_visit u' urls

-- `now` is the clock's reading when a URL is put.
unfoldable pub claim_url : (now : String → Time) → Urls → String → Urls
claim_url now u url =
    if not (Set.has u.visited url)
    then record u { claimed = TimedSet.put u.claimed url (now url) }
    else record u { visited = Set.put u.visited url }

unfoldable pub on_url_claim : (now : String → Time) → Urls → List String → Urls
unfolding claim_url
on_url_claim now u [] = u
on_url_claim now u (url ∷ urls) = on_url_claim now (claim_url now u url) urls

unfoldable pub report_url : Urls → String → Urls
report_url u url =
    if not (Set.has u.visited url)
    then record u { global_pool = Set.put u.global_pool url }
    else record u { visited = Set.put u.visited url }

unfoldable pub on_url_report : Urls → List String → Urls
unfolding report_url
on_url_report u [] = u
on_url_report u (url ∷ urls) = on_url_report (report_url u url) urls

abbrev pub is_type : ℤ → ℤ → Bool
is_type (pos m) (pos n) = m == n
is_type (negsuc m) (negsuc n) = m == n
is_type (pos m) (negsuc n) = false
is_type (negsuc m) (pos n) = false

pub data MessageError : Type 0 where
  undecodable : String → MessageError
  unrecognized : ℤ → MessageError

-- The dispatch on the type of a message.
unfoldable pub on_message :
    (now : String → Time) → Urls → ℤ → List String → Panics (Option MessageError × Urls)
unfolding on_url_visit on_url_claim on_url_report
on_message now u t urls =
    if is_type t visit
    then (on_url_visit u urls >>= λ u'. done (none, u'))
    else if is_type t claim
    then done (none, on_url_claim now u urls)
    else if is_type t report
    then done (none, on_url_report u urls)
    else done (some (unrecognized t), u)

unfoldable pub on_new_value :
    Json → (now : String → Time) → Urls → Item → Panics (Option MessageError × Urls)
unfolding on_message from_item
on_new_value json now u item = elim (from_item json item) [
  | err e ↦ done (some (undecodable e), u)
  | ok msg ↦ on_message now u msg.message_type msg.urls
]
