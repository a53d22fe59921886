-- ===== src/Crawler/Claims.antt =====
-- What a crawler tells the others: the visits, claims and reports of crawler.go.
pub mod Sort
pub mod Evict
pub mod Sent
pub mod Put
use Prim.Native.String.{◌++◌ as append}
use ww_webcrawler.Prelude.{
  string_comparable, ℕ, zero, suc, ◌+◌, ◌-◌, ◌%◌, Bool, true, false, ◌&&◌, not, String, Option,
  none, some, List, [], ◌∷◌, ◌++◌, Panics, done, panicked, ◌>>=◌, Result, ok, err, ℤ, ltb, ◌==◌,
  if◌then◌else◌, length,
}
use ww_webcrawler.Queue
use ww_webcrawler.Queue.{UniqueQueue}
use ww_webcrawler.Sets.SyncMap.{load}
use ww_webcrawler.Sets.Set
use ww_webcrawler.Sets.Set.{Set}
use ww_webcrawler.Sets.Time.{Time, before, add_seconds}
use ww_webcrawler.Sets.TimedSet
use ww_webcrawler.Crawler.Link.{Link, to_string, extract_links}
use ww_webcrawler.Crawler.Message.{Message, Item, as_item, visit, claim, report}
use ww_webcrawler.Crawler.State.{Urls, Crawler, Env, queue_cap, claim_timeout}

-- The rest of `sendMsg`, with the item or the error of `AsItem`.
unfoldable pub send_item : Env → Crawler → Result String Item → Option String × Crawler
send_item env c (err e) = (some e, c)
send_item env c (ok item) = (env.put_item c.sent item, record c { sent = c.sent ++ item ∷ [] })

unfoldable pub send_msg : Env → Crawler → ℤ → List String → Option String × Crawler
unfolding send_item as_item
send_msg env c t [] = (none, c)
send_msg env c t (url ∷ urls) =
    send_item env c (as_item env.json (record { message_type = t; urls = url ∷ urls }) c.raft_id)

-- The two below only log the error that they return.
unfoldable pub report_visits : Env → Crawler → List String → Option String × Crawler
unfolding send_msg
report_visits env c urls = send_msg env c visit urls

unfoldable pub report_urls : Env → Crawler → List String → Option String × Crawler
unfolding send_msg
report_urls env c urls = send_msg env c report urls

-- The loop of `claimUrls`: the queue, what it took and what it refused.
unfoldable pub put_claims :
    UniqueQueue String
    → List String
    → List String
    → List String
    → Panics (UniqueQueue String × List String × List String)
put_claims q [] claimed unclaimed = done (q, claimed, unclaimed)
put_claims q (url ∷ urls) claimed unclaimed = Queue.put q url >>= λ r. elim r.0 [
  | none ↦ put_claims r.1 urls (claimed ++ url ∷ []) unclaimed
  | some e ↦ put_claims r.1 urls claimed (unclaimed ++ url ∷ [])
]

unfoldable pub claim_urls : Env → Crawler → List String → Panics (Option String × Crawler)
unfolding put_claims send_msg report_urls
claim_urls env c urls = put_claims c.local_queue urls [] [] >>= λ r.
    let queued = record c { urls = record c.urls { local_queue = r.0 } } in
    let sent = send_msg env queued claim r.1 in done (sent.0, (report_urls env sent.1 r.2).1)

-- The loop of `sortAndSend`, from the link with index `i` on: the URLs to claim and the rest.
unfoldable pub sort_urls :
    ℕ → Set String → ℕ → List Link → List String → List String → List String × List String
sort_urls free visited i [] claimed unclaimed = (claimed, unclaimed)
sort_urls free visited i (link ∷ links) claimed unclaimed =
    let ref = to_string link in
    let skipped = sort_urls free visited (i + 1) links claimed unclaimed in
    let kept = sort_urls free visited (i + 1) links (claimed ++ ref ∷ []) unclaimed in
    let left = sort_urls free visited (i + 1) links claimed (unclaimed ++ ref ∷ []) in
    if Set.has visited ref
    then skipped
    else if ltb (length claimed) free && i % 3 == 0
    then kept
    else left

-- `make` panics on a negative number of free slots.
unfoldable pub sort_and_send : Env → Crawler → List Link → Panics (Option String × Crawler)
unfolding sort_urls claim_urls report_urls
sort_and_send env c links =
    if ltb queue_cap c.local_queue.size
    then panicked
    else let sorted = sort_urls (queue_cap - c.local_queue.size) c.visited 0 links [] [] in
      claim_urls env c sorted.0 >>= λ r. done (none, (report_urls env r.1 sorted.1).1)

-- The body of the `Range` of `evictClaims` for one claim; `now` is the clock's reading at it.
unfoldable pub evict_claim : Urls → String → Option Time → (now : Time) → Urls
evict_claim u url none now = u
evict_claim u url (some claim_date) now =
    if before (add_seconds claim_date claim_timeout) now
    then record u {
      claimed = (TimedSet.pop u.claimed url).1;
      global_pool = Set.put u.global_pool url;
    }
    else u

-- `keys` is the order of the `Range`.
unfoldable pub evict_claims : (keys : List String) → (now : String → Time) → Urls → Urls
unfolding evict_claim
evict_claims [] now u = u
evict_claims (url ∷ keys) now u =
    evict_claims keys now (evict_claim u url (load url u.claimed.sm) (now url))

-- `arrange`, `from_groups` and `matches` are those of `extract_links`, for the origin and the body.
-- The call of `DBWrite` is started in another goroutine.
unfoldable pub process_response :
    Env
    → Crawler
    → (origin : String) → (List Link → List Link)
    → (from_groups : List String) → (matches : List (List String)) → Panics Crawler
unfolding extract_links report_visits sort_and_send
process_response env c origin arrange from_groups matches =
    extract_links arrange from_groups matches >>= λ extracted.
    let reported = (report_visits env c (origin ∷ [])).1 in
    let writing = record reported { written = c.written ++ extracted ∷ [] } in
    sort_and_send env (if c.writes_db then writing else reported) extracted.1 >>= λ r. done r.1
