-- ===== src/Crawler/Claims/Sent.antt =====
-- What the crawler hands to the shared log when it claims and reports URLs.
use mathlib.Core.List.{Perm}
use ww_webcrawler.Prelude.{
  ℕ, ◌≡◌, refl, sym, ap, subst, ◌∙◌, String, Option, List, [], ◌∷◌, ◌++◌, append-nil, done, Result,
  ok, err, ℤ, string_comparable,
}
use ww_webcrawler.Queue.View.{contents}
use ww_webcrawler.Crawler.Message.{Item, Json, as_item, claim, report}
use ww_webcrawler.Crawler.State.{Crawler, Env}
use ww_webcrawler.Crawler.Claims.{send_item, send_msg, report_urls, claim_urls}
use ww_webcrawler.Crawler.Claims.Put.{put_claims_lem}
use ww_webcrawler.Crawler.Valid.{UrlsFit}

abbrev ok_items : Result String Item → List Item
ok_items (ok item) = item ∷ []
ok_items (err e) = []

-- The items of a message: none for no URL, or if the message cannot be encoded.
abbrev pub items_of : Json → ℕ → ℤ → List String → List Item
items_of json id t [] = []
items_of json id t (url ∷ urls) =
    ok_items (as_item json (record { message_type = t; urls = url ∷ urls }) id)

-- `sendMsg` hands over one item that holds all the URLs, or nothing; it changes nothing else.
pub send_msg_lem :
    (env : Env) (c : Crawler) (t : ℤ) (urls : List String)
    → (send_msg env c t urls).1 ≡ record c { sent = c.sent ++ items_of env.json c.raft_id t urls }
unfolding send_msg
send_msg_lem env c t [] = ap (λ xs. record c { sent = xs }) (sym (append-nil c.sent))
send_msg_lem env c t (url ∷ urls) =
    sent_item (as_item env.json (record { message_type = t; urls = url ∷ urls }) c.raft_id)
  where
    sent_item :
        (r : Result String Item) → (send_item env c r).1 ≡ record c { sent = c.sent ++ ok_items r }
    sent_item (ok item) = refl
    sent_item (err e) = ap (λ xs. record c { sent = xs }) (sym (append-nil c.sent))

-- What the claim of `urls` makes of `c`: `taken` are claimed and `left` are reported.
pub record ClaimsMade (env : Env) (c : Crawler) (urls : List String) (c' : Crawler) : Type 0 where
  pub fits : UrlsFit c'.urls
  pub taken : List String
  pub left : List String
  pub split : Perm (taken ++ left) urls
  pub queued : contents c'.local_queue ≡ contents c.local_queue ++ taken
  pub told :
      c'.sent
      ≡ (c.sent ++ items_of env.json c.raft_id claim taken)
        ++ items_of env.json c.raft_id report left
  pub same_pool : c'.global_pool ≡ c.global_pool
  pub same_claimed : c'.claimed ≡ c.claimed
  pub same_visited : c'.visited ≡ c.visited
  pub same_id : c'.raft_id ≡ c.raft_id
  pub same_written : c'.written ≡ c.written

-- For a crawler with consistent URLs, `claimUrls` never panics. It tells the others of a claim to
-- exactly the URLs that the queue took, and reports the others.
pub claim_urls_lem :
    (env : Env) (c : Crawler) (urls : List String)
    → UrlsFit c.urls
    → (e : Option String) × (c' : Crawler) × (claim_urls env c urls ≡ done (e, c'))
      × ClaimsMade env c urls c'
unfolding claim_urls
claim_urls_lem env c urls v =
    let (q, taken, left, h, p) = put_claims_lem c.local_queue urls [] [] v.queue_fits in
    let queued = record c { urls = record c.urls { local_queue = q } } in
    let claims = send_msg env queued claim taken in
    let reports = report_urls env claims.1 left in
    let final =
      send_msg_lem env claims.1 report left
      ∙ ap {A = Crawler} {B = Crawler}
          (λ d. record d { sent = d.sent ++ items_of env.json d.raft_id report left })
          (send_msg_lem env queued claim taken) in
    (
      claims.0,
      reports.1,
      rw h,
      subst (ClaimsMade env c urls) (sym final) (record {
        fits = record {
          queue_fits = p.fits;
          pool_valid = v.pool_valid;
          claimed_valid = v.claimed_valid;
          visited_valid = v.visited_valid;
        };
        taken = taken;
        left = left;
        split = p.split;
        queued = p.queued ∙ ap (◌++◌ (contents c.local_queue)) (sym p.claims);
        told = refl;
        same_pool = refl;
        same_claimed = refl;
        same_visited = refl;
        same_id = refl;
        same_written = refl;
      }),
    )
