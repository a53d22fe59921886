-- ===== src/Crawler/Known.antt =====
-- What a crawler knows of the URLs in the log: what it has visited, holds a claim on, or pools.
use mathlib.Core.List.{Permᴰ}
use ww_webcrawler.Prelude.{
  ℤ, ◌≡◌, refl, ap, ◌∙◌, Bool, ◌||◌, Bool-cases, inl, inr, String, string_comparable, Option, List,
  [], ◌∷◌, ◌++◌, done, Result, ok, err, if◌then◌else◌, arith,
}
use ww_webcrawler.Sets.SyncMap.{load, elem, is_some}
use ww_webcrawler.Sets.Time.{Time}
use ww_webcrawler.Sets.Set
use ww_webcrawler.Sets.TimedSet.{TimedSet}
use ww_webcrawler.Crawler.Message.{Message, Item, Json, from_item, visit, claim, report}
use ww_webcrawler.Crawler.State.{Urls}
use ww_webcrawler.Crawler.Valid.{UrlsFit}
use ww_webcrawler.Crawler.Handlers.{
  MessageError, is_type, on_url_claim, on_url_report, on_message, on_new_value,
}
use ww_webcrawler.Crawler.Handlers.Membership.{
  Visited, Claimed, Reported, on_url_visit_lem, on_url_claim_lem, on_url_report_lem,
}
use ww_webcrawler.Crawler.Handlers.Log.{elem-append}

-- A URL that a crawler knows: visited, claimed or in the pool.
unfoldable pub is_known : Urls → String → Bool
is_known u k = Set.has u.visited k || is_some (load k u.claimed.sm) || Set.has u.global_pool k

pub Visited-is_known :
    (u : Urls) (urls : List String) (u' : Urls)
    → Visited u urls u'
    → (k : String) → is_known u' k ≡ elem k urls || is_known u k
unfolding is_known
Visited-is_known u urls u' m k =
    ground (arith, m.now_visited k, m.unclaimed k, ap (λ s. Set.has s k) m.same_pool)

pub Claimed-is_known :
    (now : String → Time) (u : Urls) (urls : List String) (u' : Urls)
    → Claimed now u urls u'
    → (k : String) → is_known u' k ≡ elem k urls || is_known u k
unfolding is_known
Claimed-is_known now u urls u' m k =
    ground (arith, m.same_visited k, m.now_claimed k, ap (λ s. Set.has s k) m.same_pool)

pub Reported-is_known :
    (u : Urls) (urls : List String) (u' : Urls)
    → Reported u urls u'
    → (k : String) → is_known u' k ≡ elem k urls || is_known u k
unfolding is_known
Reported-is_known u urls u' m k = ground (
  arith,
  m.same_visited k,
  m.now_pooled k,
  ap (λ (s : TimedSet String). is_some (load k s.sm)) m.same_claims,
)

-- The URLs that a message mentions, if its type is one of the three.
abbrev pub mentioned : ℤ → List String → List String
mentioned t urls = if is_type t visit || is_type t claim || is_type t report then urls else []

abbrev pub item_urls : Result String Message → List String
item_urls (err e) = []
item_urls (ok m) = mentioned m.message_type m.urls

abbrev pub log_urls : Json → List Item → List String
log_urls json [] = []
log_urls json (item ∷ items) = item_urls (from_item json item) ++ log_urls json items

pub log_urls-append :
    (json : Json) (k : String) (xs ys : List Item)
    → elem k (log_urls json (xs ++ ys)) ≡ elem k (log_urls json xs) || elem k (log_urls json ys)
log_urls-append json k [] ys = refl
log_urls-append json k (x ∷ xs) ys = ground (
  arith,
  log_urls-append json k xs ys,
  elem-append k (item_urls (from_item json x)) (log_urls json xs),
  elem-append k (item_urls (from_item json x)) (log_urls json (xs ++ ys)),
)

pub elem-perm : (k : String) {xs ys : List String} → Permᴰ xs ys → elem k xs ≡ elem k ys
elem-perm k Permᴰ.nil = refl
elem-perm k (Permᴰ.cons e p) = rw e (ap (◌||◌ _) (elem-perm k p))
elem-perm k (Permᴰ.swap e f) = rw (e, f) (ground arith)
elem-perm k (Permᴰ.trans p q) = elem-perm k p ∙ elem-perm k q

on_message-is_known :
    (now : String → Time) (u : Urls) (t : ℤ) (urls : List String) (e : Option MessageError)
    (u' : Urls)
    → UrlsFit u
    → on_message now u t urls ≡ done (e, u')
    → (k : String) → is_known u' k ≡ elem k (mentioned t urls) || is_known u k
unfolding on_message
on_message-is_known now u t urls e u' v h k = elim (Bool-cases (is_type t visit)) [
  | inl is_visit ↦
      let (w, made, f) = on_url_visit_lem u urls v in
      let same : w ≡ u' = cc (rw (is_visit, made) at h) in
      rw (is_visit, ← same) (Visited-is_known u urls w f k)
  | inr other ↦ elim (Bool-cases (is_type t claim)) [
    | inl is_claim ↦
        let same : on_url_claim now u urls ≡ u' = cc (rw (other, is_claim) at h) in
        rw (other, is_claim, ← same)
          (Claimed-is_known now u urls _ (on_url_claim_lem now u urls v) k)
    | inr neither ↦ elim (Bool-cases (is_type t report)) [
      | inl is_report ↦
          let same : on_url_report u urls ≡ u' = cc (rw (other, neither, is_report) at h) in
          rw (other, neither, is_report, ← same)
            (Reported-is_known u urls _ (on_url_report_lem u urls v) k)
      | inr unknown ↦
          let same : u ≡ u' = cc (rw (other, neither, unknown) at h) in
          rw (other, neither, unknown, ← same) refl
    ]
  ]
]

-- An item of the log adds the URLs that it mentions to those that a crawler knows, and takes none away.
pub on_new_value-is_known :
    (json : Json) (now : String → Time) (u : Urls) (item : Item) (e : Option MessageError)
    (u' : Urls)
    → UrlsFit u
    → on_new_value json now u item ≡ done (e, u')
    → (k : String) → is_known u' k ≡ elem k (item_urls (from_item json item)) || is_known u k
unfolding on_new_value
on_new_value-is_known json now u item e u' v h k = go (from_item json item) refl
  where
    go :
        (r : Result String Message)
        → from_item json item ≡ r
        → is_known u' k ≡ elem k (item_urls r) || is_known u k
    go (err x) known = let same : u ≡ u' = cc (rw (known, on_new_value) at h) in rw (← same) refl
    go (ok m) known =
        on_message-is_known now u m.message_type m.urls e u' v (rw (known, on_new_value) at h) k
