-- ===== src/Crawler/Handlers/Log.antt =====
-- A crawler that applies the shared log, item by item.
use mathlib.Core.Bool.{Bool-set}
use mathlib.Core.Logic.{∥∥₁_elim}
use mathlib.Core.List.{Perm, Permᴰ}
use ww_webcrawler.Prelude.{
  ℕ, ◌+◌, ◌≡◌, refl, sym, ap, ◌∙◌, ◌||◌, String, Option, none, some, List, [], ◌∷◌, ◌++◌, Panics,
  done, ◌>>=◌, Result, ok, err, ℤ, if◌then◌else◌, Bool-cases, inl, inr, string_comparable, arith,
}
use ww_webcrawler.Sets.SyncMap.{elem}
use ww_webcrawler.Sets.Time.{Time}
use ww_webcrawler.Sets.Set
use ww_webcrawler.Crawler.Message.{Message, Item, Json, from_item, visit, claim, report}
use ww_webcrawler.Crawler.State.{Urls, new_urls}
use ww_webcrawler.Crawler.Handlers.{
  MessageError, undecodable, unrecognized, is_type, on_message, on_new_value, on_url_claim,
  on_url_report,
}
use ww_webcrawler.Crawler.Handlers.Membership.{
  on_url_visit_lem, on_url_claim_lem, on_url_report_lem,
}
use ww_webcrawler.Crawler.Valid.{UrlsFit, new_urls-UrlsFit}

-- The URLs that a message says are visited.
abbrev pub visits_of : ℤ → List String → List String
visits_of t urls = if is_type t visit then urls else []

abbrev pub item_visits : Result String Message → List String
item_visits (err e) = []
item_visits (ok m) = visits_of m.message_type m.urls

on_message_lem :
    (now : String → Time) (u : Urls) (t : ℤ) (urls : List String)
    → UrlsFit u
    → (e : Option MessageError) × (u' : Urls) × (on_message now u t urls ≡ done (e, u'))
      × UrlsFit u'
      × ((k : String) → Set.has u'.visited k ≡ elem k (visits_of t urls) || Set.has u.visited k)
unfolding on_message
on_message_lem now u t urls v = elim (Bool-cases (is_type t visit)) [
  | inl is_visit ↦
      let (u', h, f) = on_url_visit_lem u urls v in
      (none, u', rw (is_visit, h), f.fits, rw is_visit f.now_visited)
  | inr other ↦ elim (Bool-cases (is_type t claim)) [
    | inl is_claim ↦
        let f = on_url_claim_lem now u urls v in
        (none, on_url_claim now u urls, rw (other, is_claim), f.fits, rw other f.same_visited)
    | inr neither ↦ elim (Bool-cases (is_type t report)) [
      | inl is_report ↦
          let f = on_url_report_lem u urls v in
          (
            none,
            on_url_report u urls,
            rw (other, neither, is_report),
            f.fits,
            rw other f.same_visited,
          )
      | inr unknown ↦
          (some (unrecognized t), u, rw (other, neither, unknown), v, rw other (λ k. refl))
    ]
  ]
]

pub on_new_value_lem :
    (json : Json) (now : String → Time) (u : Urls) (item : Item)
    → UrlsFit u
    → (e : Option MessageError) × (u' : Urls) × (on_new_value json now u item ≡ done (e, u'))
      × UrlsFit u'
      × ((k : String)
          → Set.has u'.visited k
            ≡ elem k (item_visits (from_item json item)) || Set.has u.visited k)
unfolding on_new_value
on_new_value_lem json now u item v = decoded (from_item json item) refl
  where
    decoded :
        (r : Result String Message)
        → from_item json item ≡ r
        → (e : Option MessageError) × (u' : Urls) × (on_new_value json now u item ≡ done (e, u'))
          × UrlsFit u'
          × ((k : String) → Set.has u'.visited k ≡ elem k (item_visits r) || Set.has u.visited k)
    decoded (err e) h = (some (undecodable e), u, rw (h, on_new_value), v, λ k. refl)
    decoded (ok m) h =
        let (e, u', g, fits, f) = on_message_lem now u m.message_type m.urls v in
        (e, u', rw (h, on_new_value) g, fits, f)

-- `now n` are the clock's readings at item number `n` of the log.
unfoldable pub apply_log : Json → (ℕ → String → Time) → ℕ → Urls → List Item → Panics Urls
unfolding on_new_value
apply_log json now n u [] = done u
apply_log json now n u (item ∷ items) =
    on_new_value json (now n) u item >>= λ r. apply_log json now (n + 1) r.1 items

abbrev pub log_visits : Json → List Item → List String
log_visits json [] = []
log_visits json (item ∷ items) = item_visits (from_item json item) ++ log_visits json items

pub elem-append : (k : String) (xs ys : List String) → elem k (xs ++ ys) ≡ elem k xs || elem k ys
elem-append k [] ys = refl
elem-append k (x ∷ xs) ys = ground (arith, elem-append k xs ys)

-- From consistent URLs, no log makes a crawler panic. After a log exactly the URLs visited before
-- and those of the log's visit messages are visited: claims, reports and unreadable items add none
-- and take none away.
pub apply_log_lem :
    (json : Json) (now : ℕ → String → Time) (n : ℕ) (u : Urls) (items : List Item)
    → UrlsFit u
    → (u' : Urls) × (apply_log json now n u items ≡ done u')
      × UrlsFit u'
      × ((k : String)
          → Set.has u'.visited k ≡ elem k (log_visits json items) || Set.has u.visited k)
unfolding apply_log
apply_log_lem json now n u [] v = (u, refl, v, λ k. refl)
apply_log_lem json now n u (item ∷ items) v =
    let (e, w, h, fits, first) = on_new_value_lem json (now n) u item v in
    let (u', g, fits', rest) = apply_log_lem json now (n + 1) w items fits in
    (
      u',
      rw h g,
      fits',
      λ k. ground (
        arith,
        first k,
        rest k,
        elem-append k (item_visits (from_item json item)) (log_visits json items),
      ),
    )

log_visits-perm :
    (json : Json) (k : String) {items items' : List Item}
    → Permᴰ items items'
    → elem k (log_visits json items) ≡ elem k (log_visits json items')
log_visits-perm json k Permᴰ.nil = refl
log_visits-perm json k (Permᴰ.cons {a = x} {b = y} {l₁ = xs} {l₂ = ys} e p) = rw e (
    elem-append k (item_visits (from_item json y)) (log_visits json xs)
    ∙ ap (λ b. elem k (item_visits (from_item json y)) || b) (log_visits-perm json k p)
    ∙ sym (elem-append k (item_visits (from_item json y)) (log_visits json ys)))
log_visits-perm json k (Permᴰ.swap {a} {b} {a'} {b'} {l} e f) = rw (e, f) (swapped a' b' l)
  where
    swapped :
        (x y : Item) (l : List Item)
        → elem k (log_visits json (y ∷ x ∷ l)) ≡ elem k (log_visits json (x ∷ y ∷ l))
    swapped x y l = ground (
      arith,
      elem-append k (item_visits (from_item json x)) (log_visits json l),
      elem-append k (item_visits (from_item json y)) (log_visits json l),
      elem-append k (item_visits (from_item json x))
          (item_visits (from_item json y) ++ log_visits json l),
      elem-append k (item_visits (from_item json y))
          (item_visits (from_item json x) ++ log_visits json l),
    )
log_visits-perm json k (Permᴰ.trans p q) = log_visits-perm json k p ∙ log_visits-perm json k q

-- Two new crawlers that apply the same items, each in an order of its own and at times of its own,
-- agree on which URLs are visited.
pub visited_agreement :
    (json : Json) (now now' : ℕ → String → Time) (items items' : List Item)
    → Perm items items'
    → (u : Urls) × (u' : Urls) × (apply_log json now 0 new_urls items ≡ done u)
      × (apply_log json now' 0 new_urls items' ≡ done u')
      × ((k : String) → Set.has u.visited k ≡ Set.has u'.visited k)
visited_agreement json now now' items items' p =
    let (u, h, fits, f) = apply_log_lem json now 0 new_urls items new_urls-UrlsFit in
    let (u', h', fits', f') = apply_log_lem json now' 0 new_urls items' new_urls-UrlsFit in
    (
      u,
      u',
      h,
      h',
      λ k.
          f k
          ∙ ap (λ b. b || Set.has new_urls.visited k)
              (∥∥₁_elim p (Bool-set _ _) (λ d. log_visits-perm json k d))
          ∙ sym (f' k),
    )
