-- ===== src/Tests/Races.antt =====
-- The theorems on concurrent calls: of a set at two URLs, and of a crawler at a few.
use ww_webcrawler.Prelude.{
  ◌%◌, ◌^◌, ◌≡◌, refl, ap, sym, ◌⊎◌, inl, inr, Bool-cases, ◌&&◌, ◌||◌, ◌=?◌, String,
  string_comparable, true, false, [], ◌∷◌, length, inc32, arith, done,
}
use ww_webcrawler.Sets.SyncMap.{load, store, delete}
use ww_webcrawler.Sets.Set.{Set, has}
use ww_webcrawler.Sets.Set.Laws.{IsValid}
use ww_webcrawler.Sets.Set.Race.{putting, popping, returned, move, race, put_after_pop_undercounts}
use ww_webcrawler.Sets.Set.Race.Apart.{first, later, Turns, begun, turned, apart-IsValid}
use ww_webcrawler.Sets.Time.{before, add_seconds}
use ww_webcrawler.Crawler.State.{Urls}
use ww_webcrawler.Crawler.Valid.{UrlsFit}
use ww_webcrawler.Crawler.Known.{is_known}
use ww_webcrawler.Crawler.Race.{Evictor, looking, Visitor, marking, interleave, visited_pooled}
use ww_webcrawler.Crawler.Race.Keeps.{in_hand, interleave_keeps}
use ww_webcrawler.Tests.Crawls.{busy, busy-UrlsFit, later as evening}

abbrev one : Set String
one = record { count = 1; sm = ("/a", true) ∷ [] }

one-IsValid : IsValid one
unfolding load
one-IsValid = record { is_map = (refl, tt); counted = refl }

put_after_pop_undercounts_example :
    (s' : Set String) × (race (false ∷ true ∷ true ∷ false ∷ []) (putting "/a") (popping "/a") one
      ≡ (returned, returned, s'))
    × (has s' "/a" ≡ true)
    × (inc32 s'.count ≡ length s'.sm % 2 ^ 32)
put_after_pop_undercounts_example =
    put_after_pop_undercounts one "/a" one-IsValid (unfold load in refl)

-- One goroutine pops an element while another puts a new one.
abbrev both : Set String
both = record { count = 1; sm = ("/b", true) ∷ [] }

interleaved : Turns one (putting "/b" ∷ popping "/a" ∷ []) both (returned ∷ returned ∷ [])
unfolding move load store has delete
interleaved =
    turned (turned (turned (turned (turned begun first) (later first)) first) (later first)) first

different :
    (k : String)
    → (("/b" =? k) ≡ true) ⊎ (("/b" =? k) ≡ false)
    → (("/b" =? k) && (("/a" =? k) || false)) ≡ false
different k (inl same) =
    let at : "/b" ≡ k = (string_comparable.beq_iff "/b" k).0 same in
    ap (λ m. ("/b" =? m) && (("/a" =? m) || false)) (sym at)
different k (inr other) = rw other refl

apart-IsValid_example : IsValid both
apart-IsValid_example =
    apart-IsValid one both (putting "/b" ∷ popping "/a" ∷ []) (returned ∷ returned ∷ []) one-IsValid
      tt (λ k. different k (Bool-cases ("/b" =? k)), ((λ k. ground arith), tt)) interleaved
      (refl, (refl, tt))

visited_pooled_example :
    (u' : Urls) × (interleave
        (λ url. evening)
        (false ∷ true ∷ true ∷ true ∷ false ∷ false ∷ [])
        (looking ("/c" ∷ []))
        (marking ("/c" ∷ []))
        busy
      ≡ done (looking [], marking [], u'))
    × (has u'.visited "/c" ≡ true)
    × (has u'.global_pool "/c" ≡ true)
visited_pooled_example =
    visited_pooled (λ url. evening) busy "/c" busy-UrlsFit (unfold load before add_seconds in refl)

interleave_keeps_example :
    (e : Evictor) × (v : Visitor) × (u : Urls) × (interleave
        (λ url. evening)
        (false ∷ true ∷ false ∷ true ∷ [])
        (looking ("/c" ∷ []))
        (marking ("/c" ∷ []))
        busy
      ≡ done (e, v, u))
    × UrlsFit u
    × ((k : String) → has busy.visited k ≡ true → has u.visited k ≡ true)
    × ((k : String) → is_known busy k ≡ true → (is_known u k || in_hand e k) ≡ true)
interleave_keeps_example =
    interleave_keeps (λ url. evening) (false ∷ true ∷ false ∷ true ∷ []) ("/c" ∷ []) ("/c" ∷ [])
      busy busy-UrlsFit
