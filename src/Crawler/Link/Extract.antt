-- ===== src/Crawler/Link/Extract.antt =====
-- Which links `extractLinks` finds on a page.
use Prim.Native.String.{◌++◌ as append}
use mathlib.Core.Bool.{or-false}
use ww_webcrawler.Prelude.{
  ◌≡◌, refl, sym, ap, ◌∙◌, Bool, true, false, ◌&&◌, ◌||◌, not, String, List, [], ◌∷◌, ◌++◌, map,
  done, if◌then◌else◌, ◌=?◌, Bool-cases, inl, inr, load_at, Comparable, string_comparable, arith,
}
use ww_webcrawler.Sets.SyncMap.{load, store, elem}
use ww_webcrawler.Crawler.Link.{
  Link, link_comparable, to_string, link_from_match, is_foreign, resolve, add_link, collect,
  extract_links,
}

-- The submatches of either expression: the whole, and its six groups.
pub record Match : Type 0 where
  pub whole : String
  pub link : String
  pub proto : String
  pub domain : String
  pub part : String
  pub port : String
  pub path : String

abbrev pub groups : Match → List String
groups m = m.whole ∷ m.link ∷ m.proto ∷ m.domain ∷ m.part ∷ m.port ∷ m.path ∷ []

abbrev pub link_of : Match → Link
link_of m = record { proto = m.proto; domain = m.domain; path = m.path }

link_from_match_lem : (m : Match) → link_from_match (groups m) ≡ done (link_of m)
unfolding link_from_match load_at store load
link_from_match_lem m = refl

-- The link that a match gives on a page: a match without a domain is on the page's own site.
abbrev pub placed : Link → Match → Link
placed page m = record {
  proto = if m.domain =? "" then page.proto else m.proto;
  domain = if m.domain =? "" then page.domain else m.domain;
  path = m.path;
}

abbrev pub spelled : Link → String
spelled l = append (append l.proto l.domain) l.path

-- A match that leads to another page of the web: it has a path, or its protocol is http, https or
-- missing, and its link is not spelled as the page's.
abbrev pub is_wanted : Link → Match → Bool
is_wanted page m =
    (not (m.path =? "") || m.proto =? "" || m.proto =? "http://" || m.proto =? "https://")
    && not (spelled (placed page m) =? spelled page)

-- Some match that is of use gives this link.
abbrev pub wanted : Link → List Match → Link → Bool
wanted page [] l = false
wanted page (m ∷ ms) l = is_wanted page m && (placed page m =? l) || wanted page ms l

resolve-placed : (page : Link) (m : Match) → resolve page (link_of m) ≡ placed page m
unfolding resolve
resolve-placed page m = elim (Bool-cases (m.domain =? "")) [
  | inl none ↦ rw none refl
  | inr some ↦ rw some refl
]

-- Whether the code takes the match.
is_taken : Link → Match → Bool
is_taken from m =
    not (is_foreign (link_of m)) && not (to_string (resolve from (link_of m)) =? to_string from)

is_taken-is_wanted : (page : Link) (m : Match) → is_taken page m ≡ is_wanted page m
unfolding is_taken is_foreign to_string
is_taken-is_wanted page m = rw (resolve-placed page m) (
    by_tests (m.path =? "") (m.proto =? "") (m.proto =? "http://") (m.proto =? "https://")
      (spelled (placed page m) =? spelled page))
  where
    by_tests :
        (a b c d e : Bool)
        → (not (a && not b && not d && not c) && not e) ≡ ((not a || b || c || d) && not e)
    by_tests a b c d e = ground arith

module _ {A : Type 0} ⦃c : Comparable A⦄ where
  elem-snoc : (l k : A) (ls : List A) → elem l (ls ++ k ∷ []) ≡ elem l ls || (k =? l)
  elem-snoc l k [] = or-false (k =? l)
  elem-snoc l k (j ∷ ls) = ground (arith, elem-snoc l k ls)

  elem_again : (l k : A) (ls : List A) → elem k ls ≡ true → elem l ls ≡ elem l ls || (k =? l)
  elem_again l k ls h = elim (Bool-cases (k =? l)) [
    | inl same ↦
        let there : elem l ls ≡ true = ap (λ j. elem j ls) (sym ((c.beq_iff k l).0 same)) ∙ h in
        rw there refl
    | inr other ↦ rw other (sym (or-false (elem l ls)))
  ]

elem-add_link : (l k : Link) (ls : List Link) → elem l (add_link k ls) ≡ elem l ls || (k =? l)
unfolding add_link
elem-add_link l k ls = elim (Bool-cases (elem k ls)) [
  | inl old ↦ rw old (elem_again l k ls old)
  | inr new ↦ rw new (elem-snoc l k ls)
]

-- The set after one match.
abbrev after_match : Link → Match → List Link → List Link
after_match from m set =
    if is_foreign (link_of m)
    then set
    else if to_string (resolve from (link_of m)) =? to_string from
    then set
    else add_link (resolve from (link_of m)) set

elem-after_match :
    (from : Link) (m : Match) (set : List Link) (l : Link)
    → elem l (after_match from m set)
      ≡ elem l set || is_taken from m && (resolve from (link_of m) =? l)
unfolding is_taken
elem-after_match from m set l = elim (Bool-cases (is_foreign (link_of m))) [
  | inl foreign ↦ rw foreign (sym (or-false (elem l set)))
  | inr local ↦ elim (Bool-cases (to_string (resolve from (link_of m)) =? to_string from)) [
    | inl same ↦ rw (local, same) (sym (or-false (elem l set)))
    | inr other ↦ rw (local, other) (elem-add_link l (resolve from (link_of m)) set)
  ]
]

elem-placed :
    (page : Link) (m : Match) (set : List Link) (l : Link)
    → elem l (after_match page m set) ≡ elem l set || is_wanted page m && (placed page m =? l)
elem-placed page m set l =
    elem-after_match page m set l
    ∙ ap (λ b. elem l set || b && (resolve page (link_of m) =? l)) (is_taken-is_wanted page m)
    ∙ ap (λ k. elem l set || is_wanted page m && (k =? l)) (resolve-placed page m)

or_regroup : (a b c d : Bool) → d ≡ a || b → (d || c) ≡ (a || (b || c))
or_regroup a b c d h = ground (arith, h)

collect_lem :
    (from : Link) (ms : List Match) (set : List Link)
    → (r : List Link) × (collect from (map groups ms) set ≡ done r)
      × ((l : Link) → elem l r ≡ elem l set || wanted from ms l)
unfolding collect
collect_lem from [] set = (set, refl, λ l. sym (or-false (elem l set)))
collect_lem from (m ∷ ms) set =
    let (r, e, f) = collect_lem from ms (after_match from m set) in
    (
      r,
      rw (link_from_match_lem m) e,
      λ l.
          f l
          ∙ or_regroup (elem l set) (is_wanted from m && (placed from m =? l)) (wanted from ms l) _
              (elem-placed from m set l),
    )

-- `extractLinks` never panics on matches of seven submatches. The links that it returns are exactly
-- those that some match gives which has a path, or a protocol that is http, https or missing: on the
-- page's own site if the match has no domain, and only where the link is not spelled as the page's.
-- `arrange`, the order of the map's keys, keeps what is in a list.
pub extract_links_lem :
    (arrange : List Link → List Link) (page : Match) (ms : List Match)
    → ((ls : List Link) (l : Link) → elem l (arrange ls) ≡ elem l ls)
    → (to : List Link) × (extract_links arrange (groups page) (map groups ms)
        ≡ done (link_of page, to))
      × ((l : Link) → elem l to ≡ wanted (link_of page) ms l)
unfolding extract_links
extract_links_lem arrange page ms keeps =
    let (r, e, f) = collect_lem (link_of page) ms [] in
    (arrange r, rw (link_from_match_lem page) (rw e refl), λ l. keeps r l ∙ f l)

-- The links are found whatever the order of the map's keys is.
pub extract_links_total :
    (arrange : List Link → List Link) (page : Match) (ms : List Match)
    → (to : List Link) × (extract_links arrange (groups page) (map groups ms)
        ≡ done (link_of page, to))
unfolding extract_links
extract_links_total arrange page ms =
    let (r, e, f) = collect_lem (link_of page) ms [] in
    (arrange r, rw (link_from_match_lem page) (rw e refl))
