-- ===== src/Crawler/Link.antt =====
-- crawler/http.go: links, and the choice among those that a page holds. The submatches that the
-- two regular expressions find are arguments.
pub mod Extract
use Prim.Native.String.{◌++◌ as append}
use ww_webcrawler.Prelude.{
  ℕ, ◌+◌, ◌≡◌, ◌↔◌, Bool, true, false, ◌&&◌, not, String, Option, none, some, List, [], ◌∷◌, ◌++◌,
  Comparable, ◌=?◌, Panics, done, ◌>>=◌, if◌then◌else◌, ◌==◌, load_at, string_comparable, arith,
}
use ww_webcrawler.Sets.SyncMap.{load, store, elem}

pub record Link : Type 0 where
  pub proto : String
  pub domain : String
  pub path : String

abbrev pub nil_link : Link
nil_link = record { proto = ""; domain = ""; path = "" }

abbrev pub link_beq : Link → Link → Bool
link_beq l k = l.proto =? k.proto && l.domain =? k.domain && l.path =? k.path

pub link_beq_iff : (l k : Link) → (link_beq l k ≡ true) ↔ (l ≡ k)
link_beq_iff l k = (
  λ h. ground (
    arith,
    string_comparable.beq_iff l.proto k.proto,
    string_comparable.beq_iff l.domain k.domain,
    string_comparable.beq_iff l.path k.path,
  ),
  λ e. ground (
    arith,
    string_comparable.beq_iff l.proto k.proto,
    string_comparable.beq_iff l.domain k.domain,
    string_comparable.beq_iff l.path k.path,
  ),
)

instance abbrev pub link_comparable : Comparable Link
link_comparable = record { beq = link_beq; beq_iff = link_beq_iff; nil_value = nil_link }

unfoldable pub to_string : Link → String
to_string l = append (append l.proto l.domain) l.path

-- `exp.SubexpNames()` of both expressions, whose unnamed groups are the repeated part of a domain
-- and its port.
abbrev pub subexp_names : List String
subexp_names = "" ∷ "Link" ∷ "Proto" ∷ "Domain" ∷ "" ∷ "" ∷ "Path" ∷ []

-- The map from names to submatches; `i` is the index of the first name.
unfoldable pub name_groups :
    ℕ → List String → List String → List (String × String) → Panics (List (String × String))
name_groups i [] groups names = done names
name_groups i (name ∷ rest) groups names = elim (not (i == 0) && not (name =? "")) [
  | true ↦ load_at groups i >>= λ group. name_groups (i + 1) rest groups (store name group names)
  | false ↦ name_groups (i + 1) rest groups names
]

-- What a Go map of strings answers.
abbrev or_empty : Option String → String
or_empty none = ""
or_empty (some s) = s

unfoldable pub link_from_match : List String → Panics Link
unfolding name_groups
link_from_match groups = name_groups 0 subexp_names groups [] >>= λ names. done (record {
  proto = or_empty (load "Proto" names);
  domain = or_empty (load "Domain" names);
  path = or_empty (load "Path" names);
})

-- mailto, magnets or similar links
unfoldable pub is_foreign : Link → Bool
is_foreign l =
    l.path =? "" && not (l.proto =? "") && not (l.proto =? "https://") && not (l.proto =? "http://")

-- A relative path is taken on the page's own site.
unfoldable pub resolve : Link → Link → Link
resolve from l = if l.domain =? "" then record l { proto = from.proto; domain = from.domain } else l

-- The keys of `linkSet`, in the order in which they came in.
unfoldable pub add_link : Link → List Link → List Link
add_link l set = if elem l set then set else set ++ l ∷ []

unfoldable pub collect : Link → List (List String) → List Link → Panics (List Link)
unfolding is_foreign resolve add_link
collect from [] set = done set
collect from (groups ∷ rest) set = link_from_match groups >>= λ found.
    let link = resolve from found in
    collect from rest (
      if is_foreign found
      then set
      else if to_string link =? to_string from
      then set
      else add_link link set)

-- `arrange` is the order in which the range over `linkSet` visits its keys.
unfoldable pub extract_links :
    (List Link → List Link) → List String → List (List String) → Panics (Link × List Link)
unfolding link_from_match collect
extract_links arrange from_groups matches = link_from_match from_groups >>= λ from.
    collect from matches [] >>= λ set. done (from, arrange set)
