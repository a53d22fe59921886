-- ===== src/Launch/Hex.antt =====
-- Numbers of 64 bits as text in base 16: Go's `strconv.FormatUint`, `strconv.ParseUint` and `%x`.
use native.Mathlib.Nat.{pow-suc}
use ww_webcrawler.Prelude.{
  ℕ, zero, suc, ◌+◌, ◌-◌, ◌*◌, ◌/◌, ◌%◌, ◌^◌, ◌<◌, ◌≡◌, refl, ap, ◌∙◌, ◌&&◌, Option, none, some,
  List, [], ◌∷◌, ltb, leb, if◌then◌else◌, Bool-cases, inl, inr, ◌≢◌, ltb→lt, arith,
}

abbrev pub Text : Type 0
Text = List ℕ

abbrev pub hex_digit : ℕ → ℕ
hex_digit d = if ltb d 10 then b'0' + d else b'a' + (d - 10)

-- The digits of `n` in front of `rest`. Sixteen rounds print 64 bits.
unfoldable pub format_from : ℕ → ℕ → Text → Text
format_from zero n rest = rest
format_from (suc rounds) n rest =
    let more = format_from rounds (n / 16) (hex_digit (n % 16) ∷ rest) in
    if ltb n 16 then hex_digit n ∷ rest else more

unfoldable pub format_uint : ℕ → Text
unfolding format_from
format_uint n = format_from 16 n []

abbrev pub digit_value : ℕ → Option ℕ
digit_value c =
    if leb b'0' c && leb c b'9'
    then some (c - b'0')
    else if leb b'a' c && leb c b'z'
    then some (c - b'a' + 10)
    else if leb b'A' c && leb c b'Z'
    then some (c - b'A' + 10)
    else none

-- One digit more, or none for a digit that is not below the base or a number of more than 64 bits.
unfoldable pub parse_digit : (base : ℕ) → ℕ → Option ℕ → Option ℕ
parse_digit base n none = none
parse_digit base n (some d) =
    if leb base d then none else if ltb (n * base + d) (2 ^ 64) then some (n * base + d) else none

unfoldable pub parse_from : (base : ℕ) → Option ℕ → Text → Option ℕ
unfolding parse_digit
parse_from base none s = none
parse_from base (some n) [] = some n
parse_from base (some n) (c ∷ s) = parse_from base (parse_digit base n (digit_value c)) s

-- `none` for a syntax or a range error.
unfoldable pub parse_uint : Text → (base : ℕ) → Option ℕ
unfolding parse_from
parse_uint [] base = none
parse_uint (c ∷ s) base = parse_from base (some 0) (c ∷ s)

digit_value-hex_digit : (d : ℕ) → d < 16 → digit_value (hex_digit d) ≡ some d
digit_value-hex_digit d h = ground arith

parse_digit_lem :
    (n d : ℕ)
    → d < 16
    → n * 16 + d < 2 ^ 64
    → parse_digit 16 n (digit_value (hex_digit d)) ≡ some (n * 16 + d)
unfolding parse_digit
parse_digit_lem n d h small = rw (digit_value-hex_digit d h) (ground arith)

parse-format_from :
    (rounds n : ℕ) (rest : Text)
    → n < 16 ^ rounds
    → n < 2 ^ 64
    → parse_from 16 (some 0) (format_from rounds n rest) ≡ parse_from 16 (some n) rest
unfolding parse_from format_from
parse-format_from zero n rest h small = ap (λ m. parse_from 16 (some m) rest) (omega arith)
parse-format_from (suc rounds) n rest h small = elim (Bool-cases (ltb n 16)) [
  | inl last ↦ rw last (
      ap (λ m. parse_from 16 m rest) (parse_digit_lem 0 n (ltb→lt n 16 last) (omega arith))
      ∙ ap (λ m. parse_from 16 (some m) rest) (omega arith))
  | inr more ↦ rw more (
      parse-format_from rounds (n / 16) (hex_digit (n % 16) ∷ rest)
        (omega (arith, pow-suc 16 rounds)) (omega arith)
      ∙ ap (λ m. parse_from 16 m rest)
          (parse_digit_lem (n / 16) (n % 16) (omega arith) (omega arith))
      ∙ ap (λ m. parse_from 16 (some m) rest) (omega arith))
]

parse-nonempty : (s : Text) → s ≢ [] → parse_uint s 16 ≡ parse_from 16 (some 0) s
unfolding parse_uint
parse-nonempty [] h = absurd (h refl)
parse-nonempty (c ∷ s) h = refl

format_from-grows : (rounds n c : ℕ) (rest : Text) → format_from rounds n (c ∷ rest) ≢ []
unfolding format_from
format_from-grows zero n c rest e = cc
format_from-grows (suc rounds) n c rest e = elim (Bool-cases (ltb n 16)) [
  | inl last ↦ cc (rw last at e)
  | inr more ↦ format_from-grows rounds (n / 16) (hex_digit (n % 16)) (c ∷ rest) (rw more at e)
]

format_from-nonempty : (rounds n : ℕ) (rest : Text) → format_from (suc rounds) n rest ≢ []
unfolding format_from
format_from-nonempty rounds n rest e = elim (Bool-cases (ltb n 16)) [
  | inl last ↦ cc (rw last at e)
  | inr more ↦ format_from-grows rounds (n / 16) (hex_digit (n % 16)) rest (rw more at e)
]

-- Every 64-bit number is read back from its text.
pub parse-format_uint : (n : ℕ) → n < 2 ^ 64 → parse_uint (format_uint n) 16 ≡ some n
unfolding format_uint parse_from
parse-format_uint n h =
    parse-nonempty (format_from 16 n []) (format_from-nonempty 15 n [])
    ∙ parse-format_from 16 n [] h h
