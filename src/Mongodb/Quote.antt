-- ===== src/Mongodb/Quote.antt =====
-- `urllib.parse.quote_plus`, on which the connection URI rests.
use mongodb_k8s_operator.Prelude.{
  ℕ, zero, suc, ap, inl, inr, Bool-cases, eqb_iff, ◌+◌, ◌/◌, ◌%◌, Char, code, String, ◌≡◌, refl,
  Bool, true, false, ◌&&◌, ◌||◌, List, [], ◌∷◌, arith, eqb, ltb, leb, if◌then◌else◌,
}
use mongodb_k8s_operator.Text.{append, has, pick}
use mongodb_k8s_operator.Text.Split.{AllLack}

-- Letters, digits and `_.-~` stay as they are.
abbrev pub is_unreserved : ℕ → Bool
is_unreserved c =
    leb b'a' c && leb c b'z'
    || leb b'A' c && leb c b'Z'
    || leb b'0' c && leb c b'9'
    || eqb c b'_'
    || eqb c b'.'
    || eqb c b'-'
    || eqb c b'~'

abbrev hex_digits : List String
hex_digits =
    "0" ∷ "1" ∷ "2" ∷ "3" ∷ "4" ∷ "5" ∷ "6" ∷ "7" ∷ "8" ∷ "9" ∷ "A" ∷ "B" ∷ "C" ∷ "D" ∷ "E" ∷ "F"
    ∷ []

-- A hexadecimal digit of `n < 16`.
pub hex : ℕ → String
hex n = pick n hex_digits

-- The bytes of a character in UTF-8.
pub utf8 : ℕ → List ℕ
utf8 c =
    if ltb c 0x80
    then c ∷ []
    else if ltb c 0x800
    then (0xc0 + c / 64) ∷ (0x80 + c % 64) ∷ []
    else if ltb c 0x10000
    then (0xe0 + c / 4096) ∷ (0x80 + c / 64 % 64) ∷ (0x80 + c % 64) ∷ []
    else (0xf0 + c / 262144) ∷ (0x80 + c / 4096 % 64) ∷ (0x80 + c / 64 % 64) ∷ (0x80 + c % 64) ∷ []

pub percent : List ℕ → String
percent [] = ""
percent (b ∷ bytes) = append "%" (append (hex (b / 16)) (append (hex (b % 16)) (percent bytes)))

pub quote_char : Char → String
quote_char c =
    if is_unreserved (code c)
    then String.◌∷◌ c ""
    else if eqb (code c) 0x20
    then "+"
    else percent (utf8 (code c))

unfoldable pub quote_plus : String → String
quote_plus String.[] = ""
quote_plus (String.◌∷◌ c s) = append (quote_char c) (quote_plus s)

quote_plus_some : quote_plus "a b@/é_~" ≡ "a+b%40%2F%C3%A9_~"
unfolding quote_plus quote_char utf8 percent hex
quote_plus_some = refl

-- A character that a quoted text may hold.
abbrev pub is_quoted : ℕ → Bool
is_quoted c = is_unreserved c || eqb c b'%' || eqb c b'+'

pub has-append : (c : ℕ) (s t : String) → has c (append s t) ≡ (has c s || has c t)
has-append c String.[] t = refl
has-append c (String.◌∷◌ d s) t = ground (arith, has-append c s t)

pick-lacks : (c n : ℕ) (digits : List String) → AllLack c digits → has c (pick n digits) ≡ false
pick-lacks c n [] h = refl
pick-lacks c zero (d ∷ digits) h = h.0
pick-lacks c (suc n) (d ∷ digits) h = pick-lacks c n digits h.1

ne_of_is_quoted : (a c : ℕ) → is_quoted a ≡ true → is_quoted c ≡ false → eqb a c ≡ false
ne_of_is_quoted a c q h = elim (Bool-cases (eqb a c)) [
  | inl same ↦ let e : a ≡ c = (eqb_iff a c).0 same in cc (ap is_quoted e)
  | inr other ↦ other
]

hex-lacks : (c n : ℕ) → is_quoted c ≡ false → has c (hex n) ≡ false
unfolding hex
hex-lacks c n h = pick-lacks c n hex_digits (ground (arith, h))

percent-lacks : (c : ℕ) (bytes : List ℕ) → is_quoted c ≡ false → has c (percent bytes) ≡ false
unfolding percent
percent-lacks c [] h = refl
percent-lacks c (b ∷ bytes) h = ground (
  arith,
  hex-lacks c (b / 16) h,
  hex-lacks c (b % 16) h,
  percent-lacks c bytes h,
  has-append c (hex (b / 16)) (append (hex (b % 16)) (percent bytes)),
  has-append c (hex (b % 16)) (percent bytes),
)

quote_char-lacks : (c : ℕ) (d : Char) → is_quoted c ≡ false → has c (quote_char d) ≡ false
unfolding quote_char
quote_char-lacks c d h = elim (Bool-cases (is_unreserved (code d))) [
  | inl plain ↦ rw plain (rw (ne_of_is_quoted (code d) c (rw plain) h))
  | inr other ↦ rw other (elim (Bool-cases (eqb (code d) 0x20)) [
    | inl space ↦ rw space (rw (ne_of_is_quoted b'+' c refl h))
    | inr escape ↦ rw escape (percent-lacks c (utf8 (code d)) h)
  ])
]

-- A quoted text holds no separator of a URI.
pub quote_plus-lacks : (c : ℕ) (s : String) → is_quoted c ≡ false → has c (quote_plus s) ≡ false
unfolding quote_plus
quote_plus-lacks c String.[] h = refl
quote_plus-lacks c (String.◌∷◌ d s) h =
    ground (
      arith,
      has-append c (quote_char d) (quote_plus s),
      quote_char-lacks c d,
      quote_plus-lacks c s,
    )

abbrev pub all_unreserved : String → Bool
all_unreserved String.[] = true
all_unreserved (String.◌∷◌ c s) = is_unreserved (code c) && all_unreserved s

-- A text of unreserved characters, such as a generated password, is its own quotation.
pub quote_plus-unreserved : (s : String) → all_unreserved s ≡ true → quote_plus s ≡ s
unfolding quote_plus quote_char
quote_plus-unreserved String.[] h = refl
quote_plus-unreserved (String.◌∷◌ c s) h = ground (arith, quote_plus-unreserved s)
