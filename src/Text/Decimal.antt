-- ===== src/Text/Decimal.antt =====
-- The decimal form of an `int` that is not negative, and its reading.
use mongodb_k8s_operator.Prelude.{
  ℕ, zero, suc, ◌+◌, ◌*◌, ◌/◌, ◌%◌, ◌<◌, Char, String, ◌≡◌, refl, ap, ◌∙◌, Bool, true, false,
  Bool-cases, Option-cases, inl, inr, Option, none, some, arith, ltb, List, [], ◌∷◌, if◌then◌else◌,
}
use mongodb_k8s_operator.Text.{append, pick}

-- The character of a digit.
abbrev pub digit : ℕ → String
digit n = pick n ("0" ∷ "1" ∷ "2" ∷ "3" ∷ "4" ∷ "5" ∷ "6" ∷ "7" ∷ "8" ∷ "9" ∷ [])

-- `n` has fewer than `fuel` digits in `show`, so the fuel lasts.
pub show_fuel : ℕ → ℕ → String
show_fuel zero n = ""
show_fuel (suc fuel) n =
    let front = show_fuel fuel (n / 10) in
    if ltb n 10 then digit n else append front (digit (n % 10))

-- `str(n)`.
unfoldable pub show : ℕ → String
unfolding show_fuel
show n = show_fuel (suc n) n

-- Reading digit by digit; `decimal` is `unicodedata.decimal`, which names the value of a digit.
module _ (decimal : Char → Option ℕ) where
  abbrev pub read_step : Option ℕ → ℕ → Option ℕ
  read_step none acc = none
  read_step (some d) acc = some (acc * 10 + d)

  abbrev pub read : ℕ → String → Option ℕ
  read acc String.[] = some acc
  read acc (String.◌∷◌ c s) = elim (decimal c) [ none ↦ none | some d ↦ read (acc * 10 + d) s ]

-- The ASCII digits have their values.
abbrev pub ReadsAscii : (Char → Option ℕ) → Type 0
ReadsAscii decimal = (n acc : ℕ) → n < 10 → read decimal acc (digit n) ≡ some (acc * 10 + n)

show_some : show 20305 ≡ "20305"
unfolding show
show_some = refl

module _ (decimal : Char → Option ℕ) (ascii : ReadsAscii decimal) where
  read-append :
      (acc m : ℕ) (s t : String)
      → read decimal acc s ≡ some m
      → read decimal acc (append s t) ≡ read decimal m t
  read-append acc m String.[] t h = ground arith
  read-append acc m (String.◌∷◌ c s) t h = elim (Option-cases (decimal c)) [
    | inl no_digit ↦ ground arith
    | inr (d, is_digit) ↦ ground (arith, read-append (acc * 10 + d) m s t)
  ]

  read-show_fuel : (fuel n : ℕ) → n < fuel → read decimal 0 (show_fuel fuel n) ≡ some n
  unfolding show_fuel
  read-show_fuel zero n h = elim h [ ]
  read-show_fuel (suc fuel) n h = elim (Bool-cases (ltb n 10)) [
    | inl small ↦ rw small (ascii n 0 (ground arith) ∙ ap some (omega arith))
    | inr large ↦ rw large (
        read-append 0 (n / 10) (show_fuel fuel (n / 10)) (digit (n % 10))
          (read-show_fuel fuel (n / 10) (ground arith))
        ∙ ascii (n % 10) (n / 10) (omega arith)
        ∙ ap some (omega arith))
  ]

  -- What `show` prints is read back.
  pub read-show : (n : ℕ) → read decimal 0 (show n) ≡ some n
  unfolding show
  read-show n = read-show_fuel (suc n) n (omega arith)

abbrev pub is_nonempty : String → Bool
is_nonempty String.[] = false
is_nonempty (String.◌∷◌ c s) = true

abbrev AreNonempty : List String → Type 0
AreNonempty [] = Unit
AreNonempty (s ∷ texts) = (is_nonempty s ≡ true) × AreNonempty texts

abbrev count : List String → ℕ
count [] = 0
count (s ∷ texts) = suc (count texts)

is_nonempty-pick :
    (n : ℕ) (texts : List String)
    → AreNonempty texts
    → n < count texts
    → is_nonempty (pick n texts) ≡ true
is_nonempty-pick n [] h lt = absurd (omega arith)
is_nonempty-pick zero (s ∷ texts) h lt = h.0
is_nonempty-pick (suc n) (s ∷ texts) h lt = is_nonempty-pick n texts h.1 (omega arith)

is_nonempty-digit : (n : ℕ) → n < 10 → is_nonempty (digit n) ≡ true
is_nonempty-digit n h =
    is_nonempty-pick n ("0" ∷ "1" ∷ "2" ∷ "3" ∷ "4" ∷ "5" ∷ "6" ∷ "7" ∷ "8" ∷ "9" ∷ [])
      (ground arith) h

is_nonempty-append : (s t : String) → is_nonempty t ≡ true → is_nonempty (append s t) ≡ true
is_nonempty-append String.[] t h = h
is_nonempty-append (String.◌∷◌ c s) t h = refl

pub is_nonempty-show : (n : ℕ) → is_nonempty (show n) ≡ true
unfolding show show_fuel
is_nonempty-show n = elim (Bool-cases (ltb n 10)) [
  | inl small ↦ rw small (is_nonempty-digit n (ground arith))
  | inr large ↦ rw large (
      is_nonempty-append (show_fuel n (n / 10)) (digit (n % 10))
        (is_nonempty-digit (n % 10) (omega arith)))
]
