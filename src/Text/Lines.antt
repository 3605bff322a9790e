-- ===== src/Text/Lines.antt =====
-- `str.splitlines`.
use mongodb_k8s_operator.Prelude.{
  ℕ, code, String, ◌≡◌, refl, Bool, true, false, ◌||◌, ◌&&◌, List, [], ◌∷◌, eqb, leb, if◌then◌else◌,
}
use mongodb_k8s_operator.Text.{cons_head}

-- The line boundaries of `splitlines`.
abbrev pub is_break : ℕ → Bool
is_break c =
    leb 10 c && leb c 13 || leb 28 c && leb c 30 || eqb c 0x85 || eqb c 0x2028 || eqb c 0x2029

-- The flag says that the character before was a carriage return, which takes a line feed with it.
pub splitlines_after : Bool → String → List String
splitlines_after cr String.[] = []
splitlines_after cr (String.◌∷◌ c s) =
    let rest = splitlines_after (eqb (code c) 13) s in
    if cr && eqb (code c) 10
    then rest
    else if is_break (code c)
    then "" ∷ rest
    else cons_head c rest

unfoldable pub splitlines : String → List String
unfolding splitlines_after
splitlines s = splitlines_after false s

-- No boundary occurs in a text.
unfoldable pub one_line : String → Bool
one_line String.[] = true
one_line (String.◌∷◌ c s) = if is_break (code c) then false else one_line s

splitlines_mixed : splitlines "a\r\nb\n\nc\n" ≡ "a" ∷ "b" ∷ "" ∷ "c" ∷ []
unfolding splitlines
splitlines_mixed = refl
