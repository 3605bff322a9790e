-- ===== src/Text/Split.antt =====
-- `split` cuts at the separator and nowhere else.
use mongodb_k8s_operator.Prelude.{
  ℕ, Char, code, String, ◌≡◌, refl, false, List, [], ◌∷◌, arith, eqb,
}
use mongodb_k8s_operator.Text.{append, has, split, first}

-- The text before the first separator.
pub first-split :
    (sep : ℕ) (s t : String)
    → has sep s ≡ false
    → first (split sep (append s t)) ≡ append s (first (split sep t))
unfolding split
first-split sep String.[] t h = refl
first-split sep (String.◌∷◌ c s) t h =
    first-cons sep c (append s t) (append s (first (split sep t))) (ground arith)
      (first-split sep s t (ground arith))
  where
    first-cons :
        (sep : ℕ) (c : Char) (r : String) (q : String)
        → eqb (code c) sep ≡ false
        → first (split sep r) ≡ q
        → first (split sep (String.◌∷◌ c r)) ≡ String.◌∷◌ c q
    first-cons sep c r q h e = ground arith

pub split-lacks : (sep : ℕ) (s : String) → has sep s ≡ false → split sep s ≡ s ∷ []
unfolding split
split-lacks sep String.[] h = refl
split-lacks sep (String.◌∷◌ c s) h = ground (arith, split-lacks sep s)

-- One part that lacks the separator, in front of a separator.
pub split-append :
    (sep : ℕ) (s : String) (c : Char) (t : String)
    → has sep s ≡ false
    → code c ≡ sep
    → split sep (append s (String.◌∷◌ c t)) ≡ s ∷ split sep t
unfolding split
split-append sep String.[] c t h e = ground arith
split-append sep (String.◌∷◌ d s) c t h e = ground (arith, split-append sep s c t)

abbrev pub AllLack : ℕ → List String → Type 0
AllLack sep [] = Unit
AllLack sep (p ∷ parts) = (has sep p ≡ false) × AllLack sep parts
