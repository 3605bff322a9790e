-- ===== src/Core/Sets.antt =====
-- Python's `set` of texts, as a list; every iteration goes through the world's `set_order`.
use mongodb_k8s_operator.Prelude.{
  String, ◌≡◌, refl, Bool, true, false, ◌&&◌, ◌||◌, not, List, [], ◌∷◌, arith, ◌==◌, eq_iff,
  eq_refl, if◌then◌else◌,
}

-- `x in s`
unfoldable pub contains : List String → String → Bool
contains [] x = false
contains (y ∷ s) x = y == x || contains s x

-- `s - t`
unfoldable pub difference : List String → List String → List String
difference [] t = []
difference (x ∷ s) t = let rest = difference s t in if contains t x then rest else x ∷ rest

-- `s & t`
unfoldable pub intersection : List String → List String → List String
intersection [] t = []
intersection (x ∷ s) t = let rest = intersection s t in if contains t x then x ∷ rest else rest

-- `set(xs)`
unfoldable pub to_set : List String → List String
to_set [] = []
to_set (x ∷ xs) = let rest = to_set xs in if contains rest x then rest else x ∷ rest

unfoldable pub subset : List String → List String → Bool
unfolding contains
subset [] t = true
subset (x ∷ s) t = contains t x && subset s t

-- `s == t` on sets.
unfoldable pub same_set : List String → List String → Bool
unfolding subset
same_set s t = subset s t && subset t s

pub contains-difference :
    (s t : List String) (x : String)
    → contains (difference s t) x ≡ (contains s x && not (contains t x))
unfolding contains difference
contains-difference [] t x = refl
contains-difference (y ∷ s) t x = ground (arith, contains-difference s t x, eq_iff y x)

pub contains-intersection :
    (s t : List String) (x : String)
    → contains (intersection s t) x ≡ (contains s x && contains t x)
unfolding contains intersection
contains-intersection [] t x = refl
contains-intersection (y ∷ s) t x = ground (arith, contains-intersection s t x, eq_iff y x)

pub contains-to_set : (xs : List String) (x : String) → contains (to_set xs) x ≡ contains xs x
unfolding contains to_set
contains-to_set [] x = refl
contains-to_set (y ∷ xs) x = ground (arith, contains-to_set xs x, contains-to_set xs y, eq_iff y x)

pub contains-subset :
    (s t : List String) (x : String) → subset s t ≡ true → contains s x ≡ true → contains t x ≡ true
unfolding subset
contains-subset [] t x h m = ground arith
contains-subset (y ∷ s) t x h m = ground (arith, contains-subset s t x, eq_iff y x)

pub subset_of :
    (s t : List String)
    → ((x : String) → contains s x ≡ true → contains t x ≡ true)
    → subset s t ≡ true
unfolding subset
subset_of [] t h = refl
subset_of (y ∷ s) t h =
    ground (arith, h y, eq_refl y, subset_of s t (λ x m. h x (or_right (y == x) (contains s x) m)))
  where
    or_right : (a b : Bool) → b ≡ true → (a || b) ≡ true
    or_right a b e = ground arith
