-- ===== src/Text/Search.antt =====
-- `in` on texts: a part that was put in is found.
use mongodb_k8s_operator.Prelude.{
  false, ◌==◌, eq_iff, Bool-cases, inl, inr, ap, String, ◌≡◌, refl, true, arith,
}
use mongodb_k8s_operator.Text.{append, begins, occurs}

pub begins-append : (s t : String) → begins s (append s t) ≡ true
unfolding begins
begins-append String.[] t = refl
begins-append (String.◌∷◌ c s) t = ground (arith, begins-append s t)

pub occurs-append_left : (s t : String) → begins s t ≡ true → occurs s t ≡ true
unfolding occurs
occurs-append_left s String.[] h = h
occurs-append_left s (String.◌∷◌ d t) h = ground arith

pub occurs-append : (s t : String) (r : String) → occurs s t ≡ true → occurs s (append r t) ≡ true
unfolding occurs
occurs-append s t String.[] h = h
occurs-append s t (String.◌∷◌ d r) h = ground (arith, occurs-append s t r)

-- A part is found wherever it stands.
pub occurs_part : (r s t : String) → occurs s (append r (append s t)) ≡ true
occurs_part r s t =
    occurs-append s (append s t) r (occurs-append_left s (append s t) (begins-append s t))

-- Texts differ if one begins with a part and the other does not.
pub ne_by_begins : (p s t : String) → begins p s ≡ false → begins p t ≡ true → (s == t) ≡ false
ne_by_begins p s t no_part part = elim (Bool-cases (s == t)) [
  | inl same ↦ cc (ap (begins p) ((eq_iff s t).0 same))
  | inr other ↦ other
]
