-- ===== src/Charm/SecretIds/Forms.antt =====
-- The forms of a secret's id, and their comparison.
use mongodb_k8s_operator.Prelude.{
  ℕ, zero, suc, Char, code, String, ◌≡◌, ◌≢◌, refl, true, false, ◌||◌, none, some, arith, eqb, ◌==◌,
  eq_iff,
}
use mongodb_k8s_operator.Text.{append, has}
use mongodb_k8s_operator.Charm.SecretIds.{
  two_chars, longest_match, remove_matches, count_chars, pure_id, compare_secret_ids,
}

-- No slash, no colon and no line feed.
pub record IsPlain (s : String) : Type 0 where
  pub no_slash : has b'/' s ≡ false
  pub no_colon : has b':' s ≡ false
  pub one_line : has 10 s ≡ false

-- The forms of one id. In the long one `uuid` ends in `c`, which is neither a slash nor a line feed.
pub data IsFormOf (id : String) : String → Type 0 where
  bare : IsFormOf id id
  short : IsFormOf id (append "secret:" id)
  long :
      (uuid : String) (c : Char)
      → has 10 uuid ≡ false
      → eqb (code c) b'/' ≡ false
      → eqb (code c) 10 ≡ false
      → IsFormOf id (append "secret://" (append uuid (String.◌∷◌ c (append "/" id))))

two_chars-plain : (c : Char) (s : String) → IsPlain s → two_chars c s ≡ none
two_chars-plain c String.[] p = refl
two_chars-plain c (String.◌∷◌ d s) p = ground (arith, p.no_slash, p.no_colon)

longest_match-plain : (s : String) → IsPlain s → longest_match s ≡ none
unfolding longest_match
longest_match-plain String.[] p = refl
longest_match-plain (String.◌∷◌ c s) p =
    let rest : IsPlain s = record {
      no_slash = ground (arith, p.no_slash);
      no_colon = ground (arith, p.no_colon);
      one_line = ground (arith, p.one_line);
    } in
    ground (arith, longest_match-plain s rest, two_chars-plain c s rest)

remove_matches-plain : (fuel : ℕ) (s : String) → IsPlain s → remove_matches fuel s ≡ s
unfolding remove_matches
remove_matches-plain zero s p = refl
remove_matches-plain (suc fuel) String.[] p = refl
remove_matches-plain (suc fuel) (String.◌∷◌ c s) p =
    let rest : IsPlain s = record {
      no_slash = ground (arith, p.no_slash);
      no_colon = ground (arith, p.no_colon);
      one_line = ground (arith, p.one_line);
    } in
    ground (arith, longest_match-plain (String.◌∷◌ c s) p, remove_matches-plain fuel s rest)

-- A slash or a colon behind a character that is no slash.
cut_here :
    (c d : Char) (s : String)
    → IsPlain s
    → eqb (code c) b'/' ≡ false
    → eqb (code c) 10 ≡ false
    → (eqb (code d) b'/' || eqb (code d) b':') ≡ true
    → longest_match (String.◌∷◌ c (String.◌∷◌ d s)) ≡ some s
unfolding longest_match
cut_here c d s p c_slash c_line mark =
    ground (arith, longest_match-plain s p, two_chars-plain d s p)

-- The match reaches to the last such place.
cut_later :
    (front t s : String)
    → has 10 front ≡ false
    → longest_match t ≡ some s
    → longest_match (append front t) ≡ some s
unfolding longest_match
cut_later String.[] t s h e = e
cut_later (String.◌∷◌ c front) t s h e = ground (arith, cut_later front t s)

pure_id_of_match :
    (c : Char) (t s : String)
    → longest_match (String.◌∷◌ c t) ≡ some s
    → IsPlain s
    → pure_id (String.◌∷◌ c t) ≡ s
unfolding pure_id
pure_id_of_match c t s e p = rw (e, remove_matches) (remove_matches-plain (count_chars t) s p)

pure_id-form : {id t : String} → IsFormOf id t → IsPlain id → pure_id t ≡ id
pure_id-form {id} bare p = unfold pure_id in remove_matches-plain (count_chars id) id p
pure_id-form {id} short p =
    pure_id_of_match "s" (append "ecret:" id) id
      (cut_later "secre" (String.◌∷◌ "t" (String.◌∷◌ ":" id)) id refl
        (cut_here "t" ":" id p refl refl refl))
      p
pure_id-form {id} (long uuid c lines slash line) p =
    pure_id_of_match "s" (append "ecret://" (append uuid (String.◌∷◌ c (append "/" id)))) id
      (cut_later "secret://" _ id refl
        (cut_later uuid _ id lines (cut_here c "/" id p slash line refl)))
      p

form-ne-empty : {id t : String} → IsFormOf id t → id ≢ "" → t ≢ ""
form-ne-empty bare h = h
form-ne-empty short h = λ e. cc
form-ne-empty (long uuid c lines slash line) h = λ e. cc

-- Two ids, each in any of its forms, are compared by the ids themselves. The ids are not empty and
-- hold no slash, colon or line feed.
pub compare_secret_ids-forms :
    {id1 id2 t1 t2 : String}
    → IsFormOf id1 t1
    → IsFormOf id2 t2
    → IsPlain id1
    → IsPlain id2
    → id1 ≢ ""
    → id2 ≢ ""
    → compare_secret_ids t1 (some t2) ≡ (id1 == id2)
unfolding compare_secret_ids
compare_secret_ids-forms {id1} {id2} {t1} {t2} f1 f2 p1 p2 n1 n2 = ground (
  arith,
  pure_id-form f1 p1,
  pure_id-form f2 p2,
  form-ne-empty f1 n1,
  form-ne-empty f2 n2,
  eq_iff t1 "",
  eq_iff t2 "",
  eq_iff id1 "",
  eq_iff id2 "",
)
