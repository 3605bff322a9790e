-- ===== src/Helpers/Random/Passwords.antt =====
-- What is generated: its length, and its characters.
use mongodb_k8s_operator.Prelude.{
  ℕ, zero, suc, ◌+◌, ◌<◌, String, ◌≡◌, refl, true, List, [], ◌∷◌, arith,
}
use mongodb_k8s_operator.Text.{append, pick}
use mongodb_k8s_operator.Core.Error.{ok}
use mongodb_k8s_operator.Core.Call.{Call, draw}
use mongodb_k8s_operator.Core.World.{World, State}
use mongodb_k8s_operator.Core.Exec.{◌>>=◌}
use mongodb_k8s_operator.Mongodb.Quote.{quote_plus, all_unreserved, quote_plus-unreserved}
use mongodb_k8s_operator.Helpers.Random.{choices, random_text, generate_password, generate_keyfile}

abbrev pub length_of : String → ℕ
length_of String.[] = 0
length_of (String.◌∷◌ c s) = suc (length_of s)

-- Every text of a table is one unreserved character.
abbrev AreSingle : List String → Type 0
AreSingle [] = Unit
AreSingle (s ∷ texts) = (length_of s ≡ 1) × (all_unreserved s ≡ true) × AreSingle texts

abbrev size : List String → ℕ
size [] = 0
size (s ∷ texts) = suc (size texts)

choices-AreSingle : AreSingle choices
choices-AreSingle = ground arith

pick-single :
    (n : ℕ) (texts : List String)
    → AreSingle texts
    → n < size texts
    → (length_of (pick n texts) ≡ 1) × (all_unreserved (pick n texts) ≡ true)
pick-single n [] h lt = absurd (omega arith)
pick-single zero (s ∷ texts) h lt = (h.0, h.1)
pick-single (suc n) (s ∷ texts) h lt = pick-single n texts h.2 (omega arith)

length-append : (s t : String) → length_of (append s t) ≡ length_of s + length_of t
length-append String.[] t = omega arith
length-append (String.◌∷◌ c s) t = omega (arith, length-append s t)

all_unreserved-append :
    (s t : String)
    → all_unreserved s ≡ true
    → all_unreserved t ≡ true
    → all_unreserved (append s t) ≡ true
all_unreserved-append String.[] t h k = k
all_unreserved-append (String.◌∷◌ c s) t h k = ground (arith, all_unreserved-append s t)

random_text_shape :
    (index : ℕ → ℕ) (n : ℕ)
    → ((i : ℕ) → index i < 62)
    → (length_of (random_text index n) ≡ n) × (all_unreserved (random_text index n) ≡ true)
unfolding random_text
random_text_shape index zero below = (refl, refl)
random_text_shape index (suc n) below =
    let front = pick-single (index n) choices choices-AreSingle (below n) in
    let rest = random_text_shape index n below in
    (
      omega (arith, length-append (pick (index n) choices) (random_text index n), front.0, rest.0),
      all_unreserved-append (pick (index n) choices) (random_text index n) front.1 rest.1,
    )

-- A generated password has 32 characters and a keyfile 1024, and each stands in a URI as it is. The
-- condition: `secrets.choice` picks one of the 62 characters.
pub generated_texts :
    (w : World) (s : State)
    → ((t : List Call) (i : ℕ) → w.choice t i < 62)
    → ((p : String) × ((generate_password w s).0 ≡ ok p) × (length_of p ≡ 32) × (quote_plus p ≡ p))
      × ((k : String) × ((generate_keyfile w s).0 ≡ ok k)
          × (length_of k ≡ 1024)
          × (quote_plus k ≡ k))
unfolding generate_password generate_keyfile ◌>>=◌
generated_texts w s below =
    let index = w.choice (draw ∷ s.trace) in
    let password = random_text_shape index 32 (below (draw ∷ s.trace)) in
    let keyfile = random_text_shape index 1024 (below (draw ∷ s.trace)) in
    (
      (random_text index 32, refl, password.0, quote_plus-unreserved _ password.1),
      (random_text index 1024, refl, keyfile.0, quote_plus-unreserved _ keyfile.1),
    )
