-- ===== src/Helpers/Random.antt =====
-- `generate_password` and `generate_keyfile`.
pub mod Passwords
use mongodb_k8s_operator.Prelude.{ℕ, zero, suc, String, List, [], ◌∷◌}
use mongodb_k8s_operator.Text.{append, pick}
use mongodb_k8s_operator.Core.Call.{draw}
use mongodb_k8s_operator.Core.World.{World, Exec}
use mongodb_k8s_operator.Core.Exec.{calls, tell, pure, ◌>>=◌, ◌>>◌}

-- `string.ascii_letters + string.digits`
abbrev pub choices : List String
choices =
    "a" ∷ "b" ∷ "c" ∷ "d" ∷ "e" ∷ "f" ∷ "g" ∷ "h" ∷ "i" ∷ "j" ∷ "k" ∷ "l" ∷ "m" ∷ "n" ∷ "o" ∷ "p"
    ∷ "q" ∷ "r" ∷ "s" ∷ "t" ∷ "u" ∷ "v" ∷ "w" ∷ "x" ∷ "y" ∷ "z" ∷ "A" ∷ "B" ∷ "C" ∷ "D" ∷ "E" ∷ "F"
    ∷ "G" ∷ "H" ∷ "I" ∷ "J" ∷ "K" ∷ "L" ∷ "M" ∷ "N" ∷ "O" ∷ "P" ∷ "Q" ∷ "R" ∷ "S" ∷ "T" ∷ "U" ∷ "V"
    ∷ "W" ∷ "X" ∷ "Y" ∷ "Z" ∷ "0" ∷ "1" ∷ "2" ∷ "3" ∷ "4" ∷ "5" ∷ "6" ∷ "7" ∷ "8" ∷ "9" ∷ []

-- `"".join([secrets.choice(choices) for _ in range(n)])`, by the indices that are drawn.
pub random_text : (ℕ → ℕ) → ℕ → String
random_text index zero = ""
random_text index (suc n) = append (pick (index n) choices) (random_text index n)

module _ (w : World) where
  random : ℕ → Exec String
  unfolding random_text
  random n = do tell draw; trace ← calls; pure (random_text (w.choice trace) n)

  unfoldable pub generate_password : Exec String
  unfolding random
  generate_password = random 32

  unfoldable pub generate_keyfile : Exec String
  unfolding random
  generate_keyfile = random 1024
