-- ===== src/Mongodb/UserStore.antt =====
-- The users that mongod has, as the commands that it accepted leave them: what `get_users` reads.
use mongodb_k8s_operator.Prelude.{
  String, Bool, true, false, not, ◌&&◌, ◌||◌, ◌==◌, ◌≡◌, refl, ◌∙◌, List, [], ◌∷◌, arith,
  if◌then◌else◌,
}
use mongodb_k8s_operator.Core.Error.{Result, ok, err}
use mongodb_k8s_operator.Core.Call.{Call, Command, Connection, mongo, create_user, drop_user}
use mongodb_k8s_operator.Core.World.{World}
use mongodb_k8s_operator.Core.Sets.{contains}
use mongodb_k8s_operator.Core.Safe.{Extends, same, more}

abbrev pub is_ok {ℓ} : {A : Type ℓ} → Result A → Bool
is_ok (ok a) = true
is_ok (err e) = false

-- Whether a user is there after a command, from whether it was there before.
abbrev pub user_after : Command → String → Bool → Bool
user_after (create_user username password roles mechanisms) u present = username == u || present
user_after (drop_user username) u present = not (username == u) && present
user_after command u present = present

-- Whether a user is there after the calls, from the users before the first of them.
unfoldable pub has_user : World → List String → List Call → String → Bool
has_user w base [] u = contains base u
has_user w base (mongo conn command ∷ t) u =
    let rest = has_user w base t u in
    if is_ok (w.run (mongo conn command ∷ t)) then user_after command u rest else rest
has_user w base (c ∷ t) u = has_user w base t u

-- What the charm relies on in mongod: it lists the users that were created and not dropped.
pub record ReportsUsers (w : World) (base : List String) : Type 0 where
  pub listed :
      (t : List Call) (users : List String) (u : String)
      → w.users_info t ≡ ok users
      → contains users u ≡ has_user w base t u

-- The call leaves all users as they are.
abbrev pub changes_users : Command → Bool
changes_users (create_user username password roles mechanisms) = true
changes_users (drop_user username) = true
changes_users command = false

abbrev pub LeavesUsers : Call → Type 0
LeavesUsers (mongo conn command) = changes_users command ≡ false
LeavesUsers c = Unit

module _ (w : World) (base : List String) where
  user_after-same :
      (command : Command) (u : String) (b : Bool)
      → changes_users command ≡ false
      → user_after command u b ≡ b
  user_after-same (create_user username password roles mechanisms) u b h = cc
  user_after-same (drop_user username) u b h = cc
  user_after-same command u b h = refl

  has_user-mongo :
      (conn : Connection) (command : Command) (t : List Call) (u : String)
      → changes_users command ≡ false
      → has_user w base (mongo conn command ∷ t) u ≡ has_user w base t u
  unfolding has_user
  has_user-mongo conn command t u h =
      ground (arith, user_after-same command u (has_user w base t u) h)

  has_user-leaves :
      (c : Call) (t : List Call) (u : String)
      → LeavesUsers c
      → has_user w base (c ∷ t) u ≡ has_user w base t u
  unfolding has_user
  has_user-leaves (mongo conn command) t u h = has_user-mongo conn command t u h
  has_user-leaves c t u h = refl

  pub has_user-Extends :
      (t t' : List Call) (u : String)
      → Extends LeavesUsers t t'
      → has_user w base t' u ≡ has_user w base t u
  has_user-Extends t t' u same = refl
  has_user-Extends t t' u (more {c} {u = s} h x) =
      has_user-leaves c s u h ∙ has_user-Extends t s u x
