-- ===== src/Charm/Actions/Accepted.antt =====
-- What set-password keeps, against what mongod accepted.
use mongodb_k8s_operator.Prelude.{String, Option, none, some, ◌≡◌, refl, ◌⊎◌, inl, inr, List, not}
use mongodb_k8s_operator.Core.Error.{ok}
use mongodb_k8s_operator.Core.Call.{Call, fail}
use mongodb_k8s_operator.Core.World.{World, State}
use mongodb_k8s_operator.Core.Exec.{⊤, pure, tell, ◌>>◌}
use mongodb_k8s_operator.Core.Safe.{
  Extends, Extends-trans, same, Safe-then, Emits-tell, Emits-asks, Safe, Safe-pure, Safe-if,
}
use mongodb_k8s_operator.Core.Ensures.{
  Post, Ensures, Ensures-pure, Ensures-after, Ensures-Safe, Ensures-weaken, Ensures-if,
  returned-Ensures,
}
use mongodb_k8s_operator.Core.Sets.{contains}
use mongodb_k8s_operator.Users.{operator_user, charm_users}
use mongodb_k8s_operator.Charm.Actions.Refused.{RefusedMay, generate_password-Emits}
use mongodb_k8s_operator.Charm.Actions.Attempt.{Accepted, before, Keeps, change_password-Keeps}
use mongodb_k8s_operator.Charm.Actions.{
  set_password_of, get_user_or_fail_event, on_set_password, param_or,
}

-- Mongod accepted a password for the user that the action names, the given one if there is one.
pub data Taken (w : World) (username given : Option String) (t : List Call)
    : List Call → Type 0 where
  taken :
      {password : String} {u : List Call}
      → password ≡ param_or password given
      → Accepted w (param_or operator_user.username username) password t u
      → Taken w username given t u

module _ (w : World) (username given : Option String) where
  abbrev KeepsTaken : Post ⊤
  KeepsTaken t a t' = Extends RefusedMay t t' ⊎ Taken w username given t t'

  KeepsTaken-before :
      (t u v : List Call) (a : ⊤) → Extends RefusedMay t u → KeepsTaken u a v → KeepsTaken t a v
  KeepsTaken-before t u v a x (inl y) = inl (Extends-trans x y)
  KeepsTaken-before t u v a x (inr (taken e d)) = inr (taken e (before w _ _ x d))

  -- The user is the one that the parameters name, or the action has failed.
  abbrev IsNamed : Option String → Type 0
  IsNamed user = (user ≡ none) ⊎ (user ≡ some (param_or operator_user.username username))

  names_user : Safe RefusedMay IsNamed (get_user_or_fail_event username operator_user.username)
  unfolding get_user_or_fail_event
  names_user =
      Safe-if (contains charm_users (param_or operator_user.username username)) _
        (tell (fail _) >> pure none) (λ _. Safe-pure _ (inr refl))
        (λ _. Safe-then _ _ (Emits-tell _ tt) λ _. Safe-pure _ (inl refl))

  same_given :
      (given : Option String) (p : String) → param_or p given ≡ param_or (param_or p given) given
  same_given none p = refl
  same_given (some q) p = refl

  chosen :
      (password : String) (t : List Call) (a : ⊤) (u : List Call)
      → password ≡ param_or password given
      → Keeps w (param_or operator_user.username username) password t a u
      → KeepsTaken t a u
  chosen password t a u e (inl x) = inl x
  chosen password t a u e (inr d) = inr (taken e d)

  set_password_of-Keeps :
      (user : Option String) → IsNamed user → Ensures KeepsTaken (set_password_of w user given)
  unfolding set_password_of
  set_password_of-Keeps none named = Ensures-pure tt (λ t. inl same)
  set_password_of-Keeps (some name) (inl e) = cc
  set_password_of-Keeps (some name) (inr e) =
      Ensures-after _ _ (generate_password-Emits w)
        (λ generated _.
          let same_name : name ≡ param_or operator_user.username username = cc in
          rw same_name (
            Ensures-weaken (λ t a u r. chosen _ t a u (same_given given generated) r)
              (change_password-Keeps w (param_or operator_user.username username)
                (param_or generated given))))
        λ t u v a x r. KeepsTaken-before t u v a x r

  run : Ensures KeepsTaken (on_set_password w username given)
  unfolding on_set_password
  run =
      Ensures-after {P = RefusedMay} _ _ (Emits-asks _)
        (λ leader _.
          Ensures-if (not leader) _ _ (λ _. Ensures-Safe (λ t a t' _ x. inl x) (Emits-tell _ tt))
            (λ _.
              Ensures-after _ _ names_user (λ user named. set_password_of-Keeps user named)
                λ t u v a x r. KeepsTaken-before t u v a x r))
        λ t u v a x r. KeepsTaken-before t u v a x r

  -- If the set-password action returns, then it kept nothing (no secret, no data and no service was
  -- written), or mongod accepted a password for the user that the action names, the given password if
  -- there is one, and before that nothing was kept.
  pub on_set_password-accepted :
      (s : State)
      → (on_set_password w username given s).0 ≡ ok tt
      → Extends RefusedMay s.trace (on_set_password w username given s).1.trace
        ⊎ Taken w username given s.trace (on_set_password w username given s).1.trace
  on_set_password-accepted s done = returned-Ensures s tt run done
