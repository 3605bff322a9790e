-- ===== src/Charm/Actions/Attempt.antt =====
-- The attempt to change a password in MongoDB, and what is done after it.
use mongodb_k8s_operator.Prelude.{
  String, Bool, true, false, Option, none, some, ◌≡◌, refl, ◌⊎◌, inl, inr, List, [], ◌∷◌,
  if◌then◌else◌,
}
use mongodb_k8s_operator.Core.Error.{Error, ok}
use mongodb_k8s_operator.Core.Call.{
  Call, app, Connection, mongo, close, update_password, set_results, log,
}
use mongodb_k8s_operator.Core.World.{World, Exec}
use mongodb_k8s_operator.Core.Exec.{⊤, pure, tell, ◌>>◌}
use mongodb_k8s_operator.Core.Safe.{
  Extends, Extends-trans, same, more, Emits, Safe-then, Emits-lift, Emits-tell, Emits-when,
  Emits-call, Emits-pure,
}
use mongodb_k8s_operator.Core.Ensures.{
  Post, Ensures, Ensures-call, Ensures-pure, Ensures-bind, Ensures-after, Ensures-Safe,
  Ensures-catch, Ensures-finally, Ensures-weaken, Ensures-if,
}
use mongodb_k8s_operator.Mongodb.Connection.{with_connection}
use mongodb_k8s_operator.Mongodb.Calls.{connect-Emits}
use mongodb_k8s_operator.Mongodb.Accounts.{set_user_password}
use mongodb_k8s_operator.Charm.Secrets.Calls.{AllowsSecrets, get_secret-Emits, set_secret-Emits}
use mongodb_k8s_operator.Charm.Services.Calls.{
  AllowsLayers, connect_pbm_agent-Emits, connect_mongodb_exporter-Emits,
}
use mongodb_k8s_operator.Charm.Configs.Calls.{mongodb_config-Emits}
use mongodb_k8s_operator.Charm.Actions.Refused.{RefusedMay, IsFalse, password_not_set-Safe}
use mongodb_k8s_operator.Charm.Actions.{
  password_not_set, change_in_mongodb, keep_password, change_password, is_text,
}

-- One of the later calls gave mongod this password of the user, mongod accepted it, and nothing was
-- kept before.
pub data Accepted (w : World) (username password : String) (t : List Call)
    : List Call → Type 0 where
  here :
      {conn : Connection} {u : List Call}
      → Extends RefusedMay t u
      → w.run (mongo conn (update_password username password) ∷ u) ≡ ok tt
      → Accepted w username password t (mongo conn (update_password username password) ∷ u)
  later :
      {c : Call} {u : List Call}
      → Accepted w username password t u
      → Accepted w username password t (c ∷ u)

module _ (w : World) where
  pub keep_password-Emits :
      {P : Call → Type 0} (username password : String)
      → AllowsSecrets P app
      → AllowsLayers P
      → ((results : List (String × Option String)) → P (set_results results))
      → Emits P (keep_password w username password)
  unfolding keep_password
  keep_password-Emits username password secrets layers answers = Safe-then _ _ (Emits-lift _) λ key.
      Safe-then _ _ (set_secret-Emits w app secrets key _) λ secret_id.
        Safe-then _ _ (Emits-when _ _ (connect_pbm_agent-Emits w layers)) λ _.
          Safe-then _ _ (Emits-when _ _ (connect_mongodb_exporter-Emits w layers))
            λ _. Emits-tell _ (answers _)

module _ (w : World) (username password : String) where
  abbrev IsAccepted : List Call → List Call → Type 0
  IsAccepted = Accepted w username password

  pub before : {t u v : List Call} → Extends RefusedMay t u → IsAccepted u v → IsAccepted t v
  before x (here y e) = here (Extends-trans x y) e
  before x (later d) = later (before x d)

  after : {P : Call → Type 0} {t u v : List Call} → IsAccepted t u → Extends P u v → IsAccepted t v
  after d same = d
  after d (more p x) = later (after d x)

  -- The value says whether mongod accepted.
  abbrev Tried : Post Bool
  Tried t true t' = IsAccepted t t'
  Tried t false t' = Extends RefusedMay t t'

  Tried-before :
      (t u v : List Call) (changed : Bool)
      → Extends RefusedMay t u
      → Tried u changed v
      → Tried t changed v
  Tried-before t u v true x d = before x d
  Tried-before t u v false x y = Extends-trans x y

  Tried-close :
      (t u : List Call) (conn : Connection) (changed : Bool)
      → Tried t changed u
      → Tried t changed (close conn ∷ u)
  Tried-close t u conn true d = later d
  Tried-close t u conn false x = more tt x

  tries :
      (conn : Connection) → Ensures Tried (set_user_password w conn username password >> pure true)
  unfolding set_user_password
  tries conn =
      Ensures-bind {Q = λ t a t'. IsAccepted t t'} {R = λ _ t b t'. (b ≡ true) × (t' ≡ t)} _ _
        (Ensures-call _ _ λ t a e. here same e) (λ _. Ensures-pure true (λ t. (refl, refl)))
        λ t u v a b d r.
          let e : b ≡ true = r.0 in let same_calls : v ≡ u = r.1 in rw (e, same_calls) d

  tries-Emits : (conn : Connection) → Emits RefusedMay (set_user_password w conn username password)
  unfolding set_user_password
  tries-Emits conn = Emits-call _ _ tt

  refuses :
      (e : Error) → Ensures (λ t b t'. (b ≡ false) × Extends RefusedMay t t') (password_not_set w e)
  unfolding IsFalse
  refuses e = Ensures-Safe (λ t b t' h x. (h, x)) (password_not_set-Safe w e)

  change_in_mongodb-Tried : Ensures Tried (change_in_mongodb w username password)
  unfolding change_in_mongodb with_connection
  change_in_mongodb-Tried =
      Ensures-after _ _ (mongodb_config-Emits w)
        (λ config _.
          Ensures-after _ _ (connect-Emits w config none false)
            (λ conn _. Ensures-finally _ _ (
              Ensures-weaken (λ t b u r. Tried-close t u conn b r)
                (Ensures-catch _ _ (Safe-then _ _ (tries-Emits conn) λ _. Emits-pure true)
                  (tries conn) refuses
                  λ t u v b x r. let e : b ≡ false = r.0 in rw e (Extends-trans x r.1))))
            λ t u v b x r. Tried-before t u v b x r)
        λ t u v b x r. Tried-before t u v b x r

  -- Nothing is kept, or mongod accepted.
  abbrev pub Keeps : Post ⊤
  Keeps t a t' = Extends RefusedMay t t' ⊎ IsAccepted t t'

  Keeps-before : (t u v : List Call) (a : ⊤) → Extends RefusedMay t u → Keeps u a v → Keeps t a v
  Keeps-before t u v a x (inl y) = inl (Extends-trans x y)
  Keeps-before t u v a x (inr d) = inr (before x d)

  -- What is done after the attempt.
  abbrev Rest : Bool → Post ⊤
  Rest true t a t' = Extends (λ c. Unit) t t'
  Rest false t a t' = t' ≡ t

  rest :
      (changed : Bool)
      → Ensures (Rest changed) (if changed then keep_password w username password else pure tt)
  rest true =
      Ensures-Safe (λ t a t' _ x. x)
        (keep_password-Emits w username password
          (record { adds = λ c. tt; writes = λ id c. tt; keeps = λ k v. tt; deletes = λ k. tt })
          (record {
            asks_container = tt;
            reads_plan = λ name. tt;
            adds = λ label name service. tt;
            replans = tt;
          })
          λ results. tt)
  rest false = Ensures-pure tt (λ t. refl)

  went_on :
      (t u v : List Call) (changed : Bool) (a : ⊤)
      → Tried t changed u
      → Rest changed u a v
      → Keeps t a v
  went_on t u v true a d x = inr (after d x)
  went_on t u v false a x same_calls = inl (rw same_calls x)

  told_equal : Exec ⊤
  told_equal = do
    tell (log "The old and new passwords are equal.")
    tell (set_results (("password", some password) ∷ []))

  told : Ensures Keeps told_equal
  unfolding told_equal
  told =
      Ensures-Safe {P = RefusedMay} (λ t a t' _ x. inl x)
        (Safe-then _ _ (Emits-tell (log "The old and new passwords are equal.") tt)
          λ _. Emits-tell (set_results (("password", some password) ∷ [])) tt)

  pub change_password-Keeps : Ensures Keeps (change_password w username password)
  unfolding change_password told_equal
  change_password-Keeps =
      Ensures-after _ _ (Emits-lift {P = RefusedMay} _)
        (λ key _.
          Ensures-after _ _ (get_secret-Emits {P = RefusedMay} w app key)
            (λ old _.
              Ensures-if (is_text old password) told_equal _ (λ _. told)
                (λ _. Ensures-bind {Q = Tried} {R = Rest} _ _ change_in_mongodb-Tried rest went_on))
            λ t u v a x r. Keeps-before t u v a x r)
        λ t u v a x r. Keeps-before t u v a x r
