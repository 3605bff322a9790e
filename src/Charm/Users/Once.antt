-- ===== src/Charm/Users/Once.antt =====
-- Generating the charm's secrets again and again.
use mongodb_k8s_operator.Prelude.{
  ℕ, suc, String, ◌≡◌, ◌≢◌, refl, true, false, Option, none, some, List, ◌∷◌, arith, eq_iff,
  Bool-cases, inl, inr, ◌<◌, ◌∙◌, ap, sym,
}
use mongodb_k8s_operator.Core.Error.{Error, Result, ok, err, Result-cases}
use mongodb_k8s_operator.Core.Call.{Call, Content, app, draw}
use mongodb_k8s_operator.Core.World.{World, State, Exec}
use mongodb_k8s_operator.Core.Exec.{⊤, ◌>>=◌, ◌>>◌, filled}
use mongodb_k8s_operator.Core.Dict.{lookup, is_some}
use mongodb_k8s_operator.Charm.Secrets.{live, get_secret, set_secret}
use mongodb_k8s_operator.Charm.Secrets.Held.{KeepsPeerData, Held, get_secret-Held}
use mongodb_k8s_operator.Charm.Secrets.Store.{set_secret-Held}
use mongodb_k8s_operator.Charm.Users.{
  check_or_set, check_or_set_user_password, check_or_set_keyfile, generate_secrets,
}
use mongodb_k8s_operator.Helpers.Random.{generate_password, generate_keyfile}
use mongodb_k8s_operator.Helpers.Random.Passwords.{length_of, generated_texts}
use mongodb_k8s_operator.Users.{MongodbUser, operator_user, monitor_user}
use mongodb_k8s_operator.Config.{secret_keyfile_name}

-- A key that has a value.
abbrev pub HasLive : Content → String → Type 0
HasLive content j = is_some (live (lookup j content)) ≡ true

-- The secret of the application is held, and the keys that had a value before have that value.
pub record Grown (w : World) (before : Content) (s : State) : Type 0 where
  pub content : Content
  pub held : Held w app content s
  pub kept : (j : String) → HasLive before j → lookup j content ≡ lookup j before

-- The state once random numbers are drawn.
abbrev pub drawn : State → State
drawn s = record s { trace = draw ∷ s.trace }

filled-live : (o : Option String) → filled (live o) ≡ false → is_some (live o) ≡ false
filled-live none h = refl
filled-live (some value) h = ground (arith, eq_iff value "")

ok_is_not_err : (e : Error) → ◌≢◌ {A = Result ⊤} (ok tt) (err e)
ok_is_not_err e = λ h. cc

-- Both parts of a sequence that returns do return.
then-ok :
    (m k : Exec ⊤) (s : State)
    → ((m >> k) s).0 ≡ ok tt
    → ((m s).0 ≡ ok tt) × ((k (m s).1).0 ≡ ok tt) × (((m >> k) s).1 ≡ (k (m s).1).1)
unfolding ◌>>=◌
then-ok m k s h = elim (Result-cases (m s).0) [
  | inl (e, failed) ↦ ground (arith, failed, h)
  | inr (done, returned) ↦ ground (arith, returned, h)
]

is_long : (n : ℕ) (p : String) → length_of p ≡ suc n → p ≢ ""
is_long n p long = λ e. let short : length_of p ≡ 0 = ap length_of e in omega arith

module _ (w : World) (laws : KeepsPeerData w) (juju : w.has_secrets ≡ true) where
  drawn-Held : (content : Content) (s : State) → Held w app content s → Held w app content (drawn s)
  drawn-Held content s held = record {
    id = held.id;
    label = held.label;
    slot = held.slot;
    labelled = rw (laws.after_draw s.trace app) held.labelled;
    related = rw (laws.relation_stays draw s.trace) held.related;
  }

  set-Grown :
      (before : Content) (key p : String) (s : State) (r : Option String) (g : Grown w before s)
      → p ≢ ""
      → filled (live (lookup key g.content)) ≡ false
      → (set_secret w app key (some p) (drawn s)).0 ≡ ok r
      → Grown w before (set_secret w app key (some p) (drawn s)).1
  set-Grown before key p s r g named missing h =
      let (new, kept, found) =
        set_secret-Held w laws app key p g.content (drawn s) r juju (drawn-Held g.content s g.held)
          named h in
      record {
        content = new;
        held = kept;
        kept = λ j there. ground (
          arith,
          found j,
          g.kept j there,
          eq_iff key j,
          filled-live (lookup key g.content) missing,
        );
      }

  check_or_set-Grown :
      (before : Content) (key p : String) (generate : Exec String) (s : State)
      → key ≢ ""
      → p ≢ ""
      → generate s ≡ (ok p, drawn s)
      → (check_or_set w key generate s).0 ≡ ok tt
      → Grown w before s
      → Grown w before (check_or_set w key generate s).1
  unfolding check_or_set ◌>>=◌
  check_or_set-Grown before key p generate s named new generated h g =
      let read = get_secret-Held w app key s g.content juju named g.held in
      elim (Bool-cases (filled (live (lookup key g.content)))) [
        | inl there ↦
            let same : (check_or_set w key generate s).1 ≡ s = ground (arith, read, there) in
            rw same g
        | inr missing ↦ elim (Result-cases (set_secret w app key (some p) (drawn s)).0) [
          | inl (e, failed) ↦
              let never : (check_or_set w key generate s).0 ≡ err e =
                ground (arith, read, missing, generated, failed) in
              elim (ok_is_not_err e (sym h ∙ never)) [ ]
          | inr (r, done) ↦
              let same : (check_or_set w key generate s).1
                  ≡ (set_secret w app key (some p) (drawn s)).1 =
                ground (arith, read, missing, generated, done) in
              rw same (set-Grown before key p s r g new missing done)
        ]
      ]

  module _ (below : (t : List Call) (i : ℕ) → w.choice t i < 62) where
    password-Grown :
        (before : Content) (user : MongodbUser) (s : State)
        → user.password_key_name ≢ ""
        → (check_or_set_user_password w user s).0 ≡ ok tt
        → Grown w before s
        → Grown w before (check_or_set_user_password w user s).1
    unfolding check_or_set_user_password generate_password ◌>>=◌
    password-Grown before user s named h g =
        let ((p, made, long, _), _) = generated_texts w s below in
        check_or_set-Grown before user.password_key_name p (generate_password w) s named
          (is_long 31 p long) (rw made refl) h g

    keyfile-Grown :
        (before : Content) (s : State)
        → (check_or_set_keyfile w s).0 ≡ ok tt
        → Grown w before s
        → Grown w before (check_or_set_keyfile w s).1
    unfolding check_or_set_keyfile generate_keyfile ◌>>=◌
    keyfile-Grown before s h g =
        let (_, (k, made, long, _)) = generated_texts w s below in
        check_or_set-Grown before secret_keyfile_name k (generate_keyfile w) s (λ e. cc)
          (is_long 1023 k long) (rw made refl) h g

    generate_secrets-Grown :
        (before : Content) (s : State)
        → (generate_secrets w s).0 ≡ ok tt
        → Grown w before s
        → Grown w before (generate_secrets w s).1
    unfolding generate_secrets
    generate_secrets-Grown before s h g =
        let (first_ok, rest_ok, first_state) =
          then-ok (check_or_set_user_password w operator_user) _ s h in
        let (second_ok, last_ok, second_state) =
          then-ok (check_or_set_user_password w monitor_user) _ _ rest_ok in
        rw first_state (
          rw second_state (
            keyfile-Grown before _ last_ok (
              password-Grown before monitor_user _ (λ e. cc) second_ok
                (password-Grown before operator_user s (λ e. cc) first_ok g))))

    -- With Juju secrets and a secret of the application that is held, generating the charm's secrets
    -- without an error changes no value that is there: neither a password that was set nor the keyfile
    -- is ever generated again. The conditions: databags keep what is written to them, and a random
    -- choice picks one of the 62 characters.
    pub generate_secrets-keeps :
        (content : Content) (s : State) (j : String)
        → Held w app content s
        → (generate_secrets w s).0 ≡ ok tt
        → j ≢ ""
        → HasLive content j
        → (get_secret w app j (generate_secrets w s).1).0 ≡ (get_secret w app j s).0
    generate_secrets-keeps content s j held h named there =
        let g =
          generate_secrets-Grown content s h
            (record { content = content; held = held; kept = λ i live_i. refl }) in
        rw (get_secret-Held w app j (generate_secrets w s).1 g.content juju named g.held)
          (rw (get_secret-Held w app j s content juju named held) (rw (g.kept j there) refl))
