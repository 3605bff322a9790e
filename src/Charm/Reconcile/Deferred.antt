-- ===== src/Charm/Reconcile/Deferred.antt =====
-- Events that are deferred while units are added.
use mongodb_k8s_operator.Prelude.{
  String, Bool, true, false, not, some, ◌≡◌, List, ◌∷◌, if◌then◌else◌,
}
use mongodb_k8s_operator.Core.Error.{Error}
use mongodb_k8s_operator.Core.Call.{Call, defer}
use mongodb_k8s_operator.Core.World.{World, Exec}
use mongodb_k8s_operator.Core.Exec.{pure, raise, tell, when, ◌>>=◌}
use mongodb_k8s_operator.Core.Safe.{
  emits_rules, Extends, Extends-trans, Extends-mono, Emits, Emits-tell, more, same,
}
use mongodb_k8s_operator.Core.Ensures.{Post, Ensures, Ensures-bind, Ensures-Safe, Ensures-finally}
use mongodb_k8s_operator.Core.Retry.{Retries}
use mongodb_k8s_operator.Charm.Configs.Calls.{mongodb_config-Emits}
use mongodb_k8s_operator.Mongodb.Calls.{with_connection-Safe, is_ready-Emits, connect-Emits}
use mongodb_k8s_operator.Mongodb.Connection.{with_connection}
use mongodb_k8s_operator.Mongodb.MemberStore.{LeavesMembers}
use mongodb_k8s_operator.Charm.Reconcile.{member_is_ready}

-- The event was deferred by one of the later calls.
pub data Deferred (t : List Call) : List Call → Type 0 where
  here : {u : List Call} → Extends (λ c. Unit) t u → Deferred t (defer ∷ u)
  later : {c : Call} {u : List Call} → Deferred t u → Deferred t (c ∷ u)

pub Deferred-Extends :
    {P : Call → Type 0} {t u v : List Call} → Deferred t u → Extends P u v → Deferred t v
Deferred-Extends d same = d
Deferred-Extends d (more p x) = later (Deferred-Extends d x)

pub Extends-Deferred : {t u v : List Call} → Extends (λ c. Unit) t u → Deferred u v → Deferred t v
Extends-Deferred x (here y) = here (Extends-trans x y)
Extends-Deferred x (later d) = later (Extends-Deferred x d)

-- Whatever the calls are.
pub Extends-any : {P : Call → Type 0} {t u : List Call} → Extends P t u → Extends (λ c. Unit) t u
Extends-any x = Extends-mono (λ c p. tt) x

-- An error that is caught defers the event.
pub told_or_raised :
    (caught : Bool) (e : Error)
    → Ensures (λ t a t'. Deferred t t') (if caught then tell defer else raise e)
unfolding ◌>>=◌
told_or_raised true e = record { after = λ s. here same }
told_or_raised false e = record { after = λ s. tt }

module _ (w : World) (laws : Retries w) where
  pub member_is_ready-leaves : (member : String) → Emits LeavesMembers (member_is_ready w member)
  unfolding member_is_ready
  member_is_ready-leaves member =
      search
        (emits_rules, mongodb_config-Emits, with_connection-Safe, is_ready-Emits, laws, Emits-tell)
        depth 14

  -- Code that returns false has deferred the event.
  abbrev Told : Post Bool
  Told t ready t' = ready ≡ false → Deferred t t'

  told : (ready : Bool) → Ensures Told (when (not ready) (tell defer) >>= λ _. pure ready)
  unfolding ◌>>=◌
  told true = record { after = λ s h. cc }
  told false = record { after = λ s h. here same }

  any_calls :
      {A : Type 0} {m : Exec A}
      → Emits (λ c. Unit) m
      → Ensures (λ t a t'. Extends (λ c. Unit) t t') m
  any_calls k = Ensures-Safe (λ t a t' _ x. x) k

  -- A member that is not ready defers the event.
  pub member_is_ready-Deferred : (member : String) → Ensures Told (member_is_ready w member)
  unfolding member_is_ready with_connection
  member_is_ready-Deferred member =
      Ensures-bind {R = λ config. Told} _ _ (any_calls (mongodb_config-Emits w))
        (λ config.
          Ensures-bind {R = λ conn. Told} _ _
            (any_calls (connect-Emits w config (some member) true))
            (λ conn. Ensures-finally _ _ (
              Ensures-bind {R = λ ready. Told} _ _ (any_calls (is_ready-Emits w conn laws tt)) told
                λ t u v ready b x d h. later (Extends-Deferred x (d h))))
            λ t u v conn ready x d h. Extends-Deferred x (d h))
        λ t u v config ready x d h. Extends-Deferred x (d h)
