-- ===== src/Core/Retry.antt =====
-- Retries by tenacity: what the charm relies on, and what follows for the calls that are made.
use mongodb_k8s_operator.Prelude.{Bool, List, ◌≡◌}
use mongodb_k8s_operator.Core.Error.{Error, Result, ok, err}
use mongodb_k8s_operator.Core.Call.{Call}
use mongodb_k8s_operator.Core.World.{World, State, Exec, Stop}
use mongodb_k8s_operator.Core.Exec.{⊤}
use mongodb_k8s_operator.Core.Safe.{Extends, Extends-trans, Emits, Good-Any, Good-of_eq}
use mongodb_k8s_operator.Core.Ensures.{Post, Ensures, returned-Ensures}

-- What tenacity promises: the body is run, and again after it raised; the last run's outcome counts.
pub data Attempts (body : Exec ⊤) : State → Result ⊤ × State → Type 0 where
  last : {s : State} {out : Result ⊤ × State} → out ≡ body s → Attempts body s out
  again :
      {s : State} {out : Result ⊤ × State} {e : Error}
      → (body s).0 ≡ err e
      → Attempts body (body s).1 out
      → Attempts body s out

-- An attempt is one run of the body; another follows only one that raised.
Attempts-Extends :
    {P : Call → Type 0} {body : Exec ⊤} {s : State} {out : Result ⊤ × State}
    → Emits P body
    → Attempts body s out
    → Extends P s.trace out.1.trace
Attempts-Extends {body} {s} k (last e) = rw e (k.calls_of s)
Attempts-Extends {body} {s} k (again e a) = Extends-trans (k.calls_of s) (Attempts-Extends k a)

-- What the charm relies on in tenacity: `retry` makes attempts, and returns exactly if the last one
-- does; if it raises, the outcome is that error or a `RetryError`.
pub record Retries (w : World) : Type 0 where
  pub attempts :
      (stop : Stop) (reraise : Bool) (retried : Error → Bool) (body : Exec ⊤) (s : State)
      → (out : Result ⊤ × State) × Attempts body s out
        × ((w.retry stop reraise retried body s).1 ≡ out.1)
        × (out.0 ≡ ok tt → (w.retry stop reraise retried body s).0 ≡ ok tt)
        × ((w.retry stop reraise retried body s).0 ≡ ok tt → out.0 ≡ ok tt)

pub Emits-retry :
    {P : Call → Type 0} (w : World) (laws : Retries w) (stop : Stop) (reraise : Bool)
    (retried : Error → Bool) (body : Exec ⊤)
    → Emits P body
    → Emits P (w.retry stop reraise retried body)
Emits-retry w laws stop reraise retried body k = record {
  calls_of = λ s.
      let (out, run, same_state, _, _) = laws.attempts stop reraise retried body s in
      rw same_state (Attempts-Extends k run);
  returns = λ s. Good-Any (w.retry stop reraise retried body s).0;
}

Attempts-Ensures :
    {Q : Post ⊤} {body : Exec ⊤} {s : State} {out : Result ⊤ × State}
    → ((r : State) (e : Error) (v : List Call)
        → (body r).0 ≡ err e
        → Q (body r).1.trace tt v
        → Q r.trace tt v)
    → Ensures Q body
    → Attempts body s out
    → out.0 ≡ ok tt
    → Q s.trace tt out.1.trace
Attempts-Ensures {s} again_after k (last e) done = rw e (returned-Ensures s tt k (rw e at done))
Attempts-Ensures {body} {s} {out} again_after k (again {e} raised a) done =
    again_after s e out.1.trace raised (Attempts-Ensures again_after k a done)

-- What an attempt that returns ensures, if one that raises does not matter for it.
pub Ensures-retry :
    {Q : Post ⊤} (w : World) (laws : Retries w) (stop : Stop) (reraise : Bool)
    (retried : Error → Bool) (body : Exec ⊤)
    → ((r : State) (e : Error) (v : List Call)
        → (body r).0 ≡ err e
        → Q (body r).1.trace tt v
        → Q r.trace tt v)
    → Ensures Q body
    → Ensures Q (w.retry stop reraise retried body)
Ensures-retry {Q} w laws stop reraise retried body again_after k = record {
  after = λ s.
      let (out, run, same_state, _, returned) = laws.attempts stop reraise retried body s in
      rw same_state (Good-of_eq _ _ λ a done. Attempts-Ensures again_after k run (returned done));
}
