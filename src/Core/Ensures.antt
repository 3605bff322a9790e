-- ===== src/Core/Ensures.antt =====
-- What holds of the calls before and after code that returns: a rule for each way to build code.
use mongodb_k8s_operator.Prelude.{Bool, true, false, ◌≡◌, refl, List, ◌∷◌, if◌then◌else◌}
use mongodb_k8s_operator.Core.Error.{Error, Result, ok, err}
use mongodb_k8s_operator.Core.Call.{Call}
use mongodb_k8s_operator.Core.World.{State, Exec}
use mongodb_k8s_operator.Core.Exec.{pure, raise, lift, asks, call, catch, finally, continue, ◌>>=◌}
use mongodb_k8s_operator.Core.Safe.{Good, Good-of_eq, Extends, Safe}

-- A statement about the calls before, the value returned and the calls after.
abbrev pub Post : Type 0 → Type 1
Post A = List Call → A → List Call → Type 0

-- If code returns, then the statement holds.
pub record Ensures {A : Type 0} (Q : Post A) (m : Exec A) : Type 0 where
  pub after : (s : State) → Good (λ a. Q s.trace a (m s).1.trace) (m s).0

returned-map :
    {A : Type 0} {R S : A → Type 0} (r : Result A) → ((a : A) → R a → S a) → Good R r → Good S r
returned-map (ok a) h q = h a q
returned-map (err e) h q = tt

module _ {A : Type 0} {Q : Post A} where
  pub Ensures-pure : (a : A) → ((t : List Call) → Q t a t) → Ensures Q (pure a)
  unfolding ◌>>=◌
  Ensures-pure a h = record { after = λ s. h s.trace }

  pub Ensures-raise : (e : Error) → Ensures Q (raise e)
  unfolding ◌>>=◌
  Ensures-raise e = record { after = λ s. tt }

  pub Ensures-lift : (r : Result A) → ((a : A) (t : List Call) → Q t a t) → Ensures Q (lift r)
  unfolding ◌>>=◌
  Ensures-lift (ok a) h = record { after = λ s. h a s.trace }
  Ensures-lift (err e) h = record { after = λ s. tt }

  pub Ensures-asks : (f : List Call → A) → ((t : List Call) → Q t (f t) t) → Ensures Q (asks f)
  unfolding ◌>>=◌
  Ensures-asks f h = record { after = λ s. h s.trace }

  pub Ensures-call :
      (c : Call) (answer : List Call → Result A)
      → ((t : List Call) (a : A) → answer (c ∷ t) ≡ ok a → Q t a (c ∷ t))
      → Ensures Q (call c answer)
  unfolding ◌>>=◌
  Ensures-call c answer h = record { after = λ s. Good-of_eq _ (answer (c ∷ s.trace)) (h s.trace) }

  pub Ensures-if :
      (b : Bool) (m n : Exec A)
      → (b ≡ true → Ensures Q m)
      → (b ≡ false → Ensures Q n)
      → Ensures Q (if b then m else n)
  Ensures-if true m n km kn = km refl
  Ensures-if false m n km kn = kn refl

  pub Ensures-weaken :
      {R : Post A} {m : Exec A}
      → ((t : List Call) (a : A) (u : List Call) → R t a u → Q t a u)
      → Ensures R m
      → Ensures Q m
  Ensures-weaken {m} h km = record {
    after = λ s. returned-map (m s).0 (λ a. h s.trace a (m s).1.trace) (km.after s);
  }

  pub Ensures-Safe :
      {P : Call → Type 0} {R : A → Type 0} {m : Exec A}
      → ((t : List Call) (a : A) (u : List Call) → R a → Extends P t u → Q t a u)
      → Safe P R m
      → Ensures Q m
  Ensures-Safe {m} h km = record {
    after = λ s.
        returned-map (m s).0 (λ a r. h s.trace a (m s).1.trace r (km.calls_of s)) (km.returns s);
  }

  pub Ensures-finally :
      (m : Exec A) (c : Call) → Ensures (λ t a u. Q t a (c ∷ u)) m → Ensures Q (finally m c)
  unfolding ◌>>=◌
  Ensures-finally m c km = record { after = λ s. km.after s }

module _ {A B : Type 0} {Q : Post A} {R : A → Post B} {S : Post B} where
  continued :
      (r : Result A) (s s' : State) (f : A → Exec B)
      → Good (λ a. Q s.trace a s'.trace) r
      → ((a : A) → Ensures (R a) (f a))
      → ((t u v : List Call) (a : A) (b : B) → Q t a u → R a u b v → S t b v)
      → Good (λ b. S s.trace b (continue r f s').1.trace) (continue r f s').0
  continued (ok a) s s' f q kf h =
      returned-map (f a s').0 (λ b. h s.trace s'.trace (f a s').1.trace a b q) ((kf a).after s')
  continued (err e) s s' f q kf h = tt

  pub Ensures-bind :
      (m : Exec A) (f : A → Exec B)
      → Ensures Q m
      → ((a : A) → Ensures (R a) (f a))
      → ((t u v : List Call) (a : A) (b : B) → Q t a u → R a u b v → S t b v)
      → Ensures S (m >>= f)
  unfolding ◌>>=◌
  Ensures-bind m f km kf h = record { after = λ s. continued (m s).0 s (m s).1 f (km.after s) kf h }

-- What is ensured of code that does return.
pub returned-Ensures :
    {A : Type 0} {Q : Post A} {m : Exec A} (s : State) (a : A)
    → Ensures Q m
    → (m s).0 ≡ ok a
    → Q s.trace a (m s).1.trace
returned-Ensures {Q} {m} s a km h = rw h at (km.after s)

module _ {A : Type 0} where
  -- What holds of the calls of all code.
  abbrev pub Anything : Post A
  Anything t a t' = Unit

  pub Ensures-any : (m : Exec A) → Ensures Anything m
  Ensures-any m = record { after = λ s. Good-of_eq _ (m s).0 (λ a _. tt) }

module _ {A B : Type 0} {S : Post B} where
  -- What the rest of the code ensures, wherever it begins.
  pub Ensures-then :
      (m : Exec A) (f : A → Exec B)
      → ((t u v : List Call) (b : B) → S u b v → S t b v)
      → ((a : A) → Ensures S (f a))
      → Ensures S (m >>= f)
  Ensures-then m f anywhere kf =
      Ensures-bind m f (Ensures-any m) kf (λ t u v a b _ r. anywhere t u v b r)

module _ {A : Type 0} {P : Call → Type 0} {R : A → Type 0} {Q : Post A} where
  -- Two rules on the same code.
  pub Ensures-both :
      {m : Exec A}
      → Safe P R m
      → Ensures Q m
      → Ensures (λ t a t'. R a × Extends P t t' × Q t a t') m
  Ensures-both {m} safe km = record {
    after = λ s. pair (m s).0 (m s).1.trace (safe.returns s) (safe.calls_of s) (km.after s);
  }
    where
      pair :
          {t : List Call} (r : Result A) (t' : List Call)
          → Good R r
          → Extends P t t'
          → Good (λ a. Q t a t') r
          → Good (λ a. R a × Extends P t t' × Q t a t') r
      pair (ok a) t' p x q = (p, x, q)
      pair (err e) t' p x q = tt

-- Code that goes on with a value.
pub Ensures-known :
    {A B : Type 0} {S : Post B} (a : A) (f : A → Exec B)
    → Ensures S (f a)
    → Ensures S (pure a >>= f)
unfolding ◌>>=◌
Ensures-known a f k = record { after = λ s. k.after s }

module _ {A : Type 0} {P : Call → Type 0} {R : A → Type 0} {Q H : Post A} where
  -- A handler goes on after the calls that were made before the raise.
  pub Ensures-catch :
      (m : Exec A) (handler : Error → Exec A)
      → Safe P R m
      → Ensures Q m
      → ((e : Error) → Ensures H (handler e))
      → ((t u v : List Call) (a : A) → Extends P t u → H u a v → Q t a v)
      → Ensures Q (catch m handler)
  unfolding ◌>>=◌
  Ensures-catch m handler safe km kh h = record {
    after = λ s. handled s (m s).0 (m s).1 (km.after s) (safe.calls_of s);
  }
    where
      handled :
          (s : State) (r : Result A) (u : State)
          → Good (λ a. Q s.trace a u.trace) r
          → Extends P s.trace u.trace
          → Good
              (λ a. Q s.trace a (catch (λ _. (r, u)) handler s).1.trace)
              (catch (λ _. (r, u)) handler s).0
      handled s (ok a) u q x = q
      handled s (err e) u q x =
          returned-map (handler e u).0 (λ a. h s.trace u.trace (handler e u).1.trace a x)
            ((kh e).after u)

module _ {A B : Type 0} {P : Call → Type 0} {F : A → Type 0} {R S : Post B} where
  went_on :
      (r : Result A) (s s' : State) (f : A → Exec B)
      → Good F r
      → Extends P s.trace s'.trace
      → ((a : A) → F a → Ensures R (f a))
      → ((t u v : List Call) (b : B) → Extends P t u → R u b v → S t b v)
      → Good (λ b. S s.trace b (continue r f s').1.trace) (continue r f s').0
  went_on (ok a) s s' f q x kf h =
      returned-map (f a s').0 (λ b. h s.trace s'.trace (f a s').1.trace b x) ((kf a q).after s')
  went_on (err e) s s' f q x kf h = tt

  -- What is known of a value holds in the code that goes on with it.
  pub Ensures-after :
      (m : Exec A) (f : A → Exec B)
      → Safe P F m
      → ((a : A) → F a → Ensures R (f a))
      → ((t u v : List Call) (b : B) → Extends P t u → R u b v → S t b v)
      → Ensures S (m >>= f)
  unfolding ◌>>=◌
  Ensures-after m f safe kf h = record {
    after = λ s. went_on (m s).0 s (m s).1 f (safe.returns s) (safe.calls_of s) kf h;
  }
