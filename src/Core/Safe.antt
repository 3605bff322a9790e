-- ===== src/Core/Safe.antt =====
-- Which calls code makes, and what it returns: a rule for each way to build code.
use mongodb_k8s_operator.Prelude.{
  Bool, true, false, Option, none, some, List, [], ◌∷◌, ◌≡◌, refl, if◌then◌else◌,
}
use mongodb_k8s_operator.Core.Error.{Error, Result, ok, err}
use mongodb_k8s_operator.Core.Call.{Call}
use mongodb_k8s_operator.Core.World.{State, Exec}
use mongodb_k8s_operator.Core.Exec.{
  ⊤, pure, raise, lift, continue, ◌>>=◌, catch, finally, gets, modify, asks, call, tell, when,
  or_raise, for_each, map_each,
}

-- The later trace is the earlier one with calls of a kind in front.
pub data Extends (P : Call → Type 0) (t : List Call) : List Call → Type 0 where
  same : Extends P t t
  more : {c : Call} {u : List Call} → P c → Extends P t u → Extends P t (c ∷ u)

pub Extends-trans :
    {P : Call → Type 0} {t u v : List Call} → Extends P t u → Extends P u v → Extends P t v
Extends-trans a same = a
Extends-trans a (more p b) = more p (Extends-trans a b)

pub Extends-mono :
    {P R : Call → Type 0} {t u : List Call}
    → ((c : Call) → P c → R c)
    → Extends P t u
    → Extends R t u
Extends-mono h same = same
Extends-mono h (more {c} p e) = more (h c p) (Extends-mono h e)

abbrev pub All : {A : Type 0} → (A → Type 0) → List A → Type 0
All Q [] = Unit {0}
All Q (x ∷ xs) = Q x × All Q xs

abbrev pub Any : {A : Type 0} → A → Type 0
Any a = Unit {0}

pub All-Any : {A : Type 0} (xs : List A) → All Any xs
All-Any [] = tt
All-Any (x ∷ xs) = (tt, All-Any xs)

-- What is returned has a property.
abbrev pub Good : {A : Type 0} → (A → Type 0) → Result A → Type 0
Good Q (ok a) = Q a
Good Q (err e) = Unit {0}

pub Good-of_eq :
    {A : Type 0} (Q : A → Type 0) (r : Result A) → ((a : A) → r ≡ ok a → Q a) → Good Q r
Good-of_eq Q (ok a) h = h a refl
Good-of_eq Q (err e) h = tt

-- Code makes only calls of a kind, and what it returns has a property.
pub record Safe {A : Type 0} (P : Call → Type 0) (Q : A → Type 0) (m : Exec A) : Type 0 where
  pub calls_of : (s : State) → Extends P s.trace (m s).1.trace
  pub returns : (s : State) → Good Q (m s).0

-- Code makes only calls of a kind.
abbrev pub Emits : {A : Type 0} → (Call → Type 0) → Exec A → Type 0
Emits P m = Safe P Any m

pub Good-Any : {A : Type 0} (r : Result A) → Good Any r
Good-Any (ok a) = tt
Good-Any (err e) = tt

module _ {A : Type 0} {P : Call → Type 0} {Q : A → Type 0} where
  pub Safe-pure : (a : A) → Q a → Safe P Q (pure a)
  unfolding ◌>>=◌
  Safe-pure a q = record { calls_of = λ s. same; returns = λ s. q }

  pub Safe-raise : (e : Error) → Safe P Q (raise e)
  unfolding ◌>>=◌
  Safe-raise e = record { calls_of = λ s. same; returns = λ s. tt }

  pub Safe-lift : (r : Result A) → Good Q r → Safe P Q (lift r)
  unfolding ◌>>=◌
  Safe-lift r q = record { calls_of = λ s. same; returns = λ s. q }

  pub Safe-asks : (f : List Call → A) → ((t : List Call) → Q (f t)) → Safe P Q (asks f)
  unfolding ◌>>=◌
  Safe-asks f q = record { calls_of = λ s. same; returns = λ s. q s.trace }

  pub Safe-call :
      (c : Call) (answer : List Call → Result A)
      → P c
      → ((t : List Call) → Good Q (answer t))
      → Safe P Q (call c answer)
  unfolding ◌>>=◌
  Safe-call c answer p q = record { calls_of = λ s. more p same; returns = λ s. q (c ∷ s.trace) }

  pub Safe-gets : (f : State → A) → ((s : State) → Q (f s)) → Safe P Q (gets f)
  unfolding ◌>>=◌
  Safe-gets f q = record { calls_of = λ s. same; returns = λ s. q s }

  pub Safe-if :
      (b : Bool) (m n : Exec A)
      → (b ≡ true → Safe P Q m)
      → (b ≡ false → Safe P Q n)
      → Safe P Q (if b then m else n)
  Safe-if true m n km kn = km refl
  Safe-if false m n km kn = kn refl

  pub Safe-or_raise :
      (o : Option A) (e : Error) → ((a : A) → o ≡ some a → Q a) → Safe P Q (or_raise o e)
  unfolding ◌>>=◌
  Safe-or_raise none e q = Safe-raise e
  Safe-or_raise (some a) e q = Safe-pure a (q a refl)

  pub Safe-finally : (m : Exec A) (c : Call) → Safe P Q m → P c → Safe P Q (finally m c)
  unfolding ◌>>=◌
  Safe-finally m c km p = record {
    calls_of = λ s. more p (km.calls_of s);
    returns = λ s. km.returns s;
  }

  handled :
      (r : Result A) (s s' : State) (handler : Error → Exec A)
      → Extends P s.trace s'.trace
      → Good Q r
      → ((e : Error) → Safe P Q (handler e))
      → Extends P s.trace (catch (λ _. (r, s')) handler s).1.trace
        × Good Q (catch (λ _. (r, s')) handler s).0
  unfolding ◌>>=◌
  handled (ok a) s s' handler x q kh = (x, q)
  handled (err e) s s' handler x q kh = (Extends-trans x ((kh e).calls_of s'), (kh e).returns s')

  pub Safe-catch :
      (m : Exec A) (handler : Error → Exec A)
      → Safe P Q m
      → ((e : Error) → Safe P Q (handler e))
      → Safe P Q (catch m handler)
  unfolding ◌>>=◌
  Safe-catch m handler km kh = record {
    calls_of = λ s. (handled (m s).0 s (m s).1 handler (km.calls_of s) (km.returns s) kh).0;
    returns = λ s. (handled (m s).0 s (m s).1 handler (km.calls_of s) (km.returns s) kh).1;
  }

  pub Safe-weaken :
      {R : Call → Type 0} {m : Exec A} → ((c : Call) → R c → P c) → Safe R Q m → Safe P Q m
  Safe-weaken h km = record { calls_of = λ s. Extends-mono h (km.calls_of s); returns = km.returns }

  pub Safe-Emits : {m : Exec A} → Safe P Q m → Emits P m
  Safe-Emits {m} km = record { calls_of = km.calls_of; returns = λ s. Good-Any (m s).0 }

module _ {A B : Type 0} {P : Call → Type 0} {Q : A → Type 0} {R : B → Type 0} where
  continued :
      (r : Result A) (s s' : State) (f : A → Exec B)
      → Extends P s.trace s'.trace
      → Good Q r
      → ((a : A) → Q a → Safe P R (f a))
      → Extends P s.trace (continue r f s').1.trace × Good R (continue r f s').0
  unfolding ◌>>=◌
  continued (ok a) s s' f x q kf = (Extends-trans x ((kf a q).calls_of s'), (kf a q).returns s')
  continued (err e) s s' f x q kf = (x, tt)

  pub Safe-bind :
      (m : Exec A) (f : A → Exec B)
      → Safe P Q m
      → ((a : A) → Q a → Safe P R (f a))
      → Safe P R (m >>= f)
  unfolding ◌>>=◌
  Safe-bind m f km kf = record {
    calls_of = λ s. (continued (m s).0 s (m s).1 f (km.calls_of s) (km.returns s) kf).0;
    returns = λ s. (continued (m s).0 s (m s).1 f (km.calls_of s) (km.returns s) kf).1;
  }

module _ {A B : Type 0} {P : Call → Type 0} {R : B → Type 0} where
  pub Safe-then :
      (m : Exec A) (f : A → Exec B) → Emits P m → ((a : A) → Safe P R (f a)) → Safe P R (m >>= f)
  Safe-then m f km kf = Safe-bind m f km (λ a _. kf a)

module _ {A : Type 0} {P : Call → Type 0} where
  pub Emits-pure : (a : A) → Emits P (pure a)
  Emits-pure a = Safe-pure a tt

  pub Emits-lift : (r : Result A) → Emits P (lift r)
  Emits-lift r = Safe-lift r (Good-Any r)

  pub Emits-asks : (f : List Call → A) → Emits P (asks f)
  Emits-asks f = Safe-asks f (λ t. tt)

  pub Emits-gets : (f : State → A) → Emits P (gets f)
  Emits-gets f = Safe-gets f (λ s. tt)

  pub Emits-or_raise : (o : Option A) (e : Error) → Emits P (or_raise o e)
  Emits-or_raise o e = Safe-or_raise o e (λ a _. tt)

  pub Emits-call : (c : Call) (answer : List Call → Result A) → P c → Emits P (call c answer)
  Emits-call c answer p = Safe-call c answer p (λ t. Good-Any (answer t))

  pub Emits-if : (b : Bool) (m n : Exec A) → Emits P m → Emits P n → Emits P (if b then m else n)
  Emits-if b m n km kn = Safe-if b m n (λ _. km) (λ _. kn)

module _ {P : Call → Type 0} where
  pub Emits-tell : (c : Call) → P c → Emits P (tell c)
  unfolding ◌>>=◌
  Emits-tell c p = record { calls_of = λ s. more p same; returns = λ s. tt }

  pub Emits-modify :
      (f : State → State) → ((s : State) → (f s).trace ≡ s.trace) → Emits P (modify f)
  unfolding ◌>>=◌
  Emits-modify f h = record { calls_of = λ s. rw (h s) same; returns = λ s. tt }

  pub Emits-when : (b : Bool) (m : Exec ⊤) → Emits P m → Emits P (when b m)
  Emits-when true m km = km
  Emits-when false m km = Safe-pure tt tt

  pub Emits-for_each :
      {A : Type 0} (Q : A → Type 0) (xs : List A) (body : A → Exec ⊤)
      → All Q xs
      → ((a : A) → Q a → Emits P (body a))
      → Emits P (for_each xs body)
  unfolding for_each
  Emits-for_each Q [] body q kb = Safe-pure tt tt
  Emits-for_each Q (x ∷ xs) body q kb =
      Safe-bind (body x) (λ _. for_each xs body) (kb x q.0) (λ _ _. Emits-for_each Q xs body q.1 kb)

  -- A loop whose body may be run on anything.
  pub Emits-for_all :
      {A : Type 0} (xs : List A) (body : A → Exec ⊤)
      → ((a : A) → Emits P (body a))
      → Emits P (for_each xs body)
  Emits-for_all xs body kb = Emits-for_each Any xs body (All-Any xs) (λ a _. kb a)

  pub Emits-map_each :
      {A B : Type 0} (xs : List A) (f : A → Exec B)
      → ((a : A) → Emits P (f a))
      → Emits P (map_each xs f)
  unfolding map_each
  Emits-map_each [] f kf = Safe-pure [] tt
  Emits-map_each (x ∷ xs) f kf =
      Safe-bind (f x) _ (kf x)
        λ y _. Safe-bind (map_each xs f) _ (Emits-map_each xs f kf) λ ys _. Safe-pure (y ∷ ys) tt

-- The rules for code whose calls are looked at one by one.
pub ruleset emits_rules = (
  Safe-then, Emits-pure, Safe-raise, Emits-lift, Emits-asks, Emits-gets, Emits-or_raise, Emits-if,
  Emits-when, Safe-catch,
)
