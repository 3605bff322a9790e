-- ===== src/Core/Exec.antt =====
-- Code that makes calls and may raise: what was called before a raise stays called.
use mongodb_k8s_operator.Prelude.{
  ◌≢◌, String, not, ◌==◌, Bool, true, false, Option, none, some, List, [], ◌∷◌,
}
use mongodb_k8s_operator.Core.Error.{Error, Result, ok, err}
use mongodb_k8s_operator.Core.Call.{Call}
use mongodb_k8s_operator.Core.World.{Exec, State}

abbrev pub ⊤ : Type 0
⊤ = Unit {0}

unfoldable pub pure {ℓ} : {A : Type ℓ} → A → Exec A
pure a s = (ok a, s)

unfoldable pub raise {ℓ} : {A : Type ℓ} → Error → Exec A
raise e s = (err e, s)

unfoldable pub lift {ℓ} : {A : Type ℓ} → Result A → Exec A
lift r s = (r, s)

-- `try: m` with a handler that takes every exception, and raises again those that it does not name.
unfoldable pub catch {ℓ} : {A : Type ℓ} → Exec A → (Error → Exec A) → Exec A
catch m handler s = let (r, s') = m s in elim r [ ok a ↦ (ok a, s') | err e ↦ handler e s' ]

-- `finally`, with one last call.
unfoldable pub finally {ℓ} : {A : Type ℓ} → Exec A → Call → Exec A
finally m c s = let (r, s') = m s in (r, record s' { trace = c ∷ s'.trace })

unfoldable pub asks {ℓ} : {A : Type ℓ} → (List Call → A) → Exec A
asks f s = (ok (f s.trace), s)

-- One call, and its answer.
unfoldable pub call {ℓ} : {A : Type ℓ} → Call → (List Call → Result A) → Exec A
call c answer s = (answer (c ∷ s.trace), record s { trace = c ∷ s.trace })

-- A call that has no answer.
unfoldable pub tell : Call → Exec ⊤
tell c s = (ok tt, record s { trace = c ∷ s.trace })

-- The charm's own memory.
unfoldable pub gets {ℓ} : {A : Type ℓ} → (State → A) → Exec A
gets f s = (ok (f s), s)

unfoldable pub modify : (State → State) → Exec ⊤
modify f s = (ok tt, f s)

abbrev pub continue {ℓ κ} : {A : Type ℓ} {B : Type κ} → Result A → (A → Exec B) → Exec B
continue (ok a) f s = f a s
continue (err e) f s = (err e, s)

-- Opening this opens the operations above too.
infixl 5 ◌>>=◌ ◌>>◌
unfoldable pub ◌>>=◌ {ℓ κ} : {A : Type ℓ} {B : Type κ} → Exec A → (A → Exec B) → Exec B
unfolding pure raise lift catch finally asks call tell gets modify
◌>>=◌ m f s = let (r, s') = m s in continue r f s'

abbrev pub ◌>>◌ {ℓ κ} : {A : Type ℓ} {B : Type κ} → Exec A → Exec B → Exec B
m >> k = m >>= λ _. k

-- The calls so far.
abbrev pub calls : Exec (List Call)
calls = asks (λ t. t)

abbrev pub when : Bool → Exec ⊤ → Exec ⊤
when true m = m
when false m = pure tt

-- A part of a list or `none` is missing: the exception that Python raises.
abbrev pub or_raise {ℓ} : {A : Type ℓ} → Option A → Error → Exec A
or_raise none e = raise e
or_raise (some a) e = pure a

-- `for x in xs: body`.
unfoldable pub for_each {ℓ} : {A : Type ℓ} → List A → (A → Exec ⊤) → Exec ⊤
for_each [] body = pure tt
for_each (x ∷ xs) body = let rest = for_each xs body in body x >> rest

-- `[f(x) for x in xs]`
unfoldable pub map_each {ℓ κ} : {A : Type ℓ} {B : Type κ} → List A → (A → Exec B) → Exec (List B)
map_each [] f = pure []
map_each (x ∷ xs) f = let rest = map_each xs f in do y ← f x; ys ← rest; pure (y ∷ ys)

-- `if value:` on a text or `None`.
abbrev pub filled : Option String → Bool
filled none = false
filled (some value) = not (value == "")

-- `container.can_connect()`, `container.exists(path)`: questions to Pebble.
abbrev pub ask : Call → (List Call → Bool) → Exec Bool
ask c answer = call c (λ t. ok (answer t))

-- If the rest never returns a value, the whole does not.
continue-ne-ok {ℓ κ} :
    {A : Type ℓ} {B : Type κ} (r : Result A) (f : A → Exec B) (b : B) (s : State)
    → ((a : A) (t : State) → (f a t).0 ≢ ok b)
    → (continue r f s).0 ≢ ok b
continue-ne-ok (ok a) f b s never = never a s
continue-ne-ok (err e) f b s never = λ h. cc

pub bind-ne-ok {ℓ κ} :
    {A : Type ℓ} {B : Type κ} (m : Exec A) (f : A → Exec B) (b : B)
    → ((a : A) (t : State) → (f a t).0 ≢ ok b)
    → (s : State) → ((m >>= f) s).0 ≢ ok b
unfolding ◌>>=◌
bind-ne-ok m f b never s = continue-ne-ok (m s).0 f b (m s).1 never
