-- ===== src/Exec.antt =====
-- Coroutines that change a state and may raise. What was done before a raise stays done, so the
-- state comes back beside the error.
use mathlib.Core.Path.{subst}
use secunda_test.Base.{ap, Exc, Result, ok, err, refl, ◌≡◌, Result-cases, inl, inr}

abbrev pub Exec : Type 0 → Type 0 → Type 0
Exec S A = S → Result A × S

module _ {S A : Type 0} where
  abbrev pub pure : A → Exec S A
  pure a s = (ok a, s)

  abbrev pub raise : Exc → Exec S A
  raise e s = (err e, s)

  -- a computation that touches no state
  abbrev pub lift : Result A → Exec S A
  lift r s = (r, s)

  -- `try: m except ...`, the handler by cases on the exception
  abbrev pub catch : Exec S A → (Exc → Exec S A) → Exec S A
  catch m handler s = let (r, s') = m s in elim r [ ok a ↦ (ok a, s') | err e ↦ handler e s' ]

abbrev pub continue : {S A B : Type 0} → Result A → (A → Exec S B) → Exec S B
continue (ok a) f s = f a s
continue (err e) f s = (err e, s)

infixl 5 ◌>>=◌ ◌>>◌
abbrev pub ◌>>=◌ : {S A B : Type 0} → Exec S A → (A → Exec S B) → Exec S B
◌>>=◌ m f s = let (r, s') = m s in continue r f s'

abbrev pub ◌>>◌ : {S A B : Type 0} → Exec S A → Exec S B → Exec S B
m >> k = m >>= λ _. k

-- A last step that touches no state leaves it as it was.
pub continue-lift :
    {S A B : Type 0} (r : Result A) (f : A → Result B) (s : S)
    → (continue r (λ a. lift (f a)) s).1 ≡ s
continue-lift (ok a) f s = refl
continue-lift (err e) f s = refl

-- A handler that only raises leaves the state as it was.
pub catch-raise :
    {S A : Type 0} (m : Exec S A) (f : Exc → Exc) (s : S)
    → (catch m (λ e. raise (f e)) s).1 ≡ (m s).1
catch-raise m f s = elim (Result-cases (m s).0) [
  | inl (a, e) ↦ rw (e, catch)
  | inr (x, e) ↦ rw (e, catch)
]

-- A property of the state that holds after a step holds after the next, if that step keeps it.
pub continue-keeps :
    {S A B : Type 0} (P : S → Type 0) (r : Result A) (f : A → Exec S B) (s : S)
    → P s
    → ((a : A) → P (f a s).1)
    → P (continue r f s).1
continue-keeps P (ok a) f s h keeps = keeps a
continue-keeps P (err e) f s h keeps = h

pub bind-keeps :
    {S A B : Type 0} (P : S → Type 0) (m : Exec S A) (f : A → Exec S B) (s : S)
    → P (m s).1
    → ((a : A) → P (f a (m s).1).1)
    → P ((m >>= f) s).1
bind-keeps P m f s h keeps = continue-keeps P (m s).0 f (m s).1 h keeps

handled-keeps :
    {S A : Type 0} (P : S → Type 0) (handler : Exc → Exec S A) (q : Result A × S)
    → P q.1
    → ((e : Exc) → P (handler e q.1).1)
    → P (catch (λ s. q) handler q.1).1
handled-keeps P handler (ok a, s) h keeps = h
handled-keeps P handler (err e, s) h keeps = keeps e

pub catch-keeps :
    {S A : Type 0} (P : S → Type 0) (m : Exec S A) (handler : Exc → Exec S A) (s : S)
    → P (m s).1
    → ((e : Exc) → P (handler e (m s).1).1)
    → P (catch m handler s).1
catch-keeps P m handler s h keeps = handled-keeps P handler (m s) h keeps

-- What holds of the value and the state if the computation returns.
abbrev pub Returns : {S A : Type 0} → (A → S → Type 0) → Result A × S → Type 0
Returns P (ok a, s) = P a s
Returns P (err e, s) = Unit {0}

pub continue-Returns :
    {S A B : Type 0} (P : B → S → Type 0) (r : Result A) (f : A → Exec S B) (s : S)
    → ((a : A) → r ≡ ok a → Returns P (f a s))
    → Returns P (continue r f s)
continue-Returns P (ok a) f s h = h a refl
continue-Returns P (err e) f s h = tt

handled-Returns :
    {S A : Type 0} (P : A → S → Type 0) (handler : Exc → Exec S A) (q : Result A × S)
    → Returns P q
    → ((e : Exc) → q.0 ≡ err e → Returns P (handler e q.1))
    → Returns P (catch (λ s. q) handler q.1)
handled-Returns P handler (ok a, s) h k = h
handled-Returns P handler (err e, s) h k = k e refl

pub catch-Returns :
    {S A : Type 0} (P : A → S → Type 0) (m : Exec S A) (handler : Exc → Exec S A) (s : S)
    → Returns P (m s)
    → ((e : Exc) → (m s).0 ≡ err e → Returns P (handler e (m s).1))
    → Returns P (catch m handler s)
catch-Returns P m handler s h k = handled-Returns P handler (m s) h k

pub Returns-ok :
    {S A : Type 0} (P : A → S → Type 0) (q : Result A × S) {a : A}
    → q.0 ≡ ok a
    → Returns P q
    → P a q.1
Returns-ok P (ok b, s) {a} e h =
    let same : b ≡ a = ap (λ (r : Result _). elim r [ ok x ↦ x | err x ↦ b ]) e in
    subst (λ x. P x s) same h
Returns-ok P (err x, s) e h = cc

-- The same, where the next step relies on how the first one has ended.
pub continue-keeps_ok :
    {S A B : Type 0} (P : S → Type 0) (r : Result A) (f : A → Exec S B) (s : S)
    → P s
    → ((a : A) → r ≡ ok a → P (f a s).1)
    → P (continue r f s).1
continue-keeps_ok P (ok a) f s h keeps = keeps a refl
continue-keeps_ok P (err e) f s h keeps = h
