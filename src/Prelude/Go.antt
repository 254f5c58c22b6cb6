-- ===== src/Prelude/Go.antt =====
-- Go functions that mutate their receiver and return an error: state, result and run-time panic.
use mathlib.Core.Path.{◌≡◌}
use mathlib.Core.Bool.{Bool, true, false}
use mathlib.Core.Option.{Option, none, some}

-- `err e s` is a returned error; the receiver keeps what was written to it before the return.
-- `panic` is a run-time panic: an index out of range, or a nil pointer.
pub data Outcome (E S A : Type 0) : Type 0 where
  ok : A → S → Outcome E S A
  err : E → S → Outcome E S A
  panic : Outcome E S A

abbrev pub and_then : {E S A B : Type 0} → Outcome E S A → (A → S → Outcome E S B) → Outcome E S B
and_then (ok a s) f = f a s
and_then (err e s) f = err e s
and_then panic f = panic

abbrev pub Go : Type 0 → Type 0 → Type 0 → Type 0
Go E S A = S → Outcome E S A

infixl 5 ◌>>=◌ ◌>>◌
abbrev pub ◌>>=◌ : {E S A B : Type 0} → Go E S A → (A → Go E S B) → Go E S B
◌>>=◌ m f s = and_then (m s) f

abbrev pub ◌>>◌ : {E S B : Type 0} → Go E S (Unit {0}) → Go E S B → Go E S B
◌>>◌ m k s = and_then (m s) (λ _. k)

abbrev pub pure : {E S A : Type 0} → A → Go E S A
pure a s = ok a s

abbrev pub fail : {E S A : Type 0} → E → Go E S A
fail e s = err e s

-- An early return of an error unless the test holds.
abbrev pub guard : {E S : Type 0} → Bool → E → Go E S (Unit {0})
guard true e s = ok tt s
guard false e s = err e s

-- `if err := check(); err != nil { return err }`
abbrev pub check : {E S : Type 0} → Option E → Go E S (Unit {0})
check none s = ok tt s
check (some e) s = err e s

abbrev pub modify : {E S : Type 0} → (S → S) → Go E S (Unit {0})
modify f s = ok tt (f s)

-- No panic, and `P` of the receiver on both the normal and the error return.
abbrev pub Keeps : {E S A : Type 0} → (S → Type 0) → Outcome E S A → Type 0
Keeps P (ok _ s) = P s
Keeps P (err _ s) = P s
Keeps P panic = ⊥

pub and_then-Keeps :
    {E S A B : Type 0} (P : S → Type 0) (o : Outcome E S A) (f : A → S → Outcome E S B)
    → Keeps P o
    → ((a : A) (s : S) → P s → Keeps P (f a s))
    → Keeps P (and_then o f)
and_then-Keeps P (ok a s) f k h = h a s k
and_then-Keeps P (err e s) f k h = k
and_then-Keeps P panic f k h = k

-- No panic, and `P` of the result and the receiver on the normal return.
abbrev pub Holds : {E S A : Type 0} → (A → S → Type 0) → Outcome E S A → Type 0
Holds P (ok a s) = P a s
Holds P (err _ _) = Unit
Holds P panic = ⊥

pub and_then-Holds :
    {E S A B : Type 0} (P : A → S → Type 0) (Q : B → S → Type 0) (o : Outcome E S A)
    (f : A → S → Outcome E S B)
    → Holds P o
    → ((a : A) (s : S) → P a s → Holds Q (f a s))
    → Holds Q (and_then o f)
and_then-Holds P Q (ok a s) f k h = h a s k
and_then-Holds P Q (err e s) f k h = tt
and_then-Holds P Q panic f k h = k

pub Holds-of_Keeps :
    {E S A : Type 0} (P : S → Type 0) (o : Outcome E S A) → Keeps P o → Holds (λ _ s. P s) o
Holds-of_Keeps P (ok a s) h = h
Holds-of_Keeps P (err e s) h = tt
Holds-of_Keeps P panic h = h

pub ne_panic_of_Holds :
    {E S A : Type 0} (P : A → S → Type 0) (o : Outcome E S A) → Holds P o → (o ≡ panic → ⊥)
ne_panic_of_Holds P (ok a s) h = λ p. cc
ne_panic_of_Holds P (err e s) h = λ p. cc
ne_panic_of_Holds P panic h = absurd h
