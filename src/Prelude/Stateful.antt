-- ===== src/Prelude/Stateful.antt =====
-- Procedures on a state that a failure leaves as it is then, and what holds after them.
use native.Mathlib.Omega.{arith}
use mathlib.Core.Path.{◌≡◌, refl, ap}
use mathlib.Core.Bool.{Bool, true, false}
use anasemble.Prelude.Outcome.{Result, ok, err}
use anasemble.Prelude.Tests.{if◌then◌else◌}

abbrev pub Op : Type 0 → Type 0 → Type 0 → Type 0
Op S E A = S → Result E A × S

err_ok : {E B : Type 0} {e : E} {b : B} → ◌≡◌ {A = Result E B} (err e) (ok b) → ⊥
err_ok h = ground arith

module _ {S E : Type 0} where
  abbrev pub resume : {A B : Type 0} → Result E A × S → (A → Op S E B) → Result E B × S
  resume (ok a, s) f = f a s
  resume (err e, s) f = (err e, s)

  infixl 5 ◌>>=◌ ◌>>◌
  abbrev pub ◌>>=◌ : {A B : Type 0} → Op S E A → (A → Op S E B) → Op S E B
  ◌>>=◌ m f s = resume (m s) f

  abbrev pub ◌>>◌ : {B : Type 0} → Op S E (Unit {0}) → Op S E B → Op S E B
  m >> k = m >>= λ _. k

  abbrev pub pure : {A : Type 0} → A → Op S E A
  pure a s = (ok a, s)

  -- A computation that reads the state.
  abbrev pub reads : {A : Type 0} → (S → Result E A) → Op S E A
  reads f s = (f s, s)

  -- A computation that does not touch the state.
  abbrev pub lift : {A : Type 0} → Result E A → Op S E A
  lift r s = (r, s)

  abbrev pub modify : (S → S) → Op S E (Unit {0})
  modify f s = (ok tt, f s)

  module _ (I : S → Type 0) where
    -- `Q` after a success, `I` after a failure.
    abbrev pub Leaves : {A : Type 0} → (A → S → Type 0) → Result E A × S → Type 0
    Leaves Q (ok a, s) = Q a s
    Leaves Q (err e, s) = I s

    abbrev pub Triple : {A : Type 0} → (S → Type 0) → Op S E A → (A → S → Type 0) → Type 0
    Triple P m Q = (s : S) → P s → Leaves Q (m s)

    Leaves-resume :
        {A B : Type 0} (Q : A → S → Type 0) (R : B → S → Type 0) (r : Result E A × S)
        (f : A → Op S E B)
        → Leaves Q r
        → ((a : A) (s : S) → Q a s → Leaves R (f a s))
        → Leaves R (resume r f)
    Leaves-resume Q R (ok a, s) f h k = k a s h
    Leaves-resume Q R (err e, s) f h k = h

    pub Triple-bind :
        {A B : Type 0} {P : S → Type 0} (Q : A → S → Type 0) (R : B → S → Type 0) (m : Op S E A)
        (f : A → Op S E B)
        → Triple P m Q
        → ((a : A) → Triple (Q a) (f a) R)
        → Triple P (m >>= f) R
    Triple-bind Q R m f h k s p = Leaves-resume Q R (m s) f (h s p) (λ a s' q. k a s' q)

    Leaves-reads :
        {A : Type 0} (Q : A → S → Type 0) (r : Result E A) (s : S)
        → I s
        → ((a : A) → r ≡ ok a → Q a s)
        → Leaves Q (r, s)
    Leaves-reads Q (ok a) s i k = k a refl
    Leaves-reads Q (err e) s i k = i

    pub Triple-reads :
        {A : Type 0} {P : S → Type 0} (f : S → Result E A)
        → ((s : S) → P s → I s)
        → Triple P (reads f) (λ a s. P s × (f s ≡ ok a))
    Triple-reads {P = P} f i s p =
        Leaves-reads (λ a t. P t × (f t ≡ ok a)) (f s) s (i s p) (λ a e. (p, e))

    pub Triple-lift :
        {A : Type 0} {P : S → Type 0} (r : Result E A)
        → ((s : S) → P s → I s)
        → Triple P (lift r) (λ a s. P s × (r ≡ ok a))
    Triple-lift {P = P} r i s p = Leaves-reads (λ a t. P t × (r ≡ ok a)) r s (i s p) (λ a e. (p, e))

    pub Triple-if :
        {A : Type 0} {P : S → Type 0} (Q : A → S → Type 0) (b : Bool) (m n : Op S E A)
        → (b ≡ true → Triple P m Q)
        → (b ≡ false → Triple P n Q)
        → Triple P (if b then m else n) Q
    Triple-if Q true m n h k = h refl
    Triple-if Q false m n h k = k refl

    Leaves-chain :
        {A B C : Type 0} (Q : B → S → Type 0) (R : C → S → Type 0) (r : Result E A × S)
        (f : A → Op S E B) (g : B → Op S E C)
        → Leaves Q (resume r f)
        → ((b : B) → Triple (Q b) (g b) R)
        → Leaves R (resume r (λ a. f a >>= g))
    Leaves-chain Q R (ok a, s) f g h k = Leaves-resume Q R (f a s) g h (λ b t q. k b t q)
    Leaves-chain Q R (err e, s) f g h k = h

    -- Two steps whose triple is known, and what follows them.
    pub Triple-chain :
        {A B C : Type 0} {P : S → Type 0} (Q : B → S → Type 0) (R : C → S → Type 0) (m : Op S E A)
        (f : A → Op S E B) (g : B → Op S E C)
        → Triple P (m >>= f) Q
        → ((b : B) → Triple (Q b) (g b) R)
        → Triple P (m >>= λ a. f a >>= g) R
    Triple-chain Q R m f g h k s p = Leaves-chain Q R (m s) f g (h s p) k

    Leaves-weaken :
        {A : Type 0} (Q R : A → S → Type 0) (r : Result E A × S)
        → Leaves Q r
        → ((a : A) (s : S) → Q a s → R a s)
        → Leaves R r
    Leaves-weaken Q R (ok a, s) h k = k a s h
    Leaves-weaken Q R (err e, s) h k = h

    pub Triple-weaken :
        {A : Type 0} {P : S → Type 0} (Q R : A → S → Type 0) (m : Op S E A)
        → Triple P m Q
        → ((a : A) (s : S) → Q a s → R a s)
        → Triple P m R
    Triple-weaken Q R m h k s p = Leaves-weaken Q R (m s) (h s p) k

    -- A guard, of which nothing is used.
    pub Triple-check : {A : Type 0} (f : S → Result E A) → Triple I (reads f) (λ a s. I s)
    Triple-check f s i = Leaves-reads (λ a t. I t) (f s) s i (λ a e. i)

  -- A sequence succeeds where both of its parts do.
  pub resume-eq-ok :
      {A B : Type 0} (r : Result E A × S) (f : A → Op S E B) (b : B) (v : S)
      → resume r f ≡ (ok b, v)
      → (a : A) × (t : S) × (r ≡ (ok a, t)) × (f a t ≡ (ok b, v))
  resume-eq-ok (ok a, s) f b v h = (a, s, refl, h)
  resume-eq-ok (err e, s) f b v h = absurd (err_ok (ap (λ p. p.0) h))
