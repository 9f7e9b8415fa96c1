-- ===== src/Prelude/Outcome.antt =====
-- Rust's `Result`, with `?` as the bind of a `do` block.
use mathlib.Core.Path.{◌≡◌, refl, subst}
use mathlib.Core.Option.{Option, none, some}
use mathlib.Core.Logic.{◌⊎◌, inl, inr}
use mathlib.Core.List.{List, [], ◌∷◌}
use mathlib.Core.Bool.{Bool, true, false}

pub data Result {ℓ} (E : Type 0) (A : Type ℓ) : Type ℓ where
  ok : A → Result E A
  err : E → Result E A

infixl 5 ◌>>=◌ ◌>>◌
abbrev pub ◌>>=◌ {ℓ κ} :
    {E : Type 0} {A : Type ℓ} {B : Type κ} → Result E A → (A → Result E B) → Result E B
ok a >>= f = f a
err e >>= f = err e

abbrev pub ◌>>◌ {ℓ} : {E : Type 0} {B : Type ℓ} → Result E (Unit {0}) → Result E B → Result E B
m >> k = m >>= λ _. k

-- `if bad { return Err(e); }`
abbrev pub refuse_if : {E : Type 0} → Bool → E → Result E (Unit {0})
refuse_if true e = err e
refuse_if false e = ok tt

-- `Option::ok_or`
abbrev pub ok_or {ℓ} : {E : Type 0} {A : Type ℓ} → Option A → E → Result E A
ok_or none e = err e
ok_or (some a) e = ok a

-- `Result::map_err`
abbrev pub map_err {ℓ} : {E F : Type 0} {A : Type ℓ} → Result E A → (E → F) → Result F A
map_err (ok a) f = ok a
map_err (err e) f = err (f e)

-- `iter.map(f).collect::<Result<Vec<_>, _>>()`
unfoldable pub collect {ℓ κ} :
    {E : Type 0} {A : Type ℓ} {B : Type κ} → (A → Result E B) → List A → Result E (List B)
collect f [] = ok []
collect f (x ∷ xs) = do y ← f x; ys ← collect f xs; ok (y ∷ ys)

-- A chain that came to `ok` came through an `ok` of its first part.
pub >>=-eq-ok {ℓ κ} :
    {E : Type 0} {A : Type ℓ} {B : Type κ} {end : B} (first : Result E A) (next : A → Result E B)
    → (first >>= next) ≡ ok end
    → (value : A) × (first ≡ ok value) × (next value ≡ ok end)
>>=-eq-ok (err reason) next through = cc
>>=-eq-ok (ok value) next through = (value, refl, through)

pub refuse_if-eq-ok :
    {E : Type 0} (b : Bool) (e : E) {u : Unit {0}} → refuse_if b e ≡ ok u → b ≡ false
refuse_if-eq-ok true e h = cc
refuse_if-eq-ok false e h = refl

pub Result-cases {ℓ} :
    {E : Type 0} {A : Type ℓ} (r : Result E A) → ((a : A) × (r ≡ ok a)) ⊎ ((e : E) × (r ≡ err e))
Result-cases (ok a) = inl (a, refl)
Result-cases (err e) = inr (e, refl)

-- If the result is an error, it is one of these.
abbrev pub Fails {ℓ} : {E : Type 0} {A : Type ℓ} → (E → Type 0) → Result E A → Type 0
Fails P (ok a) = Unit {0}
Fails P (err e) = P e

pub Fails-bind {ℓ κ} :
    {E : Type 0} {A : Type ℓ} {B : Type κ} (P : E → Type 0) (m : Result E A) (f : A → Result E B)
    → Fails P m
    → ((a : A) → Fails P (f a))
    → Fails P (m >>= f)
Fails-bind P (ok a) f h k = k a
Fails-bind P (err e) f h k = h

-- What follows a guard is read where the guard let it through.
pub Fails-guard {ℓ} :
    {E : Type 0} {B : Type ℓ} (P : E → Type 0) (b : Bool) (e : E) (f : Unit {0} → Result E B)
    → P e
    → (b ≡ false → Fails P (f tt))
    → Fails P (refuse_if b e >>= f)
Fails-guard P true e f h k = h
Fails-guard P false e f h k = k refl

pub Fails-at {ℓ} :
    {E : Type 0} {A : Type ℓ} (P : E → Type 0) (r : Result E A) (e : E)
    → Fails P r
    → r ≡ err e
    → P e
Fails-at P r e f h = subst (Fails P) h f

pub ok-injective {ℓ} :
    {E : Type 0} {A : Type ℓ} {a b : A} → ◌≡◌ {A = Result E A} (ok a) (ok b) → a ≡ b
ok-injective h = cc

-- A chain of checks passes where each of them does.
pub refuse_if-passes : {E : Type 0} (b : Bool) (e : E) → b ≡ false → refuse_if b e ≡ ok tt
refuse_if-passes true e h = cc
refuse_if-passes false e h = refl

pub >>-passes : {E : Type 0} {a b : Result E (Unit {0})} → a ≡ ok tt → b ≡ ok tt → (a >> b) ≡ ok tt
>>-passes {a = ok x} h k = k
>>-passes {a = err e} h k = cc
