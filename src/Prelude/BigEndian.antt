-- ===== src/Prelude/BigEndian.antt =====
-- `to_be_bytes` and `from_be_bytes` of unsigned integers, for any number of bytes.
use Prim.Native.Nat.{ℕ, zero, suc, ◌+◌, ◌*◌, ◌/◌, ◌%◌, ◌^◌, ◌<◌}
use mathlib.Core.Path.{◌≡◌, refl, sym, ap, subst}
use mathlib.Core.List.{List, [], ◌∷◌, ◌++◌}
use native.Mathlib.Nat.{pow-suc}
use native.Mathlib.Omega.{arith}
use anasemble.Prelude.Lists.{length, length-append}
use anasemble.Prelude.Search.{All}

unfoldable pub to_be_bytes : ℕ → ℕ → List ℕ
to_be_bytes zero v = []
to_be_bytes (suc n) v = to_be_bytes n (v / 256) ++ (v % 256 ∷ [])

unfoldable pub from_be : ℕ → List ℕ → ℕ
from_be acc [] = acc
from_be acc (b ∷ bs) = from_be (acc * 256 + b) bs

unfoldable pub from_be_bytes : List ℕ → ℕ
unfolding from_be
from_be_bytes bs = from_be 0 bs

abbrev pub IsByte : ℕ → Type 0
IsByte b = b < 256

from_be-append : (acc : ℕ) (xs ys : List ℕ) → from_be acc (xs ++ ys) ≡ from_be (from_be acc xs) ys
unfolding from_be
from_be-append acc [] ys = refl
from_be-append acc (x ∷ xs) ys = from_be-append (acc * 256 + x) xs ys

pub length-to_be_bytes : (n v : ℕ) → length (to_be_bytes n v) ≡ n
unfolding to_be_bytes
length-to_be_bytes zero v = refl
length-to_be_bytes (suc n) v = rw length-append (omega (arith, length-to_be_bytes n (v / 256)))

All-append : (xs ys : List ℕ) → All IsByte xs → All IsByte ys → All IsByte (xs ++ ys)
All-append [] ys h k = k
All-append (x ∷ xs) ys h k = (h.0, All-append xs ys h.1 k)

pub to_be_bytes-IsByte : (n v : ℕ) → All IsByte (to_be_bytes n v)
unfolding to_be_bytes
to_be_bytes-IsByte zero v = tt
to_be_bytes-IsByte (suc n) v =
    All-append (to_be_bytes n (v / 256)) _ (to_be_bytes-IsByte n (v / 256)) (omega arith, tt)

fits-div : (v n : ℕ) → v < 256 ^ suc n → v / 256 < 256 ^ n
fits-div v n h = let k : v < 256 ^ n * 256 = (rw pow-suc at h) in omega arith

-- What was written in `n` bytes is read back, if it fits.
pub from_be_bytes-to_be_bytes : (n v : ℕ) → v < 256 ^ n → from_be_bytes (to_be_bytes n v) ≡ v
unfolding from_be_bytes to_be_bytes
from_be_bytes-to_be_bytes zero v h = omega arith
from_be_bytes-to_be_bytes (suc n) v h =
    rw (from_be-append 0 (to_be_bytes n (v / 256)) (v % 256 ∷ []))
      (omega (arith, from_be_bytes-to_be_bytes n (v / 256) (fits-div v n h)))

snoc :
    (n : ℕ) (xs : List ℕ)
    → length xs ≡ suc n
    → (ys : List ℕ) × (y : ℕ) × (xs ≡ ys ++ (y ∷ [])) × (length ys ≡ n)
snoc n [] h = absurd (omega arith)
snoc zero (x ∷ []) h = ([], x, refl, refl)
snoc zero (x ∷ y ∷ xs) h = absurd (omega arith)
snoc (suc n) (x ∷ xs) h =
    let (ys, y, e, l) = snoc n xs (omega arith) in (x ∷ ys, y, ap (λ t. x ∷ t) e, ap suc l)

of_All-append : (xs ys : List ℕ) → All IsByte (xs ++ ys) → All IsByte xs × All IsByte ys
of_All-append [] ys h = (tt, h)
of_All-append (x ∷ xs) ys h = let (a, b) = of_All-append xs ys h.1 in ((h.0, a), b)

shifted :
    (n : ℕ) (ys : List ℕ) (v y : ℕ)
    → to_be_bytes n v ≡ ys
    → y < 256
    → to_be_bytes n ((v * 256 + y) / 256) ++ ((v * 256 + y) % 256 ∷ []) ≡ ys ++ (y ∷ [])
shifted n ys v y e h =
    let d : (v * 256 + y) / 256 ≡ v = omega arith in
    let m : (v * 256 + y) % 256 ≡ y = omega arith in rw (d, m, e)

-- The number that bytes stand for is written as these bytes again, and fits.
pub to_be_bytes-from_be_bytes :
    (n : ℕ) (bs : List ℕ)
    → length bs ≡ n
    → All IsByte bs
    → (to_be_bytes n (from_be_bytes bs) ≡ bs) × (from_be_bytes bs < 256 ^ n)
unfolding from_be_bytes to_be_bytes
to_be_bytes-from_be_bytes zero [] l h = (refl, omega arith)
to_be_bytes-from_be_bytes zero (b ∷ bs) l h = absurd (omega arith)
to_be_bytes-from_be_bytes (suc n) bs l h =
    let (ys, y, e, k) = snoc n bs l in
    let (hy, hb) = of_All-append ys (y ∷ []) (subst (All IsByte) e h) in
    let (ih, fit) = to_be_bytes-from_be_bytes n ys k hy in
    subst (λ t. (to_be_bytes (suc n) (from_be_bytes t) ≡ t) × (from_be_bytes t < 256 ^ suc n))
      (sym e)
      (rw (from_be-append 0 ys (y ∷ []))
        (shifted n ys (from_be 0 ys) y ih hb.0, rw pow-suc (omega arith)))
