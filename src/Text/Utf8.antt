-- ===== src/Text/Utf8.antt =====
-- `std::str::from_utf8`: which byte sequences are UTF-8 (Unicode, table 3-7).
use anasemble.Prelude.{
  ℕ, zero, suc, ◌≡◌, refl, Bool, true, false, ◌&&◌, Option, none, some, List, [], ◌∷◌, ltb, leb,
  ◌==◌, if◌then◌else◌,
}

-- After a lead byte: how many bytes follow the next one, and the range of the next one.
lead : ℕ → Option (ℕ × ℕ × ℕ)
lead b =
    if leb 0xc2 b && leb b 0xdf
    then some (0, 0x80, 0xbf)
    else if b == 0xe0
    then some (1, 0xa0, 0xbf)
    else if b == 0xed
    then some (1, 0x80, 0x9f)
    else if leb 0xe1 b && leb b 0xef
    then some (1, 0x80, 0xbf)
    else if b == 0xf0
    then some (2, 0x90, 0xbf)
    else if leb 0xf1 b && leb b 0xf3
    then some (2, 0x80, 0xbf)
    else if b == 0xf4
    then some (2, 0x80, 0x8f)
    else none

-- `more` continuation bytes are due after the next byte, which is to lie in a range.
abbrev Expect : Type 0
Expect = Option (ℕ × ℕ × ℕ)

after : ℕ → Expect
after zero = none
after (suc n) = some (n, 0x80, 0xbf)

step : Expect → ℕ → Option Expect
unfolding lead after
step none b =
    if ltb b 0x80 then some none else elim (lead b) [ none ↦ none | some e ↦ some (some e) ]
step (some (n, lo, hi)) b = if leb lo b && leb b hi then some (after n) else none

scan : Expect → List ℕ → Bool
unfolding step
scan none [] = true
scan (some e) [] = false
scan e (b ∷ bs) = elim (step e b) [ none ↦ false | some e' ↦ scan e' bs ]

unfoldable pub is_utf8 : List ℕ → Bool
unfolding scan
is_utf8 bytes = scan none bytes

tests :
    (is_utf8 (0x61 ∷ 0xc3 ∷ 0xa9 ∷ 0xe2 ∷ 0x82 ∷ 0xac ∷ []) ≡ true)
    × (is_utf8 (0xc0 ∷ 0x80 ∷ []) ≡ false)
    × (is_utf8 (0xed ∷ 0xa0 ∷ 0x80 ∷ []) ≡ false)
unfolding is_utf8
tests = (refl, refl, refl)
