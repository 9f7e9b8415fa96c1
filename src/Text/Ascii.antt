-- ===== src/Text/Ascii.antt =====
-- ASCII tests of Rust's `u8`, and searches in a text.
use anasemble.Prelude.{ℕ, Bool, true, ◌&&◌, ◌||◌, List, [], ◌∷◌, leb, ◌==◌, any, if◌then◌else◌}
use anasemble.Text.{Text}

-- `u8::is_ascii_digit`
abbrev pub is_digit : ℕ → Bool
is_digit b = leb b'0' b && leb b b'9'

-- `u8::is_ascii_alphanumeric`
abbrev pub is_alphanumeric : ℕ → Bool
is_alphanumeric b = is_digit b || leb b'a' b && leb b b'z' || leb b'A' b && leb b b'Z'

-- `u8::is_ascii_graphic`
abbrev pub is_graphic : ℕ → Bool
is_graphic b = leb 33 b && leb b 126

-- `iter().all(p)`
abbrev pub all {ℓ} : {A : Type ℓ} → (A → Bool) → List A → Bool
all p [] = true
all p (x ∷ xs) = p x && all p xs

-- `contains` of a byte
abbrev pub has_byte : Text → ℕ → Bool
has_byte t b = any (λ c. c == b) t

-- The byte goes to the first part.
abbrev pub push_byte : ℕ → List Text → List Text
push_byte c [] = (c ∷ []) ∷ []
push_byte c (part ∷ parts) = (c ∷ part) ∷ parts

-- `split` at an ASCII byte: one part more than the byte occurs
unfoldable pub split : ℕ → Text → List Text
split b [] = [] ∷ []
split b (c ∷ cs) = let parts = split b cs in if c == b then [] ∷ parts else push_byte c parts
