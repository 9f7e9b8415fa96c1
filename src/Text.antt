-- ===== src/Text.antt =====
-- Rust's `String` and `str`: the list of its UTF-8 bytes, so that `len` counts bytes and the order
-- is that of the bytes.
pub mod Order
pub mod Utf8
pub mod Ascii
use Prim.Native.Char.{code}
use Prim.Native.String
use anasemble.Prelude.{ℕ, String, List, [], ◌∷◌}

abbrev pub Text : Type 0
Text = List ℕ

-- The bytes of an ASCII literal.
abbrev pub text : String → Text
text String.[] = []
text (String.◌∷◌ c s) = code c ∷ text s
