-- ===== src/Core/Bounds.antt =====
-- The bounds that crates/anasemble-core keeps.
use anasemble.Prelude.{ℕ, ◌≤◌, ◌≡◌, ◌↔◌, false, ok, arith, length, [], ◌∷◌}
use anasemble.Text.{Text}
use anasemble.Core.{Budget, BoundedText, bounded_text, new_budget, would_exceed}

pub bounded_text-bounds :
    (value : Text) {t : BoundedText}
    → bounded_text value ≡ ok t
    → (t.as_str ≡ value) × (1 ≤ length value) × (length value ≤ 256)
unfolding bounded_text
bounded_text-bounds [] h = cc
bounded_text-bounds (b ∷ bs) h = ground arith

bounded_text_of_bounds :
    (value : Text)
    → (1 ≤ length value) × (length value ≤ 256)
    → bounded_text value ≡ ok (record { as_str = value })
unfolding bounded_text
bounded_text_of_bounds [] h = absurd (omega arith)
bounded_text_of_bounds (b ∷ bs) h = ground arith

-- Bounded text is made of exactly the texts of 1 to 256 bytes, unchanged.
pub bounded_text_iff :
    (value : Text)
    → (bounded_text value ≡ ok (record { as_str = value }))
      ↔ ((1 ≤ length value) × (length value ≤ 256))
bounded_text_iff value =
    (λ h. let (_, a, b) = bounded_text-bounds value h in (a, b), bounded_text_of_bounds value)

-- Work is within a budget that was accepted exactly where each amount is at most the ceiling that
-- the budget was made with, and one unit of each is.
pub would_exceed_iff :
    (n e d b ms : ℕ) (budget : Budget) (nodes edges depth bytes : ℕ)
    → new_budget n e d b ms ≡ ok budget
    → ((would_exceed budget nodes edges depth bytes ≡ false)
        ↔ ((nodes ≤ n) × (edges ≤ e) × (depth ≤ d) × (bytes ≤ b)))
      × (would_exceed budget 1 1 1 1 ≡ false)
unfolding new_budget would_exceed
would_exceed_iff n e d b ms budget nodes edges depth bytes h = (
  (λ k. (ground arith, ground arith, ground arith, ground arith), λ (p, q, r, s). ground arith),
  ground arith,
)
