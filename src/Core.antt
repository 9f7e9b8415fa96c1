-- ===== src/Core.antt =====
-- crates/anasemble-core: budgets, bounded text and temporal cuts.
pub mod Bounds
use anasemble.Prelude.{
  ℕ, Bool, ◌||◌, Result, ok, err, ◌>>=◌, ◌>>◌, refuse_if, ltb, ◌==◌, length, is_empty,
}
use anasemble.Text.{Text}

-- ids.rs; the ceiling is the payload.
pub data IdError : Type 0 where
  not_uuid_v7 : IdError
  text_bound : ℕ → IdError

-- error.rs; a JSON error is kept as its message.
pub data CoreError : Type 0 where
  json : Text → CoreError
  cbor : Text → CoreError
  id : IdError → CoreError
  invalid_digest bound budget : CoreError

-- temporal.rs
pub data CompatibilityClass : Type 0 where
  backward forward breaking unknown : CompatibilityClass

pub record TemporalCut : Type 0 where
  pub valid_at : Text
  pub system_as_of : Text

abbrev pub max_bounded_text_bytes : ℕ
max_bounded_text_bytes = 256

pub record BoundedText : Type 0 where
  pub as_str : Text

-- `BoundedText::new`
unfoldable pub bounded_text : Text → Result IdError BoundedText
bounded_text value = do
  refuse_if (is_empty value || ltb max_bounded_text_bytes (length value))
      (text_bound max_bounded_text_bytes)
  ok (record { as_str = value })

-- budget.rs
pub record Budget : Type 0 where
  pub max_nodes : ℕ  -- u32
  pub max_edges : ℕ  -- u32
  pub max_depth : ℕ  -- u32
  pub max_bytes : ℕ  -- u64
  pub deadline_ms : ℕ  -- u32

-- `Budget::new`
unfoldable pub new_budget : ℕ → ℕ → ℕ → ℕ → ℕ → Result CoreError Budget
new_budget nodes edges depth bytes deadline = do
  refuse_if (nodes == 0 || edges == 0 || depth == 0 || bytes == 0 || deadline == 0) bound
  ok (record {
    max_nodes = nodes;
    max_edges = edges;
    max_depth = depth;
    max_bytes = bytes;
    deadline_ms = deadline;
  })

-- `Budget::would_exceed`
unfoldable pub would_exceed : Budget → ℕ → ℕ → ℕ → ℕ → Bool
would_exceed b nodes edges depth bytes =
    ltb b.max_nodes nodes || ltb b.max_edges edges || ltb b.max_depth depth || ltb b.max_bytes bytes
