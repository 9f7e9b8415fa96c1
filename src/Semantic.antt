-- ===== src/Semantic.antt =====
-- crates/anasemble-semantic: canonical snapshots of a semantic graph; `Differ` compares two. The
-- digests (canonical CBOR, then SHA-256) and hexadecimal are parameters.
pub mod Differ
pub mod Snapshots
pub mod Reordering
use anasemble.Prelude.{
  ℕ, ◌-◌, ◌^◌, Bool, ◌||◌, List, [], ◌∷◌, Result, ok, err, ◌>>=◌, ◌>>◌, refuse_if, map_err, map,
  is_empty, ltb, length, collect, if◌then◌else◌,
}
use anasemble.Text.{Text, text}
use anasemble.Text.Order.{Ord, text_ord, text_lt, pair_ord}
use anasemble.BTreeMap.{BTreeMap}
use anasemble.Core.{
  Budget, BoundedText, TemporalCut, bounded_text, would_exceed, CoreError, IdError,
}
use anasemble.Trace.{Digest}

pub data SemanticError : Type 0 where
  core : CoreError → SemanticError
  id : IdError → SemanticError
  protocol : Text → SemanticError
  budget : SemanticError

-- `SemanticError::from`
abbrev pub named {ℓ} : {A : Type ℓ} → Result IdError A → Result SemanticError A
named r = map_err r SemanticError.id

pub record SemanticNode : Type 0 where
  pub node_id : BoundedText
  pub kind : BoundedText
  pub digest : Digest

pub record SemanticEdge : Type 0 where
  pub from : BoundedText
  pub to : BoundedText
  pub kind : BoundedText

pub data Completeness : Type 0 where
  complete truncated : Completeness

-- The fields that the digest covers: the fresh identity is not one of them.
pub record UnsignedSnapshot : Type 0 where
  pub version : ℕ  -- u16
  pub ontology_version : BoundedText
  pub subject : BoundedText
  pub cut : TemporalCut
  pub nodes : List SemanticNode
  pub edges : List SemanticEdge
  pub contracts : List Digest
  pub evidence_roots : List Digest
  pub completeness : Completeness
  pub unknowns : List BoundedText
  pub contradictions : List BoundedText

-- `SemanticSnapshotV1`
pub record Snapshot : Type 0 where
  pub snapshot_id : Text
  pub unsigned : UnsignedSnapshot
  pub open unsigned use *
  pub digest : Digest

pub record SemanticGraph : Type 0 where
  pub nodes : BTreeMap Text (Text × Digest)
  pub edges : List (Text × Text × Text)
  pub contracts : List Digest
  pub evidence_roots : List Digest
  pub unknowns : List Text
  pub contradictions : List Text

pub record GraphSnapshotter : Type 0 where
  pub ontology_version : BoundedText
  pub subject : BoundedText

-- `u32::try_from(n).unwrap_or(u32::MAX)`
abbrev pub saturated_u32 : ℕ → ℕ
saturated_u32 n = if ltb (2 ^ 32 - 1) n then 2 ^ 32 - 1 else n

module _ {A : Type 0} (lt : A → A → Bool) where
  unfoldable pub insert_sorted : A → List A → List A
  insert_sorted x [] = x ∷ []
  insert_sorted x (y ∷ ys) =
      let rest = insert_sorted x ys in if lt y x then y ∷ rest else x ∷ y ∷ ys

  -- `slice::sort_by`, a stable sort
  unfoldable pub sort_by : List A → List A
  sort_by [] = []
  sort_by (x ∷ xs) = insert_sorted x (sort_by xs)

abbrev pub node_before : SemanticNode → SemanticNode → Bool
node_before a b = text_lt a.node_id.as_str b.node_id.as_str

abbrev pub edge_before : SemanticEdge → SemanticEdge → Bool
edge_before a b =
    (pair_ord text_ord (pair_ord text_ord text_ord)).lt
      (a.from.as_str, (a.to.as_str, a.kind.as_str)) (b.from.as_str, (b.to.as_str, b.kind.as_str))

abbrev pub text_before : BoundedText → BoundedText → Bool
text_before a b = text_lt a.as_str b.as_str

unfoldable pub node_of : Text × (Text × Digest) → Result SemanticError SemanticNode
node_of (name, (kind, digest)) = do
  bounded_id ← named (bounded_text name)
  bounded_kind ← named (bounded_text kind)
  ok (record { node_id = bounded_id; kind = bounded_kind; digest = digest })

unfoldable pub edge_of : Text × Text × Text → Result SemanticError SemanticEdge
edge_of (from, to, kind) = do
  bounded_from ← named (bounded_text from)
  bounded_to ← named (bounded_text to)
  bounded_kind ← named (bounded_text kind)
  ok (record { from = bounded_from; to = bounded_to; kind = bounded_kind })

abbrev pub text_of : Text → Result SemanticError BoundedText
text_of value = named (bounded_text value)

module _ (digest_of : UnsignedSnapshot → Result SemanticError Digest)
    (hex_encode : Digest → Text) where
  abbrev pub digest_before : Digest → Digest → Bool
  digest_before a b = text_lt (hex_encode a) (hex_encode b)

  -- `GraphSnapshotter::snapshot`, with the fresh identity as an argument
  unfoldable pub snapshot :
      GraphSnapshotter → Text → SemanticGraph → TemporalCut → Budget → Result SemanticError Snapshot
  snapshot snapshotter fresh_id input cut limits = do
    refuse_if (is_empty cut.valid_at || is_empty cut.system_as_of)
        (protocol (text "temporal cut is incomplete"))
    refuse_if
        (would_exceed limits (saturated_u32 (length input.nodes))
          (saturated_u32 (length input.edges)) 1 1)
        budget
    nodes ← collect node_of input.nodes
    edges ← collect edge_of input.edges
    unknowns ← collect text_of input.unknowns
    contradictions ← collect text_of input.contradictions
    let fields : UnsignedSnapshot = record {
      version = 1;
      ontology_version = snapshotter.ontology_version;
      subject = snapshotter.subject;
      cut = cut;
      nodes = sort_by node_before nodes;
      edges = sort_by edge_before edges;
      contracts = sort_by digest_before input.contracts;
      evidence_roots = sort_by digest_before input.evidence_roots;
      completeness = complete;
      unknowns = sort_by text_before unknowns;
      contradictions = sort_by text_before contradictions;
    }
    d ← digest_of fields
    ok (record { snapshot_id = fresh_id; unsigned = fields; digest = d })
