-- ===== src/Tests/Snapshots.antt =====
-- Snapshots of small graphs and their diffs.
use anasemble.Prelude.{
  ◌≡◌, ◌≢◌, ◌↔◌, refl, true, false, none, some, List, [], ◌∷◌, Result, ok, length,
}
use anasemble.Prelude.Outcome.{collect}
use anasemble.Text.{Text, text}
use anasemble.Text.Order.{text_eq, text_lt}
use anasemble.BTreeMap.{get, insert, from_list, contains_key}
use anasemble.Core.{
  Budget, TemporalCut, CompatibilityClass.backward, CompatibilityClass.unknown, bounded_text,
  would_exceed,
}
use anasemble.Trace.{Digest}
use anasemble.Semantic.{
  SemanticError, SemanticGraph, GraphSnapshotter, UnsignedSnapshot, Snapshot, Completeness.complete,
  saturated_u32, insert_sorted, sort_by, node_of, edge_of, snapshot,
}
use anasemble.Semantic.Snapshots.{IsCanonical, snapshot-IsCanonical}
use anasemble.Prelude.Permuted.{swap, same}
use anasemble.Semantic.Reordering.{SameContent, snapshot-reordered}
use anasemble.Semantic.Differ.{
  DiffOperation, UnsignedDiff, SemanticDiff, add, remove, move, nodes_by_id, digests_eq,
  compare_node, compare_nodes, added_nodes, node_changes, contract_changes, find_add, match_removal,
  match_removals, keep, classify_moves, bind, diff,
}
use anasemble.Semantic.Differ.Changes.{digest_at, diff_empty_iff}
use anasemble.Semantic.Differ.Moves.Pairs.{IsClassified}
use anasemble.Semantic.Differ.Moves.{classify_moves-IsClassified}

-- The digest of a snapshot is its subject here, and that of a diff the first snapshot's digest.
abbrev subject_digest : UnsignedSnapshot → Result SemanticError Digest
subject_digest u = ok u.subject.as_str

abbrev origin_digest : UnsignedDiff → Result SemanticError Digest
origin_digest u = ok u.before_digest

abbrev snapshotter : GraphSnapshotter
snapshotter = record {
  ontology_version = record { as_str = text "o" };
  subject = record { as_str = text "s" };
}

abbrev limits : Budget
limits = record { max_nodes = 4; max_edges = 4; max_depth = 4; max_bytes = 64; deadline_ms = 10 }

abbrev cut : TemporalCut
cut = record { valid_at = text "v"; system_as_of = text "w" }

abbrev graph : SemanticGraph
graph = record {
  nodes = (text "a", (text "k", 1 ∷ [])) ∷ [];
  edges = (text "b", text "a", text "k") ∷ (text "a", text "b", text "k") ∷ [];
  contracts = (9 ∷ []) ∷ (8 ∷ []) ∷ [];
  evidence_roots = [];
  unknowns = [];
  contradictions = [];
}

abbrev taken : Snapshot
taken = record {
  snapshot_id = text "i";
  unsigned = record {
    version = 1;
    ontology_version = record { as_str = text "o" };
    subject = record { as_str = text "s" };
    cut = cut;
    nodes =
        record {
          node_id = record { as_str = text "a" };
          kind = record { as_str = text "k" };
          digest = 1 ∷ [];
        }
        ∷ [];
    edges =
        record {
          from = record { as_str = text "a" };
          to = record { as_str = text "b" };
          kind = record { as_str = text "k" };
        }
        ∷ record {
          from = record { as_str = text "b" };
          to = record { as_str = text "a" };
          kind = record { as_str = text "k" };
        }
        ∷ [];
    contracts = (8 ∷ []) ∷ (9 ∷ []) ∷ [];
    evidence_roots = [];
    completeness = complete;
    unknowns = [];
    contradictions = [];
  };
  digest = text "s";
}

taken_now : snapshot subject_digest (λ d. d) snapshotter (text "i") graph cut limits ≡ ok taken
unfolding snapshot would_exceed collect node_of edge_of bounded_text sort_by insert_sorted text_lt
    text_eq
taken_now = refl

snapshot-IsCanonical_example :
    IsCanonical subject_digest (λ d. d) snapshotter graph cut taken
    × (would_exceed limits
          (saturated_u32 (length graph.nodes))
          (saturated_u32 (length graph.edges))
          1
          1
        ≡ false)
    × (cut.valid_at ≢ [])
    × (cut.system_as_of ≢ [])
snapshot-IsCanonical_example =
    snapshot-IsCanonical subject_digest (λ d. d) snapshotter (text "i") graph cut limits taken
      taken_now

-- The entity of `taken` under another identity.
abbrev renamed : Snapshot
renamed = record taken {
  unsigned = record taken.unsigned {
    nodes =
        record {
          node_id = record { as_str = text "b" };
          kind = record { as_str = text "k" };
          digest = 1 ∷ [];
        }
        ∷ [];
  };
}

abbrev moved : DiffOperation
moved = record {
  kind = move;
  entity_id = record { as_str = text "b" };
  before = some (1 ∷ []);
  after = some (1 ∷ []);
  compatibility = backward;
  evidence = [];
}

abbrev found : SemanticDiff
found = record {
  diff_id = text "d";
  unsigned = record {
    version = 1;
    before_digest = text "s";
    after_digest = text "s";
    operations = moved ∷ [];
  };
  digest = text "s";
}

found_now :
    diff subject_digest origin_digest (text "d") taken renamed (record { detect_moves = true })
    ≡ ok found
unfolding diff bind node_changes contract_changes digests_eq compare_nodes compare_node added_nodes
    from_list insert get contains_key classify_moves match_removals match_removal find_add keep
    sort_by insert_sorted text_lt text_eq
found_now = refl

diff_empty_iff_example :
    ((found.operations ≡ []) ↔ (
      (taken.contracts ≡ renamed.contracts)
      × ((id : Text)
          → digest_at (nodes_by_id taken.nodes) id ≡ digest_at (nodes_by_id renamed.nodes) id)))
    × (found.before_digest ≡ taken.digest)
    × (found.after_digest ≡ renamed.digest)
    × (origin_digest found.unsigned ≡ ok found.digest)
diff_empty_iff_example =
    diff_empty_iff subject_digest origin_digest (text "d") taken renamed
      (record { detect_moves = true }) found found_now

abbrev changes : List DiffOperation
changes =
    record {
      kind = remove;
      entity_id = record { as_str = text "a" };
      before = some (1 ∷ []);
      after = none;
      compatibility = unknown;
      evidence = [];
    }
    ∷ record {
      kind = add;
      entity_id = record { as_str = text "b" };
      before = none;
      after = some (1 ∷ []);
      compatibility = unknown;
      evidence = [];
    }
    ∷ []

classify_moves-IsClassified_example : IsClassified changes (classify_moves changes)
classify_moves-IsClassified_example = classify_moves-IsClassified changes

-- `graph` with its lists in another order.
abbrev shuffled : SemanticGraph
shuffled = record graph {
  edges = (text "a", text "b", text "k") ∷ (text "b", text "a", text "k") ∷ [];
  contracts = (8 ∷ []) ∷ (9 ∷ []) ∷ [];
}

shuffled_same : SameContent graph shuffled
shuffled_same = record {
  nodes = refl;
  edges = swap (text "b", text "a", text "k") (text "a", text "b", text "k") [];
  contracts = swap (9 ∷ []) (8 ∷ []) [];
  evidence_roots = same [];
  unknowns = same [];
  contradictions = same [];
}

snapshot-reordered_example :
    snapshot subject_digest (λ d. d) snapshotter (text "j") shuffled cut limits
    ≡ ok (record taken { snapshot_id = text "j" })
snapshot-reordered_example =
    snapshot-reordered subject_digest (λ d. d) (λ a b e. e) snapshotter (text "i") (text "j") graph
      shuffled cut limits taken shuffled_same taken_now
