-- ===== src/Semantic/Differ.antt =====
-- `CanonicalDiffer` of crates/anasemble-semantic. The digest of an unsigned diff is a parameter.
pub mod Moves
pub mod Changes
use anasemble.Prelude.{
  ℕ, suc, Bool, true, false, not, ◌&&◌, ◌||◌, Option, none, some, List, [], ◌∷◌, ◌++◌, Result, ok,
  err, ◌>>=◌, ◌>>◌, refuse_if, map, any, is_empty, ltb, ◌==◌, if◌then◌else◌,
}
use anasemble.Text.{Text, text}
use anasemble.Text.Order.{text_eq, text_lt, text_ord}
use anasemble.BTreeMap.{BTreeMap, get, from_list, contains_key}
use anasemble.Core.{BoundedText, bounded_text, CompatibilityClass, CompatibilityClass.backward}
use anasemble.Trace.{Digest, digest_eq}
use anasemble.Semantic.{
  SemanticError, protocol, named, SemanticNode, UnsignedSnapshot, Snapshot, sort_by,
}

pub record DiffPolicy : Type 0 where
  pub detect_moves : Bool

pub data DiffOpKind : Type 0 where
  add remove modify move rebind split merge contract_change unknown : DiffOpKind

pub record DiffOperation : Type 0 where
  pub kind : DiffOpKind
  pub entity_id : BoundedText
  pub before : Option Digest
  pub after : Option Digest
  pub compatibility : CompatibilityClass
  pub evidence : List Digest

-- The fields that the digest covers.
pub record UnsignedDiff : Type 0 where
  pub version : ℕ  -- u16
  pub before_digest : Digest
  pub after_digest : Digest
  pub operations : List DiffOperation

pub record SemanticDiff : Type 0 where
  pub diff_id : Text
  pub unsigned : UnsignedDiff
  pub open unsigned use *
  pub digest : Digest

abbrev pub op_rank : DiffOpKind → ℕ
op_rank remove = 0
op_rank add = 1
op_rank modify = 2
op_rank move = 3
op_rank rebind = 4
op_rank split = 5
op_rank merge = 6
op_rank contract_change = 7
op_rank unknown = 8

abbrev pub op_before : DiffOperation → DiffOperation → Bool
op_before a b =
    ltb (op_rank a.kind) (op_rank b.kind)
    || op_rank a.kind == op_rank b.kind && text_lt a.entity_id.as_str b.entity_id.as_str

abbrev pub option_digest_eq : Option Digest → Option Digest → Bool
option_digest_eq none none = true
option_digest_eq none (some b) = false
option_digest_eq (some a) none = false
option_digest_eq (some a) (some b) = digest_eq a b

unfoldable pub digests_eq : List Digest → List Digest → Bool
digests_eq [] [] = true
digests_eq [] (b ∷ bs) = false
digests_eq (a ∷ as') [] = false
digests_eq (a ∷ as') (b ∷ bs) = digest_eq a b && digests_eq as' bs

-- `slice::first`
abbrev pub first {ℓ} : {A : Type ℓ} → List A → Option A
first [] = none
first (x ∷ xs) = some x

abbrev pub nodes_by_id : List SemanticNode → BTreeMap Text SemanticNode
nodes_by_id nodes = from_list text_ord [] (map (λ n. (n.node_id.as_str, n)) nodes)

-- What one node of the first snapshot adds to the operations.
unfoldable pub compare_node :
    List Digest → BTreeMap Text SemanticNode → Text → SemanticNode → List DiffOperation
compare_node evidence after_nodes id node = elim (get text_ord after_nodes id) [
  | none ↦
      record {
        kind = remove;
        entity_id = node.node_id;
        before = some node.digest;
        after = none;
        compatibility = CompatibilityClass.unknown;
        evidence = evidence;
      }
      ∷ []
  | some next ↦
      if not (digest_eq next.digest node.digest)
      then record {
        kind = modify;
        entity_id = node.node_id;
        before = some node.digest;
        after = some next.digest;
        compatibility = CompatibilityClass.unknown;
        evidence = evidence;
      }
        ∷ []
      else []
]

unfoldable pub compare_nodes :
    List Digest → BTreeMap Text SemanticNode → BTreeMap Text SemanticNode → List DiffOperation
compare_nodes evidence after_nodes [] = []
compare_nodes evidence after_nodes ((id, node) ∷ rest) =
    compare_node evidence after_nodes id node ++ compare_nodes evidence after_nodes rest

unfoldable pub added_nodes :
    List Digest → BTreeMap Text SemanticNode → BTreeMap Text SemanticNode → List DiffOperation
added_nodes evidence before_nodes [] = []
added_nodes evidence before_nodes ((id, node) ∷ rest) =
    (if not (contains_key text_ord before_nodes id)
      then record {
        kind = add;
        entity_id = node.node_id;
        before = none;
        after = some node.digest;
        compatibility = CompatibilityClass.unknown;
        evidence = evidence;
      }
        ∷ []
      else [])
    ++ added_nodes evidence before_nodes rest

-- The sets of `classify_moves` and its moves, in order.
pub record MoveState : Type 0 where
  pub used_adds : List ℕ
  pub drop_set : List ℕ
  pub moves : List DiffOperation

abbrev pub is_add : DiffOpKind → Bool
is_add add = true
is_add _ = false

abbrev pub is_remove : DiffOpKind → Bool
is_remove remove = true
is_remove _ = false

-- The first unused addition of the digest, with its index.
unfoldable pub find_add : Digest → List ℕ → ℕ → List DiffOperation → Option (ℕ × DiffOperation)
find_add digest used i [] = none
find_add digest used i (op ∷ ops) =
    let rest = find_add digest used (suc i) ops in
    if is_add op.kind && option_digest_eq op.after (some digest) && not (any (λ j. j == i) used)
    then some (i, op)
    else rest

-- One round of the loop of `classify_moves`.
unfoldable pub match_removal : List DiffOperation → ℕ → DiffOperation → MoveState → MoveState
match_removal operations remove_idx op s =
    if is_remove op.kind
    then (elim op.before [
      | none ↦ s
      | some digest ↦ elim (find_add digest s.used_adds 0 operations) [
        | none ↦ s
        | some (add_idx, added) ↦ record {
          used_adds = add_idx ∷ s.used_adds;
          drop_set = add_idx ∷ remove_idx ∷ s.drop_set;
          moves =
              s.moves
              ++ (record {
                kind = move;
                entity_id = added.entity_id;
                before = op.before;
                after = added.after;
                compatibility = backward;
                evidence = added.evidence;
              }
                  ∷ []);
        }
      ]
    ])
    else s

unfoldable pub match_removals : List DiffOperation → ℕ → List DiffOperation → MoveState → MoveState
match_removals operations i [] s = s
match_removals operations i (op ∷ ops) s =
    match_removals operations (suc i) ops (match_removal operations i op s)

-- The operations whose indices are not dropped.
unfoldable pub keep : List ℕ → ℕ → List DiffOperation → List DiffOperation
keep drop_set i [] = []
keep drop_set i (op ∷ ops) =
    let rest = keep drop_set (suc i) ops in if any (λ j. j == i) drop_set then rest else op ∷ rest

unfoldable pub classify_moves : List DiffOperation → List DiffOperation
classify_moves operations =
    let s =
      match_removals operations 0 operations
        (record { used_adds = []; drop_set = []; moves = [] }) in
    if is_empty s.moves then operations else keep s.drop_set 0 operations ++ s.moves

-- The removed and modified nodes, then the added ones.
unfoldable pub node_changes : Snapshot → Snapshot → List DiffOperation
node_changes before after =
    let before_nodes = nodes_by_id before.nodes in
    let after_nodes = nodes_by_id after.nodes in
    compare_nodes after.evidence_roots after_nodes before_nodes
    ++ added_nodes after.evidence_roots before_nodes after_nodes

unfoldable pub contract_changes : Snapshot → Snapshot → Result SemanticError (List DiffOperation)
contract_changes before after =
    if not (digests_eq before.contracts after.contracts)
    then push (named (bounded_text (text "contracts")))
    else ok []
  where
    push : Result SemanticError BoundedText → Result SemanticError (List DiffOperation)
    push r = do
      contracts ← r
      ok (
          record {
            kind = contract_change;
            entity_id = contracts;
            before = first before.contracts;
            after = first after.contracts;
            compatibility = CompatibilityClass.unknown;
            evidence = after.evidence_roots;
          }
          ∷ [])

module _ (snapshot_digest_of : UnsignedSnapshot → Result SemanticError Digest)
    (digest_of : UnsignedDiff → Result SemanticError Digest) where
  -- `SemanticDiff::bind`
  unfoldable pub bind : Text → UnsignedDiff → Result SemanticError SemanticDiff
  bind fresh_id u = do d ← digest_of u; ok (record { diff_id = fresh_id; unsigned = u; digest = d })

  -- `CanonicalDiffer::diff`, with the fresh identity as an argument; the second digest is computed
  -- only where the first one agrees
  unfoldable pub diff : Text → Snapshot → Snapshot → DiffPolicy → Result SemanticError SemanticDiff
  diff fresh_id before after policy = do
    d ← snapshot_digest_of before.unsigned
    refuse_if (not (digest_eq d before.digest)) (protocol (text "snapshot digest mismatch"))
    e ← snapshot_digest_of after.unsigned
    refuse_if (not (digest_eq e after.digest)) (protocol (text "snapshot digest mismatch"))
    let changes = node_changes before after
    let classified = if policy.detect_moves then classify_moves changes else changes
    changed ← contract_changes before after
    bind fresh_id (record {
      version = 1;
      before_digest = before.digest;
      after_digest = after.digest;
      operations = sort_by op_before (classified ++ changed);
    })
