-- ===== src/Semantic/Differ/Changes.antt =====
-- When a diff of crates/anasemble-semantic is empty.
use anasemble.Prelude.{
  ◌≡◌, ◌≢◌, ◌↔◌, refl, sym, ◌∙◌, Bool, true, false, not, Option, none, some, List, [], ◌∷◌, ◌++◌,
  arith, Option-cases, Bool-cases, Result, ok, >>=-eq-ok, ok-injective, refuse_if, is_empty, map,
  inl, inr, if◌then◌else◌,
}
use mathlib.Core.Path.{subst}
use anasemble.Text.{Text, text}
use anasemble.Text.Order.{text_eq_iff, text_eq, text_ord}
use anasemble.BTreeMap.{BTreeMap, get, contains_key}
use anasemble.BTreeMap.Sorted.{Above, Sorted, get_of_Above, from_list-Sorted}
use anasemble.Trace.{Digest, digest_eq}
use anasemble.Semantic.{
  SemanticError, protocol, SemanticNode, UnsignedSnapshot, Snapshot, insert_sorted, sort_by,
}
use anasemble.Semantic.Differ.{
  DiffPolicy, DiffOperation, UnsignedDiff, SemanticDiff, op_before, digests_eq, nodes_by_id,
  compare_node, compare_nodes, added_nodes, match_removals, node_changes, contract_changes,
  classify_moves, keep, bind, diff,
}

-- The digest that a map of nodes has under an identity.
abbrev pub digest_at : BTreeMap Text SemanticNode → Text → Option Digest
digest_at m id = elim (get text_ord m id) [ none ↦ none | some node ↦ some node.digest ]

append_empty_iff : {A : Type 0} (xs ys : List A) → (xs ++ ys ≡ []) ↔ ((xs ≡ []) × (ys ≡ []))
append_empty_iff [] ys = (λ h. (refl, h), λ h. h.1)
append_empty_iff (x ∷ xs) ys = (λ h. absurd cc, λ h. absurd cc)

compare_node_iff :
    (evidence : List Digest) (after : BTreeMap Text SemanticNode) (id : Text) (node : SemanticNode)
    → (compare_node evidence after id node ≡ []) ↔ (digest_at after id ≡ some node.digest)
unfolding compare_node
compare_node_iff evidence after id node = elim (Option-cases (get text_ord after id)) [
  | inl e ↦ rw (compare_node, digest_at, e) (λ h. absurd cc, λ h. absurd cc)
  | inr (next, e) ↦
      rw (compare_node, digest_at, e)
        (
          λ h. ground (arith, text_eq_iff next.digest node.digest),
          λ h. ground (arith, text_eq_iff next.digest node.digest),
        )
]

digest_at-cons :
    (j : Text) (n : SemanticNode) (m : BTreeMap Text SemanticNode) (id : Text)
    → digest_at ((j, n) ∷ m) id ≡ (if text_eq j id then some n.digest else digest_at m id)
unfolding get
digest_at-cons j n m id = ground arith

digest_at_of_Above :
    (j : Text) (m : BTreeMap Text SemanticNode) → Above text_ord j m → digest_at m j ≡ none
digest_at_of_Above j m a = rw (digest_at, get_of_Above text_ord j m a) refl

compare_nodes_iff :
    (evidence : List Digest) (after before : BTreeMap Text SemanticNode)
    → Sorted text_ord before
    → (compare_nodes evidence after before ≡ [])
      ↔ ((id : Text) (d : Digest) → digest_at before id ≡ some d → digest_at after id ≡ some d)
unfolding compare_nodes get
compare_nodes_iff evidence after [] s = (λ h id d e. absurd (none_some e), λ h. refl)
  where
    none_some : {d : Digest} → ◌≡◌ {A = Option Digest} none (some d) → ⊥
    none_some e = cc
compare_nodes_iff evidence after ((j, n) ∷ m) (a, s) =
    let node = compare_node_iff evidence after j n in
    let rest = compare_nodes_iff evidence after m s in
    let both =
      append_empty_iff (compare_node evidence after j n) (compare_nodes evidence after m) in
    (
      λ h id d e. found id d (both.0 h).0 (λ k. rest.0 (both.0 h).1 id d k) e,
      λ h. both.1 (
        node.1 (h j n.digest (ground (arith, digest_at-cons j n m j, text_eq_iff j j))),
        rest.1 (λ id d e.
            h id d (
              ground (arith, digest_at-cons j n m id, text_eq_iff j id, digest_at_of_Above j m a))),
      ),
    )
  where
    found :
        (id : Text) (d : Digest)
        → compare_node evidence after j n ≡ []
        → (digest_at m id ≡ some d → digest_at after id ≡ some d)
        → digest_at ((j, n) ∷ m) id ≡ some d
        → digest_at after id ≡ some d
    found id d p q e = ground (
      arith,
      digest_at-cons j n m id,
      text_eq_iff j id,
      (compare_node_iff evidence after j n).0 p,
      q,
    )

contains_key_iff :
    (m : BTreeMap Text SemanticNode) (id : Text)
    → (contains_key text_ord m id ≡ false) ↔ (digest_at m id ≡ none)
unfolding contains_key
contains_key_iff m id = elim (Option-cases (get text_ord m id)) [
  | inl e ↦ rw (contains_key, digest_at, e) (λ h. refl, λ h. refl)
  | inr (n, e) ↦ rw (contains_key, digest_at, e) (λ h. absurd cc, λ h. absurd cc)
]

added_nodes_iff :
    (evidence : List Digest) (before after : BTreeMap Text SemanticNode)
    → Sorted text_ord after
    → (added_nodes evidence before after ≡ [])
      ↔ ((id : Text) → digest_at before id ≡ none → digest_at after id ≡ none)
unfolding added_nodes get
added_nodes_iff evidence before [] s = (λ h id e. refl, λ h. refl)
added_nodes_iff evidence before ((j, n) ∷ m) (a, s) =
    let rest = added_nodes_iff evidence before m s in
    (
      λ h id e. found id h (λ k. rest.0 k id e) e,
      λ h. ground (
        arith,
        unknown_none (h j),
        contains_key_iff before j,
        digest_at-cons j n m j,
        text_eq_iff j j,
        rest.1 (λ id e. elim (Bool-cases (text_eq j id)) [
          | inl p ↦ ground (arith, text_eq_iff j id, digest_at_of_Above j m a)
          | inr p ↦ ground (arith, h id e, digest_at-cons j n m id)
        ]),
      ),
    )
  where
    unknown_none :
        (digest_at before j ≡ none → digest_at ((j, n) ∷ m) j ≡ none) → digest_at before j ≢ none
    unknown_none h e = ground (arith, h e, digest_at-cons j n m j, text_eq_iff j j)

    found :
        (id : Text)
        → added_nodes evidence before ((j, n) ∷ m) ≡ []
        → (added_nodes evidence before m ≡ [] → digest_at m id ≡ none)
        → digest_at before id ≡ none
        → digest_at ((j, n) ∷ m) id ≡ none
    found id h q e =
        ground (arith, digest_at-cons j n m id, text_eq_iff j id, contains_key_iff before j)

-- Both ways, the maps have the same digests.
changes_iff :
    (evidence : List Digest) (before after : BTreeMap Text SemanticNode)
    → Sorted text_ord before
    → Sorted text_ord after
    → (compare_nodes evidence after before ++ added_nodes evidence before after ≡ [])
      ↔ ((id : Text) → digest_at before id ≡ digest_at after id)
changes_iff evidence before after s r =
    let both =
      append_empty_iff (compare_nodes evidence after before) (added_nodes evidence before after) in
    let compared = compare_nodes_iff evidence after before s in
    let added = added_nodes_iff evidence before after r in
    (
      λ h id. elim (Option-cases (digest_at before id)) [
        | inl e ↦ e ∙ sym (added.0 (both.0 h).1 id e)
        | inr (d, e) ↦ e ∙ sym (compared.0 (both.0 h).0 id d e)
      ],
      λ h. both.1 (compared.1 (λ id d e. sym (h id) ∙ e), added.1 (λ id e. sym (h id) ∙ e)),
    )

digests_eq_iff : (a b : List Digest) → (digests_eq a b ≡ true) ↔ (a ≡ b)
unfolding digests_eq
digests_eq_iff [] [] = (λ h. refl, λ h. refl)
digests_eq_iff [] (b ∷ bs) = (λ h. absurd cc, λ h. absurd cc)
digests_eq_iff (a ∷ as') [] = (λ h. absurd cc, λ h. absurd cc)
digests_eq_iff (a ∷ as') (b ∷ bs) = ground (arith, text_eq_iff a b, digests_eq_iff as' bs)

sort_by_empty_iff :
    {A : Type 0} (lt : A → A → Bool) (xs : List A) → (sort_by lt xs ≡ []) ↔ (xs ≡ [])
unfolding sort_by insert_sorted
sort_by_empty_iff lt [] = (λ h. h, λ h. h)
sort_by_empty_iff lt (x ∷ xs) = (λ h. absurd (inserted (sort_by lt xs) h), λ h. absurd cc)
  where
    inserted : (ys : List _) → insert_sorted lt x ys ≢ []
    inserted [] h = ground arith
    inserted (y ∷ ys) h = ground arith

unmoved :
    (moves kept ops : List DiffOperation)
    → (if is_empty moves then ops else kept ++ moves) ≡ []
    → ops ≡ []
unmoved [] kept ops h = h
unmoved (m ∷ ms) kept ops h = absurd (cons_empty ((append_empty_iff kept (m ∷ ms)).0 h).1)
  where
    cons_empty : m ∷ ms ≢ []
    cons_empty k = ground arith

classify_moves_empty_iff : (ops : List DiffOperation) → (classify_moves ops ≡ []) ↔ (ops ≡ [])
unfolding classify_moves match_removals
classify_moves_empty_iff ops =
    let s = match_removals ops 0 ops (record { used_adds = []; drop_set = []; moves = [] }) in
    (λ h. unmoved s.moves (keep s.drop_set 0 ops) ops h, λ h. rw h refl)

classified_iff :
    (detect : Bool) (ops : List DiffOperation)
    → ((if detect then classify_moves ops else ops) ≡ []) ↔ (ops ≡ [])
classified_iff true ops = classify_moves_empty_iff ops
classified_iff false ops = (λ h. h, λ h. h)

node_changes_iff :
    (before after : Snapshot)
    → (node_changes before after ≡ []) ↔ (
        (id : Text)
        → digest_at (nodes_by_id before.nodes) id ≡ digest_at (nodes_by_id after.nodes) id)
unfolding node_changes
node_changes_iff before after =
    changes_iff after.evidence_roots (nodes_by_id before.nodes) (nodes_by_id after.nodes)
      (from_list-Sorted text_ord (map (λ n. (n.node_id.as_str, n)) before.nodes) [] tt)
      (from_list-Sorted text_ord (map (λ n. (n.node_id.as_str, n)) after.nodes) [] tt)

contract_changes_iff :
    (before after : Snapshot) (changed : List DiffOperation)
    → contract_changes before after ≡ ok changed
    → (changed ≡ []) ↔ (before.contracts ≡ after.contracts)
unfolding contract_changes
contract_changes_iff before after changed h =
    ground (arith, digests_eq_iff before.contracts after.contracts)

module _ (snapshot_digest_of : UnsignedSnapshot → Result SemanticError Digest)
    (digest_of : UnsignedDiff → Result SemanticError Digest) where
  -- A diff has no operations exactly where the two snapshots list the same contracts and have the
  -- same digest, or none, under each identity, whatever the policy; it records both snapshots'
  -- digests, and its own digest is that of its fields.
  pub diff_empty_iff :
      (fresh_id : Text) (before after : Snapshot) (policy : DiffPolicy) (found : SemanticDiff)
      → diff snapshot_digest_of digest_of fresh_id before after policy ≡ ok found
      → ((found.operations ≡ []) ↔ (
          (before.contracts ≡ after.contracts)
          × ((id : Text)
              → digest_at (nodes_by_id before.nodes) id ≡ digest_at (nodes_by_id after.nodes) id)))
        × (found.before_digest ≡ before.digest)
        × (found.after_digest ≡ after.digest)
        × (digest_of found.unsigned ≡ ok found.digest)
  unfolding diff bind
  diff_empty_iff fresh_id before after policy found h =
      let (d, _, h₁) = >>=-eq-ok (snapshot_digest_of before.unsigned) _ h in
      let (_, _, h₂) =
        >>=-eq-ok
          (refuse_if (not (digest_eq d before.digest)) (protocol (text "snapshot digest mismatch")))
          _ h₁ in
      let (e, _, h₃) = >>=-eq-ok (snapshot_digest_of after.unsigned) _ h₂ in
      let (_, _, h₄) =
        >>=-eq-ok
          (refuse_if (not (digest_eq e after.digest)) (protocol (text "snapshot digest mismatch")))
          _ h₃ in
      let (changed, e₅, h₅) = >>=-eq-ok (contract_changes before after) _ h₄ in
      let contracts = contract_changes_iff before after changed e₅ in
      let nodes = node_changes_iff before after in
      let classified = classified_iff policy.detect_moves (node_changes before after) in
      let both =
        append_empty_iff
          (if policy.detect_moves
            then classify_moves (node_changes before after)
            else node_changes before after)
          changed in
      let sorted = sort_by_empty_iff op_before (
        (if policy.detect_moves
          then classify_moves (node_changes before after)
          else node_changes before after)
        ++ changed) in
      let (own, e₆, h₆) =
        >>=-eq-ok
          (digest_of (record {
            version = 1;
            before_digest = before.digest;
            after_digest = after.digest;
            operations = sort_by op_before (
                (if policy.detect_moves
                  then classify_moves (node_changes before after)
                  else node_changes before after)
                ++ changed);
          }))
          _ h₅ in
      subst
        (λ x.
          ((x.operations ≡ []) ↔ (
            (before.contracts ≡ after.contracts)
            × ((id : Text)
                → digest_at (nodes_by_id before.nodes) id
                  ≡ digest_at (nodes_by_id after.nodes) id)))
          × (x.before_digest ≡ before.digest)
          × (x.after_digest ≡ after.digest)
          × (digest_of x.unsigned ≡ ok x.digest))
        (ok-injective h₆)
        (
          (
            λ k. let (p, q) = both.0 (sorted.0 k) in (contracts.0 q, nodes.0 (classified.0 p)),
            λ (c, n). sorted.1 (both.1 (classified.1 (nodes.1 n), contracts.1 c)),
          ),
          refl,
          refl,
          e₆,
        )
