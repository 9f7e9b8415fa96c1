-- ===== src/Semantic/Differ/Moves.antt =====
-- What `classify_moves` of crates/anasemble-semantic pairs.
pub mod Indices
pub mod Pairs
use anasemble.Prelude.{
  ℕ, suc, ◌+◌, ◌≤◌, ◌<◌, ◌≡◌, ◌⊎◌, refl, sym, ap, ◌∙◌, Bool, true, false, not, ◌||◌, Option, none,
  some, List, [], ◌∷◌, ◌++◌, map, arith, Option-cases, Bool-cases, any, is_empty, All, Member, inl,
  inr, ◌==◌, ==_iff, if◌then◌else◌, length,
}
use mathlib.Core.Path.{subst}
use anasemble.Core.{CompatibilityClass.backward}
use anasemble.Trace.{Digest}
use anasemble.Semantic.Differ.{
  DiffOpKind, DiffOperation, MoveState, add, remove, move, is_add, is_remove, find_add,
  match_removal, match_removals, keep, classify_moves,
}
use anasemble.Semantic.Differ.Moves.Indices.{
  count, at, has_index, at-bounds, at-tail, at_first, keep_all, count-keep, Member-keep,
  is_remove→eq, IsFound, find_add-IsFound, find_add-none,
}
use anasemble.Semantic.Differ.Moves.Pairs.{
  pairing, IsPair, removals, additions, IsClassified, IsSkipped, IsMatched, some-injective,
  match_removal-cases, count-removals, count-additions, All-snoc, map-snoc, not_empty,
}

-- The state after the operations before the index `i`.
record IsState (ops : List DiffOperation) (i : ℕ) (s : MoveState) : Type 0 where
  pairs : List (DiffOperation × DiffOperation)
  moved : s.moves ≡ map pairing pairs
  paired : All IsPair pairs
  parted :
      (p : DiffOperation → Bool)
      → count p ops
        ≡ count p (keep s.drop_set 0 ops) + (count p (removals pairs) + count p (additions pairs))
  idle : is_empty s.moves ≡ true → s.drop_set ≡ []
  used_dropped : (k : ℕ) → has_index s.used_adds k ≡ true → has_index s.drop_set k ≡ true
  dropped_used :
      (k : ℕ) (op : DiffOperation)
      → at 0 k ops ≡ some op
      → op.kind ≡ add
      → has_index s.drop_set k ≡ true
      → has_index s.used_adds k ≡ true
  ahead :
      (k : ℕ) (op : DiffOperation)
      → at 0 k ops ≡ some op
      → op.kind ≡ remove
      → i ≤ k
      → has_index s.drop_set k ≡ false
  settled :
      (k m : ℕ) (removed added : DiffOperation) (d : Digest)
      → k < i
      → at 0 k ops ≡ some removed
      → has_index s.drop_set k ≡ false
      → removed.kind ≡ remove
      → removed.before ≡ some d
      → at 0 m ops ≡ some added
      → added.kind ≡ add
      → added.after ≡ some d
      → has_index s.drop_set m ≡ true

skip-IsState :
    (ops : List DiffOperation) (i : ℕ) (op : DiffOperation) (s : MoveState)
    → at 0 i ops ≡ some op
    → IsState ops i s
    → IsSkipped ops op s
    → IsState ops (suc i) s
skip-IsState ops i op s here h none_left = record {
  pairs = h.pairs;
  moved = h.moved;
  paired = h.paired;
  parted = h.parted;
  idle = h.idle;
  used_dropped = h.used_dropped;
  dropped_used = h.dropped_used;
  ahead = λ k o a q l. h.ahead k o a q (omega (arith, l));
  settled = λ k m r a d l p f q b u v w. elim (Bool-cases (k == i)) [
    | inl e ↦
        let same : r ≡ op =
          some-injective
            (sym p ∙ subst (λ n. at 0 n ops ≡ some op) (sym ((==_iff k i).0 e)) here) in
        h.used_dropped m (
          find_add-none d s.used_adds 0 ops
            (none_left d (ap (λ (o : DiffOperation). o.kind) (sym same) ∙ q)
              (ap (λ (o : DiffOperation). o.before) (sym same) ∙ b))
            m a u v w)
    | inr e ↦ h.settled k m r a d (ground (arith, l, e)) p f q b u v w
  ];
}

removal_apart :
    (ops : List DiffOperation) (i j : ℕ) (r a : DiffOperation)
    → at 0 i ops ≡ some r
    → at 0 j ops ≡ some a
    → r.kind ≡ remove
    → a.kind ≡ add
    → (i == j) ≡ false
removal_apart ops i j r a p q k l = elim (Bool-cases (i == j)) [
  | inr e ↦ e
  | inl e ↦
      let same : r ≡ a =
        some-injective (sym p ∙ subst (λ n. at 0 n ops ≡ some a) (sym ((==_iff i j).0 e)) q) in
      absurd (remove_add (sym k ∙ ap (λ (o : DiffOperation). o.kind) same ∙ l))
]
  where
    remove_add : ◌≡◌ {A = DiffOpKind} remove add → ⊥
    remove_add e = ground arith

-- The addition that is found is not dropped yet, nor is it the removal.
fresh :
    (ops : List DiffOperation) (i : ℕ) (op : DiffOperation) (s s' : MoveState)
    → at 0 i ops ≡ some op
    → IsState ops i s
    → (m : IsMatched ops i op s s') → has_index (i ∷ s.drop_set) m.j ≡ false
fresh ops i op s s' here h m =
    let f = m.found in
    let apart = removal_apart ops i m.j op m.added here f.here m.kind f.kind in
    elim (Bool-cases (has_index s.drop_set m.j)) [
      | inr e ↦ ground (arith, apart, e)
      | inl e ↦ absurd (true_false (sym (h.dropped_used m.j m.added f.here f.kind e) ∙ f.unused))
    ]
  where
    true_false : true ≡ false → ⊥
    true_false e = ground arith

match-parted :
    (ops : List DiffOperation) (i : ℕ) (op : DiffOperation) (s s' : MoveState)
    → at 0 i ops ≡ some op
    → (h : IsState ops i s) → (m : IsMatched ops i op s s') → (p : DiffOperation → Bool)
    → count p ops
      ≡ count p (keep (m.j ∷ i ∷ s.drop_set) 0 ops)
        + (count p (removals (h.pairs ++ ((op, m.added) ∷ [])))
            + count p (additions (h.pairs ++ ((op, m.added) ∷ []))))
match-parted ops i op s s' here h m p =
    let one = count-keep p s.drop_set i 0 ops op here (h.ahead i op here m.kind (omega arith)) in
    let two =
      count-keep p (i ∷ s.drop_set) m.j 0 ops m.added m.found.here (fresh ops i op s s' here h m) in
    omega (
      arith,
      h.parted p,
      one,
      two,
      count-removals p h.pairs (op, m.added),
      count-additions p h.pairs (op, m.added),
    )

match-IsState :
    (ops : List DiffOperation) (i : ℕ) (op : DiffOperation) (s s' : MoveState)
    → at 0 i ops ≡ some op
    → IsState ops i s
    → IsMatched ops i op s s'
    → IsState ops (suc i) s'
match-IsState ops i op s s' here h m = subst (IsState ops (suc i)) (sym m.result) (record {
  pairs = h.pairs ++ ((op, m.added) ∷ []);
  moved =
      ap (λ l. l ++ (pairing (op, m.added) ∷ [])) h.moved ∙ sym (map-snoc h.pairs (op, m.added));
  paired =
      All-snoc h.pairs (op, m.added) h.paired
        (record {
          removed_kind = m.kind;
          added_kind = m.found.kind;
          digest = m.d;
          removed_digest = m.digest;
          added_digest = m.found.digest;
        });
  parted = match-parted ops i op s s' here h m;
  idle = λ e. absurd (true_false (sym e ∙ not_empty s.moves (pairing (op, m.added))));
  used_dropped = λ k e. elim (Bool-cases (has_index s.used_adds k)) [
    | inl u ↦ ground (arith, h.used_dropped k u)
    | inr u ↦ ground (arith, e, u)
  ];
  dropped_used = λ k o a q e.
      let apart = removal_apart ops i k op o here a m.kind q in
      elim (Bool-cases (has_index s.drop_set k)) [
        | inl u ↦ ground (arith, h.dropped_used k o a q u)
        | inr u ↦ ground (arith, e, u, apart)
      ];
  ahead = λ k o a q l.
      let apart = removal_apart ops k m.j o m.added a m.found.here q m.found.kind in
      ground (arith, apart, l, h.ahead k o a q (omega (arith, l)));
  settled = λ k n r a d l x f q b u v w.
      let before : k < i = ground (arith, l, f) in
      let kept : has_index s.drop_set k ≡ false = ground (arith, f) in
      ground (arith, h.settled k n r a d before x kept q b u v w);
})
  where
    true_false : true ≡ false → ⊥
    true_false e = ground arith

match_removals-IsState :
    (ops rest : List DiffOperation) (i : ℕ) (s : MoveState)
    → ((k : ℕ) (op : DiffOperation) → at i k rest ≡ some op → at 0 k ops ≡ some op)
    → IsState ops i s
    → IsState ops (i + length rest) (match_removals ops i rest s)
unfolding match_removals
match_removals-IsState ops [] i s within h = subst (λ n. IsState ops n s) (omega arith) h
match_removals-IsState ops (op ∷ rest) i s within h =
    let here = within i op (at_first i op rest) in
    let next : IsState ops (suc i) (match_removal ops i op s) =
      elim (match_removal-cases ops i op s) [
        | inl (e, skipped) ↦
            subst (IsState ops (suc i)) (sym e) (skip-IsState ops i op s here h skipped)
        | inr m ↦ match-IsState ops i op s (match_removal ops i op s) here h m
      ] in
    let all =
      match_removals-IsState ops rest (suc i) (match_removal ops i op s)
        (λ k o a. within k o (at-tail i k op rest o a)) next in
    subst (λ n. IsState ops n (match_removals ops (suc i) rest (match_removal ops i op s)))
      (omega arith) all

abbrev start : MoveState
start = record { used_adds = []; drop_set = []; moves = [] }

start-IsState : (ops : List DiffOperation) → IsState ops 0 start
start-IsState ops = record {
  pairs = [];
  moved = refl;
  paired = tt;
  parted = λ p. rw (keep_all 0 ops) (omega arith);
  idle = λ e. refl;
  used_dropped = λ k e. absurd (ground (arith, e));
  dropped_used = λ k o a q e. absurd (ground (arith, e));
  ahead = λ k o a q l. refl;
  settled = λ k n r a d l x f q b u v w. absurd (omega (arith, l));
}

IsState-IsClassified :
    (ops : List DiffOperation) (s : MoveState)
    → IsState ops (0 + length ops) s
    → IsClassified ops (keep s.drop_set 0 ops ++ s.moves)
IsState-IsClassified ops s h = record {
  kept = keep s.drop_set 0 ops;
  pairs = h.pairs;
  listed = ap (λ l. keep s.drop_set 0 ops ++ l) h.moved;
  paired = h.paired;
  parted = h.parted;
  exhausted = λ r a d m n q u b w.
      let (i, x, f) = Member-keep s.drop_set 0 ops r m in
      let (j, y, g) = Member-keep s.drop_set 0 ops a n in
      true_false (sym (h.settled i j r a d (at-bounds 0 i ops r x).1 x f q b y u w) ∙ g);
}
  where
    true_false : true ≡ false → ⊥
    true_false e = ground arith

-- The operations are parted into those that are kept and the pairs of a removal with an addition
-- of the same digest: each operation is kept or stands in one pair, as often as it stands in the
-- list. The result lists the kept operations and a move for each pair, from the removal's digest
-- to the addition's identity. No removal and addition of the same digest are both kept.
pub classify_moves-IsClassified : (ops : List DiffOperation) → IsClassified ops (classify_moves ops)
unfolding classify_moves
classify_moves-IsClassified ops =
    let s = match_removals ops 0 ops start in
    let h = match_removals-IsState ops ops 0 start (λ k o a. a) (start-IsState ops) in
    let classified = IsState-IsClassified ops s h in
    elim (Bool-cases (is_empty s.moves)) [
      | inr e ↦ rw e classified
      | inl e ↦
          let same : keep s.drop_set 0 ops ++ s.moves ≡ ops = rw (h.idle e) (
            subst (λ m. keep [] 0 ops ++ m ≡ ops) (sym (empty s.moves e))
              (append_nil (keep [] 0 ops) ∙ keep_all 0 ops)) in
          rw e (subst (IsClassified ops) same classified)
    ]
  where
    empty : (xs : List DiffOperation) → is_empty xs ≡ true → xs ≡ []
    empty [] e = refl
    empty (x ∷ xs) e = absurd (ground arith)

    append_nil : (xs : List DiffOperation) → xs ++ [] ≡ xs
    append_nil [] = refl
    append_nil (x ∷ xs) = ap (λ l. x ∷ l) (append_nil xs)
