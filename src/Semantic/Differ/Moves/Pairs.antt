-- ===== src/Semantic/Differ/Moves/Pairs.antt =====
-- The pairs of a removal with an addition that a round of `match_removal` makes.
use anasemble.Prelude.{
  ℕ, ◌+◌, ◌≡◌, ◌⊎◌, refl, sym, ap, ◌∙◌, Bool, false, Option, none, some, List, [], ◌∷◌, ◌++◌, map,
  arith, Option-cases, Bool-cases, is_empty, All, Member, inl, inr, if◌then◌else◌,
}
use mathlib.Core.Path.{subst}
use anasemble.Core.{CompatibilityClass.backward}
use anasemble.Trace.{Digest}
use anasemble.Semantic.Differ.{
  DiffOperation, MoveState, add, remove, move, is_remove, find_add, match_removal,
}
use anasemble.Semantic.Differ.Moves.Indices.{count, is_remove→eq, IsFound, find_add-IsFound}

-- The move that pairs a removal with an addition.
abbrev pub pairing : DiffOperation × DiffOperation → DiffOperation
pairing (removed, added) = record {
  kind = move;
  entity_id = added.entity_id;
  before = removed.before;
  after = added.after;
  compatibility = backward;
  evidence = added.evidence;
}

-- A removal and an addition of the same digest.
pub record IsPair (pair : DiffOperation × DiffOperation) : Type 0 where
  pub removed_kind : pair.0.kind ≡ remove
  pub added_kind : pair.1.kind ≡ add
  pub digest : Digest
  pub removed_digest : pair.0.before ≡ some digest
  pub added_digest : pair.1.after ≡ some digest

abbrev pub removals : List (DiffOperation × DiffOperation) → List DiffOperation
removals [] = []
removals (pair ∷ pairs) = pair.0 ∷ removals pairs

abbrev pub additions : List (DiffOperation × DiffOperation) → List DiffOperation
additions [] = []
additions (pair ∷ pairs) = pair.1 ∷ additions pairs

-- The operations are parted into those that are kept and those that are paired, each in one place;
-- a move stands for each pair, and nothing that is kept could be paired.
pub record IsClassified (ops result : List DiffOperation) : Type 0 where
  pub kept : List DiffOperation
  pub pairs : List (DiffOperation × DiffOperation)
  pub listed : result ≡ kept ++ map pairing pairs
  pub paired : All IsPair pairs
  pub parted :
      (p : DiffOperation → Bool)
      → count p ops ≡ count p kept + (count p (removals pairs) + count p (additions pairs))
  pub exhausted :
      (removed added : DiffOperation) (d : Digest)
      → Member removed kept
      → Member added kept
      → removed.kind ≡ remove
      → added.kind ≡ add
      → removed.before ≡ some d
      → added.after ≡ some d
      → ⊥

-- A round leaves the state, where no addition is left, or pairs the operation with an addition.
abbrev pub IsSkipped : List DiffOperation → DiffOperation → MoveState → Type 0
IsSkipped ops op s =
    (d : Digest) → op.kind ≡ remove → op.before ≡ some d → find_add d s.used_adds 0 ops ≡ none

pub record IsMatched (ops : List DiffOperation) (i : ℕ) (op : DiffOperation) (s s' : MoveState)
    : Type 0 where
  pub d : Digest
  pub j : ℕ
  pub added : DiffOperation
  pub kind : op.kind ≡ remove
  pub digest : op.before ≡ some d
  pub found : IsFound d s.used_adds 0 ops j added
  pub result : s' ≡ record {
    used_adds = j ∷ s.used_adds;
    drop_set = j ∷ i ∷ s.drop_set;
    moves = s.moves ++ (pairing (op, added) ∷ []);
  }

pub some-injective : {A : Type 0} {a b : A} → some a ≡ some b → a ≡ b
some-injective h = cc

none-some : {A : Type 0} {a : A} → ◌≡◌ {A = Option A} none (some a) → ⊥
none-some e = ground arith

pub match_removal-cases :
    (ops : List DiffOperation) (i : ℕ) (op : DiffOperation) (s : MoveState)
    → ((match_removal ops i op s ≡ s) × IsSkipped ops op s)
      ⊎ IsMatched ops i op s (match_removal ops i op s)
unfolding match_removal
match_removal-cases ops i op s = elim (Bool-cases (is_remove op.kind)) [
  | inr e ↦ inl (rw (match_removal, e) refl, λ d k b. absurd (ground (arith, e, k)))
  | inl e ↦ elim (Option-cases op.before) [
    | inl p ↦ inl (rw (match_removal, e, p) refl, λ d k b. absurd (none-some (sym p ∙ b)))
    | inr (d, p) ↦ elim (Option-cases (find_add d s.used_adds 0 ops)) [
      | inl q ↦ inl (
        rw (match_removal, e, p, q) refl,
        λ c k b. subst (λ x. find_add x s.used_adds 0 ops ≡ none) (some-injective (sym p ∙ b)) q,
      )
      | inr ((j, added), q) ↦ inr (record {
        d = d;
        j = j;
        added = added;
        kind = is_remove→eq op.kind e;
        digest = p;
        found = find_add-IsFound d s.used_adds 0 ops j added q;
        result =
            rw (match_removal, e, p, q)
              (ap
                (λ b. record {
                  used_adds = j ∷ s.used_adds;
                  drop_set = j ∷ i ∷ s.drop_set;
                  moves = s.moves ++ (record (pairing (op, added)) { before = b } ∷ []);
                })
                p);
      })
    ]
  ]
]

pub count-removals :
    (p : DiffOperation → Bool) (pairs : List (DiffOperation × DiffOperation))
    (pair : DiffOperation × DiffOperation)
    → count p (removals (pairs ++ (pair ∷ [])))
      ≡ count p (removals pairs) + (if p pair.0 then 1 else 0)
count-removals p [] pair = omega arith
count-removals p (x ∷ xs) pair = omega (arith, count-removals p xs pair)

pub count-additions :
    (p : DiffOperation → Bool) (pairs : List (DiffOperation × DiffOperation))
    (pair : DiffOperation × DiffOperation)
    → count p (additions (pairs ++ (pair ∷ [])))
      ≡ count p (additions pairs) + (if p pair.1 then 1 else 0)
count-additions p [] pair = omega arith
count-additions p (x ∷ xs) pair = omega (arith, count-additions p xs pair)

pub All-snoc :
    (pairs : List (DiffOperation × DiffOperation)) (pair : DiffOperation × DiffOperation)
    → All IsPair pairs
    → IsPair pair
    → All IsPair (pairs ++ (pair ∷ []))
All-snoc [] pair h k = (k, tt)
All-snoc (x ∷ xs) pair (q, h) k = (q, All-snoc xs pair h k)

pub map-snoc :
    (pairs : List (DiffOperation × DiffOperation)) (pair : DiffOperation × DiffOperation)
    → map pairing (pairs ++ (pair ∷ [])) ≡ map pairing pairs ++ (pairing pair ∷ [])
map-snoc [] pair = refl
map-snoc (x ∷ xs) pair = ap (λ l. pairing x ∷ l) (map-snoc xs pair)

pub not_empty : (xs : List DiffOperation) (x : DiffOperation) → is_empty (xs ++ (x ∷ [])) ≡ false
not_empty [] x = refl
not_empty (y ∷ xs) x = refl
