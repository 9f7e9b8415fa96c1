-- ===== src/Semantic/Differ/Moves/Indices.antt =====
-- The operations of a diff by their indices: which are kept, and what `find_add` finds.
use anasemble.Prelude.{
  ℕ, suc, ◌+◌, ◌≤◌, ◌<◌, ◌≡◌, ◌⊎◌, refl, sym, ap, ◌∙◌, Bool, true, false, not, ◌&&◌, Option, none,
  some, List, [], ◌∷◌, arith, Bool-cases, any, Member, inl, inr, ◌==◌, ==_iff, if◌then◌else◌,
  length,
}
use mathlib.Core.Path.{subst}
use anasemble.Text.Order.{text_eq_iff}
use anasemble.Trace.{Digest}
use anasemble.Semantic.Differ.{
  DiffOpKind, DiffOperation, add, remove, is_add, is_remove, option_digest_eq, find_add, keep,
}

-- How many of the operations the test holds of.
abbrev pub count : (DiffOperation → Bool) → List DiffOperation → ℕ
count p [] = 0
count p (op ∷ ops) = (if p op then 1 else 0) + count p ops

-- The operation at an index, where the first one has the index `base`.
abbrev pub at : ℕ → ℕ → List DiffOperation → Option DiffOperation
at base k [] = none
at base k (op ∷ ops) = let rest = at (suc base) k ops in if base == k then some op else rest

abbrev pub has_index : List ℕ → ℕ → Bool
has_index ks k = any (λ j. j == k) ks

some-injective : {A : Type 0} {a b : A} → some a ≡ some b → a ≡ b
some-injective h = cc

none-some : {A : Type 0} {a : A} → ◌≡◌ {A = Option A} none (some a) → ⊥
none-some e = ground arith

pub at-bounds :
    (base k : ℕ) (ops : List DiffOperation) (op : DiffOperation)
    → at base k ops ≡ some op
    → (base ≤ k) × (k < base + length ops)
at-bounds base k [] op h = absurd (none-some h)
at-bounds base k (x ∷ xs) op h = elim (Bool-cases (base == k)) [
  | inl e ↦ (ground (arith, e), ground (arith, e))
  | inr e ↦
      let (a, b) =
        at-bounds (suc base) k xs op
          (subst (λ t. (if t then some x else at (suc base) k xs) ≡ some op) e h) in
      (omega (arith, a), omega (arith, b))
]

-- An index further on stands for the same operation behind the first one.
pub at-tail :
    (base k : ℕ) (x : DiffOperation) (xs : List DiffOperation) (op : DiffOperation)
    → at (suc base) k xs ≡ some op
    → at base k (x ∷ xs) ≡ some op
at-tail base k x xs op h =
    let (a, b) = at-bounds (suc base) k xs op h in
    let apart : (base == k) ≡ false = ground (arith, a) in rw apart h

pub at_first :
    (base : ℕ) (x : DiffOperation) (xs : List DiffOperation) → at base base (x ∷ xs) ≡ some x
at_first base x xs = let same : (base == base) ≡ true = ground arith in rw same refl

pub keep_all : (base : ℕ) (ops : List DiffOperation) → keep [] base ops ≡ ops
unfolding keep
keep_all base [] = refl
keep_all base (op ∷ ops) = ap (λ l. op ∷ l) (keep_all (suc base) ops)

-- An index below the first one drops nothing.
keep_below :
    (drop_set : List ℕ) (k base : ℕ) (ops : List DiffOperation)
    → k < base
    → keep (k ∷ drop_set) base ops ≡ keep drop_set base ops
unfolding keep
keep_below drop_set k base [] h = refl
keep_below drop_set k base (op ∷ ops) h =
    let apart : (k == base) ≡ false = ground (arith, h) in
    rw (apart, keep_below drop_set k (suc base) ops (omega (arith, h))) refl

-- One more index drops the operation that stands there.
pub count-keep :
    (p : DiffOperation → Bool) (drop_set : List ℕ) (k base : ℕ) (ops : List DiffOperation)
    (op : DiffOperation)
    → at base k ops ≡ some op
    → has_index drop_set k ≡ false
    → count p (keep drop_set base ops)
      ≡ (if p op then 1 else 0) + count p (keep (k ∷ drop_set) base ops)
unfolding keep
count-keep p drop_set k base [] op h g = absurd (none-some h)
count-keep p drop_set k base (x ∷ xs) op h g = elim (Bool-cases (base == k)) [
  | inl e ↦
      let same : base ≡ k = (==_iff base k).0 e in
      let here : x ≡ op =
        some-injective (subst (λ t. (if t then some x else at (suc base) k xs) ≡ some op) e h) in
      let back : (k == base) ≡ true = ground (arith, e) in
      let kept : has_index drop_set base ≡ false =
        subst (λ n. has_index drop_set n ≡ false) (sym same) g in
      rw (back, kept, here, keep_below drop_set k (suc base) xs (omega (arith, same))) refl
  | inr e ↦
      let back : (k == base) ≡ false = ground (arith, e) in
      let rest =
        count-keep p drop_set k (suc base) xs op
          (subst (λ t. (if t then some x else at (suc base) k xs) ≡ some op) e h) g in
      elim (Bool-cases (has_index drop_set base)) [
        | inl d ↦ rw (back, d) rest
        | inr d ↦ rw (back, d) (omega (arith, rest))
      ]
]

-- What is kept stands at an index that is not dropped.
pub Member-keep :
    (drop_set : List ℕ) (base : ℕ) (ops : List DiffOperation) (op : DiffOperation)
    → Member op (keep drop_set base ops)
    → (k : ℕ) × (at base k ops ≡ some op) × (has_index drop_set k ≡ false)
unfolding keep
Member-keep drop_set base [] op m = absurd m
Member-keep drop_set base (x ∷ xs) op m = elim (Bool-cases (has_index drop_set base)) [
  | inl e ↦
      let (k, a, g) = Member-keep drop_set (suc base) xs op (ground (arith, m, e)) in
      (k, at-tail base k x xs op a, g)
  | inr e ↦ elim (either (has_index drop_set base) (keep drop_set (suc base) xs) e m) [
    | inl same ↦ (base, at_first base x xs ∙ ap some same, e)
    | inr rest ↦
        let (k, a, g) = Member-keep drop_set (suc base) xs op rest in
        (k, at-tail base k x xs op a, g)
  ]
]
  where
    either :
        (b : Bool) (l : List DiffOperation)
        → b ≡ false
        → Member op (if b then l else x ∷ l)
        → (x ≡ op) ⊎ Member op l
    either false l e n = n
    either true l e n = absurd (ground arith)

option_digest_eq→eq :
    (a : Option Digest) (d : Digest) → option_digest_eq a (some d) ≡ true → a ≡ some d
option_digest_eq→eq none d h = absurd (ground arith)
option_digest_eq→eq (some a) d h = ap some ((text_eq_iff a d).0 h)

option_digest_eq_of_eq :
    (a : Option Digest) (d : Digest) → a ≡ some d → option_digest_eq a (some d) ≡ true
option_digest_eq_of_eq a d h = rw h ((text_eq_iff d d).1 refl)

pub is_add→eq : (k : DiffOpKind) → is_add k ≡ true → k ≡ add
is_add→eq k h = ground arith

pub is_remove→eq : (k : DiffOpKind) → is_remove k ≡ true → k ≡ remove
is_remove→eq k h = ground arith

-- The test of `find_add`.
abbrev matches : Digest → List ℕ → ℕ → DiffOperation → Bool
matches d used i x = is_add x.kind && option_digest_eq x.after (some d) && not (has_index used i)

-- What is found is an addition of the digest at an index that is not used.
pub record IsFound (d : Digest) (used : List ℕ) (base : ℕ) (ops : List DiffOperation) (j : ℕ)
    (op : DiffOperation) : Type 0 where
  pub here : at base j ops ≡ some op
  pub kind : op.kind ≡ add
  pub digest : op.after ≡ some d
  pub unused : has_index used j ≡ false

pub find_add-IsFound :
    (d : Digest) (used : List ℕ) (base : ℕ) (ops : List DiffOperation) (j : ℕ) (op : DiffOperation)
    → find_add d used base ops ≡ some (j, op)
    → IsFound d used base ops j op
unfolding find_add
find_add-IsFound d used base [] j op h = absurd (none-some h)
find_add-IsFound d used base (x ∷ xs) j op h = elim (Bool-cases (matches d used base x)) [
  | inl e ↦
      let same = some-injective (
        subst (λ t. (if t then some (base, x) else find_add d used (suc base) xs) ≡ some (j, op)) e
          h) in
      subst (λ (r : ℕ × DiffOperation). IsFound d used base (x ∷ xs) r.0 r.1) same
        (record {
          here = at_first base x xs;
          kind = is_add→eq x.kind (ground (arith, e));
          digest = option_digest_eq→eq x.after d (ground (arith, e));
          unused = ground (arith, e);
        })
  | inr e ↦
      let f = find_add-IsFound d used (suc base) xs j op (
        subst (λ t. (if t then some (base, x) else find_add d used (suc base) xs) ≡ some (j, op)) e
          h) in
      record {
        here = at-tail base j x xs op f.here;
        kind = f.kind;
        digest = f.digest;
        unused = f.unused;
      }
]

-- Where nothing is found, every addition of the digest is used.
pub find_add-none :
    (d : Digest) (used : List ℕ) (base : ℕ) (ops : List DiffOperation)
    → find_add d used base ops ≡ none
    → (k : ℕ) (op : DiffOperation) → at base k ops ≡ some op
    → op.kind ≡ add
    → op.after ≡ some d
    → has_index used k ≡ true
unfolding find_add
find_add-none d used base [] h k op a q r = absurd (none-some a)
find_add-none d used base (x ∷ xs) h k op a q r = elim (Bool-cases (matches d used base x)) [
  | inl e ↦ absurd (
      none-some (
        sym
          (subst (λ t. (if t then some (base, x) else find_add d used (suc base) xs) ≡ none) e h)))
  | inr e ↦
      let rest =
        subst (λ t. (if t then some (base, x) else find_add d used (suc base) xs) ≡ none) e h in
      elim (Bool-cases (base == k)) [
        | inl f ↦
            let same : base ≡ k = (==_iff base k).0 f in
            let here : x ≡ op =
              some-injective
                (subst (λ t. (if t then some x else at (suc base) k xs) ≡ some op) f a) in
            let digest =
              option_digest_eq_of_eq x.after d (ap (λ (o : DiffOperation). o.after) here ∙ r) in
            let kind = ap (λ (o : DiffOperation). o.kind) here ∙ q in
            subst (λ n. has_index used n ≡ true) same (ground (arith, e, digest, kind))
        | inr f ↦
            find_add-none d used (suc base) xs rest k op
              (subst (λ t. (if t then some x else at (suc base) k xs) ≡ some op) f a) q r
      ]
]
