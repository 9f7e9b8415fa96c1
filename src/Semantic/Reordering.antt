-- ===== src/Semantic/Reordering.antt =====
-- The snapshots of crates/anasemble-semantic do not depend on the order of the graph's lists.
use anasemble.Prelude.{
  suc, ◌≡◌, refl, sym, ap, ◌∙◌, false, List, [], ◌∷◌, arith, Bool-cases, Result, ok, >>=-eq-ok,
  ok-injective, refuse_if, refuse_if-eq-ok, length, is_empty, ◌||◌, inl, inr,
}
use anasemble.Prelude.Outcome.{collect}
use mathlib.Core.Path.{subst}
use anasemble.Prelude.Permuted.{Permuted, none_left, skip, swap, join}
use anasemble.Text.{Text, text}
use anasemble.Text.Order.{Ord, text_ord, pair_ord}
use anasemble.Core.{Budget, BoundedText, TemporalCut, would_exceed}
use anasemble.Trace.{Digest}
use anasemble.Semantic.{
  SemanticError, protocol, Completeness.complete, saturated_u32, node_before, edge_before,
  digest_before, text_before, SemanticNode, SemanticEdge, SemanticGraph, GraphSnapshotter,
  UnsignedSnapshot, Snapshot, insert_sorted, sort_by, edge_of, node_of, text_of, snapshot,
}
use anasemble.Semantic.Snapshots.{key_before}

module _ {A K : Type 0} (o : Ord K) (key : A → K)
    (key_injective : (a b : A) → key a ≡ key b → a ≡ b) where
  equal_comm :
      (x y : A) (l : List A)
      → x ≡ y
      → insert_sorted (key_before o key) x (insert_sorted (key_before o key) y l)
        ≡ insert_sorted (key_before o key) y (insert_sorted (key_before o key) x l)
  equal_comm x y l e =
      subst
        (λ w.
          insert_sorted (key_before o key) x (insert_sorted (key_before o key) w l)
          ≡ insert_sorted (key_before o key) w (insert_sorted (key_before o key) x l))
        e refl

  insert_sorted_comm :
      (x y : A) (l : List A)
      → insert_sorted (key_before o key) x (insert_sorted (key_before o key) y l)
        ≡ insert_sorted (key_before o key) y (insert_sorted (key_before o key) x l)
  unfolding insert_sorted
  insert_sorted_comm x y [] = elim (Bool-cases (o.lt (key x) (key y))) [
    | inl e ↦ ground (arith, o.lt_trans (key x) (key y) (key x), o.lt_irrefl (key x))
    | inr e ↦ elim (Bool-cases (o.eq (key x) (key y))) [
      | inl p ↦ equal_comm x y [] (key_injective x y ((o.eq_iff (key x) (key y)).0 p))
      | inr p ↦ ground (arith, o.lt_total (key x) (key y))
    ]
  ]
  insert_sorted_comm x y (z ∷ zs) = elim (Bool-cases (o.eq (key x) (key y))) [
    | inl p ↦ equal_comm x y (z ∷ zs) (key_injective x y ((o.eq_iff (key x) (key y)).0 p))
    | inr p ↦ ground (
      arith,
      insert_sorted_comm x y zs,
      o.lt_total (key x) (key y),
      o.lt_trans (key x) (key y) (key x),
      o.lt_irrefl (key x),
      o.lt_trans (key z) (key x) (key y),
      o.lt_trans (key z) (key y) (key x),
    )
  ]

  sort_by-Permuted :
      {xs ys : List A}
      → Permuted xs ys
      → sort_by (key_before o key) xs ≡ sort_by (key_before o key) ys
  unfolding sort_by
  sort_by-Permuted none_left = refl
  sort_by-Permuted (skip x p) = ap (insert_sorted (key_before o key) x) (sort_by-Permuted p)
  sort_by-Permuted (swap x y l) = insert_sorted_comm x y (sort_by (key_before o key) l)
  sort_by-Permuted (join p q) = sort_by-Permuted p ∙ sort_by-Permuted q

length-Permuted : {A : Type 0} {xs ys : List A} → Permuted xs ys → length xs ≡ length ys
length-Permuted none_left = refl
length-Permuted (skip x p) = ap suc (length-Permuted p)
length-Permuted (swap x y l) = refl
length-Permuted (join p q) = length-Permuted p ∙ length-Permuted q

collect-cons :
    {E A B : Type 0} (f : A → Result E B) (x : A) (xs : List A) {y : B} {ys : List B}
    → f x ≡ ok y
    → collect f xs ≡ ok ys
    → collect f (x ∷ xs) ≡ ok (y ∷ ys)
unfolding collect
collect-cons f x xs e k = rw (e, k) refl

collect-Permuted :
    {E A B : Type 0} (f : A → Result E B) {xs ys : List A} (us : List B)
    → Permuted xs ys
    → collect f xs ≡ ok us
    → (vs : List B) × (collect f ys ≡ ok vs) × Permuted us vs
unfolding collect
collect-Permuted f us none_left h =
    ([], refl, subst (λ l. Permuted l []) (ok-injective h) none_left)
collect-Permuted f us (skip x {xs} {ys} p) h =
    let (z, e, h₁) = >>=-eq-ok (f x) _ h in
    let (zs, k, h₂) = >>=-eq-ok (collect f xs) _ h₁ in
    let (ws, m, r) = collect-Permuted f zs p k in
    (z ∷ ws, collect-cons f x _ e m, subst (λ l. Permuted l (z ∷ ws)) (ok-injective h₂) (skip z r))
collect-Permuted f us (swap x y l) h =
    let (a, e, h₁) = >>=-eq-ok (f x) _ h in
    let (bs, k, h₂) = >>=-eq-ok (collect f (y ∷ l)) _ h₁ in
    let (b, g, h₃) = >>=-eq-ok (f y) _ k in
    let (cs, m, h₄) = >>=-eq-ok (collect f l) _ h₃ in
    (
      b ∷ a ∷ cs,
      collect-cons f y (x ∷ l) g (collect-cons f x l e m),
      subst (λ u. Permuted u (b ∷ a ∷ cs)) (ap (λ r. a ∷ r) (ok-injective h₄) ∙ ok-injective h₂)
          (swap a b cs),
    )
collect-Permuted f us (join p q) h =
    let (vs, k, r) = collect-Permuted f us p h in
    let (ws, m, s) = collect-Permuted f vs q k in (ws, m, join r s)

-- Graphs of the same nodes whose other lists have the same members, in whatever order.
pub record SameContent (g h : SemanticGraph) : Type 0 where
  pub nodes : g.nodes ≡ h.nodes
  pub edges : Permuted g.edges h.edges
  pub contracts : Permuted g.contracts h.contracts
  pub evidence_roots : Permuted g.evidence_roots h.evidence_roots
  pub unknowns : Permuted g.unknowns h.unknowns
  pub contradictions : Permuted g.contradictions h.contradictions

BoundedText-injective : (a b : BoundedText) → a.as_str ≡ b.as_str → a ≡ b
BoundedText-injective a b e = ap (λ t. record { as_str = t }) e

SemanticEdge-injective :
    (a b : SemanticEdge)
    → ◌≡◌ {A = Text × (Text × Text)}
        (a.from.as_str, (a.to.as_str, a.kind.as_str))
        (b.from.as_str, (b.to.as_str, b.kind.as_str))
    → a ≡ b
SemanticEdge-injective a b e =
    ap
      (λ p. record {
        from = record { as_str = p.0 };
        to = record { as_str = p.1.0 };
        kind = record { as_str = p.1.1 };
      })
      e

module _ (digest_of : UnsignedSnapshot → Result SemanticError Digest)
    (hex_encode : Digest → Text) where
  -- The fields of a snapshot that lists these.
  abbrev fields_of :
      GraphSnapshotter
      → TemporalCut
      → List SemanticNode
      → List SemanticEdge
      → List Digest
      → List Digest
      → List BoundedText
      → List BoundedText
      → UnsignedSnapshot
  fields_of snapshotter cut nodes edges contracts roots unknowns contradictions = record {
    version = 1;
    ontology_version = snapshotter.ontology_version;
    subject = snapshotter.subject;
    cut = cut;
    nodes = nodes;
    edges = edges;
    contracts = contracts;
    evidence_roots = roots;
    completeness = complete;
    unknowns = unknowns;
    contradictions = contradictions;
  }

  abbrev sorted_fields :
      GraphSnapshotter
      → TemporalCut
      → SemanticGraph
      → List SemanticNode
      → List SemanticEdge
      → List BoundedText
      → List BoundedText
      → UnsignedSnapshot
  sorted_fields snapshotter cut g nodes edges unknowns contradictions =
      fields_of snapshotter cut (sort_by node_before nodes) (sort_by edge_before edges)
        (sort_by (digest_before digest_of hex_encode) g.contracts)
        (sort_by (digest_before digest_of hex_encode) g.evidence_roots)
        (sort_by text_before unknowns) (sort_by text_before contradictions)

  sorted_fields-Permuted :
      (snapshotter : GraphSnapshotter) (cut : TemporalCut) (g h : SemanticGraph)
      (nodes : List SemanticNode) {edges edges' : List SemanticEdge}
      {unknowns unknowns' contradictions contradictions' : List BoundedText}
      → ((a b : Digest) → hex_encode a ≡ hex_encode b → a ≡ b)
      → SameContent g h
      → Permuted edges edges'
      → Permuted unknowns unknowns'
      → Permuted contradictions contradictions'
      → sorted_fields snapshotter cut g nodes edges unknowns contradictions
        ≡ sorted_fields snapshotter cut h nodes edges' unknowns' contradictions'
  sorted_fields-Permuted snapshotter cut g h nodes hex_injective same_content p q r =
      rw
        (
          sort_by-Permuted (pair_ord text_ord (pair_ord text_ord text_ord))
              (λ e. (e.from.as_str, (e.to.as_str, e.kind.as_str))) SemanticEdge-injective p,
          sort_by-Permuted text_ord hex_encode hex_injective same_content.contracts,
          sort_by-Permuted text_ord hex_encode hex_injective same_content.evidence_roots,
          sort_by-Permuted text_ord (λ t. t.as_str) BoundedText-injective q,
          sort_by-Permuted text_ord (λ t. t.as_str) BoundedText-injective r,
        )
        refl

  snapshot_of_parts :
      (snapshotter : GraphSnapshotter) (fresh_id : Text) (g : SemanticGraph) (cut : TemporalCut)
      (limits : Budget) {nodes : List SemanticNode} {edges : List SemanticEdge}
      {unknowns contradictions : List BoundedText} {d : Digest}
      → (is_empty cut.valid_at || is_empty cut.system_as_of) ≡ false
      → would_exceed limits (saturated_u32 (length g.nodes)) (saturated_u32 (length g.edges)) 1 1
        ≡ false
      → collect node_of g.nodes ≡ ok nodes
      → collect edge_of g.edges ≡ ok edges
      → collect text_of g.unknowns ≡ ok unknowns
      → collect text_of g.contradictions ≡ ok contradictions
      → digest_of (sorted_fields snapshotter cut g nodes edges unknowns contradictions) ≡ ok d
      → snapshot digest_of hex_encode snapshotter fresh_id g cut limits
        ≡ ok (record {
          snapshot_id = fresh_id;
          unsigned = sorted_fields snapshotter cut g nodes edges unknowns contradictions;
          digest = d;
        })
  unfolding snapshot
  snapshot_of_parts snapshotter fresh_id g cut limits e₁ e₂ e₃ e₄ e₅ e₆ e₇ =
      rw (e₁, e₂, e₃, e₄, e₅, e₆, e₇) refl

  -- Graphs of the same content have the same snapshot at a cut, but for its fresh identity, where
  -- hexadecimal tells digests apart.
  pub snapshot-reordered :
      ((a b : Digest) → hex_encode a ≡ hex_encode b → a ≡ b)
      → (snapshotter : GraphSnapshotter) (fresh_id other_id : Text) (g h : SemanticGraph)
        (cut : TemporalCut) (limits : Budget) (s : Snapshot)
      → SameContent g h
      → snapshot digest_of hex_encode snapshotter fresh_id g cut limits ≡ ok s
      → snapshot digest_of hex_encode snapshotter other_id h cut limits
        ≡ ok (record s { snapshot_id = other_id })
  unfolding snapshot
  snapshot-reordered hex_injective snapshotter fresh_id other_id g h cut limits s same_content
        taken =
      let (_, e₁, h₁) =
        >>=-eq-ok
          (refuse_if (is_empty cut.valid_at || is_empty cut.system_as_of)
            (protocol (text "temporal cut is incomplete")))
          _ taken in
      let (_, e₂, h₂) =
        >>=-eq-ok
          (refuse_if
            (would_exceed limits (saturated_u32 (length g.nodes)) (saturated_u32 (length g.edges)) 1
              1)
            SemanticError.budget)
          _ h₁ in
      let (nodes, e₃, h₃) = >>=-eq-ok (collect node_of g.nodes) _ h₂ in
      let (edges, e₄, h₄) = >>=-eq-ok (collect edge_of g.edges) _ h₃ in
      let (unknowns, e₅, h₅) = >>=-eq-ok (collect text_of g.unknowns) _ h₄ in
      let (contradictions, e₆, h₆) = >>=-eq-ok (collect text_of g.contradictions) _ h₅ in
      let (d, e₇, h₇) =
        >>=-eq-ok (digest_of (sorted_fields snapshotter cut g nodes edges unknowns contradictions))
          _ h₆ in
      let (edges', f₄, p₄) = collect-Permuted edge_of edges same_content.edges e₄ in
      let (unknowns', f₅, p₅) = collect-Permuted text_of unknowns same_content.unknowns e₅ in
      let (contradictions', f₆, p₆) =
        collect-Permuted text_of contradictions same_content.contradictions e₆ in
      let same_fields =
        sorted_fields-Permuted snapshotter cut g h nodes hex_injective same_content p₄ p₅ p₆ in
      snapshot_of_parts snapshotter other_id h cut limits (refuse_if-eq-ok _ _ e₁)
        (rw (sym same_content.nodes, sym (length-Permuted same_content.edges))
          (refuse_if-eq-ok
            (would_exceed limits (saturated_u32 (length g.nodes)) (saturated_u32 (length g.edges)) 1
              1)
            _ e₂))
        (ap (collect node_of) (sym same_content.nodes) ∙ e₃) f₄ f₅ f₆
        (ap digest_of (sym same_fields) ∙ e₇)
      ∙ ap {A = UnsignedSnapshot} {B = Result SemanticError Snapshot}
          (λ u. ok (record { snapshot_id = other_id; unsigned = u; digest = d })) (sym same_fields)
      ∙ ap {A = Snapshot} {B = Result SemanticError Snapshot}
          (λ x. ok (record x { snapshot_id = other_id })) (ok-injective h₇)
