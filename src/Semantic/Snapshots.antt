-- ===== src/Semantic/Snapshots.antt =====
-- What the snapshots of crates/anasemble-semantic promise.
use anasemble.Prelude.{
  ◌≡◌, ◌≢◌, ◌↔◌, refl, Bool, true, false, ◌||◌, List, [], ◌∷◌, arith, Result, ok, >>=-eq-ok,
  ok-injective, refuse_if, refuse_if-eq-ok, map, is_empty, length, All, Member, inl, inr,
  Bool-cases,
}
use mathlib.Core.Path.{subst}
use anasemble.Prelude.Outcome.{collect}
use anasemble.Prelude.Permuted.{Permuted, none_left, skip, swap, join, same}
use anasemble.Text.{Text, text}
use anasemble.Text.Order.{Ord, text_ord, pair_ord}
use anasemble.Core.Bounds.{bounded_text-bounds}
use anasemble.Certificate.Signing.{map_err-eq-ok}
use anasemble.Core.{BoundedText, bounded_text, Budget, TemporalCut, would_exceed}
use anasemble.Trace.{Digest}
use anasemble.Semantic.{
  SemanticError, SemanticNode, SemanticEdge, SemanticGraph, GraphSnapshotter, UnsignedSnapshot,
  Snapshot, insert_sorted, sort_by, node_before, edge_before, digest_before, text_before, node_of,
  edge_of, text_of, snapshot, saturated_u32, protocol,
}

module _ {A : Type 0} (lt : A → A → Bool) where
  -- No element comes before its predecessor.
  abbrev pub Ordered : List A → Type 0
  Ordered [] = Unit {0}
  Ordered (x ∷ xs) = All (λ y. lt y x ≡ false) xs × Ordered xs

  Member-insert_sorted :
      (x y : A) (ys : List A) → Member x (insert_sorted lt y ys) ↔ Member x (y ∷ ys)
  unfolding insert_sorted
  Member-insert_sorted x y [] = (λ m. m, λ m. m)
  Member-insert_sorted x y (z ∷ zs) = ground (arith, Member-insert_sorted x y zs)

  pub Member-sort_by : (x : A) (xs : List A) → Member x (sort_by lt xs) ↔ Member x xs
  unfolding sort_by
  Member-sort_by x [] = (λ m. m, λ m. m)
  Member-sort_by x (y ∷ ys) =
      ground (arith, Member-insert_sorted x y (sort_by lt ys), Member-sort_by x ys)

  insert_sorted-Permuted : (x : A) (ys : List A) → Permuted (x ∷ ys) (insert_sorted lt x ys)
  unfolding insert_sorted
  insert_sorted-Permuted x [] = same (x ∷ [])
  insert_sorted-Permuted x (y ∷ ys) = elim (Bool-cases (lt y x)) [
    | inl e ↦ rw e (join (swap x y ys) (skip y (insert_sorted-Permuted x ys)))
    | inr e ↦ rw e (same (x ∷ y ∷ ys))
  ]

  -- A sort keeps the members, each as often.
  pub list-Permuted-sort_by : (xs : List A) → Permuted xs (sort_by lt xs)
  unfolding sort_by
  list-Permuted-sort_by [] = none_left
  list-Permuted-sort_by (x ∷ xs) =
      join (skip x (list-Permuted-sort_by xs)) (insert_sorted-Permuted x (sort_by lt xs))

module _ {A K : Type 0} (o : Ord K) (key : A → K) where
  abbrev pub key_before : A → A → Bool
  key_before a b = o.lt (key a) (key b)

  not_before_trans :
      (a b c : A) → key_before b a ≡ false → key_before c b ≡ false → key_before c a ≡ false
  not_before_trans a b c h k = ground (
    arith,
    o.lt_total (key b) (key a),
    o.eq_iff (key b) (key a),
    o.lt_trans (key c) (key a) (key b),
    o.lt_trans (key a) (key b) (key c),
  )

  All-not_before :
      (a b : A) (xs : List A)
      → key_before b a ≡ false
      → All (λ y. key_before y b ≡ false) xs
      → All (λ y. key_before y a ≡ false) xs
  All-not_before a b [] h k = tt
  All-not_before a b (x ∷ xs) h k = (not_before_trans a b x h k.0, All-not_before a b xs h k.1)

  All-insert_sorted :
      (a x : A) (xs : List A)
      → key_before x a ≡ false
      → All (λ y. key_before y a ≡ false) xs
      → All (λ y. key_before y a ≡ false) (insert_sorted key_before x xs)
  unfolding insert_sorted
  All-insert_sorted a x [] h k = (h, tt)
  All-insert_sorted a x (y ∷ ys) h k = ground (arith, All-insert_sorted a x ys h k.1)

  insert_sorted-Ordered :
      (x : A) (xs : List A)
      → Ordered key_before xs
      → Ordered key_before (insert_sorted key_before x xs)
  unfolding insert_sorted
  insert_sorted-Ordered x [] h = (tt, tt)
  insert_sorted-Ordered x (y ∷ ys) (h, k) = elim (Bool-cases (key_before y x)) [
    | inl e ↦
        ground (arith, All-insert_sorted y x ys (asymmetric y x e) h, insert_sorted-Ordered x ys k)
    | inr e ↦ ground (arith, All-not_before x y ys e h)
  ]
    where
      asymmetric : (y x : A) → key_before y x ≡ true → key_before x y ≡ false
      asymmetric y x e = ground (arith, o.lt_trans (key x) (key y) (key x), o.lt_irrefl (key x))

  pub sort_by-Ordered : (xs : List A) → Ordered key_before (sort_by key_before xs)
  unfolding sort_by
  sort_by-Ordered [] = tt
  sort_by-Ordered (x ∷ xs) = insert_sorted-Ordered x (sort_by key_before xs) (sort_by-Ordered xs)

-- What the entries of a snapshot name in the graph.
abbrev pub node_name : SemanticNode → Text × (Text × Digest)
node_name n = (n.node_id.as_str, (n.kind.as_str, n.digest))

abbrev pub edge_name : SemanticEdge → Text × Text × Text
edge_name e = (e.from.as_str, e.to.as_str, e.kind.as_str)

bounded-as_str : (t : Text) (b : BoundedText) → text_of t ≡ ok b → b.as_str ≡ t
bounded-as_str t b h = (bounded_text-bounds t (map_err-eq-ok (bounded_text t) _ h)).0

node_of-node_name :
    (x : Text × (Text × Digest)) (n : SemanticNode) → node_of x ≡ ok n → node_name n ≡ x
unfolding node_of
node_of-node_name (name, (kind, digest)) n h =
    let (a, p, h₁) = >>=-eq-ok (text_of name) _ h in
    let (b, q, h₂) = >>=-eq-ok (text_of kind) _ h₁ in
    subst (λ m. node_name m ≡ (name, (kind, digest))) (ok-injective h₂)
      (rw (bounded-as_str name a p, bounded-as_str kind b q) refl)

edge_of-edge_name : (x : Text × Text × Text) (e : SemanticEdge) → edge_of x ≡ ok e → edge_name e ≡ x
unfolding edge_of
edge_of-edge_name (from, to, kind) e h =
    let (a, p, h₁) = >>=-eq-ok (text_of from) _ h in
    let (b, q, h₂) = >>=-eq-ok (text_of to) _ h₁ in
    let (c, r, h₃) = >>=-eq-ok (text_of kind) _ h₂ in
    subst (λ m. edge_name m ≡ (from, to, kind)) (ok-injective h₃)
      (rw (bounded-as_str from a p, bounded-as_str to b q, bounded-as_str kind c r) refl)

module _ {E A B : Type 0} (f : A → Result E B) (name : B → A)
    (named_back : (x : A) (y : B) → f x ≡ ok y → name y ≡ x) where
  map-collect : (xs : List A) (ys : List B) → collect f xs ≡ ok ys → map name ys ≡ xs
  unfolding collect
  map-collect [] ys h = subst (λ l. map name l ≡ []) (ok-injective h) refl
  map-collect (x ∷ xs) ys h =
      let (y, p, h₁) = >>=-eq-ok (f x) _ h in
      let (zs, q, h₂) = >>=-eq-ok (collect f xs) _ h₁ in
      subst (λ l. map name l ≡ x ∷ xs) (ok-injective h₂)
        (rw (named_back x y p, map-collect xs zs q) refl)

  map-Permuted : {xs ys : List B} → Permuted xs ys → Permuted (map name xs) (map name ys)
  map-Permuted none_left = none_left
  map-Permuted (skip x p) = skip (name x) (map-Permuted p)
  map-Permuted (swap x y l) = swap (name x) (name y) (map name l)
  map-Permuted (join p q) = join (map-Permuted p) (map-Permuted q)

  -- What is collected and sorted names what was there, each as often.
  sort_by-names :
      (lt : B → B → Bool) (xs : List A) (ys : List B)
      → collect f xs ≡ ok ys
      → Permuted xs (map name (sort_by lt ys))
  sort_by-names lt xs ys h =
      subst (λ l. Permuted l (map name (sort_by lt ys))) (map-collect xs ys h)
        (map-Permuted (list-Permuted-sort_by lt ys))

module _ (digest_of : UnsignedSnapshot → Result SemanticError Digest)
    (hex_encode : Digest → Text) where
  -- The snapshot lists the content of the graph in order, at the cut and under the names of the
  -- snapshotter, and its digest is that of its fields.
  pub record IsCanonical (snapshotter : GraphSnapshotter) (input : SemanticGraph)
      (cut : TemporalCut) (s : Snapshot) : Type 0 where
    pub bound : digest_of s.unsigned ≡ ok s.digest
    pub versioned : s.version ≡ 1
    pub ontology : s.ontology_version ≡ snapshotter.ontology_version
    pub subject : s.subject ≡ snapshotter.subject
    pub taken_at : s.cut ≡ cut
    pub nodes_ordered : Ordered node_before s.nodes
    pub nodes_listed : Permuted input.nodes (map node_name s.nodes)
    pub edges_ordered : Ordered edge_before s.edges
    pub edges_listed : Permuted input.edges (map edge_name s.edges)
    pub contracts_ordered : Ordered (digest_before digest_of hex_encode) s.contracts
    pub contracts_listed : Permuted input.contracts s.contracts
    pub roots_ordered : Ordered (digest_before digest_of hex_encode) s.evidence_roots
    pub roots_listed : Permuted input.evidence_roots s.evidence_roots
    pub unknowns_ordered : Ordered text_before s.unknowns
    pub unknowns_listed : Permuted input.unknowns (map (λ (t : BoundedText). t.as_str) s.unknowns)
    pub contradictions_ordered : Ordered text_before s.contradictions
    pub contradictions_listed :
        Permuted input.contradictions (map (λ (t : BoundedText). t.as_str) s.contradictions)

  -- A snapshot lists exactly the nodes, edges, contracts, evidence roots, unknowns and contradictions
  -- of the graph, each as often as the graph has it and in canonical order; it has the names of the
  -- snapshotter and the cut, and its digest is that of its fields. It is taken only at a cut that is
  -- complete, of a graph that is within the budget.
  pub snapshot-IsCanonical :
      (snapshotter : GraphSnapshotter) (fresh_id : Text) (input : SemanticGraph) (cut : TemporalCut)
      (limits : Budget) (s : Snapshot)
      → snapshot digest_of hex_encode snapshotter fresh_id input cut limits ≡ ok s
      → IsCanonical snapshotter input cut s
        × (would_exceed limits
              (saturated_u32 (length input.nodes))
              (saturated_u32 (length input.edges))
              1
              1
            ≡ false)
        × (cut.valid_at ≢ [])
        × (cut.system_as_of ≢ [])
  unfolding snapshot
  snapshot-IsCanonical snapshotter fresh_id input cut limits s h =
      let (_, e₁, h₁) =
        >>=-eq-ok
          (refuse_if (is_empty cut.valid_at || is_empty cut.system_as_of)
            (protocol (text "temporal cut is incomplete")))
          _ h in
      let (_, e₂, h₂) =
        >>=-eq-ok
          (refuse_if
            (would_exceed limits (saturated_u32 (length input.nodes))
              (saturated_u32 (length input.edges)) 1 1)
            SemanticError.budget)
          _ h₁ in
      let (nodes, e₃, h₃) = >>=-eq-ok (collect node_of input.nodes) _ h₂ in
      let (edges, e₄, h₄) = >>=-eq-ok (collect edge_of input.edges) _ h₃ in
      let (unknowns, e₅, h₅) = >>=-eq-ok (collect text_of input.unknowns) _ h₄ in
      let (contradictions, e₆, h₆) = >>=-eq-ok (collect text_of input.contradictions) _ h₅ in
      let (d, e₇, h₇) = >>=-eq-ok (digest_of _) _ h₆ in
      (
        subst (IsCanonical snapshotter input cut) (ok-injective h₇) (record {
          bound = e₇;
          versioned = refl;
          ontology = refl;
          subject = refl;
          taken_at = refl;
          nodes_ordered = sort_by-Ordered text_ord (λ n. n.node_id.as_str) nodes;
          nodes_listed =
              sort_by-names node_of node_name node_of-node_name node_before input.nodes nodes e₃;
          edges_ordered =
              sort_by-Ordered (pair_ord text_ord (pair_ord text_ord text_ord))
                (λ e. (e.from.as_str, (e.to.as_str, e.kind.as_str))) edges;
          edges_listed =
              sort_by-names edge_of edge_name edge_of-edge_name edge_before input.edges edges e₄;
          contracts_ordered = sort_by-Ordered text_ord hex_encode input.contracts;
          contracts_listed =
              list-Permuted-sort_by (digest_before digest_of hex_encode) input.contracts;
          roots_ordered = sort_by-Ordered text_ord hex_encode input.evidence_roots;
          roots_listed =
              list-Permuted-sort_by (digest_before digest_of hex_encode) input.evidence_roots;
          unknowns_ordered = sort_by-Ordered text_ord (λ t. t.as_str) unknowns;
          unknowns_listed =
              sort_by-names text_of (λ t. t.as_str) bounded-as_str text_before input.unknowns
                unknowns e₅;
          contradictions_ordered = sort_by-Ordered text_ord (λ t. t.as_str) contradictions;
          contradictions_listed =
              sort_by-names text_of (λ t. t.as_str) bounded-as_str text_before input.contradictions
                contradictions e₆;
        }),
        refuse_if-eq-ok
            (would_exceed limits (saturated_u32 (length input.nodes))
              (saturated_u32 (length input.edges)) 1 1)
            _ e₂,
        λ p. valid cut p e₁,
        λ p. known cut p e₁,
      )
    where
      valid :
          (c : TemporalCut)
          → c.valid_at ≡ []
          → refuse_if
              (is_empty c.valid_at || is_empty c.system_as_of)
              (protocol (text "temporal cut is incomplete"))
            ≡ ok tt
          → ⊥
      valid c p k = ground arith

      known :
          (c : TemporalCut)
          → c.system_as_of ≡ []
          → refuse_if
              (is_empty c.valid_at || is_empty c.system_as_of)
              (protocol (text "temporal cut is incomplete"))
            ≡ ok tt
          → ⊥
      known c p k = ground arith
