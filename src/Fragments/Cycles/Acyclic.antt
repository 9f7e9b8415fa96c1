-- ===== src/Fragments/Cycles/Acyclic.antt =====
-- The search of `reject_cycles` in src/fragments.rs ends, and finds exactly the cycles.
use anasemble.Prelude.{
  ℕ, zero, suc, ◌+◌, ◌≤◌, ◌<◌, ◌≡◌, ◌↔◌, refl, sym, ap, ◌∙◌, false, Option, some, List, [], ◌∷◌,
  map, arith, inl, inr, Bool-cases, Result, ok, err, ◌>>=◌, length, Member, if◌then◌else◌,
}
use mathlib.Core.Path.{subst}
use anasemble.Text.{Text}
use anasemble.Text.Order.{text_eq_iff, text_ord}
use anasemble.BTreeMap.{get}
use anasemble.Model.GrammarCheck.{contains}
use anasemble.Fragments.Cycles.Chains.{
  contains_iff, get_of_key, key_of_get, Edge, Chain, one, more, IsAcyclic, IsClosed, Ranked,
  Ranked-acyclic,
}
use anasemble.Fragments.Cycles.{
  Halt, raised, panicked, out_of_fuel, Graph, Visits, cycle_error, remove, visit_all, enter, visit,
  reject_cycles,
}

module _ (graph : Graph) where
  -- What a search from the nodes promises.
  abbrev Fine : List Text → Visits → Result Halt Visits → Type 0
  Fine nodes s (ok s') =
      (s'.visiting ≡ s.visiting)
      × Ranked graph s'.visited
      × ((v : Text) → Member v s.visited → Member v s'.visited)
      × ((v : Text) → Member v nodes → Member v s'.visited)
  Fine nodes s (err (raised e)) = (e ≡ cycle_error) × ((a : Text) × Chain graph a a)
  Fine nodes s (err panicked) = ⊥
  Fine nodes s (err out_of_fuel) = ⊥

  Fine-next :
      (n : Text) (ns : List Text) (s : Visits) (r : Result Halt Visits)
      (next : Visits → Result Halt Visits)
      → Fine (n ∷ []) s r
      → ((s' : Visits) → s'.visiting ≡ s.visiting → Ranked graph s'.visited → Fine ns s' (next s'))
      → Fine (n ∷ ns) s (r >>= next)
  Fine-next n ns s (err (raised e)) next h k = h
  Fine-next n ns s (err panicked) next h k = h
  Fine-next n ns s (err out_of_fuel) next h k = h
  Fine-next n ns s (ok s') next (same, ranked, kept, found) k = rest (next s') (k s' same ranked)
    where
      rest : (r : Result Halt Visits) → Fine ns s' r → Fine (n ∷ ns) s r
      rest (err (raised e)) h = h
      rest (err panicked) h = h
      rest (err out_of_fuel) h = h
      rest (ok s'') (same', ranked', kept', found') = (
        same' ∙ same,
        ranked',
        λ v m. kept' v (kept v m),
        λ v m. elim m [ inl e ↦ kept' v (found v (inl e)) | inr m' ↦ found' v m' ],
      )

  -- A node may be visited with these nodes on the path.
  abbrev Visitable : (Text → Visits → Result Halt Visits) → List Text → Text → Type 0
  Visitable call path node =
      (s : Visits) → s.visiting ≡ path → Ranked graph s.visited → Fine (node ∷ []) s (call node s)

  visit_all-Fine :
      (call : Text → Visits → Result Halt Visits) (path nodes : List Text)
      → ((node : Text) → Member node nodes → Visitable call path node)
      → (s : Visits) → s.visiting ≡ path
      → Ranked graph s.visited
      → Fine nodes s (visit_all call nodes s)
  unfolding visit_all
  visit_all-Fine call path [] h s e r = (refl, r, λ v m. m, λ v m. absurd m)
  visit_all-Fine call path (n ∷ ns) h s e r =
      Fine-next n ns s (call n s) (visit_all call ns) (h n (inl refl) s e r) (λ s' same ranked.
        visit_all-Fine call path ns (λ node m. h node (inr m)) s' (same ∙ e) ranked)

  remove_absent : (xs : List Text) (x : Text) → contains xs x ≡ false → remove xs x ≡ xs
  unfolding remove contains
  remove_absent [] x h = refl
  remove_absent (y ∷ ys) x h = ground (arith, remove_absent ys x)

  remove_head : (x : Text) (xs : List Text) → remove (x ∷ xs) x ≡ remove xs x
  unfolding remove
  remove_head x xs = ground (arith, text_eq_iff x x)

  -- The nodes that are not on the path.
  free : List Text → Graph → ℕ
  free path [] = 0
  free path ((k, ds) ∷ m) = (if contains path k then 0 else 1) + free path m

  free-le : (path : List Text) (x : Text) (m : Graph) → free (x ∷ path) m ≤ free path m
  unfolding free contains
  free-le path x [] = omega arith
  free-le path x ((k, ds) ∷ m) = ground (arith, free-le path x m)

  free-lt :
      (path : List Text) (x : Text) (m : Graph) (ds : List Text)
      → get text_ord m x ≡ some ds
      → contains path x ≡ false
      → free (x ∷ path) m < free path m
  unfolding free contains get
  free-lt path x [] ds h k = absurd (ground arith)
  free-lt path x ((j, es) ∷ m) ds h k =
      ground (arith, free-le path x m, free-lt path x m ds, text_eq_iff j x, text_eq_iff x j)

  free-empty : (m : Graph) → free [] m ≡ length m
  unfolding free contains
  free-empty [] = refl
  free-empty ((k, ds) ∷ m) = ground (arith, free-empty m)

  -- Leaving a node: it goes off the path and in front of what was visited.
  abbrev leave : Text → Visits → Result Halt Visits
  leave node s' = ok (record { visiting = remove s'.visiting node; visited = node ∷ s'.visited })

  Fine-leave :
      (node : Text) (ds : List Text) (s : Visits) (r : Result Halt Visits)
      → get text_ord graph node ≡ some ds
      → contains s.visiting node ≡ false
      → Fine ds (record s { visiting = node ∷ s.visiting }) r
      → Fine (node ∷ []) s (r >>= leave node)
  Fine-leave node ds s (err (raised e)) g c h = h
  Fine-leave node ds s (err panicked) g c h = h
  Fine-leave node ds s (err out_of_fuel) g c h = h
  Fine-leave node ds s (ok s') g c (same, ranked, kept, found) = (
    rw same (rw (remove_head node s.visiting) (remove_absent s.visiting node c)),
    ((λ b (es, g', m). found b (subst (Member b) (some_injective (sym g' ∙ g)) m)), ranked),
    λ v m. inr (kept v m),
    λ v m. elim m [ inl e ↦ inl e | inr n ↦ absurd n ],
  )
    where
      some_injective : {a b : List Text} → ◌≡◌ {A = Option (List Text)} (some a) (some b) → a ≡ b
      some_injective e = cc

  Fine-enter :
      (call : Text → Visits → Result Halt Visits) (node : Text) (ds : List Text) (s : Visits)
      → get text_ord graph node ≡ some ds
      → contains s.visiting node ≡ false
      → Ranked graph s.visited
      → ((d : Text) → Member d ds → Visitable call (node ∷ s.visiting) d)
      → Fine (node ∷ []) s (enter graph call node s)
  unfolding enter
  Fine-enter call node ds s g c r h = rw g (
      Fine-leave node ds s (visit_all call ds (record s { visiting = node ∷ s.visiting })) g c (
        visit_all-Fine call (node ∷ s.visiting) ds h (record s { visiting = node ∷ s.visiting })
          refl r))

  -- A visit with more fuel than nodes off the path neither stops short nor panics: what it visits is
  -- ranked, or there is a cycle.
  visit-Fine :
      IsClosed graph
      → (fuel : ℕ) (node : Text) (ds : List Text) (s : Visits) → get text_ord graph node ≡ some ds
      → free s.visiting graph < fuel
      → Ranked graph s.visited
      → ((v : Text) → Member v s.visiting → Chain graph v node)
      → Fine (node ∷ []) s (visit graph fuel node s)
  unfolding visit
  visit-Fine closed zero node ds s g f r p = absurd (omega arith)
  visit-Fine closed (suc fuel) node ds s g f r p = elim (Bool-cases (contains s.visiting node)) [
    | inl c ↦ rw c (refl, (node, p node ((contains_iff s.visiting node).0 c)))
    | inr c ↦ elim (Bool-cases (contains s.visited node)) [
      | inl v ↦
          rw (c, v)
            (
              refl,
              r,
              λ w m. m,
              λ w m. elim m [
                | inl e ↦ subst (λ x. Member x s.visited) e ((contains_iff s.visited node).0 v)
                | inr n ↦ absurd n
              ],
            )
      | inr v ↦
          rw (c, v)
            (Fine-enter (visit graph fuel) node ds s g c r (λ d m s' e r'.
              let edge : Edge graph node d = (ds, g, m) in
              visit-Fine closed fuel d (closed node d edge).0 s' (closed node d edge).1
                (rw e (omega (arith, free-lt s.visiting node graph ds g c))) r'
                (λ w n. elim (subst (Member w) e n) [
                  | inl q ↦ subst (λ x. Chain graph x d) q (one edge)
                  | inr n' ↦ more (p w n') edge
                ])))
    ]
  ]

  -- The answer on a graph.
  abbrev pub Decided : Result Halt (Unit {0}) → Type 0
  Decided (ok u) = IsAcyclic graph
  Decided (err (raised e)) = (e ≡ cycle_error) × ((a : Text) × Chain graph a a)
  Decided (err panicked) = ⊥
  Decided (err out_of_fuel) = ⊥

  Decided-reject :
      (s : Visits) (r : Result Halt Visits) (nodes : List Text)
      → ((a : Text) (ds : List Text) → get text_ord graph a ≡ some ds → Member a nodes)
      → Fine nodes s r
      → Decided (r >>= λ _. ok tt)
  Decided-reject s (err (raised e)) nodes all h = h
  Decided-reject s (err panicked) nodes all h = h
  Decided-reject s (err out_of_fuel) nodes all h = h
  Decided-reject s (ok s') nodes all (same, ranked, kept, found) = λ a p.
      let (ds, g) = start p in Ranked-acyclic graph s'.visited a ranked (found a (all a ds g)) p
    where
      start : {a b : Text} → Chain graph a b → (ds : List Text) × (get text_ord graph a ≡ some ds)
      start (one (ds, g, m)) = (ds, g)
      start (more p e) = start p

  -- Where every dependency is a node, the search passes a graph only if it has no cycle, and fails
  -- only with the error of a cycle, where there is one: it neither panics nor runs out of fuel.
  pub reject_cycles-Decided : IsClosed graph → Decided (reject_cycles graph)
  unfolding reject_cycles
  reject_cycles-Decided closed =
      let begin : Visits = record { visiting = []; visited = [] } in
      let nodes = map (λ (e : Text × List Text). e.0) graph in
      Decided-reject begin (visit_all (visit graph (suc (length graph))) nodes begin) nodes
        (λ a ds g. key_of_get graph a ds g)
        (visit_all-Fine (visit graph (suc (length graph))) [] nodes
          (λ n m s e r.
            let (ds, g) = get_of_key graph n m in
            visit-Fine closed (suc (length graph)) n ds s g (rw e (omega (arith, free-empty graph)))
              r (λ v q. absurd (subst (Member v) e q)))
          begin refl tt)

  -- Where every dependency is a node, the search ends without a panic and with fuel to spare: it
  -- passes exactly the graphs without a cycle, and raises the error of a cycle for exactly the others.
  pub reject_cycles_iff :
      IsClosed graph
      → ((reject_cycles graph ≡ ok tt) ↔ IsAcyclic graph)
        × ((reject_cycles graph ≡ err (raised cycle_error)) ↔ ((a : Text) × Chain graph a a))
  reject_cycles_iff closed = from_Decided (reject_cycles graph) (reject_cycles-Decided closed)
    where
      ok_err : {e : Halt} → ◌≡◌ {A = Result Halt (Unit {0})} (ok tt) (err e) → ⊥
      ok_err q = ground arith

      from_Decided :
          (r : Result Halt (Unit {0}))
          → Decided r
          → ((r ≡ ok tt) ↔ IsAcyclic graph)
            × ((r ≡ err (raised cycle_error)) ↔ ((a : Text) × Chain graph a a))
      from_Decided (ok u) d =
          ((λ e. d, λ a. refl), (λ e. absurd (ok_err e), λ (a, p). absurd (d a p)))
      from_Decided (err (raised e)) (same, (a, p)) = (
        (λ q. absurd (ok_err (sym q)), λ none_at. absurd (none_at a p)),
        (λ q. (a, p), λ q. ap (λ x. err (raised x)) same),
      )
      from_Decided (err panicked) d = absurd d
      from_Decided (err out_of_fuel) d = absurd d
