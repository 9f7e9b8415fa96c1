-- ===== src/Fragments/Collect/Evidence.antt =====
-- What the evidence that `collect_at` of src/fragments.rs returns is.
use anasemble.Prelude.{
  ℕ, ◌≤◌, ◌≡◌, ◌↔◌, ◌⊎◌, refl, Bool, true, false, not, ◌||◌, Option, some, List, [], ◌∷◌, map,
  arith, inl, inr, Option-cases, Bool-cases, Result, ok, err, >>=-eq-ok, ok-injective, refuse_if,
  refuse_if-eq-ok, Fails, Fails-at, Fails-bind, Fails-guard, map_err, any, All, All-at,
  any-eq-false, Member, ltb, length,
}
use mathlib.Core.Path.{subst}
use anasemble.Text.{Text}
use anasemble.Text.Order.{text_eq, text_eq_iff, text_lt, text_ord, nat_ord, pair_ord}
use anasemble.BTreeMap.{BTreeMap, get, contains_key}
use anasemble.BTreeMap.Sorted.{Above, Sorted}
use anasemble.Certificate.Signing.{map_err-eq-ok}
use anasemble.Semantic.Snapshots.{Ordered, Member-sort_by, sort_by-Ordered}
use anasemble.Model.{Error, invalid_evidence, insufficient_evidence}
use anasemble.Fragments.{Crypto, Envelope, CollectedEvidence}
use anasemble.Fragments.Cycles.{Halt, raised, panicked, out_of_fuel, Graph, reject_cycles}
use anasemble.Fragments.Cycles.Chains.{IsClosed, IsAcyclic}
use anasemble.Fragments.Cycles.Acyclic.{reject_cycles_iff, reject_cycles-Decided, Decided}
use anasemble.Fragments.Collect.{
  Gathered, Trusted, is_contract, is_state_schema, sort_key, envelope_before, dependency_graph,
  any_unavailable, parse_optional_time, accept_all, collect_at,
}
use anasemble.Fragments.Collect.Accepted.{IsAccepted, Apart, audited, identity, accept_all-Gathers}

-- In strictly ascending order, so without duplicates.
abbrev pub Ascending : List Text → Type 0
Ascending [] = Unit {0}
Ascending (x ∷ xs) = All (λ y. text_lt x y ≡ true) xs × Ascending xs

abbrev keys : BTreeMap Text (Unit {0}) → List Text
keys m = map (λ e. e.0) m

Above-keys :
    (x : Text) (m : BTreeMap Text (Unit {0}))
    → Above text_ord x m
    → All (λ y. text_lt x y ≡ true) (keys m)
Above-keys x [] a = tt
Above-keys x ((y, u) ∷ m) (h, a) = (h, Above-keys x m a)

Sorted-keys : (m : BTreeMap Text (Unit {0})) → Sorted text_ord m → Ascending (keys m)
Sorted-keys [] s = tt
Sorted-keys ((x, u) ∷ m) (a, s) = (Above-keys x m a, Sorted-keys m s)

Member-keys :
    (m : BTreeMap Text (Unit {0})) (x : Text) → Member x (keys m) ↔ (get text_ord m x ≡ some tt)
unfolding get
Member-keys [] x = (λ h. absurd h, λ h. absurd (ground arith))
Member-keys ((y, u) ∷ m) x = ground (arith, text_eq_iff y x, Member-keys m x)

length-keys : (m : BTreeMap Text (Unit {0})) → length (keys m) ≡ length m
length-keys [] = refl
length-keys ((x, u) ∷ m) = omega (arith, length-keys m)

-- A Boolean search that succeeds has a witness.
of_any :
    {A : Type 0} (p : A → Bool) (xs : List A)
    → any p xs ≡ true
    → (x : A) × Member x xs × (p x ≡ true)
of_any p [] h = absurd (ground arith)
of_any p (x ∷ xs) h = elim (Bool-cases (p x)) [
  | inl e ↦ (x, inl refl, e)
  | inr e ↦ let (y, m, q) = of_any p xs (ground arith) in (y, inr m, q)
]

some_of_contains_key :
    (graph : Graph) (d : Text)
    → not (contains_key text_ord graph d) ≡ false
    → (es : List Text) × (get text_ord graph d ≡ some es)
unfolding contains_key
some_of_contains_key graph d h = elim (Option-cases (get text_ord graph d)) [
  | inl e ↦ absurd (ground (arith, e))
  | inr found ↦ found
]

available :
    (graph : Graph) (ds : List Text) (d : Text)
    → any (λ x. not (contains_key text_ord graph x)) ds ≡ false
    → Member d ds
    → (es : List Text) × (get text_ord graph d ≡ some es)
available graph ds d h m = some_of_contains_key graph d (
    All-at (λ x. not (contains_key text_ord graph x) ≡ false) d ds
      (any-eq-false (λ x. not (contains_key text_ord graph x)) ds h) m)

pub any_unavailable-Member :
    (graph rest : Graph) (a : Text) (ds : List Text) (d : Text)
    → any_unavailable graph rest ≡ false
    → get text_ord rest a ≡ some ds
    → Member d ds
    → (es : List Text) × (get text_ord graph d ≡ some es)
unfolding any_unavailable get
any_unavailable-Member graph [] a ds d h g m = absurd (ground arith)
any_unavailable-Member graph ((j, es) ∷ rest) a ds d h g m = elim (Bool-cases (text_eq j a)) [
  | inl e ↦ available graph es d (ground arith) (subst (Member d) (some_injective (ground arith)) m)
  | inr e ↦ any_unavailable-Member graph rest a ds d (ground arith) (ground arith) m
]
  where
    some_injective : {a b : List Text} → ◌≡◌ {A = Option (List Text)} (some a) (some b) → a ≡ b
    some_injective e = cc

abbrev IsRaised : Halt → Type 0
IsRaised halt = (e : Error) × (halt ≡ raised e)

map_err-raised {ℓ} : {A : Type ℓ} (r : Result Error A) → Fails IsRaised (map_err r raised)
map_err-raised (ok a) = tt
map_err-raised (err e) = (e, refl)

Decided-IsRaised : (graph : Graph) (r : Result Halt (Unit {0})) → Decided graph r → Fails IsRaised r
Decided-IsRaised graph (ok u) d = tt
Decided-IsRaised graph (err (raised e)) d = (e, refl)
Decided-IsRaised graph (err panicked) d = absurd d
Decided-IsRaised graph (err out_of_fuel) d = absurd d

-- The evidence is the fragments in order of issuer, sequence number and content, each of them
-- accepted and no two of one identity or content; their dependencies are among them and have no
-- cycle; their domains are at least as many as required, and contract and state schema are there.
module _ (c : Crypto) (trusted : Trusted) (component interface_version : Text) where
  pub record IsEvidence (time : Option ℕ) (required_domains : ℕ) (envelopes : List Envelope)
      (found : CollectedEvidence) : Type 0 where
    pub accepted : All (IsAccepted c trusted component interface_version time) envelopes
    pub apart : Apart envelopes
    pub members : (e : Envelope) → Member e found.envelopes ↔ Member e envelopes
    pub ordered : Ordered envelope_before found.envelopes
    pub closed : IsClosed (dependency_graph envelopes)
    pub acyclic : IsAcyclic (dependency_graph envelopes)
    pub domains :
        (d : Text)
        → Member d found.domains ↔ ((e : Envelope) × Member e envelopes × (e.failure_domain ≡ d))
    pub domains_distinct : Ascending found.domains
    pub quorum : required_domains ≤ length found.domains
    pub has_contract : (e : Envelope) × Member e envelopes × (is_contract e.kind ≡ true)
    pub has_schema : (e : Envelope) × Member e envelopes × (is_state_schema e.kind ≡ true)
    pub audits : map audited found.audit ≡ map identity envelopes

  -- What is collected is evidence: the fragments in order of issuer, sequence number and content,
  -- each accepted at the parsed time and no two of one identity or one content. Their dependencies
  -- are among them and have no cycle. The domains are exactly theirs, without duplicates and at least
  -- as many as required, a contract and a state schema are there, and the audit lists them all.
  pub collect_at-IsEvidence :
      (envelopes : List Envelope) (required_domains : ℕ) (verification_time : Option Text)
      (found : CollectedEvidence)
      → collect_at c envelopes trusted required_domains component interface_version
          verification_time
        ≡ ok found
      → (time : Option ℕ) × (parse_optional_time c verification_time ≡ ok time)
        × IsEvidence time required_domains envelopes found
  unfolding collect_at
  collect_at-IsEvidence envelopes required_domains verification_time found h =
      let start : Gathered = record {
        identities = [];
        content_digests = [];
        domains = [];
        audit = [];
      } in
      let graph = dependency_graph envelopes in
      let (time, e₁, h₁) =
        >>=-eq-ok (map_err (parse_optional_time c verification_time) raised) _ h in
      let (g, e₂, h₂) =
        >>=-eq-ok
          (map_err (accept_all c trusted component interface_version time envelopes start) raised) _
          h₁ in
      let (_, e₃, h₃) =
        >>=-eq-ok
          (refuse_if (any_unavailable graph graph)
            (raised (invalid_evidence "fragment dependency is unavailable")))
          _ h₂ in
      let (_, e₄, h₄) = >>=-eq-ok (reject_cycles graph) _ h₃ in
      let (_, e₅, h₅) =
        >>=-eq-ok
          (refuse_if (ltb (length g.domains) required_domains)
            (raised (insufficient_evidence "insufficient independent failure domains")))
          _ h₄ in
      let (_, e₆, h₆) =
        >>=-eq-ok
          (refuse_if
            (not (any (λ (e : Envelope). is_contract e.kind) envelopes)
              || not (any (λ (e : Envelope). is_state_schema e.kind) envelopes))
            (raised (insufficient_evidence "contract and state schema fragments are mandatory")))
          _ h₅ in
      let gathers =
        accept_all-Gathers c trusted component interface_version time envelopes start g (
          map_err-eq-ok (accept_all c trusted component interface_version time envelopes start)
            raised e₂) in
      let closed : IsClosed graph = λ a b (ds, k, m).
        any_unavailable-Member graph graph a ds b
          (refuse_if-eq-ok (any_unavailable graph graph) _ e₃) k m in
      let kinds =
        refuse_if-eq-ok
          (not (any (λ (e : Envelope). is_contract e.kind) envelopes)
            || not (any (λ (e : Envelope). is_state_schema e.kind) envelopes))
          _ e₆ in
      (
        time,
        map_err-eq-ok (parse_optional_time c verification_time) raised e₁,
        subst (IsEvidence time required_domains envelopes) (ok-injective h₆) (record {
          accepted = gathers.accepted;
          apart = gathers.apart;
          members = λ e. Member-sort_by envelope_before e envelopes;
          ordered =
              sort_by-Ordered (pair_ord text_ord (pair_ord nat_ord text_ord)) sort_key envelopes;
          closed = closed;
          acyclic = (reject_cycles_iff graph closed).0.0 e₄;
          domains = λ d. domain_members g envelopes d (gathers.domains d);
          domains_distinct = Sorted-keys g.domains (gathers.sorted tt);
          quorum = ground (
            arith,
            refuse_if-eq-ok (ltb (length g.domains) required_domains) _ e₅,
            length-keys g.domains,
          );
          has_contract =
              of_any (λ (e : Envelope). is_contract e.kind) envelopes (ground (arith, kinds));
          has_schema =
              of_any (λ (e : Envelope). is_state_schema e.kind) envelopes (ground (arith, kinds));
          audits = gathers.audits;
        }),
      )
    where
      domain_members :
          (g : Gathered) (es : List Envelope) (d : Text)
          → ((get text_ord g.domains d ≡ some tt) ↔ (
              (get {V = Unit {0}} text_ord [] d ≡ some tt)
              ⊎ ((e : Envelope) × Member e es × (e.failure_domain ≡ d))))
          → Member d (keys g.domains) ↔ ((e : Envelope) × Member e es × (e.failure_domain ≡ d))
      domain_members g es d (there, back) = (
        λ m. elim (there ((Member-keys g.domains d).0 m)) [
          | inl l ↦ absurd ((Member-keys [] d).1 l)
          | inr r ↦ r
        ],
        λ w. (Member-keys g.domains d).1 (back (inr w)),
      )

  -- A collection that fails raises one of the program's errors: the search for cycles neither indexes
  -- the graph without the key nor runs out of fuel.
  pub collect_at-raised :
      (envelopes : List Envelope) (required_domains : ℕ) (verification_time : Option Text)
      (halt : Halt)
      → collect_at c envelopes trusted required_domains component interface_version
          verification_time
        ≡ err halt
      → (e : Error) × (halt ≡ raised e)
  unfolding collect_at
  collect_at-raised envelopes required_domains verification_time halt h =
      let start : Gathered = record {
        identities = [];
        content_digests = [];
        domains = [];
        audit = [];
      } in
      let graph = dependency_graph envelopes in
      Fails-at IsRaised
        (collect_at c envelopes trusted required_domains component interface_version
          verification_time)
        halt
        (Fails-bind IsRaised (map_err (parse_optional_time c verification_time) raised) _
          (map_err-raised (parse_optional_time c verification_time))
          (λ time.
            Fails-bind IsRaised
              (map_err (accept_all c trusted component interface_version time envelopes start)
                raised)
              _
              (map_err-raised
                (accept_all c trusted component interface_version time envelopes start))
              (λ g.
                Fails-guard IsRaised (any_unavailable graph graph) _ _ (_, refl)
                  (λ k.
                    Fails-bind IsRaised (reject_cycles graph) _
                      (Decided-IsRaised graph (reject_cycles graph) (
                        reject_cycles-Decided graph
                          (λ a b (ds, q, m). any_unavailable-Member graph graph a ds b k q m)))
                      (λ _.
                        Fails-guard IsRaised (ltb (length g.domains) required_domains) _ _ (_, refl)
                          (λ _.
                            Fails-guard IsRaised
                              (not (any (λ (e : Envelope). is_contract e.kind) envelopes)
                                || not (any (λ (e : Envelope). is_state_schema e.kind) envelopes))
                              _ _ (_, refl) (λ _. tt)))))))
        h
