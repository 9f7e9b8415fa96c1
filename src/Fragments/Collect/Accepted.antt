-- ===== src/Fragments/Collect/Accepted.antt =====
-- What the loop of `collect_at` in src/fragments.rs accepts.
use anasemble.Prelude.{
  ℕ, ◌≡◌, ◌↔◌, ◌⊎◌, refl, sym, ap, ◌∙◌, true, false, not, ◌||◌, Option, some, List, [], ◌∷◌, ◌++◌,
  map, append_assoc, append-nil, arith, inl, inr, ok, >>=-eq-ok, ok-injective, refuse_if,
  refuse_if-eq-ok, ok_or, any, All, Member, Bool-cases,
}
use mathlib.Core.Path.{subst}
use anasemble.Text.{Text}
use anasemble.Text.Order.{text_eq, text_eq_iff, text_ord}
use anasemble.BTreeMap.{get, insert, get-insert}
use anasemble.BTreeMap.Sorted.{Sorted, insert-Sorted}
use anasemble.Certificate.Signing.{ok_or-eq-ok}
use anasemble.Model.{Error, invalid_evidence}
use anasemble.Model.GrammarCheck.{contains}
use anasemble.Fragments.{Crypto, Envelope, IssuerPolicy, domain_of, VerificationAudit}
use anasemble.Fragments.Signatures.{verify_signature}
use anasemble.Fragments.Collect.{
  kind_matches, Gathered, Trusted, same_identity, check_envelope, accept, accept_all,
}

not_text_eq→eq : (a b : Text) (e : Error) → refuse_if (not (text_eq a b)) e ≡ ok tt → a ≡ b
not_text_eq→eq a b e h = ground (arith, refuse_if-eq-ok (not (text_eq a b)) e h, text_eq_iff a b)

-- The two fragments have not one issuer and sequence number, nor one content.
abbrev pub Differs : Envelope → Envelope → Type 0
Differs e f =
    (same_identity (e.issuer, e.sequence) (f.issuer, f.sequence) ≡ false)
    × (text_eq e.content_digest f.content_digest ≡ false)

abbrev pub Apart : List Envelope → Type 0
Apart [] = Unit {0}
Apart (e ∷ es) = All (Differs e) es × Apart es

-- The loop has not met the identity nor the content of the fragment.
abbrev Unmet : Gathered → Envelope → Type 0
Unmet g e =
    (any (λ i. same_identity i (e.issuer, e.sequence)) g.identities ≡ false)
    × (contains g.content_digests e.content_digest ≡ false)

-- The fragment that an entry of the audit is about.
abbrev pub audited : VerificationAudit → Text × (ℕ × Text)
audited a = (a.issuer, (a.sequence, a.content_digest))

abbrev pub identity : Envelope → Text × (ℕ × Text)
identity e = (e.issuer, (e.sequence, e.content_digest))

module _ (c : Crypto) (trusted : Trusted) (component interface_version : Text)
    (time : Option ℕ) where
  -- The fragment is for the target, of the kind that its content has, and its issuer is trusted: it
  -- is in the issuer's domain, carries the digest of its content and a signature under the policy.
  pub record IsAccepted (e : Envelope) : Type 0 where
    pub kind : kind_matches e.kind e.content ≡ true
    pub component_eq : e.component ≡ component
    pub interface_eq : e.interface_version ≡ interface_version
    pub policy : IssuerPolicy
    pub known : get text_ord trusted e.issuer ≡ some policy
    pub domain : e.failure_domain ≡ domain_of policy
    pub digest : c.digest e.content ≡ ok e.content_digest
    pub key_id : Text
    pub signed : verify_signature c e policy time ≡ ok key_id

  check_envelope-IsAccepted :
      (e : Envelope) (key_id : Text)
      → check_envelope c trusted component interface_version time e ≡ ok key_id
      → IsAccepted e
  unfolding check_envelope
  check_envelope-IsAccepted e key_id h =
      let (_, e₁, h₁) =
        >>=-eq-ok
          (refuse_if (not (kind_matches e.kind e.content))
            (invalid_evidence "fragment kind does not match its M0 content schema"))
          _ h in
      let (_, e₂, h₂) =
        >>=-eq-ok
          (refuse_if
            (not (text_eq e.component component)
              || not (text_eq e.interface_version interface_version))
            (invalid_evidence "fragment targets another component or interface"))
          _ h₁ in
      let (_, e₃, h₃) =
        >>=-eq-ok
          (ok_or (c.strptime e.issued_at) (invalid_evidence "issued_at is not canonical RFC3339")) _
          h₂ in
      let (policy, e₄, h₄) =
        >>=-eq-ok
          (ok_or (get text_ord trusted e.issuer)
            (invalid_evidence "fragment issuer is not trusted"))
          _ h₃ in
      let (_, e₅, h₅) =
        >>=-eq-ok
          (refuse_if (not (text_eq e.failure_domain (domain_of policy)))
            (invalid_evidence "fragment failure domain violates issuer policy"))
          _ h₄ in
      let (d, e₆, h₆) = >>=-eq-ok (c.digest e.content) _ h₅ in
      let (_, e₇, h₇) =
        >>=-eq-ok
          (refuse_if (not (text_eq d e.content_digest))
            (invalid_evidence "fragment content digest mismatch"))
          _ h₆ in
      let target =
        refuse_if-eq-ok
          (not (text_eq e.component component)
            || not (text_eq e.interface_version interface_version))
          _ e₂ in
      record {
        kind = ground (arith, refuse_if-eq-ok (not (kind_matches e.kind e.content)) _ e₁);
        component_eq = ground (arith, target, text_eq_iff e.component component);
        interface_eq = ground (arith, target, text_eq_iff e.interface_version interface_version);
        policy = policy;
        known = ok_or-eq-ok (get text_ord trusted e.issuer) _ e₄;
        domain = not_text_eq→eq e.failure_domain (domain_of policy) _ e₅;
        digest = e₆ ∙ ap ok (not_text_eq→eq d e.content_digest _ e₇);
        key_id = key_id;
        signed = h₇;
      }

  -- One round of the loop.
  record Round (e : Envelope) (g g' : Gathered) : Type 0 where
    accepted : IsAccepted e
    unmet : Unmet g e
    identities : g'.identities ≡ (e.issuer, e.sequence) ∷ g.identities
    digests : g'.content_digests ≡ e.content_digest ∷ g.content_digests
    domains : g'.domains ≡ insert text_ord g.domains e.failure_domain tt
    audits : map audited g'.audit ≡ map audited g.audit ++ (identity e ∷ [])

  map_append :
      {A B : Type 0} (f : A → B) (xs : List A) (y : A)
      → map f (xs ++ (y ∷ [])) ≡ map f xs ++ (f y ∷ [])
  map_append f [] y = refl
  map_append f (x ∷ xs) y = ap (λ l. f x ∷ l) (map_append f xs y)

  accept-Round :
      (e : Envelope) (g g' : Gathered)
      → accept c trusted component interface_version time e g ≡ ok g'
      → Round e g g'
  unfolding accept
  accept-Round e g g' h =
      let (key_id, e₁, h₁) =
        >>=-eq-ok (check_envelope c trusted component interface_version time e) _ h in
      let (_, e₂, h₂) =
        >>=-eq-ok
          (refuse_if (any (λ i. same_identity i (e.issuer, e.sequence)) g.identities)
            (invalid_evidence "fragment issuer equivocation or replay"))
          _ h₁ in
      let (_, e₃, h₃) =
        >>=-eq-ok
          (refuse_if (contains g.content_digests e.content_digest)
            (invalid_evidence "duplicate fragment content digest"))
          _ h₂ in
      subst (Round e g) (ok-injective h₃) (record {
        accepted = check_envelope-IsAccepted e key_id e₁;
        unmet = (
          refuse_if-eq-ok (any (λ i. same_identity i (e.issuer, e.sequence)) g.identities) _ e₂,
          refuse_if-eq-ok (contains g.content_digests e.content_digest) _ e₃,
        );
        identities = refl;
        digests = refl;
        domains = refl;
        audits = map_append audited g.audit _;
      })

  -- What the loop has done with the fragments.
  pub record Gathers (es : List Envelope) (g g' : Gathered) : Type 0 where
    pub accepted : All IsAccepted es
    pub unmet : All (Unmet g) es
    pub apart : Apart es
    pub sorted : Sorted text_ord g.domains → Sorted text_ord g'.domains
    pub domains :
        (d : Text)
        → (get text_ord g'.domains d ≡ some tt) ↔ (
            (get text_ord g.domains d ≡ some tt)
            ⊎ ((e : Envelope) × Member e es × (e.failure_domain ≡ d)))
    pub audits : map audited g'.audit ≡ map audited g.audit ++ map identity es

  -- What is not met after a round was not met before it, and differs from the round's fragment.
  Unmet-Round :
      (e : Envelope) (g g' : Gathered)
      → Round e g g'
      → (es : List Envelope) → All (Unmet g') es
      → All (Unmet g) es × All (Differs e) es
  unfolding contains
  Unmet-Round e g g' r [] u = (tt, tt)
  Unmet-Round e g g' r (f ∷ fs) (u, us) =
      let (old, new) = Unmet-Round e g g' r fs us in ((before f u, old), (differs f u, new))
    where
      identities_of :
          (f : Envelope)
          → Unmet g' f
          → any
              (λ i. same_identity i (f.issuer, f.sequence))
              ((e.issuer, e.sequence) ∷ g.identities)
            ≡ false
      identities_of f u =
          subst (λ l. any (λ i. same_identity i (f.issuer, f.sequence)) l ≡ false) r.identities u.0

      digests_of :
          (f : Envelope)
          → Unmet g' f
          → contains (e.content_digest ∷ g.content_digests) f.content_digest ≡ false
      digests_of f u = subst (λ l. contains l f.content_digest ≡ false) r.digests u.1

      before : (f : Envelope) → Unmet g' f → Unmet g f
      before f u = (ground (arith, identities_of f u), ground (arith, digests_of f u))

      differs : (f : Envelope) → Unmet g' f → Differs e f
      differs f u = (ground (arith, identities_of f u), ground (arith, digests_of f u))

  joined :
      (e : Envelope) (es : List Envelope) (g : Gathered) (d : Text) (After : Type 0)
      → (After ↔ (
          (get text_ord (insert text_ord g.domains e.failure_domain tt) d ≡ some tt)
          ⊎ ((f : Envelope) × Member f es × (f.failure_domain ≡ d))))
      → (After ↔ (
          (get text_ord g.domains d ≡ some tt)
          ⊎ ((f : Envelope) × Member f (e ∷ es) × (f.failure_domain ≡ d))))
  joined e es g d After (there, back) = (
    λ a. elim (there a) [
      | inl l ↦ elim (Bool-cases (text_eq e.failure_domain d)) [
        | inl q ↦ inr (e, inl refl, (text_eq_iff e.failure_domain d).0 q)
        | inr q ↦ inl (ground (arith, get-insert text_ord g.domains e.failure_domain tt d))
      ]
      | inr (f, m, q) ↦ inr (f, inr m, q)
    ],
    λ b. elim b [
      | inl l ↦ back (inl (ground (arith, get-insert text_ord g.domains e.failure_domain tt d)))
      | inr (f, m, q) ↦ elim m [
        | inl p ↦ back (
            inl (
              ground (
                arith,
                get-insert text_ord g.domains e.failure_domain tt d,
                text_eq_iff e.failure_domain d,
                ap (λ (x : Envelope). x.failure_domain) p,
              )))
        | inr n ↦ back (inr (f, n, q))
      ]
    ],
  )

  pub accept_all-Gathers :
      (es : List Envelope) (g g' : Gathered)
      → accept_all c trusted component interface_version time es g ≡ ok g'
      → Gathers es g g'
  unfolding accept_all
  accept_all-Gathers [] g g' h = subst (Gathers [] g) (ok-injective h) (record {
    accepted = tt;
    unmet = tt;
    apart = tt;
    sorted = λ s. s;
    domains = λ d. (λ k. inl k, λ k. elim k [ inl l ↦ l | inr (e, m, q) ↦ absurd m ]);
    audits = sym (append-nil (map audited g.audit));
  })
  accept_all-Gathers (e ∷ es) g g' h =
      let (g₁, h₁, h₂) = >>=-eq-ok (accept c trusted component interface_version time e g) _ h in
      let r = accept-Round e g g₁ h₁ in
      let i = accept_all-Gathers es g₁ g' h₂ in
      let (old, new) = Unmet-Round e g g₁ r es i.unmet in
      record {
        accepted = (r.accepted, i.accepted);
        unmet = (r.unmet, old);
        apart = (new, i.apart);
        sorted = λ s. i.sorted (
            subst (Sorted text_ord) (sym r.domains)
              (insert-Sorted text_ord g.domains e.failure_domain tt s));
        domains = λ d. joined e es g d (get text_ord g'.domains d ≡ some tt) (
            subst
              (λ m. (get text_ord g'.domains d ≡ some tt) ↔ (
                (get text_ord m d ≡ some tt)
                ⊎ ((f : Envelope) × Member f es × (f.failure_domain ≡ d))))
              r.domains (i.domains d));
        audits =
            i.audits
            ∙ ap (λ l. l ++ map identity es) r.audits
            ∙ append_assoc (map audited g.audit) (identity e ∷ []) (map identity es);
      }
