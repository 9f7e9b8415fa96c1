-- ===== src/Fragments/Collect.antt =====
-- `collect_at` of src/fragments.rs: what is accepted as evidence.
pub mod Accepted
pub mod Evidence
use anasemble.Prelude.{
  ℕ, Bool, true, false, not, ◌&&◌, ◌||◌, Option, none, some, List, [], ◌∷◌, ◌++◌, map, Result, ok,
  err, ◌>>=◌, ◌>>◌, refuse_if, ok_or, map_err, any, ltb, ◌==◌, length, if◌then◌else◌,
}
use anasemble.Text.{Text}
use anasemble.Text.Order.{Ord, text_eq, text_ord, nat_ord, pair_ord, pair_eq}
use anasemble.BTreeMap.{BTreeMap, get, insert, from_list, contains_key}
use anasemble.Semantic.{sort_by}
use anasemble.Model.{
  Error, invalid_evidence, insufficient_evidence, FragmentContent, transition, state_policy, trace,
  negative_case, metamorphic_property,
}
use anasemble.Model.GrammarCheck.{contains}
use anasemble.Fragments.{
  Crypto, FragmentKind, FragmentKind.contract, FragmentKind.state_schema, UnsignedEnvelope,
  Envelope, IssuerPolicy, domain_of, VerificationAudit, CollectedEvidence,
}
use anasemble.Fragments.Keys.{parse_time}
use anasemble.Fragments.Signatures.{verify_signature}
use anasemble.Fragments.Cycles.{Halt, raised, Graph, reject_cycles}

abbrev pub kind_matches : FragmentKind → FragmentContent → Bool
kind_matches FragmentKind.contract (transition _ _ _ _) = true
kind_matches FragmentKind.trace (trace _ _ _ _) = true
kind_matches FragmentKind.state_schema (state_policy _ _) = true
kind_matches FragmentKind.negative_case (negative_case _ _ _) = true
kind_matches FragmentKind.metamorphic_property (metamorphic_property _ _ _) = true
kind_matches _ _ = false

abbrev pub is_contract : FragmentKind → Bool
is_contract FragmentKind.contract = true
is_contract _ = false

abbrev pub is_state_schema : FragmentKind → Bool
is_state_schema FragmentKind.state_schema = true
is_state_schema _ = false

-- The sets of the loop: of the first two only membership is used.
pub record Gathered : Type 0 where
  pub identities : List (Text × ℕ)
  pub content_digests : List Text
  pub domains : BTreeMap Text (Unit {0})
  pub audit : List VerificationAudit

abbrev pub Trusted : Type 0
Trusted = BTreeMap Text IssuerPolicy

abbrev pub same_identity : Text × ℕ → Text × ℕ → Bool
same_identity = pair_eq text_ord nat_ord

abbrev pub sort_key : Envelope → Text × (ℕ × Text)
sort_key e = (e.issuer, (e.sequence, e.content_digest))

abbrev pub envelope_before : Envelope → Envelope → Bool
envelope_before a b = (pair_ord text_ord (pair_ord nat_ord text_ord)).lt (sort_key a) (sort_key b)

abbrev pub dependency_graph : List Envelope → Graph
dependency_graph envelopes =
    from_list text_ord [] (map (λ e. (e.content_digest, e.dependencies)) envelopes)

-- Some dependency of some fragment is no fragment.
unfoldable pub any_unavailable : Graph → Graph → Bool
any_unavailable graph [] = false
any_unavailable graph ((digest, dependencies) ∷ rest) =
    any (λ d. not (contains_key text_ord graph d)) dependencies || any_unavailable graph rest

module _ (c : Crypto) where
  -- `Option::map` and `transpose`
  unfoldable pub parse_optional_time : Option Text → Result Error (Option ℕ)
  parse_optional_time none = ok none
  parse_optional_time (some value) = do
    time ← parse_time c value "verification_time"
    ok (some time)

  module _ (trusted : Trusted) (component interface_version : Text) (time : Option ℕ) where
    -- The checks of the loop on one fragment: its policy and the key that signed it.
    unfoldable pub check_envelope : Envelope → Result Error Text
    check_envelope e = do
      refuse_if (not (kind_matches e.kind e.content))
          (invalid_evidence "fragment kind does not match its M0 content schema")
      refuse_if
          (not (text_eq e.component component)
            || not (text_eq e.interface_version interface_version))
          (invalid_evidence "fragment targets another component or interface")
      _ ← ok_or (c.strptime e.issued_at) (invalid_evidence "issued_at is not canonical RFC3339")
      policy ←
          ok_or (get text_ord trusted e.issuer) (invalid_evidence "fragment issuer is not trusted")
      refuse_if (not (text_eq e.failure_domain (domain_of policy)))
          (invalid_evidence "fragment failure domain violates issuer policy")
      d ← c.digest e.content
      refuse_if (not (text_eq d e.content_digest))
          (invalid_evidence "fragment content digest mismatch")
      verify_signature c e policy time

    unfoldable pub accept : Envelope → Gathered → Result Error Gathered
    accept e g = do
      key_id ← check_envelope e
      refuse_if (any (λ i. same_identity i (e.issuer, e.sequence)) g.identities)
          (invalid_evidence "fragment issuer equivocation or replay")
      refuse_if (contains g.content_digests e.content_digest)
          (invalid_evidence "duplicate fragment content digest")
      ok (record {
        identities = (e.issuer, e.sequence) ∷ g.identities;
        content_digests = e.content_digest ∷ g.content_digests;
        domains = insert text_ord g.domains e.failure_domain tt;
        audit =
            g.audit
            ++ (record {
              issuer = e.issuer;
              key_id = key_id;
              sequence = e.sequence;
              content_digest = e.content_digest;
            }
                ∷ []);
      })

    -- The loop over the fragments.
    unfoldable pub accept_all : List Envelope → Gathered → Result Error Gathered
    accept_all [] g = ok g
    accept_all (e ∷ es) g = do g' ← accept e g; accept_all es g'

  unfoldable pub collect_at :
      List Envelope → Trusted → ℕ → Text → Text → Option Text → Result Halt CollectedEvidence
  collect_at envelopes trusted required_domains component interface_version verification_time = do
    time ← map_err (parse_optional_time verification_time) raised
    g ←
        map_err
          (accept_all trusted component interface_version time envelopes
            (record { identities = []; content_digests = []; domains = []; audit = [] }))
          raised
    let graph = dependency_graph envelopes
    refuse_if (any_unavailable graph graph)
        (raised (invalid_evidence "fragment dependency is unavailable"))
    reject_cycles graph
    refuse_if (ltb (length g.domains) required_domains)
        (raised (insufficient_evidence "insufficient independent failure domains"))
    refuse_if
        (not (any (λ (e : Envelope). is_contract e.kind) envelopes)
          || not (any (λ (e : Envelope). is_state_schema e.kind) envelopes))
        (raised (insufficient_evidence "contract and state schema fragments are mandatory"))
    ok (record {
      envelopes = sort_by envelope_before envelopes;
      domains = map (λ d. d.0) g.domains;
      audit = g.audit;
    })

  -- `collect`
  unfoldable pub collect : List Envelope → Trusted → ℕ → Text → Text → Result Halt CollectedEvidence
  unfolding collect_at
  collect envelopes trusted required_domains component interface_version =
      collect_at envelopes trusted required_domains component interface_version none
