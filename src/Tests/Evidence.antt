-- ===== src/Tests/Evidence.antt =====
-- Fragments of two issuers, signed and collected under a toy scheme of signatures.
use anasemble.Prelude.{
  ℕ, zero, suc, ◌+◌, ◌-◌, ◌≡◌, ◌↔◌, refl, ap, true, false, Option, none, some, List, [], ◌∷◌, arith,
  ok, err, length,
}
use anasemble.Text.{Text, text}
use anasemble.Text.Order.{text_eq, text_eq_iff, text_lt}
use anasemble.Text.Ascii.{split}
use anasemble.BTreeMap.{get, insert, from_list, contains_key}
use anasemble.Semantic.{insert_sorted, sort_by}
use anasemble.Model.{Error, insufficient_evidence, FragmentContent, transition, state_policy}
use anasemble.Model.GrammarCheck.{contains}
use anasemble.Fragments.{
  Crypto, Laws, IsPlain, FragmentKind, Envelope, Ed25519KeyPolicy, Ed25519IssuerPolicy, ed25519,
  CollectedEvidence,
}
use anasemble.Fragments.Keys.{
  SigningKeyFile, validate_key_id, parse_time, parse_revoked, validate_key_policy, decode_secret,
  validate_signing_key, secret_bytes,
}
use anasemble.Fragments.Signatures.{
  find_key, key_parts, signature_parts, signature_text, with_digest, sign_ed25519,
  sign_with_key_file, check_times, check_bytes, verify_ed25519, verify_signature,
}
use anasemble.Fragments.Signatures.Signed.{sign_with_key_file-verify_signature}
use anasemble.Fragments.Cycles.{
  raised, Graph, cycle_error, remove, visit_all, enter, visit, reject_cycles,
}
use anasemble.Fragments.Cycles.Chains.{Chain, IsClosed, IsAcyclic}
use anasemble.Fragments.Cycles.Acyclic.{reject_cycles_iff}
use anasemble.Fragments.Collect.{
  Trusted, any_unavailable, parse_optional_time, check_envelope, accept, accept_all, collect_at,
}
use anasemble.Fragments.Collect.Evidence.{
  IsEvidence, any_unavailable-Member, collect_at-IsEvidence, collect_at-raised,
}

abbrev sum : List ℕ → ℕ
sum [] = 0
sum (x ∷ xs) = x + sum xs

abbrev fill : ℕ → ℕ → List ℕ
fill zero x = []
fill (suc n) x = x ∷ fill n x

abbrev head : List ℕ → ℕ
head [] = 0
head (x ∷ xs) = x

-- Digits beyond the colon.
abbrev shift : List ℕ → List ℕ
shift [] = []
shift (x ∷ xs) = (x + 59) ∷ shift xs

abbrev unshift : List ℕ → List ℕ
unshift [] = []
unshift (x ∷ xs) = (x - 59) ∷ unshift xs

unshift-shift : (b : List ℕ) → unshift (shift b) ≡ b
unshift-shift [] = refl
unshift-shift (x ∷ xs) = ground (arith, unshift-shift xs)

IsPlain-shift : (b : List ℕ) → IsPlain (shift b)
IsPlain-shift [] = refl
IsPlain-shift (x ∷ xs) = ground (arith, IsPlain-shift xs)

abbrev content_name : FragmentContent → Text
content_name (transition _ _ _ _) = text "t"
content_name (state_policy _ _) = text "p"
content_name _ = text "o"

abbrev checksum : Crypto
checksum = record {
  encode = λ u. ok u.content_digest;
  digest = λ content. ok (content_name content);
  hmac = λ k m. fill 32 (sum k + sum m);
  verify_slice = λ k m s. text_eq s (fill 32 (sum k + sum m));
  sign = λ k m. fill 64 (sum k + sum m);
  public_key = λ k. fill 32 (sum k);
  is_key = λ k. true;
  verify_strict = λ p m s. text_eq s (fill 64 (head p + sum m));
  hex_encode = shift;
  hex_decode = λ t. some (unshift t);
  strptime = λ t. some (length t);
}

checksum-Laws : Laws checksum
checksum-Laws = record {
  decode-encode = λ b. ap some (unshift-shift b);
  hex_plain = IsPlain-shift;
  hmac-accepted = λ k m. (text_eq_iff (fill 32 (sum k + sum m)) (fill 32 (sum k + sum m))).1 refl;
  sign-length = λ k m. refl;
  public-length = λ k. refl;
  public-is_key = λ k. refl;
  sign-accepted = λ k m. (text_eq_iff (fill 64 (sum k + sum m)) (fill 64 (sum k + sum m))).1 refl;
}

abbrev secret : List ℕ
secret = fill 32 1

abbrev key_file : SigningKeyFile
key_file = record {
  version = text "ed25519-key-v1";
  key_id = text "k1";
  secret_key_hex = shift secret;
  public_key_hex = shift (fill 32 32);
  created_at = text "now";
}

abbrev key : Ed25519KeyPolicy
key = record {
  key_id = text "k1";
  public_key = shift (fill 32 32);
  not_before = [];
  not_after = text "forever";
  revoked_at = none;
}

abbrev issuer_policy : Text → Ed25519IssuerPolicy
issuer_policy domain = record { failure_domain = domain; minimum_sequence = 1; keys = key ∷ [] }

abbrev trusted : Trusted
trusted =
    (text "a", ed25519 (issuer_policy (text "x")))
    ∷ (text "b", ed25519 (issuer_policy (text "y")))
    ∷ []

abbrev schema : Envelope
schema = record {
  unsigned = record {
    kind = FragmentKind.state_schema;
    component = text "c";
    interface_version = text "1";
    issuer = text "b";
    failure_domain = text "y";
    issued_at = text "now";
    sequence = 1;
    content_digest = text "p";
    dependencies = [];
    content = state_policy [] [];
  };
  signature = signature_text (text "k1") (shift (fill 64 (32 + sum (text "p"))));
}

abbrev rule : Envelope
rule = record {
  unsigned = record {
    kind = FragmentKind.contract;
    component = text "c";
    interface_version = text "1";
    issuer = text "a";
    failure_domain = text "x";
    issued_at = text "now";
    sequence = 3;
    content_digest = text "t";
    dependencies = text "p" ∷ [];
    content = transition [] [] [] [];
  };
  signature = signature_text (text "k1") (shift (fill 64 (32 + sum (text "t"))));
}

signed : sign_with_key_file checksum (record rule { signature = [] }) key_file ≡ ok rule
unfolding sign_with_key_file validate_signing_key validate_key_id parse_time decode_secret
    secret_bytes sign_ed25519 with_digest text_eq
signed = refl

key_found : find_key (key ∷ []) (text "k1") ≡ some key
unfolding find_key text_eq
key_found = refl

key_valid : validate_key_policy checksum key ≡ ok tt
unfolding validate_key_policy validate_key_id parse_time parse_revoked
key_valid = refl

in_time : check_times checksum (record rule { signature = [] }) key none ≡ ok tt
unfolding check_times parse_time
in_time = refl

sign_with_key_file-verify_signature_example :
    verify_signature checksum rule (ed25519 (issuer_policy (text "x"))) none ≡ ok (text "k1")
sign_with_key_file-verify_signature_example =
    sign_with_key_file-verify_signature checksum checksum-Laws (record rule { signature = [] }) rule
      key_file (issuer_policy (text "x")) key none signed key_found refl key_valid in_time
      (omega arith)

abbrev evidence : CollectedEvidence
evidence = record {
  envelopes = rule ∷ schema ∷ [];
  domains = text "x" ∷ text "y" ∷ [];
  audit =
      record { issuer = text "b"; key_id = text "k1"; sequence = 1; content_digest = text "p" }
      ∷ record { issuer = text "a"; key_id = text "k1"; sequence = 3; content_digest = text "t" }
      ∷ [];
}

collected :
    collect_at checksum (schema ∷ rule ∷ []) trusted 2 (text "c") (text "1") (some (text "now"))
    ≡ ok evidence
unfolding collect_at parse_optional_time accept_all accept check_envelope verify_signature
    verify_ed25519 split signature_parts key_parts find_key validate_key_policy validate_key_id
    parse_time parse_revoked check_times check_bytes contains any_unavailable reject_cycles
    visit_all visit enter remove from_list insert get contains_key sort_by insert_sorted text_lt
    text_eq
collected = refl

collect_at-IsEvidence_example :
    (time : Option ℕ) × (parse_optional_time checksum (some (text "now")) ≡ ok time)
    × IsEvidence checksum trusted (text "c") (text "1") time 2 (schema ∷ rule ∷ []) evidence
collect_at-IsEvidence_example =
    collect_at-IsEvidence checksum trusted (text "c") (text "1") (schema ∷ rule ∷ []) 2
      (some (text "now")) evidence collected

no_quorum :
    collect_at checksum (schema ∷ rule ∷ []) trusted 3 (text "c") (text "1") none
    ≡ err (raised (insufficient_evidence "insufficient independent failure domains"))
unfolding collect_at parse_optional_time accept_all accept check_envelope verify_signature
    verify_ed25519 split signature_parts key_parts find_key validate_key_policy validate_key_id
    parse_time parse_revoked check_times check_bytes contains any_unavailable reject_cycles
    visit_all visit enter remove from_list insert get contains_key sort_by insert_sorted text_lt
    text_eq
no_quorum = refl

collect_at-raised_example :
    (e : Error) × (raised (insufficient_evidence "insufficient independent failure domains")
      ≡ raised e)
collect_at-raised_example =
    collect_at-raised checksum trusted (text "c") (text "1") (schema ∷ rule ∷ []) 3 none
      (raised (insufficient_evidence "insufficient independent failure domains")) no_quorum

-- A chain of two, and a circle of two.
abbrev chain_of_two : Graph
chain_of_two = (text "a", text "b" ∷ []) ∷ (text "b", []) ∷ []

abbrev circle_of_two : Graph
circle_of_two = (text "a", text "b" ∷ []) ∷ (text "b", text "a" ∷ []) ∷ []

circle_rejected : reject_cycles circle_of_two ≡ err (raised cycle_error)
unfolding reject_cycles visit_all visit enter remove get contains text_eq
circle_rejected = refl

chain_available : any_unavailable chain_of_two chain_of_two ≡ false
unfolding any_unavailable contains_key get text_eq
chain_available = refl

chain-IsClosed : IsClosed chain_of_two
chain-IsClosed a b (ds, k, m) =
    any_unavailable-Member chain_of_two chain_of_two a ds b chain_available k m

reject_cycles_iff_example :
    ((reject_cycles chain_of_two ≡ ok tt) ↔ IsAcyclic chain_of_two)
    × ((reject_cycles chain_of_two ≡ err (raised cycle_error))
        ↔ ((a : Text) × Chain chain_of_two a a))
reject_cycles_iff_example = reject_cycles_iff chain_of_two chain-IsClosed
