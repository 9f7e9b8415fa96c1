-- ===== src/Tests/Recovery.antt =====
-- The checker of src/checker.rs on the sample.
use anasemble.Prelude.{ℕ, ◌≡◌, refl, List, ok, arith, ◌↔◌}
use anasemble.Prelude.BigEndian.{to_be_bytes, from_be_bytes}
use anasemble.Text.{text}
use anasemble.Text.Order.{text_eq, text_lt}
use anasemble.Text.Utf8.{is_utf8}
use anasemble.BTreeMap.{get, insert, from_list, contains_key}
use anasemble.Model.{Candidate}
use anasemble.Model.GrammarCheck
use anasemble.Model.GrammarCheck.{contains, unique, validate_symbols}
use anasemble.Model.GrammarCheck.Valid.{IsValid, validate_iff}
use anasemble.Model.TransitionCheck
use anasemble.Synthesizer.{texts_eq}
use anasemble.Wire.{encode_candidate}
use anasemble.Wire.Reading.{decode_candidate}
use anasemble.Wire.Reading.RoundTrip.{
  decode-encode, candidate_bytes, string_bytes, header, strings_bytes, each_bytes, rows_bytes,
}
use anasemble.Checker.{
  Coverage, certify, build, check_contents, check_content, conclude, add_transitions,
  add_transition, empty_rows, size, find, run_from, run_trace, check_idempotent, stays,
}
use anasemble.Checker.Certified.{IsCertified, certify-IsCertified}
use anasemble.Tests.Sample.{toggle, answer, evidence}

toggle-valid : GrammarCheck.validate toggle ≡ ok tt
unfolding GrammarCheck.validate GrammarCheck.validate_symbols GrammarCheck.unique
    GrammarCheck.contains from_list text_eq text_lt
toggle-valid = refl

validate_iff_example : (GrammarCheck.validate toggle ≡ ok tt) ↔ IsValid toggle
validate_iff_example = validate_iff toggle

decode-encode_example :
    (bytes : List ℕ) × (encode_candidate answer ≡ ok bytes) × (decode_candidate bytes ≡ ok answer)
unfolding is_utf8
decode-encode_example = decode-encode answer (ground arith)

abbrev coverage : Coverage
coverage = record {
  mandatory_obligations = 2;
  passed_obligations = 2;
  held_out_traces = 1;
  passed_held_out_traces = 1;
  passed_negative_cases = 1;
  passed_metamorphic_properties = 1;
  uncovered_obligations = 0;
}

accepted : certify (candidate_bytes answer) (text "switch") (text "v1") evidence ≡ ok coverage
unfolding candidate_bytes decode_candidate is_utf8 text_eq text_lt certify build check_contents
    check_content conclude add_transitions add_transition empty_rows size find run_from run_trace
    check_idempotent stays get insert from_list contains_key GrammarCheck.validate
    GrammarCheck.validate_symbols GrammarCheck.unique GrammarCheck.contains TransitionCheck.validate
    texts_eq string_bytes header strings_bytes each_bytes rows_bytes to_be_bytes from_be_bytes
accepted = refl

certify-IsCertified_example :
    (c : Candidate) × (decode_candidate (candidate_bytes answer) ≡ ok c)
    × IsCertified c (text "switch") (text "v1") evidence coverage
certify-IsCertified_example =
    certify-IsCertified (candidate_bytes answer) (text "switch") (text "v1") evidence coverage
      accepted
