-- ===== src/Wire/Reading/RoundTrip.antt =====
-- What src/checker_wire.rs writes, the reader of src/checker.rs reads back.
use anasemble.Prelude.{
  ℕ, ◌^◌, ◌≤◌, ◌<◌, ◌≡◌, refl, ap, true, false, List, [], ◌∷◌, ◌++◌, append_assoc, arith, ok, take,
  drop, length, length-append, leb, ltb, to_be_bytes, length-to_be_bytes, from_be_bytes-to_be_bytes,
  All,
}
use anasemble.Text.{Text}
use anasemble.Text.Order.{text_eq}
use anasemble.Text.Utf8.{is_utf8}
use anasemble.Model.{Transition, Candidate}
use anasemble.Wire.{
  magic, push_len, push_string, push_each, push_strings, push_transitions, encode_candidate,
}
use anasemble.Wire.Reading.{
  take_bytes, read_length, read_string, read_each, read_strings, read_transition, read_transitions,
  read_candidate, decode_candidate,
}

-- A string that the reader takes: UTF-8, of at most 65536 bytes.
pub record IsString (t : Text) : Type 0 where
  pub utf8 : is_utf8 t ≡ true
  pub short : length t ≤ 65_536

pub record IsStrings (ts : List Text) : Type 0 where
  pub each : All IsString ts
  pub few : length ts ≤ 65_536

pub record IsRow (t : Transition) : Type 0 where
  pub state : IsString t.state
  pub input : IsString t.input
  pub next_state : IsString t.next_state
  pub output : IsString t.output

-- The candidates within the bounds of the wire format.
pub record IsEncodable (c : Candidate) : Type 0 where
  pub component : IsString c.component
  pub interface_version : IsString c.interface_version
  pub version : IsString c.grammar.version
  pub inputs : IsStrings c.grammar.inputs
  pub outputs : IsStrings c.grammar.outputs
  pub states : IsStrings c.grammar.states
  pub initial_state : IsString c.grammar.initial_state
  pub max_candidates : c.grammar.max_candidates < 2 ^ 64
  pub rows : All IsRow c.transitions
  pub few_rows : length c.transitions ≤ 256

take-append : (xs ys : List ℕ) → take (length xs) (xs ++ ys) ≡ xs
take-append [] ys = refl
take-append (x ∷ xs) ys = ap (λ t. x ∷ t) (take-append xs ys)

drop-append : (xs ys : List ℕ) → drop (length xs) (xs ++ ys) ≡ ys
drop-append [] ys = refl
drop-append (x ∷ xs) ys = drop-append xs ys

take_bytes-append :
    (xs rest : List ℕ) (n : ℕ) → length xs ≡ n → take_bytes n (xs ++ rest) ≡ ok (xs, rest)
unfolding take_bytes
take_bytes-append xs rest n h =
    let fits : leb n (length (xs ++ rest)) ≡ true = (rw length-append (ground arith)) in
    rw (fits, ← h, take-append xs rest, drop-append xs rest)

unfoldable pub header : ℕ → List ℕ
header n = to_be_bytes 4 n

read_length-header :
    (n : ℕ) (rest : List ℕ) → n < 2 ^ 32 → read_length (header n ++ rest) ≡ ok (n, rest)
unfolding read_length header
read_length-header n rest h = rw (
  take_bytes-append (to_be_bytes 4 n) rest 4 (length-to_be_bytes 4 n),
  from_be_bytes-to_be_bytes 4 n h,
)

push_len_ok : (n : ℕ) → n < 2 ^ 32 → push_len n ≡ ok (header n)
unfolding push_len header
push_len_ok n h = ground arith

unfoldable pub string_bytes : Text → List ℕ
string_bytes t = header (length t) ++ t

pub push_string_ok : (t : Text) → IsString t → push_string t ≡ ok (string_bytes t)
unfolding push_string string_bytes
push_string_ok t h = rw (push_len_ok (length t) (omega arith))

read_string-bytes :
    (t : Text) (rest : List ℕ) → IsString t → read_string (string_bytes t ++ rest) ≡ ok (t, rest)
unfolding read_string string_bytes
read_string-bytes t rest h =
    let short : ltb 65_536 (length t) ≡ false = ground arith in
    rw (
      append_assoc (header (length t)) t rest,
      read_length-header (length t) (t ++ rest) (omega arith),
      short,
      take_bytes-append t rest (length t) refl,
      h.utf8,
    )

unfoldable pub each_bytes : List Text → List ℕ
each_bytes [] = []
each_bytes (t ∷ ts) = string_bytes t ++ each_bytes ts

push_each_ok : (ts : List Text) → All IsString ts → push_each ts ≡ ok (each_bytes ts)
unfolding push_each each_bytes
push_each_ok [] h = refl
push_each_ok (t ∷ ts) h = rw (push_string_ok t h.0, push_each_ok ts h.1)

read_each-bytes :
    (ts : List Text) (rest : List ℕ)
    → All IsString ts
    → read_each (length ts) (each_bytes ts ++ rest) ≡ ok (ts, rest)
unfolding read_each each_bytes
read_each-bytes [] rest h = refl
read_each-bytes (t ∷ ts) rest h = rw (
  append_assoc (string_bytes t) (each_bytes ts) rest,
  read_string-bytes t (each_bytes ts ++ rest) h.0,
  read_each-bytes ts rest h.1,
)

unfoldable pub strings_bytes : List Text → List ℕ
strings_bytes ts = header (length ts) ++ each_bytes ts

push_strings_ok : (ts : List Text) → IsStrings ts → push_strings ts ≡ ok (strings_bytes ts)
unfolding push_strings strings_bytes
push_strings_ok ts h = rw (push_len_ok (length ts) (omega arith), push_each_ok ts h.each)

read_strings-bytes :
    (ts : List Text) (rest : List ℕ)
    → IsStrings ts
    → read_strings (strings_bytes ts ++ rest) ≡ ok (ts, rest)
unfolding read_strings strings_bytes
read_strings-bytes ts rest h =
    let few : ltb 65_536 (length ts) ≡ false = ground arith in
    rw (
      append_assoc (header (length ts)) (each_bytes ts) rest,
      read_length-header (length ts) (each_bytes ts ++ rest) (omega arith),
      few,
      read_each-bytes ts rest h.each,
    )

unfoldable pub rows_bytes : List Transition → List ℕ
rows_bytes [] = []
rows_bytes (t ∷ ts) =
    string_bytes t.state
    ++ (string_bytes t.input
        ++ (string_bytes t.next_state ++ (string_bytes t.output ++ rows_bytes ts)))

push_transitions_ok :
    (ts : List Transition) → All IsRow ts → push_transitions ts ≡ ok (rows_bytes ts)
unfolding push_transitions rows_bytes
push_transitions_ok [] h = refl
push_transitions_ok (t ∷ ts) h = rw (
  push_string_ok t.state h.0.state,
  push_string_ok t.input h.0.input,
  push_string_ok t.next_state h.0.next_state,
  push_string_ok t.output h.0.output,
  push_transitions_ok ts h.1,
)

read_transition-bytes :
    (t : Transition) (rest : List ℕ)
    → IsRow t
    → read_transition (
        string_bytes t.state
        ++ (string_bytes t.input ++ (string_bytes t.next_state ++ (string_bytes t.output ++ rest))))
      ≡ ok (t, rest)
unfolding read_transition
read_transition-bytes t rest h = rw (
  read_string-bytes t.state _ h.state,
  read_string-bytes t.input _ h.input,
  read_string-bytes t.next_state _ h.next_state,
  read_string-bytes t.output _ h.output,
)

read_transitions-bytes :
    (ts : List Transition)
    → All IsRow ts
    → read_transitions (length ts) (rows_bytes ts) ≡ ok (ts, [])
unfolding read_transitions rows_bytes
read_transitions-bytes [] h = refl
read_transitions-bytes (t ∷ ts) h =
    rw (read_transition-bytes t (rows_bytes ts) h.0, read_transitions-bytes ts h.1)

unfoldable pub candidate_bytes : Candidate → List ℕ
candidate_bytes c =
    magic
    ++ (string_bytes c.component
        ++ (string_bytes c.interface_version
            ++ (string_bytes c.grammar.version
                ++ (strings_bytes c.grammar.inputs
                    ++ (strings_bytes c.grammar.outputs
                        ++ (strings_bytes c.grammar.states
                            ++ (string_bytes c.grammar.initial_state
                                ++ (to_be_bytes 8 c.grammar.max_candidates
                                    ++ (header (length c.transitions)
                                        ++ rows_bytes c.transitions)))))))))

rows_fit : (n : ℕ) → n ≤ 256 → n < 2 ^ 32
rows_fit n h = omega arith

pub encode_candidate_ok :
    (c : Candidate) → IsEncodable c → encode_candidate c ≡ ok (candidate_bytes c)
unfolding encode_candidate candidate_bytes
encode_candidate_ok c h = simp (
  push_string_ok c.component h.component,
  push_string_ok c.interface_version h.interface_version,
  push_string_ok c.grammar.version h.version,
  push_strings_ok c.grammar.inputs h.inputs,
  push_strings_ok c.grammar.outputs h.outputs,
  push_strings_ok c.grammar.states h.states,
  push_string_ok c.grammar.initial_state h.initial_state,
  push_len_ok (length c.transitions) (rows_fit (length c.transitions) h.few_rows),
  push_transitions_ok c.transitions h.rows,
)

le→not-ltb : (n m : ℕ) → n ≤ m → ltb m n ≡ false
le→not-ltb n m h = ground arith

read_candidate-bytes :
    (c : Candidate) → IsEncodable c → read_candidate (candidate_bytes c) ≡ ok (c, [])
unfolding read_candidate candidate_bytes text_eq
read_candidate-bytes c h =
    let few : ltb 256 (length c.transitions) ≡ false =
      le→not-ltb (length c.transitions) 256 h.few_rows in
    rw (
      take_bytes-append magic _ 8 refl,
      read_string-bytes c.component _ h.component,
      read_string-bytes c.interface_version _ h.interface_version,
      read_string-bytes c.grammar.version _ h.version,
      read_strings-bytes c.grammar.inputs _ h.inputs,
      read_strings-bytes c.grammar.outputs _ h.outputs,
      read_strings-bytes c.grammar.states _ h.states,
      read_string-bytes c.grammar.initial_state _ h.initial_state,
      take_bytes-append (to_be_bytes 8 c.grammar.max_candidates) _ 8
          (length-to_be_bytes 8 c.grammar.max_candidates),
      from_be_bytes-to_be_bytes 8 c.grammar.max_candidates h.max_candidates,
      read_length-header (length c.transitions) _ (rows_fit (length c.transitions) h.few_rows),
      few,
      read_transitions-bytes c.transitions h.rows,
    )

-- A candidate within the bounds of the format is encoded, and what was encoded decodes to it.
pub decode-encode :
    (c : Candidate)
    → IsEncodable c
    → (bytes : List ℕ) × (encode_candidate c ≡ ok bytes) × (decode_candidate bytes ≡ ok c)
unfolding decode_candidate
decode-encode c h =
    (candidate_bytes c, encode_candidate_ok c h, rw (read_candidate-bytes c h, decode_candidate))
