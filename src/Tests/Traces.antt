-- ===== src/Tests/Traces.antt =====
-- A recorded trace, and budgets and texts at their bounds.
use anasemble.Prelude.{
  ◌≤◌, ◌≡◌, ◌↔◌, refl, inl, none, some, [], ◌∷◌, Result, ok, length, false, arith,
}
use anasemble.Text.{Text, text}
use anasemble.Text.Order.{text_eq}
use anasemble.Core.{Budget, BoundedText, bounded_text, new_budget, would_exceed}
use anasemble.Core.Bounds.{bounded_text_iff, would_exceed_iff}
use anasemble.Trace.{
  Digest, TraceError, TraceStep, UnsignedTrace, Trace, Recorder, new_recorder, record_step, finish,
  bind_digest, replay, replay_steps,
}
use anasemble.Trace.Replays.{IsReplayable, replay-IsReplayable, report_of}
use anasemble.Trace.Recording.{
  IsRecorded, new_recorder-IsRecorded, record_step-IsRecorded, finish-replay,
}

-- A digest that sees the terminal state alone.
abbrev terminal_digest : UnsignedTrace → Result TraceError Digest
terminal_digest u = ok u.terminal_state

abbrev limits : Budget
limits = record { max_nodes = 4; max_edges = 4; max_depth = 4; max_bytes = 64; deadline_ms = 10 }

abbrev name : Text → BoundedText
name t = record { as_str = t }

abbrev start : Recorder
start = record {
  trace_id = text "t";
  contract_ref = name (text "c");
  initial_state = 1 ∷ [];
  steps = [];
  side_effects = [];
  last_clock = none;
  last_state = 1 ∷ [];
}

abbrev step : TraceStep
step = record {
  index = 0;
  input_digest = 8 ∷ [];
  output_digest = 9 ∷ [];
  before_state = 1 ∷ [];
  after_state = 2 ∷ [];
  logical_clock = 5;
  causal_parents = [];
  capability = name (text "pure");
}

abbrev one_step : Recorder
one_step = record start { steps = step ∷ []; last_clock = some 5; last_state = 2 ∷ [] }

started : new_recorder (text "t") (text "c") (1 ∷ []) ≡ ok start
unfolding new_recorder bounded_text
started = refl

stepped : record_step start (8 ∷ []) (9 ∷ []) (2 ∷ []) 5 [] (text "pure") limits ≡ ok one_step
unfolding record_step bounded_text text_eq
stepped = refl

record_step-IsRecorded_example : IsRecorded one_step
record_step-IsRecorded_example =
    record_step-IsRecorded start (8 ∷ []) (9 ∷ []) (2 ∷ []) 5 [] (text "pure") limits one_step
      (new_recorder-IsRecorded (text "t") (text "c") (1 ∷ []) start started) stepped

abbrev recorded : Trace
recorded = record {
  unsigned = record {
    version = 1;
    trace_id = text "t";
    contract_ref = name (text "c");
    initial_state = 1 ∷ [];
    steps = step ∷ [];
    side_effect_claims = [];
    terminal_state = 2 ∷ [];
    coverage = record { trained_steps = 1; held_out_steps = 0 };
  };
  digest = 2 ∷ [];
}

finished : finish terminal_digest one_step ≡ ok recorded
unfolding finish bind_digest
finished = refl

one_step-IsRecorded : IsRecorded one_step
one_step-IsRecorded =
    record_step-IsRecorded start (8 ∷ []) (9 ∷ []) (2 ∷ []) 5 [] (text "pure") limits one_step
      (new_recorder-IsRecorded (text "t") (text "c") (1 ∷ []) start started) stepped

finish-replay_example :
    replay terminal_digest [] recorded limits
    ≡ ok (record { terminal_state = 2 ∷ []; trace_digest = 2 ∷ [] })
unfolding text_eq
finish-replay_example =
    finish-replay terminal_digest [] one_step recorded limits one_step-IsRecorded finished
      (omega arith) (inl refl, tt)

replayed : replay terminal_digest [] recorded limits ≡ ok (report_of terminal_digest recorded)
unfolding replay replay_steps text_eq
replayed = refl

replay-IsReplayable_example :
    (report_of terminal_digest recorded ≡ report_of terminal_digest recorded)
    × IsReplayable terminal_digest [] recorded limits
replay-IsReplayable_example =
    replay-IsReplayable terminal_digest [] recorded limits (report_of terminal_digest recorded)
      replayed

bounded_text_iff_example :
    (bounded_text (text "pure") ≡ ok (name (text "pure")))
    ↔ ((1 ≤ length (text "pure")) × (length (text "pure") ≤ 256))
bounded_text_iff_example = bounded_text_iff (text "pure")

granted : new_budget 4 4 4 64 10 ≡ ok limits
unfolding new_budget
granted = refl

would_exceed_iff_example :
    ((would_exceed limits 2 4 1 9 ≡ false) ↔ ((2 ≤ 4) × (4 ≤ 4) × (1 ≤ 4) × (9 ≤ 64)))
    × (would_exceed limits 1 1 1 1 ≡ false)
would_exceed_iff_example = would_exceed_iff 4 4 4 64 10 limits 2 4 1 9 granted
