-- ===== src/Lib.antt =====
-- Anasemble rebuilds a lost component from surviving evidence. This library models the parts of it
-- that decide what is rebuilt and what is believed, and proves what they guarantee.
--
-- Parts and files:
--   src/model.rs (Model.antt and its children): errors and refusal codes, grammars, transitions,
--     candidates, contents of evidence; `Model.GrammarCheck.validate` is `Grammar::validate`,
--     `Model.TransitionCheck.validate` is `Transition::validate`.
--   src/synthesizer.rs (Synthesizer.antt and its children): `satisfies`, `execute` and `idempotent`
--     evaluate a candidate on evidence; Synthesizer/Enumerate.antt has the exhaustive search of
--     grammar version fsm-v1, Synthesizer/Obligations.antt that of fsm-v0 and `reconstruct`.
--   src/checker_wire.rs (Wire.antt) and the reader of src/checker.rs (Wire/Reading.antt): the bytes
--     in which a candidate goes from the one to the other.
--   src/checker.rs (Checker.antt): `certify`, the independent interpreter.
--   crates/anasemble-core (Core.antt): bounded text, budgets, temporal cuts.
--   crates/anasemble-trace (Trace.antt): recorder, replayer, redaction and partition of traces.
--   crates/anasemble-contract (Contract.antt): construction of contracts.
--   crates/anasemble-verification (Certificate.antt): `DigestEqualityVerifier` (`verify`), signing and
--     checking of certificates, with two types of crates/anasemble-evidence.
--   crates/anasemble-semantic (Semantic.antt, Semantic/Differ.antt): snapshots of graphs and diffs.
--   src/fragments.rs (Fragments.antt and its children): Fragments/Keys.antt has the key files and the
--     policies of issuers, Fragments/Signatures.antt signing and `verify_signature`,
--     Fragments/Cycles.antt `reject_cycles`, Fragments/Collect.antt `collect_at` and `collect`.
--   src/service.rs (Service.antt): the manifest of a service, `Service.validate`.
--   src/protocol.rs (Protocol.antt): `validate_registry`, `validate_freshness`, the listing of the
--     fragments; Protocol/Recover.antt has `recover` and `run_with_mode`.
--   src/operations.rs: Operations.antt has the audit trail of a job, Operations/Config.antt the
--     configuration, Operations/Queue.antt `enqueue`, `claim_next`, `finish` and `finish_failed`,
--     Operations/Batch.antt `run_batch` and `prune_terminal`, Operations/Batch/Metrics.antt `status`.
--
-- How they interact: the synthesizer proposes a candidate, the wire format carries it, and the checker
-- decodes it and holds it against all evidence again, with a table of its own. A verifier reports on a
-- contract, and a certificate signs its report. A recovery validates its registry, collects the signed
-- fragments, gives their contents to the synthesizer and the checker and makes out a certificate. A
-- batch of jobs claims what was enqueued, runs a recovery of each workspace and keeps the results.
--
-- Correspondence. A `String` is the list of its UTF-8 bytes (Text.antt), so lengths are in bytes and
-- the order is that of the bytes. A `BTreeMap` is a list of entries in key order (BTreeMap.antt). A
-- `Result` is `Prelude.Outcome.Result`, and `?` is the bind of a `do` block. A `&mut` argument is an
-- argument and a result. Where the code may panic the result is a `Fault`: an error or a panic.
-- Integers are natural numbers; where the code checks an overflow, the bound is written out.
-- Loops are recursions on the list or the count that they go through. The one recursion on fuel is
-- the depth-first search `reject_cycles`: its fuel is one more than the nodes of the graph, which is
-- shown to be enough. The operations of the job store are procedures on a state
-- (Prelude/Stateful.antt) that a failure leaves as it is then. `enqueue`, `claim_next`, `finish`,
-- `finish_failed`, `prune_terminal` and `status` each hold the lock of the store, so each is one step.
-- `run_batch` holds only the lease of the runner and gives the lock back between its calls: its model
-- is a batch that no other call interleaves with, and the invariant of the store is shown of the
-- single calls in any order too, where a job that is failed still runs. A job file is its length and
-- the record that it holds.
--
-- Not modelled: the walks of directories, locks and leases of runners, clocks, Docker and Kubernetes,
-- the command line, JSON (serde), UUIDs, SHA-256, Ed25519, the WebAssembly compiler and sandbox, and
-- the loss oracle. What the modelled code calls of them is a parameter of the definitions that use it:
-- `Certificate.Laws` and `Fragments.Laws` say what is relied on of signatures,
-- `Operations.Queue.Admission.HasHexIds` that a digest is 64 digits of hexadecimal. Of the rest,
-- stateful recovery, activation, deployment, event framing, evidence envelopes and CBOR are left out
-- for their size.
pub mod Prelude
pub mod Text
pub mod BTreeMap
pub mod Model
pub mod Synthesizer
pub mod Wire
pub mod Checker
pub mod Core
pub mod Trace
mod Tests
pub mod Contract
pub mod Fragments
pub mod Service
pub mod Protocol
pub mod Operations
pub mod Certificate
pub mod Semantic
