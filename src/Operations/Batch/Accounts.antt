-- ===== src/Operations/Batch/Accounts.antt =====
-- The rounds that a batch of `run_batch` of src/operations.rs made, and its receipt.
use anasemble.Prelude.{
  ℕ, zero, suc, ◌+◌, ◌≤◌, ◌≡◌, ap, Option, none, some, List, [], ◌∷◌, arith, Result, ok, length,
}
use anasemble.Prelude.Stateful.{Leaves, pure, ◌>>=◌, resume-eq-ok}
use mathlib.Core.Path.{subst}
use anasemble.Text.{Text}
use anasemble.Model.{Error}
use anasemble.Operations.{OperationsConfig, RecoveryJob}
use anasemble.Operations.Config.{IsBounded}
use anasemble.Operations.Queue.{Store, Env, claim_next}
use anasemble.Operations.Queue.Invariant.{IsSound}
use anasemble.Operations.Queue.Steps.{IsClaimed, claim_next-Triple}
use anasemble.Protocol.Recover.{RecoveryResult}
use anasemble.Operations.Batch.{
  RunFailurePoint, BatchReceipt, empty_receipt, Ending, ends_certified, ends_refused, ends_failed,
  count_ending, let_else, run_job, run_rounds, run_batch,
}
use anasemble.Operations.Batch.Rounds.{IsEnded, IsRunningIn, IsRunningIn-claimed, run_job-Triple}

-- A job that was claimed, how many leases were recovered for it, and how it ended.
pub record Ended : Type 0 where
  pub job : RecoveryJob
  pub recovered : ℕ
  pub ending : Ending

abbrev pub certified_in : List Ended → ℕ
certified_in [] = 0
certified_in (e ∷ es) =
    (elim e.ending [ ends_certified ↦ 1 | ends_refused ↦ 0 | ends_failed ↦ 0 ]) + certified_in es

abbrev pub refused_in : List Ended → ℕ
refused_in [] = 0
refused_in (e ∷ es) =
    (elim e.ending [ ends_certified ↦ 0 | ends_refused ↦ 1 | ends_failed ↦ 0 ]) + refused_in es

abbrev pub failed_in : List Ended → ℕ
failed_in [] = 0
failed_in (e ∷ es) =
    (elim e.ending [ ends_certified ↦ 0 | ends_refused ↦ 0 | ends_failed ↦ 1 ]) + failed_in es

abbrev pub recovered_in : List Ended → ℕ
recovered_in [] = 0
recovered_in (e ∷ es) = e.recovered + recovered_in es

-- The second receipt counts the jobs beyond the first.
record IsCounted (r : BatchReceipt) (es : List Ended) (receipt : BatchReceipt) : Type 0 where
  claimed : receipt.claimed ≡ r.claimed + length es
  certified : receipt.certified ≡ r.certified + certified_in es
  refused : receipt.refused ≡ r.refused + refused_in es
  failed : receipt.failed ≡ r.failed + failed_in es
  recovered : receipt.recovered_after_restart ≡ r.recovered_after_restart + recovered_in es

count_ending-IsCounted :
    (r : BatchReceipt) (e : Ended) (es : List Ended) (receipt : BatchReceipt)
    → IsCounted (count_ending r e.recovered e.ending) es receipt
    → IsCounted r (e ∷ es) receipt
count_ending-IsCounted r e es receipt = of_ending e.ending
  where
    of_ending :
        (ending : Ending)
        → IsCounted (count_ending r e.recovered ending) es receipt
        → IsCounted r (record e { ending = ending } ∷ es) receipt
    of_ending ends_certified h = record {
      claimed = omega (arith, h.claimed);
      certified = omega (arith, h.certified);
      refused = omega (arith, h.refused);
      failed = omega (arith, h.failed);
      recovered = omega (arith, h.recovered);
    }
    of_ending ends_refused h = record {
      claimed = omega (arith, h.claimed);
      certified = omega (arith, h.certified);
      refused = omega (arith, h.refused);
      failed = omega (arith, h.failed);
      recovered = omega (arith, h.recovered);
    }
    of_ending ends_failed h = record {
      claimed = omega (arith, h.claimed);
      certified = omega (arith, h.certified);
      refused = omega (arith, h.refused);
      failed = omega (arith, h.failed);
      recovered = omega (arith, h.recovered);
    }

module _ (env : Env) (config : OperationsConfig) {C : Type 0}
    (encode_result : RecoveryResult C → Result Error (List ℕ)) (executor : Text → RecoveryResult C)
    (now : ℕ) (point : RunFailurePoint) where
  -- At most so many rounds lead from a store to a store: in each a job is claimed, it runs, and it
  -- ends; they stop early only where `claim_next` finds no job.
  pub data Rounds : ℕ → Store → List Ended → Store → Type 0 where
    spent : (s : Store) → Rounds zero s [] s
    drained :
        (left : ℕ) (s t : Store)
        → claim_next env config now s ≡ (ok none, t)
        → Rounds (suc left) s [] t
    round :
        (left : ℕ) (s t u v : Store) (e : Ended) (es : List Ended)
        → claim_next env config now s ≡ (ok (some (e.job, e.recovered)), t)
        → IsRunningIn env config encode_result executor now e.job t
        → run_job env config encode_result executor now point e.job t ≡ (ok e.ending, u)
        → IsEnded env config encode_result executor now e.job e.ending u
        → Rounds left u es v
        → Rounds (suc left) s (e ∷ es) v

  length-Rounds : (left : ℕ) (s v : Store) (es : List Ended) → Rounds left s es v → length es ≤ left
  length-Rounds _ _ _ _ (spent s) = omega arith
  length-Rounds _ _ _ _ (drained left s t h) = omega arith
  length-Rounds _ _ _ _ (round left s t u v e es a b c d rest) =
      omega (arith, length-Rounds left u v es rest)

  -- The rounds that the receipts differ by.
  record IsAccounted (left : ℕ) (r : BatchReceipt) (s : Store) (receipt : BatchReceipt) (v : Store)
      : Type 0 where
    ended : List Ended
    rounds : Rounds left s ended v
    counted : IsCounted r ended receipt

  pair_ok :
      {A : Type 0} {a b : A} {s t : Store}
      → ◌≡◌ {A = Result Error A × Store} (ok a, s) (ok b, t)
      → (a ≡ b) × (s ≡ t)
  pair_ok h = (ground (arith, ap (λ p. p.0) h), ap (λ p. p.1) h)

  after_claim :
      (left : ℕ) (r : BatchReceipt) (s t : Store) (next : Option (RecoveryJob × ℕ))
      (receipt : BatchReceipt) (v : Store)
      → claim_next env config now s ≡ (ok next, t)
      → IsClaimed env config next t
      → ((q : BatchReceipt) (u : Store)
          → IsSound env config u
          → run_rounds env config encode_result executor now point left q u ≡ (ok receipt, v)
          → IsAccounted left q u receipt v)
      → let_else next
          (pure r)
          (λ claimed. run_job env config encode_result executor now point claimed.0 >>= λ ending.
            run_rounds env config encode_result executor now point left
              (count_ending r claimed.1 ending))
          t
        ≡ (ok receipt, v)
      → IsAccounted (suc left) r s receipt v
  after_claim left r s t none receipt v claimed i rest h = record {
    ended = [];
    rounds = subst (Rounds (suc left) s []) (pair_ok h).1 (drained left s t claimed);
    counted = subst (IsCounted r []) (pair_ok h).0 (record {
      claimed = omega arith;
      certified = omega arith;
      refused = omega arith;
      failed = omega arith;
      recovered = omega arith;
    });
  }
  after_claim left r s t (some (job, n)) receipt v claimed i rest h =
      let (ending, u, ran, more) =
        resume-eq-ok (run_job env config encode_result executor now point job t) _ receipt v h in
      let running = IsRunningIn-claimed env config encode_result executor now job n t i in
      let (sound, ended) =
        subst
          (Leaves (IsSound env config)
            (λ e w. IsSound env config w × IsEnded env config encode_result executor now job e w))
          ran (run_job-Triple env config encode_result executor now point job t running) in
      let e : Ended = record { job = job; recovered = n; ending = ending } in
      let a = rest (count_ending r n ending) u sound more in
      record {
        ended = e ∷ a.ended;
        rounds = round left s t u v e a.ended claimed running ran ended a.rounds;
        counted = count_ending-IsCounted r e a.ended receipt a.counted;
      }

  run_rounds-IsAccounted :
      (left : ℕ) (r : BatchReceipt) (s : Store) (receipt : BatchReceipt) (v : Store)
      → IsBounded config
      → IsSound env config s
      → run_rounds env config encode_result executor now point left r s ≡ (ok receipt, v)
      → IsAccounted left r s receipt v
  unfolding run_rounds
  run_rounds-IsAccounted zero r s receipt v b i h = record {
    ended = [];
    rounds = subst (Rounds zero s []) (pair_ok h).1 (spent s);
    counted = subst (IsCounted r []) (pair_ok h).0 (record {
      claimed = omega arith;
      certified = omega arith;
      refused = omega arith;
      failed = omega arith;
      recovered = omega arith;
    });
  }
  run_rounds-IsAccounted (suc left) r s receipt v b i h =
      let (next, t, claimed, more) = resume-eq-ok (claim_next env config now s) _ receipt v h in
      let c =
        subst (Leaves (IsSound env config) (IsClaimed env config)) claimed
          (claim_next-Triple env config now b s i) in
      after_claim left r s t next receipt v claimed c
        (λ q u j g. run_rounds-IsAccounted left q u receipt v b j g) more

  -- The receipt of a batch counts the jobs of its rounds.
  pub record IsBatch (bound : ℕ) (s : Store) (receipt : BatchReceipt) (v : Store) : Type 0 where
    pub ended : List Ended
    pub rounds : Rounds bound s ended v
    pub claimed : receipt.claimed ≡ length ended
    pub certified : receipt.certified ≡ certified_in ended
    pub refused : receipt.refused ≡ refused_in ended
    pub failed : receipt.failed ≡ failed_in ended
    pub recovered : receipt.recovered_after_restart ≡ recovered_in ended
    pub bounded : receipt.claimed ≤ bound

  -- With a configuration within the bounds: a batch that succeeds in a sound store is a sequence of
  -- at most max_batch rounds. In each a job is claimed, which the store holds as running, and after
  -- the round the store holds it as certified, refused or failed; it is certified or refused only
  -- where the executor's answer for its workspace is. The batch stops before max_batch rounds only
  -- where claim_next finds no job. The receipt counts the rounds, those of each ending, and the
  -- leases recovered.
  pub run_batch-IsBatch :
      (s : Store) (receipt : BatchReceipt) (v : Store)
      → IsBounded config
      → IsSound env config s
      → run_batch env config encode_result executor now point s ≡ (ok receipt, v)
      → IsBatch config.max_batch s receipt v
  unfolding run_batch
  run_batch-IsBatch s receipt v b i h =
      let a = run_rounds-IsAccounted config.max_batch empty_receipt s receipt v b i h in
      let c = a.counted in
      record {
        ended = a.ended;
        rounds = a.rounds;
        claimed = omega (arith, c.claimed);
        certified = omega (arith, c.certified);
        refused = omega (arith, c.refused);
        failed = omega (arith, c.failed);
        recovered = omega (arith, c.recovered);
        bounded = omega (arith, c.claimed, length-Rounds config.max_batch s v a.ended a.rounds);
      }
