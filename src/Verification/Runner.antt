-- ===== src/Verification/Runner.antt =====
-- verification_runtime/runner.py. The process runner, the sink of the events and the clock are
-- parameters: what they do is outside.
use imece_ide.Base.{
  ℕ, ◌-◌, String, Bool, true, false, if◌then◌else◌, none, some, List, [], ◌∷◌, length, Result, ok,
  err, ◌>>=◌, ◌>>◌, guard, is_stable_id, verification_input, operation_cancelled, other_error,
}
use imece_ide.Json.{ℤ, pos, negsuc}
use imece_ide.Verification.Models.{
  VerificationStatus, ProcessRequest, ProcessResult, VerificationCheck, VerificationPlan,
  VerificationCheckResult, VerificationReport, has_code, make_result, make_report,
}

abbrev is_negative : ℤ → Bool
is_negative (pos _) = false
is_negative (negsuc _) = true

unfoldable pub classify : VerificationCheck → ProcessResult → VerificationStatus
classify c r = if r.timed_out then VerificationStatus.timeout else elim r.exit_code [
  | none ↦ VerificationStatus.error
  | some code ↦
      if has_code code c.pass_exit_codes
      then VerificationStatus.pass
      else if is_negative code
      then VerificationStatus.error
      else if has_code code c.error_exit_codes
      then VerificationStatus.error
      else VerificationStatus.fail
]

-- What ProcessRunner.run ends in: a result, a ProcessRuntimeError with its class and text, a
-- cancellation, or any other exception.
pub data ProcessOutcome : Type 0 where
  finished : ProcessResult → ProcessOutcome
  process_error : String → String → ProcessOutcome
  cancelled : ProcessOutcome
  crashed : ProcessOutcome

pub data VerificationEvent : Type 0 where
  started : String → String → ℕ → VerificationEvent
  check_started : String → VerificationCheck → VerificationEvent
  check_completed : String → VerificationCheck → VerificationCheckResult → VerificationEvent
  check_failed : String → VerificationCheck → VerificationCheckResult → VerificationEvent
  interrupted : String → String → VerificationEvent
  completed : String → VerificationReport → VerificationEvent

-- The outside of a verification: `W` is its state.
pub record VerificationPorts (W : Type 0) : Type 0 where
  pub run_process : ProcessRequest → W → ProcessOutcome × W
  pub emit : VerificationEvent → W → Result W
  pub monotonic_ms : W → ℕ

module _ {W : Type 0} (ports : VerificationPorts W) where
  -- What becomes of a check when its process has ended.
  unfoldable pub check_outcome :
      String
      → String
      → VerificationCheck
      → ProcessOutcome
      → W
      → Result (VerificationCheckResult × W)
  check_outcome verification_id plan_id c cancelled w =
      ports.emit (interrupted verification_id plan_id) w >>= λ _. err operation_cancelled
  check_outcome verification_id plan_id c crashed w = err other_error
  check_outcome verification_id plan_id c (process_error type text) w = do
    result ← make_result (record {
      check_id = c.check_id;
      name = c.name;
      status = VerificationStatus.error;
      process_result = none;
      error_type = some type;
      error_message = some text;
    })
    w ← ports.emit (check_failed verification_id c result) w
    ok (result, w)
  check_outcome verification_id plan_id c (finished p) w = do
    result ← make_result (record {
      check_id = c.check_id;
      name = c.name;
      status = classify c p;
      process_result = some p;
      error_type = none;
      error_message = none;
    })
    w ← ports.emit (check_completed verification_id c result) w
    ok (result, w)

  unfoldable pub run_check :
      String → String → VerificationCheck → W → Result (VerificationCheckResult × W)
  run_check verification_id plan_id c w = do
    w ← ports.emit (check_started verification_id c) w
    let (outcome, w) = ports.run_process c.request w
    check_outcome verification_id plan_id c outcome w

  -- for check in plan.checks
  unfoldable pub run_checks :
      String → String → List VerificationCheck → W → Result (List VerificationCheckResult × W)
  run_checks verification_id plan_id [] w = ok ([], w)
  run_checks verification_id plan_id (c ∷ checks) w = do
    (result, w) ← run_check verification_id plan_id c w
    (results, w) ← run_checks verification_id plan_id checks w
    ok (result ∷ results, w)

  -- VerificationRunner.run
  unfoldable pub run_plan : String → VerificationPlan → W → Result (VerificationReport × W)
  run_plan verification_id plan w = do
    guard (is_stable_id verification_id) verification_input
    let began = ports.monotonic_ms w
    w ← ports.emit (started verification_id plan.plan_id (length plan.checks)) w
    (results, w) ← run_checks verification_id plan.plan_id plan.checks w
    report ← make_report (record {
      verification_id = verification_id;
      plan_id = plan.plan_id;
      results = results;
      duration_ms = ports.monotonic_ms w - began;
    })
    w ← ports.emit (completed verification_id report) w
    ok (report, w)
