-- ===== src/Fix/Branches.antt =====
-- What follows the worker in an attempt of fix_runtime/runner.py: the verification, its branches and the
-- review.
use imece_ide.Base.{
  ℕ, String, Bool, true, false, ◌==◌, str_eq, if◌then◌else◌, Option, none, some, [], ◌∷◌,
}
use imece_ide.Json.{Value}
use imece_ide.Run.Models.{FloatOps}
use imece_ide.Run.Runtime.{Environment}
use imece_ide.Run.Completion.Gate.{Settlement, complete_reviewed, fail_fix_loop}
use imece_ide.Verification.Models.{
  VerificationStatus, VerificationReport, report_status, same_status,
}
use imece_ide.Review.{ReviewReport}
use imece_ide.Decision.Triage.{TriageAction, TriageOutcome}
use imece_ide.Fix.Models.{
  FixTriggerKind, FixLoopStatus, FixTrigger, make_trigger, FixLoopRequest, FixLoopReport,
  is_needs_fix,
}
use imece_ide.Fix.Recorder.{completed, exhausted, failed}
use imece_ide.Fix.Task.{Task, pure, lift, ◌>>=◌, ◌>>◌, on_recorder, on_runtime, new_id}
use imece_ide.Fix.Ports.{WorkspaceChangeSet, FixPorts}
use imece_ide.Fix.Calls.{
  capture, run_verification, evaluate_decision_gate, build_review_request, run_reviewer,
  validate_review_provenance,
}

-- What an attempt leads to: the loop's report, or the next attempt with its trigger and the
-- classification for its prompt.
pub data Turn : Type 0 where
  report : FixLoopReport → Turn
  again : FixTrigger → Option String → Turn

-- The variables of one attempt that its branches read.
pub record Scope : Type 0 where
  pub run_id : String
  pub fix_loop_id : String
  pub request : FixLoopRequest
  pub attempt_index : ℕ
  pub execution_id : String

abbrev pub is_last_attempt : Scope → Bool
is_last_attempt s = s.attempt_index == s.request.max_fix_attempts

-- A FixLoopReport of the branch.
abbrev pub report_of :
    Scope
    → FixLoopStatus
    → String
    → Option VerificationReport
    → Option ReviewReport
    → String
    → Option String
    → Turn
report_of s status reason verification review diff message = report (record {
  fix_loop_id = s.fix_loop_id;
  status = status;
  attempts_used = s.attempt_index;
  reason = reason;
  final_execution_id = some s.execution_id;
  verification_report = verification;
  review_report = review;
  diff_sha256 = some diff;
  needs_user_message = message;
})

abbrev has_action : TriageAction → Option TriageOutcome → Bool
has_action a none = false
has_action TriageAction.rerun_verification_once (some o) = elim o.action [
  | TriageAction.rerun_verification_once ↦ true
  | _ ↦ false
]
has_action TriageAction.needs_user (some o) = elim o.action [
  | TriageAction.needs_user ↦ true
  | _ ↦ false
]
has_action TriageAction.mark_pre_existing (some o) = elim o.action [
  | TriageAction.mark_pre_existing ↦ true
  | _ ↦ false
]
has_action TriageAction.continue_fix_loop (some o) = elim o.action [
  | TriageAction.continue_fix_loop ↦ true
  | _ ↦ false
]

abbrev kind_of : Option TriageOutcome → String
kind_of none = ""
kind_of (some o) = o.failure_kind

abbrev message_of : Option TriageOutcome → Option String
message_of none = none
message_of (some o) = o.needs_user_message

-- The classification that the next prompt is given.
abbrev classification_of : Option TriageOutcome → Option String
classification_of o = if has_action TriageAction.continue_fix_loop o then some (kind_of o) else none

module _ {W : Type 0} ⦃fp : FloatOps⦄ ⦃env : Environment⦄ (ports : FixPorts W)
    (mode : Settlement) where
  -- recorder.exhausted(…); completion_gate.fail_fix_loop(…)
  unfoldable pub give_up :
      Scope → String → Option VerificationReport → Option ReviewReport → String → Task W Turn
  give_up s reason verification review diff = do
    on_recorder (exhausted reason s.attempt_index s.request.max_fix_attempts [])
    on_runtime (fail_fix_loop s.run_id s.fix_loop_id)
    pure (report_of s FixLoopStatus.exhausted reason verification review diff none)

  -- recorder.failed(…); completion_gate.fail_fix_loop(…)
  unfoldable pub break_off :
      Scope → String → Option VerificationReport → Option ReviewReport → String → Task W Turn
  break_off s reason verification review diff = do
    on_recorder (failed reason [])
    on_runtime (fail_fix_loop s.run_id s.fix_loop_id)
    pure (report_of s FixLoopStatus.failed reason verification review diff none)

  -- recorder.exhausted(…), and the run is left RUNNING for the pipeline
  unfoldable pub leave_to_user :
      Scope
      → String
      → VerificationReport
      → String
      → Option TriageOutcome
      → Option String
      → Task W Turn
  leave_to_user s reason verification diff o message = do
    on_recorder (
        exhausted reason s.attempt_index s.request.max_fix_attempts
          (("decision_failure_kind", Value.str (kind_of o)) ∷ []))
    pure (report_of s FixLoopStatus.needs_user reason (some verification) none diff message)

  -- The verification of an attempt, with the triage of a failure, and one more run if it asks for it.
  unfoldable pub verify :
      FixLoopRequest
      → WorkspaceChangeSet
      → Task W (String × VerificationReport × Option TriageOutcome)
  verify request after = do
    verification_id ← new_id
    verification ← run_verification ports request.verification_plan verification_id
    outcome ←
        if same_status VerificationStatus.fail (report_status verification)
        then evaluate_decision_gate ports request verification after
        else pure none
    if has_action TriageAction.rerun_verification_once outcome
        then (do
          rerun_id ← new_id
          rerun ← run_verification ports request.verification_plan rerun_id
          pure (rerun_id, rerun, none))
        else pure (verification_id, verification, outcome)

  -- The branch of a failed verification.
  unfoldable pub after_failure :
      Scope → VerificationReport → Option TriageOutcome → String → Task W Turn
  after_failure s verification outcome diff =
      if has_action TriageAction.needs_user outcome
      then leave_to_user s "needs_user_environment" verification diff outcome (message_of outcome)
      else if has_action TriageAction.mark_pre_existing outcome
      then leave_to_user s "pre_existing_failure" verification diff outcome none
      else if is_last_attempt s
      then give_up s "budget_exhausted" (some verification) none diff
      else (do
        trigger ← lift (
            make_trigger (record {
              kind = FixTriggerKind.verification_fail;
              verification_report = some verification;
              review_report = none;
              feedback = none;
              diff_sha256 = none;
            }))
        pure (again trigger (classification_of outcome)))

  -- The end of an approved attempt.
  unfoldable pub after_approval :
      Scope → String → String → VerificationReport → ReviewReport → Task W Turn
  after_approval s verification_id review_id verification review = do
    final ← capture ports
    if str_eq final.diff_sha256 review.diff_sha256
        then (do
          on_recorder (
              completed s.attempt_index (some s.execution_id) verification_id review_id
                final.diff_sha256)
          on_runtime (complete_reviewed mode s.run_id verification_id review_id final.diff_sha256)
          pure (
              report_of s FixLoopStatus.completed "reviewed" (some verification) (some review)
                final.diff_sha256 none))
        else break_off s "workspace_changed_after_review" (some verification) (some review)
            final.diff_sha256

  -- The review of an attempt whose verification passed.
  unfoldable pub after_pass : Scope → String → VerificationReport → Task W Turn
  after_pass s verification_id verification = do
    changes ← capture ports
    review_request ← build_review_request ports s.request changes verification
    review_id ← new_id
    review ← run_reviewer ports review_request review_id
    validate_review_provenance ports review review_id verification_id changes
    if is_needs_fix review.verdict
        then (if is_last_attempt s
            then give_up s "budget_exhausted" (some verification) (some review) changes.diff_sha256
            else (do
              trigger ← lift (
                  make_trigger (record {
                    kind = FixTriggerKind.review_needs_fix;
                    verification_report = some verification;
                    review_report = some review;
                    feedback = none;
                    diff_sha256 = none;
                  }))
              pure (again trigger none)))
        else after_approval s verification_id review_id verification review

  -- The branches over the status of the verification.
  unfoldable pub judge :
      Scope
      → String
      → String
      → VerificationReport
      → Option TriageOutcome
      → VerificationStatus
      → Task W Turn
  judge s diff verification_id verification outcome VerificationStatus.error =
      break_off s "verification_error" (some verification) none diff
  judge s diff verification_id verification outcome VerificationStatus.timeout =
      break_off s "verification_timeout" (some verification) none diff
  judge s diff verification_id verification outcome VerificationStatus.fail =
      after_failure s verification outcome diff
  judge s diff verification_id verification outcome VerificationStatus.pass =
      after_pass s verification_id verification
