-- ===== src/Fix/Calls.antt =====
-- The wrappers that fix_runtime/runner.py puts around its collaborators.
use imece_ide.Base.{
  ℕ, suc, String, Bool, false, not, ◌&&◌, str_eq, Option, none, some, List, Error, Result, ok, err,
  guard, reraise, fix_loop_execution, operation_cancelled,
}
use imece_ide.Run.Events.{RunEvent}
use imece_ide.Run.Runtime.{RunRuntime, current_run}
use imece_ide.Run.History.{load_full_event_history}
use imece_ide.Run.Completion.Kinds.{is_execution_lifecycle, is_execution_completed}
use imece_ide.Run.Completion.Checks.{last_where, same_id}
use imece_ide.Verification.Models.{VerificationPlan, VerificationReport}
use imece_ide.Review.{ReviewReport, ReviewRequest, make_review_request}
use imece_ide.Decision.Triage.{TriageOutcome}
use imece_ide.Fix.Models.{FixTrigger, FixWorkerRequest, FixLoopRequest, is_text}
use imece_ide.Fix.Task.{World, Task, pure, lift, call_port, ◌>>=◌, ◌>>◌}
use imece_ide.Fix.Ports.{
  WorkspaceChangeSet, FixPorts, keep_cancellation, keep_execution_error, to_execution_error,
}

abbrev pub fail_unless : {W : Type 0} → Bool → Error → Task W (Unit {0})
fail_unless b e = lift (guard b e)

-- FixLoopRequest.review_task if it is given, else FixLoopRequest.task
abbrev pub task_for_review : FixLoopRequest → String
task_for_review r = elim r.review_task [ none ↦ r.task | some t ↦ t ]

-- matching[-1].type, where the events of an execution's life are given
abbrev pub ended_completed : Option RunEvent → Bool
ended_completed none = false
ended_completed (some e) = is_execution_completed e.type

-- The log of a run, over as many pages as it has.
unfoldable pub whole_log : String → RunRuntime → Result (List RunEvent)
whole_log run_id rt = elim (current_run run_id rt) [
  | err e ↦ err e
  | ok run ↦ load_full_event_history (suc run.last_event_seq) run_id 200 none rt.store
]

unfoldable pub read_log : {W : Type 0} → String → Task W (List RunEvent)
read_log run_id w = (whole_log run_id w.runtime, w)

module _ {W : Type 0} (ports : FixPorts W) where
  -- cancel_token.raise_if_cancelled()
  unfoldable pub raise_if_cancelled : Task W (Unit {0})
  raise_if_cancelled w = (guard (not (ports.is_cancelled w.outside)) operation_cancelled, w)

  -- _capture
  unfoldable pub capture : Task W WorkspaceChangeSet
  capture = call_port keep_execution_error ports.capture

  -- _render_worker_input
  unfoldable pub render_worker_input :
      FixLoopRequest → FixTrigger → ℕ → Option String → Task W String
  render_worker_input request trigger attempt_index classification =
      call_port to_execution_error (ports.render request trigger attempt_index classification)

  -- _run_worker
  unfoldable pub run_worker : FixWorkerRequest → String → Task W (Unit {0})
  run_worker request execution_id = do
    confirmed ← call_port keep_cancellation (ports.worker request execution_id)
    fail_unless (str_eq confirmed execution_id) fix_loop_execution

  -- _require_execution_completed
  unfoldable pub require_execution_completed : String → String → Task W (Unit {0})
  require_execution_completed run_id execution_id = do
    events ← read_log run_id
    fail_unless
        (ended_completed (
          last_where (λ e. same_id e.execution_id execution_id && is_execution_lifecycle e.type)
            events))
        fix_loop_execution

  -- _run_verification
  unfoldable pub run_verification : VerificationPlan → String → Task W VerificationReport
  run_verification plan verification_id = do
    report ← call_port keep_cancellation (ports.verification plan verification_id)
    fail_unless (str_eq report.verification_id verification_id) fix_loop_execution
    pure report

  after_gate :
      World W → Result TriageOutcome × RunRuntime × W → Result (Option TriageOutcome) × World W
  after_gate w (ok o, rt, x) = (ok (some o), record w { runtime = rt; outside = x })
  after_gate w (err _, rt, x) = (ok none, record w { runtime = rt; outside = x })

  -- _evaluate_decision_gate, which no failure of the gate leaves
  unfoldable pub evaluate_decision_gate :
      FixLoopRequest → VerificationReport → WorkspaceChangeSet → Task W (Option TriageOutcome)
  unfolding after_gate
  evaluate_decision_gate request report after w = elim ports.decision_gate [
    | none ↦ (ok none, w)
    | some gate ↦
        after_gate w (gate request.verification_plan report after.changed_paths w.runtime w.outside)
  ]

  -- _build_review_request
  unfoldable pub build_review_request :
      FixLoopRequest → WorkspaceChangeSet → VerificationReport → Task W ReviewRequest
  build_review_request request changes report = lift (
      reraise fix_loop_execution (
        make_review_request (record {
          task = task_for_review request;
          diff = changes.diff;
          plan = request.plan;
          verification_report = some report;
        })))

  -- _run_reviewer
  unfoldable pub run_reviewer : ReviewRequest → String → Task W ReviewReport
  run_reviewer request review_id = call_port keep_cancellation (ports.reviewer request review_id)

  -- _validate_review_provenance
  unfoldable pub validate_review_provenance :
      ReviewReport → String → String → WorkspaceChangeSet → Task W (Unit {0})
  validate_review_provenance review review_id verification_id changes =
      fail_unless
        (str_eq review.review_id review_id
          && is_text review.verification_id verification_id
          && is_text review.verification_status "pass"
          && str_eq review.diff_sha256 changes.diff_sha256)
        fix_loop_execution
