-- ===== src/Pipeline/Ends.antt =====
-- The ways in which a pipeline of pipeline_runtime/runner.py ends: without changes, with an advisory
-- review, through the fix loop, and by cancellation.
use imece_ide.Base.{
  String, true, str_eq, if◌then◌else◌, Option, none, some, List, [], ◌∷◌, ◌++◌, Result, ok, err,
}
use imece_ide.Json.{Dict, end, entry, bool}
use imece_ide.Run.Models.{FloatOps, RunRecord}
use imece_ide.Run.Runtime.{Environment, texts, current_run}
use imece_ide.Run.Completion.Gate.{Settlement}
use imece_ide.Planner.Models.{PlanReport}
use imece_ide.Verification.Models.{VerificationReport, report_status}
use imece_ide.Decision.Triage.{status_text as verification_status_text}
use imece_ide.Review.{ReviewVerdict, ReviewReport, make_review_request}
use imece_ide.Fix.Models.{
  FixTrigger, FixLoopRequest, make_request, FixLoopReport, FixLoopStatus, kind_text,
}
use imece_ide.Fix.Task.{World, Task, pure, lift, ◌>>=◌, ◌>>◌, on_runtime, new_id}
use imece_ide.Fix.Ports.{WorkspaceChangeSet, is_cancellation}
use imece_ide.Fix.Calls.{raise_if_cancelled}
use imece_ide.Fix.Loop.{Exceptions}
use imece_ide.Fix.Loop
use imece_ide.Pipeline.Models.{PipelineStatus, status_text, PipelineReport, make_report}
use imece_ide.Pipeline.Recorder.{needs_user, completed_no_changes, cancelled, is_waiting_user}
use imece_ide.Pipeline.Ports.{PipelinePorts, keep_cancelled}
use imece_ide.Pipeline.Calls.{
  rescue, tell_stage, capture, safe_capture, build_review_request, run_reviewer,
}

unfoldable pub verdict_text : ReviewVerdict → String
verdict_text ReviewVerdict.approved = "APPROVED"
verdict_text ReviewVerdict.needs_fix = "NEEDS_FIX"

-- What a call of the pipeline knows of its run: its id, the task, and the plan with its text.
pub record Job : Type 0 where
  pub run_id : String
  pub task : String
  pub plan_report : Option PlanReport
  pub plan_text : Option String

-- {"advisory": True}
abbrev advisory : Dict
advisory = entry "advisory" (bool true) end

-- "message": needs_user_message, if there is one that is not empty
unfoldable pub message_field : Option String → List (String × String)
message_field none = []
message_field (some m) = if str_eq m "" then [] else ("message", m) ∷ []

unfoldable pub verification_fields : Option VerificationReport → List (String × String)
verification_fields none = []
verification_fields (some v) =
    ("verification_id", v.verification_id)
    ∷ ("verification_status", verification_status_text (report_status v))
    ∷ []

-- The payload of a proposal that an advisory review accompanies.
abbrev pub proposal_payload :
    String → String → ReviewReport → WorkspaceChangeSet → List (String × String) → Dict
proposal_payload reason review_id review changes more = texts (
    (("reason", reason)
      ∷ ("review_id", review_id)
      ∷ ("review_verdict", verdict_text review.verdict)
      ∷ ("diff_sha256", changes.diff_sha256)
      ∷ [])
    ++ more)

module _ {W : Type 0} ⦃fp : FloatOps⦄ ⦃env : Environment⦄ (ports : PipelinePorts W) where
  -- on_stage("done", …), and the report
  unfoldable pub finish : PipelineReport → Task W PipelineReport
  finish r = do
    tell_stage ports "done" (texts (("status", status_text r.status) ∷ []))
    lift (make_report r)

  -- The end of an attempt that has changed nothing.
  unfoldable pub end_without_changes : Job → WorkspaceChangeSet → Task W PipelineReport
  end_without_changes job changes = do
    on_runtime (completed_no_changes job.run_id)
    finish (record {
      run_id = job.run_id;
      status = PipelineStatus.no_changes;
      reason = "no_changes";
      plan_report = job.plan_report;
      change_set = some changes;
      verification_report = none;
      review_report = none;
      fix_loop_report = none;
    })

  -- The review where nothing can be verified, by the task that the reviewer is given: the end of
  -- _run_needs_user_path and of _continue_needs_user_path.
  unfoldable pub advise : Job → String → WorkspaceChangeSet → Task W PipelineReport
  advise job review_task changes = do
    raise_if_cancelled ports.fix
    tell_stage ports "reviewing" advisory
    review_request ← build_review_request ports review_task job.plan_text changes none
    review_id ← new_id
    review ← run_reviewer ports review_request review_id
    on_runtime (
        needs_user job.run_id (proposal_payload "review_advisory" review_id review changes []) none
          "pipeline")
    finish (record {
      run_id = job.run_id;
      status = PipelineStatus.needs_user;
      reason = "no_verification_plan_detected";
      plan_report = job.plan_report;
      change_set = some changes;
      verification_report = none;
      review_report = some review;
      fix_loop_report = none;
    })

  -- _settle_decision_needs_user
  unfoldable pub settle_decision_needs_user : Job → String → FixLoopReport → Task W PipelineReport
  settle_decision_needs_user job review_task loop = do
    raise_if_cancelled ports.fix
    tell_stage ports "reviewing" advisory
    changes ← capture ports
    review_request ← lift (
        make_review_request (record {
          task = review_task;
          diff = changes.diff;
          plan = job.plan_text;
          verification_report = loop.verification_report;
        }))
    review_id ← new_id
    review ← run_reviewer ports review_request review_id
    on_runtime (
        needs_user job.run_id
          (proposal_payload loop.reason review_id review changes
            (message_field loop.needs_user_message ++ verification_fields loop.verification_report))
          none "pipeline")
    finish (record {
      run_id = job.run_id;
      status = PipelineStatus.needs_user;
      reason = loop.reason;
      plan_report = job.plan_report;
      change_set = some changes;
      verification_report = loop.verification_report;
      review_report = some review;
      fix_loop_report = some loop;
    })

  gate_status : Result RunRecord → Result PipelineStatus
  gate_status (err e) = err e
  gate_status (ok run) =
      ok
        (if is_waiting_user run.status then PipelineStatus.needs_user else PipelineStatus.completed)

  -- _status_after_gate_settlement
  unfoldable pub status_after_gate : String → Task W PipelineStatus
  unfolding gate_status
  status_after_gate run_id w = (gate_status (current_run run_id w.runtime), w)

  -- The change set of a report of the loop that names a diff.
  unfoldable pub changes_of : Option String → Task W (Option WorkspaceChangeSet)
  changes_of none = pure none
  changes_of (some diff) = safe_capture ports

  -- What follows a report of the loop that leaves nothing to the user.
  unfoldable pub end_after_loop : Job → FixLoopReport → PipelineStatus → Task W PipelineReport
  end_after_loop job loop status = do
    tell_stage ports "done" (texts (("status", status_text status) ∷ []))
    changes ← changes_of loop.diff_sha256
    lift (
        make_report (record {
          run_id = job.run_id;
          status = status;
          reason = loop.reason;
          plan_report = job.plan_report;
          change_set = changes;
          verification_report = loop.verification_report;
          review_report = loop.review_report;
          fix_loop_report = some loop;
        }))

  -- The branches over the status of the loop's report.
  unfoldable pub after_loop : Job → String → FixLoopReport → FixLoopStatus → Task W PipelineReport
  after_loop job review_task loop FixLoopStatus.needs_user =
      settle_decision_needs_user job review_task loop
  after_loop job review_task loop FixLoopStatus.completed =
      status_after_gate job.run_id >>= end_after_loop job loop
  after_loop job review_task loop FixLoopStatus.exhausted =
      end_after_loop job loop PipelineStatus.exhausted
  after_loop job review_task loop FixLoopStatus.failed =
      end_after_loop job loop PipelineStatus.failed

  module _ (mode : Settlement) (names : Exceptions) where
    -- FixLoopRunner.run, and what follows its report.
    unfoldable pub hand_over : Job → String → FixLoopRequest → Task W PipelineReport
    hand_over job review_task request = do
      loop ← rescue keep_cancelled (Loop.run ports.fix mode names job.run_id none request)
      after_loop job review_task loop loop.status

    tell_fixing : FixTrigger → Task W (Unit {0})
    tell_fixing t = tell_stage ports "fixing" (texts (("trigger_kind", kind_text t.kind) ∷ []))

    -- _run_fix_loop
    unfoldable pub run_fix_loop : Job → FixLoopRequest → Task W PipelineReport
    unfolding tell_fixing
    run_fix_loop job unchecked = do
      tell_fixing unchecked.trigger
      request ← lift (make_request unchecked)
      hand_over job job.task request

    -- The same in _continue_with_feedback, by what the reviewer is given as the task.
    unfoldable pub continue_fix_loop : Job → String → FixLoopRequest → Task W PipelineReport
    unfolding tell_fixing
    continue_fix_loop job review_task unchecked = do
      request ← lift (make_request unchecked)
      tell_fixing unchecked.trigger
      hand_over job review_task request

  unfoldable pub settled_cancelled :
      String → Result PipelineReport × World W → Result PipelineReport × World W
  settled_cancelled run_id (ok r, w) = (ok r, w)
  settled_cancelled run_id (err e, w) =
      if is_cancellation e
      then (do
        on_runtime (cancelled run_id)
        finish (record {
          run_id = run_id;
          status = PipelineStatus.cancelled;
          reason = "cancelled";
          plan_report = none;
          change_set = none;
          verification_report = none;
          review_report = none;
          fix_loop_report = none;
        }))
          w
      else (err e, w)

  -- except OperationCancelledError: …
  unfoldable pub catch_cancelled : String → Task W PipelineReport → Task W PipelineReport
  unfolding settled_cancelled
  catch_cancelled run_id m w = settled_cancelled run_id (m w)
