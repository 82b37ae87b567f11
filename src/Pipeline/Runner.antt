-- ===== src/Pipeline/Runner.antt =====
-- `PipelineRunner` of pipeline_runtime/runner.py: a run from the plan to its outcome, and the follow-up on
-- a proposal.
use imece_ide.Base.{
  ℕ, String, Bool, true, false, not, str_eq, is_blank, if◌then◌else◌, Option, none, some, List, [],
  ◌∷◌, guard, pipeline_input,
}
use imece_ide.Run.Models.{FloatOps}
use imece_ide.Run.Runtime.{Environment, texts}
use imece_ide.Json.{end}
use imece_ide.Run.Completion.Gate.{Settlement, complete_reviewed}
use imece_ide.Verification.Models.{
  VerificationStatus, VerificationPlan, VerificationReport, report_status, same_status,
}
use imece_ide.Review.{ReviewReport}
use imece_ide.Fix.Models.{
  FixTriggerKind, FixTrigger, make_trigger, FixLoopRequest, make_initial_request,
  make_worker_request, is_needs_fix, kind_text,
}
use imece_ide.Fix.Task.{Task, lift, ◌>>=◌, ◌>>◌, on_runtime, new_id}
use imece_ide.Fix.Ports.{WorkspaceChangeSet}
use imece_ide.Fix.Calls.{raise_if_cancelled}
use imece_ide.Fix.Loop.{Exceptions}
use imece_ide.Pipeline.Models.{PipelineStatus, PipelineReport}
use imece_ide.Pipeline.Recorder.{failed, resumed}
use imece_ide.Pipeline.Feedback.{augment_task_with_feedback}
use imece_ide.Pipeline.Ports.{PipelinePorts}
use imece_ide.Pipeline.Calls.{
  tell_stage, capture, detect, run_planner, render_initial_input, render_feedback_input,
  run_initial_worker, run_feedback_worker, require_execution_completed, run_verification,
  build_review_request, run_reviewer,
}
use imece_ide.Pipeline.Ends.{
  Job, finish, end_without_changes, advise, status_after_gate, run_fix_loop, continue_fix_loop,
  catch_cancelled,
}

abbrev has_changes : WorkspaceChangeSet → Bool
has_changes c = elim c.changed_paths [ [] ↦ false | x ∷ xs ↦ true ]

-- A trigger of one of the kinds.
abbrev pub trigger_of :
    FixTriggerKind
    → Option VerificationReport
    → Option ReviewReport
    → Option String
    → Option String
    → FixTrigger
trigger_of kind verification review feedback diff = record {
  kind = kind;
  verification_report = verification;
  review_report = review;
  feedback = feedback;
  diff_sha256 = diff;
}

-- The report of a reviewed attempt.
abbrev report_with :
    Job
    → WorkspaceChangeSet
    → VerificationReport
    → ReviewReport
    → PipelineStatus
    → String
    → PipelineReport
report_with job final verification review status reason = record {
  run_id = job.run_id;
  status = status;
  reason = reason;
  plan_report = job.plan_report;
  change_set = some final;
  verification_report = some verification;
  review_report = some review;
  fix_loop_report = none;
}

module _ {W : Type 0} ⦃fp : FloatOps⦄ ⦃env : Environment⦄ (ports : PipelinePorts W)
    (mode : Settlement) (names : Exceptions) (max_fix_attempts : ℕ)
    (pinned_paths : List String) where
  request_of : Job → FixTrigger → VerificationPlan → Option String → FixLoopRequest
  request_of job trigger plan review_task = record {
    task = job.task;
    trigger = trigger;
    verification_plan = plan;
    plan = job.plan_text;
    max_fix_attempts = max_fix_attempts;
    review_task = review_task;
    pinned_paths = pinned_paths;
  }

  -- The end of an approved first attempt: part 6 of _run, after the review.
  unfoldable pub after_approval :
      Job → String → String → VerificationReport → ReviewReport → Task W PipelineReport
  after_approval job verification_id review_id verification review = do
    final ← capture ports
    if str_eq final.diff_sha256 review.diff_sha256
        then (do
          on_runtime (complete_reviewed mode job.run_id verification_id review_id final.diff_sha256)
          status ← status_after_gate ports job.run_id
          finish ports (report_with job final verification review status "reviewed"))
        else (do
          on_runtime (failed job.run_id "workspace_changed_after_review" none)
          finish ports (
              report_with job final verification review PipelineStatus.failed
                "workspace_changed_after_review"))

  -- Part 6 of _run: the review of a verified first attempt.
  unfoldable pub review_attempt :
      Job → VerificationPlan → String → VerificationReport → Task W PipelineReport
  unfolding request_of
  review_attempt job plan verification_id verification = do
    raise_if_cancelled ports.fix
    tell_stage ports "reviewing" end
    changes ← capture ports
    review_request ← build_review_request ports job.task job.plan_text changes (some verification)
    review_id ← new_id
    review ← run_reviewer ports review_request review_id
    if is_needs_fix review.verdict
        then (do
          trigger ← lift (
              make_trigger (
                trigger_of FixTriggerKind.review_needs_fix (some verification) (some review) none
                  none))
          run_fix_loop ports mode names job (request_of job trigger plan none))
        else after_approval job verification_id review_id verification review

  -- Part 5 of _run: the verification of a first attempt.
  unfoldable pub verify_attempt : Job → VerificationPlan → Task W PipelineReport
  unfolding request_of
  verify_attempt job plan = do
    raise_if_cancelled ports.fix
    tell_stage ports "verifying" end
    verification_id ← new_id
    verification ← run_verification ports plan verification_id
    if same_status VerificationStatus.pass (report_status verification)
        then review_attempt job plan verification_id verification
        else (do
          trigger ← lift (
              make_trigger
                (trigger_of FixTriggerKind.verification_fail (some verification) none none none))
          run_fix_loop ports mode names job (request_of job trigger plan none))

  -- Part 4 of _run, after the change set: with and without a verification plan.
  unfoldable pub after_worker :
      Job → WorkspaceChangeSet → Option VerificationPlan → Task W PipelineReport
  after_worker job changes none = advise ports job job.task changes
  after_worker job changes (some plan) = verify_attempt job plan

  -- _run
  unfoldable pub run_stages : String → String → Task W PipelineReport
  run_stages run_id task = do
    raise_if_cancelled ports.fix
    tell_stage ports "planning" end
    plan_id ← new_id
    plan ← run_planner ports task plan_id
    verification_plan ← detect ports
    raise_if_cancelled ports.fix
    tell_stage ports "working" (texts (("plan_id", plan_id) ∷ []))
    execution_id ← new_id
    rendered_input ← render_initial_input ports task plan verification_plan
    request ← lift (
        make_initial_request
          (record { task = task; rendered_input = rendered_input; plan = some plan.summary }))
    run_initial_worker ports request execution_id
    require_execution_completed ports run_id execution_id
    changes ← capture ports
    let job : Job = record {
      run_id = run_id;
      task = task;
      plan_report = some plan;
      plan_text = some plan.summary;
    }
    if has_changes changes
        then after_worker job changes verification_plan
        else end_without_changes ports job changes

  -- run
  unfoldable pub run_pipeline : String → String → Task W PipelineReport
  run_pipeline run_id task = do
    lift (guard (not (str_eq run_id "")) pipeline_input)
    lift (guard (not (is_blank task)) pipeline_input)
    catch_cancelled ports run_id (run_stages run_id task)

  -- _continue_needs_user_path
  unfoldable pub continue_unverified : Job → FixTrigger → String → Task W PipelineReport
  continue_unverified job trigger feedback = do
    tell_stage ports "fixing" (texts (("trigger_kind", kind_text trigger.kind) ∷ []))
    execution_id ← new_id
    rendered_input ← render_feedback_input ports job.task job.plan_text trigger
    request ← lift (
        make_worker_request (record {
          task = job.task;
          trigger = trigger;
          attempt_index = 1;
          rendered_input = rendered_input;
          plan = job.plan_text;
        }))
    run_feedback_worker ports request execution_id
    require_execution_completed ports job.run_id execution_id
    changes ← capture ports
    if has_changes changes
        then advise ports job (augment_task_with_feedback job.task feedback) changes
        else end_without_changes ports job changes

  -- The branches of _continue_with_feedback over the verification plan.
  unfoldable pub continue_with_plan :
      Job → FixTrigger → String → Option VerificationPlan → Task W PipelineReport
  unfolding request_of
  continue_with_plan job trigger feedback none = continue_unverified job trigger feedback
  continue_with_plan job trigger feedback (some plan) = do
    raise_if_cancelled ports.fix
    let review_task = augment_task_with_feedback job.task feedback
    continue_fix_loop ports mode names job review_task
        (request_of job trigger plan (some review_task))

  -- _continue_with_feedback
  unfoldable pub continue_stages : String → String → Option String → String → Task W PipelineReport
  continue_stages run_id task plan_text feedback = do
    raise_if_cancelled ports.fix
    current ← capture ports
    trigger ← lift (
        make_trigger (
          trigger_of FixTriggerKind.user_feedback none none (some feedback)
            (some current.diff_sha256)))
    on_runtime (resumed run_id "user_feedback")
    verification_plan ← detect ports
    continue_with_plan
        (record { run_id = run_id; task = task; plan_report = none; plan_text = plan_text }) trigger
        feedback verification_plan

  -- continue_with_feedback
  unfoldable pub continue_with_feedback :
      String → String → Option String → String → Task W PipelineReport
  continue_with_feedback run_id task plan_text feedback = do
    lift (guard (not (str_eq run_id "")) pipeline_input)
    lift (guard (not (is_blank task)) pipeline_input)
    lift (guard (not (is_blank feedback)) pipeline_input)
    catch_cancelled ports run_id (continue_stages run_id task plan_text feedback)
