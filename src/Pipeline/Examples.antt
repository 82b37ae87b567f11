-- ===== src/Pipeline/Examples.antt =====
-- The theorems of the pipeline (pipeline_runtime/runner.py) at a run that ends in a proposal, at the
-- follow-up on it, and at a verification that times out.
use imece_ide.Base.{
  ℕ, ◌≤◌, String, ◌≡◌, refl, none, some, List, [], ◌∷◌, ◌++◌, Result, ok, err, fix_loop_input,
  text_length, take_text, append_text,
}
use imece_ide.Json.{end}
use imece_ide.Run.Events.{RunEventType}
use imece_ide.Run.Store.Consistency.{IsConsistent}
use imece_ide.Run.Store.Reachability.{reachable-IsConsistent, Operation, event, empty_store, steps}
use imece_ide.Run.Completion.Gate.{await_user}
use imece_ide.Run.Samples.{
  sample_spec, sample_floats, sample_environment, opening, opened, sha, from_ok,
}
use imece_ide.Planner.Models.{TaskComplexity, TaskScope, PlanReport}
use imece_ide.Verification.Models.{VerificationStatus, VerificationPlan, report_status}
use imece_ide.Fix.Task.{World}
use imece_ide.Fix.Samples.{
  write, write-IsConsistent, report_with, sample_ports, sample_ports-KeepStore, sample_world,
  sample_names, fixed,
}
use imece_ide.Pipeline.Models.{PipelineStatus, status_text, PipelineReport, make_report}
use imece_ide.Pipeline.Ports.{PipelinePorts}
use imece_ide.Pipeline.Keeps.{KeepStores}
use imece_ide.Pipeline.Ends.{
  Job, continue_fix_loop, hand_over, after_loop, end_after_loop, changes_of, catch_cancelled,
  settled_cancelled, status_after_gate, finish,
}
use imece_ide.Pipeline.Calls.{
  rescue, safe_capture, attempt_quietly, tell_stage, run_planner, detect, render_initial_input,
  run_initial_worker, require_execution_completed, capture, run_verification, build_review_request,
  run_reviewer,
}
use imece_ide.Fix.Models.{make_request, make_initial_request}
use imece_ide.Pipeline.Runner.{
  continue_stages, continue_with_plan, run_stages, after_worker, review_attempt, after_approval,
  run_pipeline, continue_with_feedback, verify_attempt,
}
use imece_ide.Pipeline.Outcome.{Outcome}
use imece_ide.Pipeline.Recorder.{resumed}
use imece_ide.Pipeline.Feedback.{augment_task_with_feedback, augment_task_bound}
use imece_ide.Pipeline.Undecided.{verify_attempt-undecided}
use imece_ide.Pipeline.Settles.{run_pipeline-Outcome, continue_with_feedback-Outcome}

abbrev sample_plan : VerificationPlan
sample_plan = record { plan_id = "p"; checks = [] }

abbrev plan_report : String → PlanReport
plan_report id = record {
  plan_id = id;
  summary = "a plan";
  steps = [];
  acceptance_criteria = [];
  risks = [];
  task_profile = record { complexity = TaskComplexity.low; scope = TaskScope.local };
  repository_fingerprint = sha;
  task_sha256 = sha;
}

abbrev ports : PipelinePorts ℕ
ports = record {
  fix = sample_ports;
  planner = λ task id rt n. (ok (plan_report id), rt, n);
  detect_verification_plan = λ rt n. (ok (some sample_plan), rt, n);
  verification_preview = λ p. ok none;
  render_initial = λ task p v preview rt n. (ok "do it", rt, n);
  render_feedback = λ task p t rt n. (ok "do it", rt, n);
  initial_worker = λ request x rt n. (
    ok x,
    write RunEventType.execution_completed end (some x)
        (write RunEventType.execution_started end (some x) rt),
    1,
  );
  on_stage = λ stage info n. (ok tt, n);
}

ports-KeepStores : KeepStores ports
ports-KeepStores = record {
  fix = sample_ports-KeepStore;
  planner = λ task id rt n w. w;
  detect = λ rt n w. w;
  render_initial = λ task p v preview rt n w. w;
  render_feedback = λ task p t rt n w. w;
  initial_worker = λ request x rt n w. write-IsConsistent _ _ _ _ (write-IsConsistent _ _ _ _ w);
  capture_reads = λ rt n. refl;
}

abbrev no_report : PipelineReport
no_report = record {
  run_id = "";
  status = PipelineStatus.failed;
  reason = "";
  plan_report = none;
  change_set = none;
  verification_report = none;
  review_report = none;
  fix_loop_report = none;
}

opened-IsConsistent : IsConsistent sample_world.runtime.store
unfolding imece_ide.Run.Samples.opened
opened-IsConsistent = reachable-IsConsistent opening

unfoldable proposed : Result PipelineReport × World ℕ
unfolding fixed run_pipeline catch_cancelled settled_cancelled run_stages tell_stage run_planner
    detect render_initial_input make_initial_request run_initial_worker require_execution_completed
    capture after_worker verify_attempt run_verification review_attempt build_review_request
    run_reviewer after_approval status_after_gate finish status_text make_report report_status
proposed = run_pipeline ports await_user sample_names 2 [] "r" "do it" sample_world

abbrev proposed_report : PipelineReport
proposed_report = from_ok no_report proposed.0

proposed_status : proposed_report.status ≡ PipelineStatus.needs_user
unfolding proposed
proposed_status = refl

proposed_lem :
    run_pipeline ports await_user sample_names 2 [] "r" "do it" sample_world
    ≡ (ok proposed_report, proposed.1)
unfolding proposed
proposed_lem = refl

run_pipeline-Outcome_example : Outcome await_user "r" proposed_report.status proposed.1.runtime
run_pipeline-Outcome_example =
    run_pipeline-Outcome ports await_user ports-KeepStores sample_names 2 [] "r" "do it"
      sample_world proposed.1 proposed_report opened-IsConsistent proposed_lem

-- A run that waits for the user.
abbrev waiting_script : List Operation
waiting_script =
    opening ++ event "r" (sample_spec "b" RunEventType.run_waiting_user none []) none ∷ []

unfoldable waiting_world : World ℕ
unfolding proposed
waiting_world = record sample_world {
  runtime = record { store = steps waiting_script empty_store; tick = 0 };
}

waiting-IsConsistent : IsConsistent waiting_world.runtime.store
unfolding waiting_world
waiting-IsConsistent = reachable-IsConsistent waiting_script

unfoldable followed : Result PipelineReport × World ℕ
unfolding proposed waiting_world continue_with_feedback continue_stages resumed continue_with_plan
    continue_fix_loop hand_over rescue make_request augment_task_with_feedback after_loop
    end_after_loop changes_of safe_capture attempt_quietly append_text
followed =
    continue_with_feedback ports await_user sample_names 2 [] "r" "do it" none "again" waiting_world

abbrev followed_report : PipelineReport
followed_report = from_ok no_report followed.0

followed_lem :
    continue_with_feedback ports await_user sample_names 2 [] "r" "do it" none "again" waiting_world
    ≡ (ok followed_report, followed.1)
unfolding followed
followed_lem = refl

followed_status : followed_report.status ≡ PipelineStatus.needs_user
unfolding followed
followed_status = refl

continue_with_feedback-Outcome_example :
    Outcome await_user "r" followed_report.status followed.1.runtime
continue_with_feedback-Outcome_example =
    continue_with_feedback-Outcome ports await_user ports-KeepStores sample_names 2 [] "r" "do it"
      none "again" waiting_world followed.1 followed_report waiting-IsConsistent followed_lem

-- A verification that times out.
abbrev slow_ports : PipelinePorts ℕ
slow_ports = record ports {
  fix = record sample_ports {
    verification = λ plan id rt n. (ok (report_with VerificationStatus.timeout id), rt, n);
  };
}

abbrev sample_job : Job
sample_job = record { run_id = "r"; task = "do it"; plan_report = none; plan_text = none }

verify_attempt-undecided_example :
    verify_attempt slow_ports await_user sample_names 2 [] sample_job sample_plan sample_world ≡ (
      err fix_loop_input,
      record sample_world { runtime = record { store = opened; tick = 1 }; outside = 0 },
    )
unfolding report_status
verify_attempt-undecided_example =
    verify_attempt-undecided slow_ports await_user sample_names 2 [] sample_job sample_plan
      sample_world 0 0 (record { store = opened; tick = 1 })
      (report_with VerificationStatus.timeout "z") refl refl refl refl (λ e. cc) (λ e. cc)

augment_task_bound_example :
    (text_length (augment_task_with_feedback "do it" "again") ≤ 32000)
    × (text_length "do it" ≤ 32000
        → take_text (text_length "do it") (augment_task_with_feedback "do it" "again") ≡ "do it")
augment_task_bound_example = augment_task_bound "do it" "again"
