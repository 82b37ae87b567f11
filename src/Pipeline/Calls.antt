-- ===== src/Pipeline/Calls.antt =====
-- The wrappers that pipeline_runtime/runner.py puts around its collaborators.
use imece_ide.Base.{
  String, ◌&&◌, str_eq, Option, none, some, Error, Result, ok, err, reraise, pipeline_execution,
}
use imece_ide.Json.{Dict}
use imece_ide.Run.Completion.Kinds.{is_execution_lifecycle}
use imece_ide.Run.Completion.Checks.{last_where, same_id}
use imece_ide.Planner.Models.{PlanReport}
use imece_ide.Verification.Models.{VerificationPlan, VerificationReport}
use imece_ide.Review.{ReviewReport, ReviewRequest, make_review_request}
use imece_ide.Fix.Models.{FixTrigger, FixWorkerRequest, InitialWorkerRequest}
use imece_ide.Fix.Task.{World, Task, pure, lift, call_port, ◌>>=◌, ◌>>◌}
use imece_ide.Fix.Ports.{WorkspaceChangeSet}
use imece_ide.Fix.Calls.{fail_unless, ended_completed, read_log}
use imece_ide.Pipeline.Ports.{PipelinePorts, to_pipeline_error, keep_cancelled}

module _ {W A : Type 0} where
  map_error : (Error → Error) → Result A × World W → Result A × World W
  map_error f (ok a, w) = (ok a, w)
  map_error f (err e, w) = (err (f e), w)

  -- try: …; except: raise …
  unfoldable pub rescue : (Error → Error) → Task W A → Task W A
  unfolding map_error
  rescue f m w = map_error f (m w)

  optional : Result A × World W → Result (Option A) × World W
  optional (ok a, w) = (ok (some a), w)
  optional (err e, w) = (ok none, w)

  -- try: return …; except: return None
  unfoldable pub attempt_quietly : Task W A → Task W (Option A)
  unfolding optional
  attempt_quietly m w = optional (m w)

module _ {W : Type 0} (ports : PipelinePorts W) where
  after_stage : World W → Result (Unit {0}) × W → Result (Unit {0}) × World W
  after_stage w (r, o) = (r, record w { outside = o })

  -- on_stage(…)
  unfoldable pub tell_stage : String → Dict → Task W (Unit {0})
  unfolding after_stage
  tell_stage stage info w = after_stage w (ports.on_stage stage info w.outside)

  -- _capture
  unfoldable pub capture : Task W WorkspaceChangeSet
  capture = call_port to_pipeline_error ports.fix.capture

  -- _safe_capture
  unfoldable pub safe_capture : Task W (Option WorkspaceChangeSet)
  unfolding capture
  safe_capture = attempt_quietly capture

  -- detect_verification_plan(workspace.root)
  unfoldable pub detect : Task W (Option VerificationPlan)
  detect = call_port (λ e. e) ports.detect_verification_plan

  -- _run_planner
  unfoldable pub run_planner : String → String → Task W PlanReport
  run_planner task plan_id = do
    report ← call_port keep_cancelled (ports.planner task plan_id)
    fail_unless (str_eq report.plan_id plan_id) pipeline_execution
    pure report

  -- _capture_verification_preview and _render_initial_input
  unfoldable pub render_initial_input :
      String → PlanReport → Option VerificationPlan → Task W String
  render_initial_input task plan verification_plan = do
    preview ← lift (reraise pipeline_execution (ports.verification_preview verification_plan))
    call_port to_pipeline_error (ports.render_initial task plan verification_plan preview)

  -- _render_feedback_only_input
  unfoldable pub render_feedback_input : String → Option String → FixTrigger → Task W String
  render_feedback_input task plan trigger =
      call_port to_pipeline_error (ports.render_feedback task plan trigger)

  confirm : String → String → Task W (Unit {0})
  confirm execution_id confirmed = fail_unless (str_eq confirmed execution_id) pipeline_execution

  -- _run_worker at the initial request
  unfoldable pub run_initial_worker : InitialWorkerRequest → String → Task W (Unit {0})
  unfolding confirm
  run_initial_worker request execution_id =
      call_port keep_cancelled (ports.initial_worker request execution_id) >>= confirm execution_id

  -- _run_worker at the request of a follow-up
  unfoldable pub run_feedback_worker : FixWorkerRequest → String → Task W (Unit {0})
  unfolding confirm
  run_feedback_worker request execution_id =
      call_port keep_cancelled (ports.fix.worker request execution_id) >>= confirm execution_id

  -- _require_execution_completed
  unfoldable pub require_execution_completed : String → String → Task W (Unit {0})
  require_execution_completed run_id execution_id = do
    events ← read_log run_id
    fail_unless
        (ended_completed (
          last_where (λ e. same_id e.execution_id execution_id && is_execution_lifecycle e.type)
            events))
        pipeline_execution

  -- _run_verification
  unfoldable pub run_verification : VerificationPlan → String → Task W VerificationReport
  run_verification plan verification_id = do
    report ← call_port keep_cancelled (ports.fix.verification plan verification_id)
    fail_unless (str_eq report.verification_id verification_id) pipeline_execution
    pure report

  -- _build_review_request
  unfoldable pub build_review_request :
      String → Option String → WorkspaceChangeSet → Option VerificationReport → Task W ReviewRequest
  build_review_request task plan changes report = lift (
      reraise pipeline_execution (
        make_review_request
          (record { task = task; diff = changes.diff; plan = plan; verification_report = report })))

  -- _run_reviewer
  unfoldable pub run_reviewer : ReviewRequest → String → Task W ReviewReport
  run_reviewer request review_id = call_port keep_cancelled (ports.fix.reviewer request review_id)
