-- ===== src/Pipeline/Ports.antt =====
-- What the pipeline asks of its collaborators: pipeline_runtime/ports.py with the ports of the fix loop,
-- pipeline_runtime/verification_detect.py, the renderers of fix_runtime/prompt.py and the callback that
-- is told of each stage. The workspace and the pinned paths of a call are part of the outside.
use imece_ide.Base.{String, Option, Error, Result, pipeline_execution, if◌then◌else◌}
use imece_ide.Json.{Dict}
use imece_ide.Planner.Models.{PlanReport}
use imece_ide.Verification.Models.{VerificationPlan}
use imece_ide.Fix.Models.{FixTrigger, InitialWorkerRequest}
use imece_ide.Fix.Task.{Port}
use imece_ide.Fix.Ports.{FixPorts, is_cancellation}

pub record PipelinePorts (W : Type 0) : Type 0 where
  -- the ports that the fix loop is given
  pub fix : FixPorts W
  -- PlanAttemptRunner.run, by the task and the plan_id
  pub planner : String → String → Port W PlanReport
  pub detect_verification_plan : Port W (Option VerificationPlan)
  -- _capture_verification_preview
  pub verification_preview : Option VerificationPlan → Result (Option String)
  -- load_project_rules and render_initial_worker_input
  pub render_initial : String → PlanReport → Option VerificationPlan → Option String → Port W String
  -- load_project_rules and render_fix_worker_input, at attempt 1 of 1
  pub render_feedback : String → Option String → FixTrigger → Port W String
  -- WorkerAttemptRunner.run at an InitialWorkerRequest
  pub initial_worker : InitialWorkerRequest → String → Port W String
  -- on_stage, which does not reach the run store
  pub on_stage : String → Dict → W → Result (Unit {0}) × W

-- except Exception: raise PipelineExecutionError
abbrev pub to_pipeline_error : Error → Error
to_pipeline_error e = pipeline_execution

-- except OperationCancelledError: raise; except Exception: raise PipelineExecutionError
unfoldable pub keep_cancelled : Error → Error
keep_cancelled e = if is_cancellation e then e else pipeline_execution
