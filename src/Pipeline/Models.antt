-- ===== src/Pipeline/Models.antt =====
-- pipeline_runtime/models.py: the outcome of a pipeline.
use imece_ide.Base.{String, not, str_eq, Option, Result, ok, ◌>>◌, guard, pipeline_input}
use imece_ide.Planner.Models.{PlanReport}
use imece_ide.Verification.Models.{VerificationReport}
use imece_ide.Review.{ReviewReport}
use imece_ide.Fix.Models.{FixLoopReport}
use imece_ide.Fix.Ports.{WorkspaceChangeSet}

pub data PipelineStatus : Type 0 where
  completed needs_user no_changes failed exhausted cancelled : PipelineStatus

unfoldable pub status_text : PipelineStatus → String
status_text PipelineStatus.completed = "completed"
status_text PipelineStatus.needs_user = "needs_user"
status_text PipelineStatus.no_changes = "no_changes"
status_text PipelineStatus.failed = "failed"
status_text PipelineStatus.exhausted = "exhausted"
status_text PipelineStatus.cancelled = "cancelled"

pub record PipelineReport : Type 0 where
  pub run_id : String
  pub status : PipelineStatus
  pub reason : String
  pub plan_report : Option PlanReport
  pub change_set : Option WorkspaceChangeSet
  pub verification_report : Option VerificationReport
  pub review_report : Option ReviewReport
  pub fix_loop_report : Option FixLoopReport

-- PipelineReport.__post_init__
unfoldable pub make_report : PipelineReport → Result PipelineReport
make_report r = do
  guard (not (str_eq r.run_id "")) pipeline_input
  guard (not (str_eq r.reason "")) pipeline_input
  ok r
