-- ===== src/Fix/Ports.antt =====
-- What the fix loop asks of its collaborators: fix_runtime/ports.py, change_runtime/provider.py, the
-- cancellation token and the decision gate, as one interface over the state of the outside.
use imece_ide.Base.{
  String, Bool, true, false, if◌then◌else◌, List, Option, ℕ, Error, fix_loop_execution,
  fix_loop_cancelled, operation_cancelled,
}
use imece_ide.Verification.Models.{VerificationPlan, VerificationReport}
use imece_ide.Review.{ReviewReport, ReviewRequest}
use imece_ide.Decision.Triage.{TriageOutcome}
use imece_ide.Fix.Models.{FixWorkerRequest, FixLoopRequest, FixTrigger}
use imece_ide.Fix.Task.{Port}

-- WorkspaceChangeSet
pub record WorkspaceChangeSet : Type 0 where
  pub diff : String
  pub changed_paths : List String
  pub diff_sha256 : String

pub record FixPorts (W : Type 0) : Type 0 where
  -- whether the cancellation token, if there is one, has been cancelled
  pub is_cancelled : W → Bool
  pub capture : Port W WorkspaceChangeSet
  -- load_project_rules and render_fix_worker_input
  pub render : FixLoopRequest → FixTrigger → ℕ → Option String → Port W String
  -- the execution_id that the worker confirms
  pub worker : FixWorkerRequest → String → Port W String
  pub verification : VerificationPlan → String → Port W VerificationReport
  pub reviewer : ReviewRequest → String → Port W ReviewReport
  pub decision_gate :
      Option (VerificationPlan → VerificationReport → List String → Port W TriageOutcome)

-- isinstance(exc, OperationCancelledError)
unfoldable pub is_cancellation : Error → Bool
is_cancellation operation_cancelled = true
is_cancellation fix_loop_cancelled = true
is_cancellation _ = false

-- isinstance(exc, FixLoopExecutionError)
unfoldable pub is_execution_error : Error → Bool
is_execution_error fix_loop_execution = true
is_execution_error fix_loop_cancelled = true
is_execution_error _ = false

-- except OperationCancelledError: raise; except Exception: raise FixLoopExecutionError
unfoldable pub keep_cancellation : Error → Error
keep_cancellation e = if is_cancellation e then e else fix_loop_execution

-- except FixLoopExecutionError: raise; except Exception: raise FixLoopExecutionError
unfoldable pub keep_execution_error : Error → Error
keep_execution_error e = if is_execution_error e then e else fix_loop_execution

-- except Exception: raise FixLoopExecutionError
abbrev pub to_execution_error : Error → Error
to_execution_error e = fix_loop_execution
