-- ===== src/Run/Models.antt =====
-- run_runtime/models.py: statuses, phases and the run record. A `datetime` in canonical UTC is its
-- number of microseconds; a `float` is its IEEE-754 bit pattern.
use imece_ide.Base.{ℕ, String, Option, none}
use imece_ide.Json.{ℤ, Dict}

pub data RunStatus : Type 0 where
  created running waiting_user succeeded failed cancelled interrupted : RunStatus

pub data RunPhase : Type 0 where
  created starting planning executing verifying reviewing ready : RunPhase
  applying applied rejected restored done error : RunPhase

pub RunStatus-discrete : Discrete RunStatus
RunStatus-discrete = hlevel

-- The arithmetic of Python's `float` that the projection uses: `+`, and `float(n)`, which is `none`
-- where Python raises OverflowError.
pub record FloatOps : Type 0 where
  pub add : ℕ → ℕ → ℕ
  pub of_int : ℤ → Option ℕ

pub record RunRecord : Type 0 where
  pub run_id : String
  pub task_id : String
  pub status : RunStatus
  pub phase : RunPhase
  pub attempt : ℕ
  pub retry_of_run_id : Option String
  pub routing : Dict
  pub budget : Option Dict
  pub workspace_snapshot : Option Dict
  pub last_event_seq : ℕ
  pub prompt_tokens : ℕ
  pub completion_tokens : ℕ
  pub total_tokens : ℕ
  pub cost_usd : ℕ
  pub latency_s : ℕ
  pub created_at : ℕ
  pub started_at : Option ℕ
  pub finished_at : Option ℕ
  pub error_code : Option String
  pub error_message : Option String

-- RunRecord.new; `now` is the caller's `created_at` or the clock.
unfoldable pub new_run :
    String → String → ℕ → Option String → Dict → Option Dict → Option Dict → ℕ → RunRecord
new_run run_id task_id attempt retry_of routing budget snapshot now = record {
  run_id = run_id;
  task_id = task_id;
  status = RunStatus.created;
  phase = RunPhase.created;
  attempt = attempt;
  retry_of_run_id = retry_of;
  routing = routing;
  budget = budget;
  workspace_snapshot = snapshot;
  last_event_seq = 0;
  prompt_tokens = 0;
  completion_tokens = 0;
  total_tokens = 0;
  cost_usd = 0;
  latency_s = 0;
  created_at = now;
  started_at = none;
  finished_at = none;
  error_code = none;
  error_message = none;
}
