-- ===== src/Fix/Runner.antt =====
-- FixLoopRunner._run_attempts of fix_runtime/runner.py: one attempt, and the loop over the attempts.
use imece_ide.Base.{
  ℕ, zero, suc, ◌+◌, String, not, str_eq, if◌then◌else◌, Option, none, err, fix_loop_execution,
}
use imece_ide.Run.Models.{FloatOps}
use imece_ide.Run.Runtime.{Environment}
use imece_ide.Run.Completion.Gate.{Settlement}
use imece_ide.Verification.Models.{report_status}
use imece_ide.Fix.Models.{kind_text, FixTrigger, make_worker_request, FixLoopRequest, FixLoopReport}
use imece_ide.Fix.Recorder.{Attempt, attempt_started, attempt_completed}
use imece_ide.Fix.Task.{Task, pure, lift, ◌>>=◌, ◌>>◌, on_recorder, new_id}
use imece_ide.Fix.Ports.{FixPorts}
use imece_ide.Fix.Calls.{
  raise_if_cancelled, capture, render_worker_input, run_worker, require_execution_completed,
}
use imece_ide.Fix.Branches.{Turn, report, again, Scope, give_up, verify, judge}

module _ {W : Type 0} ⦃fp : FloatOps⦄ ⦃env : Environment⦄ (ports : FixPorts W)
    (mode : Settlement) where
  -- An attempt from its start to what follows the worker.
  unfoldable pub attempt :
      String → String → FixLoopRequest → ℕ → FixTrigger → Option String → Task W Turn
  attempt run_id fix_loop_id request attempt_index trigger classification = do
    raise_if_cancelled ports
    before ← capture ports
    fix_attempt_id ← new_id
    worker_execution_id ← new_id
    let this : Attempt = record {
      fix_attempt_id = fix_attempt_id;
      attempt_index = attempt_index;
      worker_execution_id = worker_execution_id;
      before_diff_sha256 = before.diff_sha256;
    }
    let s : Scope = record {
      run_id = run_id;
      fix_loop_id = fix_loop_id;
      request = request;
      attempt_index = attempt_index;
      execution_id = worker_execution_id;
    }
    on_recorder (attempt_started this (kind_text trigger.kind))
    rendered_input ← render_worker_input ports request trigger attempt_index classification
    worker_request ← lift (
        make_worker_request (record {
          task = request.task;
          trigger = trigger;
          attempt_index = attempt_index;
          rendered_input = rendered_input;
          plan = request.plan;
        }))
    run_worker ports worker_request worker_execution_id
    require_execution_completed ports run_id worker_execution_id
    after ← capture ports
    let changed = not (str_eq after.diff_sha256 before.diff_sha256)
    on_recorder (attempt_completed this after.diff_sha256 changed)
    if changed
        then (do
          (verification_id, verification, outcome) ← verify ports mode request after
          judge ports mode s after.diff_sha256 verification_id verification outcome
              (report_status verification))
        else give_up ports mode s "stalled" none none after.diff_sha256

  -- for attempt_index in range(1, max_fix_attempts + 1), from the given attempt on: the fuel is the
  -- number of attempts left
  unfoldable pub run_attempts :
      ℕ → String → String → FixLoopRequest → ℕ → FixTrigger → Option String → Task W FixLoopReport
  run_attempts zero run_id fix_loop_id request attempt_index trigger classification =
      lift (err fix_loop_execution)
  run_attempts (suc n) run_id fix_loop_id request attempt_index trigger classification =
      attempt run_id fix_loop_id request attempt_index trigger classification >>= λ turn.
      elim turn [
        | report r ↦ pure r
        | again next classified ↦
            run_attempts n run_id fix_loop_id request (attempt_index + 1) next classified
      ]
