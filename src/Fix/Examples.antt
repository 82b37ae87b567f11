-- ===== src/Fix/Examples.antt =====
-- The theorems of the fix loop at a loop that ends in an approval, and runs of its code.
use imece_ide.Fix.Recorder.{failed}
use imece_ide.Base.{◌+◌, ◌≤◌, true, ◌≡◌, refl, none, some, List, [], ◌∷◌, ok, arith}
use imece_ide.Run.Events.{RunEventType, RunEvent}
use imece_ide.Run.Store.Consistency.{IsConsistent}
use imece_ide.Run.Store.Reachability.{reachable-IsConsistent}
use imece_ide.Run.Runtime.{RunRuntime}
use imece_ide.Run.Completion.Gate.{complete}
use imece_ide.Run.Samples.{sample_floats, sample_environment, opening, opened, from_ok}
use imece_ide.Fix.Models.{FixLoopReport}
use imece_ide.Fix.Recorder.{Recorder, Attempt, new_recorder, attempt_interrupted}
use imece_ide.Fix.Runner.{run_attempts}
use imece_ide.Fix.Loop.{run}
use imece_ide.Fix.Outcome.{Tells}
use imece_ide.Fix.Reports.{run-Tells}
use imece_ide.Fix.Enough.{run_attempts-enough}
use imece_ide.Fix.Trail.{
  Call, call_start, call_attempt_started, call_attempt_completed, call_attempt_interrupted,
  call_failed, trail, perform,
}
use imece_ide.Fix.Samples.{
  sample_ports, sample_ports-KeepStore, sample_request, sample_world, sample_names, no_report,
  fixed, blank_recorder,
}
use imece_ide.Base.{map, ℕ, operation_cancelled, Error, err}
use imece_ide.Fix.Task.{World}
use imece_ide.Json.{end}
use imece_ide.Run.Models.{RunStatus, RunRecord, new_run}
use imece_ide.Run.Store.{get_run}
use imece_ide.Fix.Ports.{is_cancellation}
use imece_ide.Fix.Loop.{handle}
use imece_ide.Fix.Keeps.{HasStatus}
use imece_ide.Fix.Cancelled.{handle-Running}

abbrev fixed_report : FixLoopReport
fixed_report = from_ok no_report fixed.0

fixed_run :
    run sample_ports complete sample_names "r" (some "loop") sample_request sample_world
    ≡ (ok fixed_report, fixed.1)
unfolding fixed
fixed_run = refl

opened-IsConsistent : IsConsistent sample_world.runtime.store
unfolding imece_ide.Run.Samples.opened
opened-IsConsistent = reachable-IsConsistent opening

run-Tells_example :
    Tells complete "r" fixed_report.status fixed_report fixed.1.runtime
    × (1 ≤ fixed_report.attempts_used)
    × (fixed_report.attempts_used ≤ 2)
run-Tells_example =
    run-Tells sample_ports complete sample_ports-KeepStore sample_names "r" (some "loop")
      sample_request sample_world fixed.1 fixed_report opened-IsConsistent fixed_run

run_attempts-enough_example :
    run_attempts sample_ports complete
      (2 + 3)
      "r"
      "loop"
      sample_request
      1
      sample_request.trigger
      none
      sample_world
    ≡ run_attempts sample_ports complete 2 "r" "loop" sample_request 1 sample_request.trigger none
        sample_world
run_attempts-enough_example =
    run_attempts-enough sample_ports complete 2 3 "r" "loop" sample_request 1 sample_request.trigger
      none sample_world (ground arith) (ground arith)

abbrev first_attempt : Attempt
first_attempt = record {
  fix_attempt_id = "a1";
  attempt_index = 1;
  worker_execution_id = "x1";
  before_diff_sha256 = "d1";
}

abbrev rt0 : RunRuntime
rt0 = sample_world.runtime

abbrev sample_calls : List (Call × RunRuntime)
sample_calls =
    (call_attempt_started first_attempt "verification_fail", rt0)
    ∷ (call_start, rt0)
    ∷ (call_start, rt0)
    ∷ (call_attempt_started first_attempt "verification_fail", rt0)
    ∷ (call_failed "error" [], rt0)
    ∷ (call_attempt_interrupted "cancelled" [], rt0)
    ∷ (call_attempt_started first_attempt "verification_fail", rt0)
    ∷ (call_attempt_completed first_attempt "d2" true, rt0)
    ∷ (call_failed "error" [], rt0)
    ∷ (call_failed "error" [], rt0)
    ∷ []

abbrev sample_recorder : Recorder
sample_recorder = from_ok blank_recorder (new_recorder "r" "loop" rt0)

-- The types of the events that the calls of the sample write.
sample_trail :
    map (λ (e : RunEvent). e.type) (trail sample_calls sample_recorder)
    ≡ RunEventType.fix_loop_started ∷ RunEventType.fix_attempt_started
      ∷ RunEventType.fix_attempt_interrupted ∷ RunEventType.fix_attempt_started
      ∷ RunEventType.fix_attempt_completed ∷ RunEventType.fix_loop_failed ∷ []
unfolding fixed trail perform attempt_interrupted failed
sample_trail = refl

-- A loop that is cancelled in its first attempt.
abbrev cancelled_world : World ℕ
cancelled_world = record sample_world {
  recorder = record sample_recorder {
    started_persisted = true;
    active_attempt_index = some 1;
    active_attempt_id = some "a1";
    active_worker_execution_id = some "x1";
  };
}

abbrev cancelled_run : RunRecord
cancelled_run =
    from_ok (new_run "" "" 0 none end none none 0) (get_run "r" cancelled_world.runtime.store)

cancelled_running : HasStatus "r" cancelled_world.runtime.store RunStatus.running
unfolding fixed
cancelled_running = record { run = cancelled_run; found = refl; is = refl }

cancelled_of_run : cancelled_world.recorder.run_id ≡ "r"
unfolding fixed
cancelled_of_run = refl

handle-Running_example :
    HasStatus "r"
      (handle sample_ports complete sample_names "r" "loop"
        (err operation_cancelled, cancelled_world)).1.runtime.store
      RunStatus.running
    × ((x : Error) × ((handle sample_ports complete sample_names "r" "loop"
            (err operation_cancelled, cancelled_world)).0
          ≡ err x))
unfolding is_cancellation
handle-Running_example =
    handle-Running sample_ports complete sample_names "r" "loop" operation_cancelled cancelled_world
      refl cancelled_of_run cancelled_running
