-- ===== src/Run/Examples.antt =====
-- The theorems of run_runtime at concrete inputs, and runs of the code.
use imece_ide.Run.Projector.{cost_of}
use imece_ide.Base.{
  ◌≤◌, ◌≡◌, ◌≢◌, refl, String, none, some, List, [], ok, err, ◌>>=◌, arith, event_sequence,
  invalid_run_state,
}
use imece_ide.Json.{get, Value, pos, entry, end, validate_json_dict}
use imece_ide.Run.Models.{RunStatus, RunRecord, new_run}
use imece_ide.Run.Events.{RunEventType, RunEvent, RunEventSpec, make_event}
use imece_ide.Run.Projector.{get_or, non_negative_int, project_run}
use imece_ide.Run.Projector.Laws.{project_run_times, project_run-Tokens, project_run_status, Used}
use imece_ide.Run.Store.{Store, rows_of, get_run, append_event, append_events}
use imece_ide.Run.Store.Reachability.{empty_store, steps, reachable-IsConsistent}
use imece_ide.Run.Store.Consistency.{IsConsistent, IsNumbered}
use imece_ide.Run.Store.Concurrency.{
  second_writer_refused, append_events-eq-singles, append_singles,
}
use imece_ide.Run.History.{load_full_event_history}
use imece_ide.Run.History.Pages.{load-exact, IsPrefixOf}
use imece_ide.Run.Runtime.{RunRuntime}
use imece_ide.Run.Completion.Gate.{
  complete, await_user, complete_reviewed, complete_verified, fail_execution, fail_verification,
  fail_fix_loop,
}
use imece_ide.Run.Completion.Settlement.{IsSettled, complete_verified-IsSettled}
use imece_ide.Run.Completion.Reviewed.{IsApprovedLog, complete_reviewed-IsSettled, gate_refuses}
use imece_ide.Run.Samples.{
  sample_floats, sample_environment, verified_specs, opened, sample_spec, reviewed_script,
  reviewed_runtime, from_ok, sha,
}

-- The log of a batch on the opened run.
opened_last : (get_run "r" opened >>= λ r. ok r.last_event_seq) ≡ ok 1
unfolding opened
opened_last = refl

abbrev completed_runtime : RunRuntime
completed_runtime =
    from_ok reviewed_runtime (complete_reviewed complete "r" "v" "w" sha reviewed_runtime)

completes : complete_reviewed complete "r" "v" "w" sha reviewed_runtime ≡ ok completed_runtime
unfolding reviewed_runtime
completes = refl

reviewed-IsConsistent : IsConsistent reviewed_runtime.store
unfolding reviewed_runtime
reviewed-IsConsistent = reachable-IsConsistent reviewed_script

reachable-IsConsistent_example : IsConsistent (steps reviewed_script empty_store)
reachable-IsConsistent_example = reachable-IsConsistent reviewed_script

complete_reviewed-IsSettled_example :
    (terminal : RunEvent) × (x : String) × IsSettled complete "r" "v" terminal x reviewed_runtime
      completed_runtime
    × IsApprovedLog (rows_of "r" reviewed_runtime.store.events) "v" "w" sha terminal
complete_reviewed-IsSettled_example =
    complete_reviewed-IsSettled complete "r" "v" "w" sha reviewed_runtime completed_runtime
      reviewed-IsConsistent completes

abbrev verified_runtime : RunRuntime
verified_runtime = from_ok reviewed_runtime (complete_verified await_user "r" "v" reviewed_runtime)

verifies : complete_verified await_user "r" "v" reviewed_runtime ≡ ok verified_runtime
unfolding reviewed_runtime
verifies = refl

complete_verified-IsSettled_example :
    (terminal : RunEvent) × (x : String) × IsSettled await_user "r" "v" terminal x reviewed_runtime
      verified_runtime
complete_verified-IsSettled_example =
    complete_verified-IsSettled await_user "r" "v" reviewed_runtime verified_runtime
      reviewed-IsConsistent verifies

abbrev no_record : RunRecord
no_record = new_run "" "" 0 none end none none 0

abbrev completed_run : RunRecord
completed_run = from_ok no_record (get_run "r" completed_runtime.store)

completed_found : get_run "r" completed_runtime.store ≡ ok completed_run
unfolding reviewed_runtime
completed_found = refl

completed_status : completed_run.status ≡ RunStatus.succeeded
unfolding reviewed_runtime
completed_status = refl

completed_not_running : completed_run.status ≢ RunStatus.running
completed_not_running = ground (arith, completed_status)

gate_refuses_example :
    (complete_verified complete "r" "v" completed_runtime ≡ err invalid_run_state)
    × (complete_reviewed complete "r" "v" "w" sha completed_runtime ≡ err invalid_run_state)
    × (fail_execution "r" "x" completed_runtime ≡ err invalid_run_state)
    × (fail_verification "r" "v" completed_runtime ≡ err invalid_run_state)
    × (fail_fix_loop "r" "x" completed_runtime ≡ err invalid_run_state)
gate_refuses_example =
    gate_refuses complete "r" "v" "w" sha "x" completed_runtime completed_run completed_found
      completed_not_running

abbrev late_spec : RunEventSpec
late_spec = sample_spec "y" RunEventType.execution_started (some "y") []

abbrev first_write : RunEvent × RunRecord × Store
first_write =
    from_ok (make_event "r" 0 late_spec, no_record, empty_store)
      (append_event "r" (sample_spec "z" RunEventType.execution_started (some "z") []) (some 1)
        opened)

first_writes :
    append_event "r" (sample_spec "z" RunEventType.execution_started (some "z") []) (some 1) opened
    ≡ ok (first_write.0, first_write.1, first_write.2)
unfolding opened
first_writes = refl

second_writer_refused_example :
    append_event "r" late_spec (some 1) first_write.2 ≡ err event_sequence
unfolding validate_json_dict
second_writer_refused_example =
    second_writer_refused "r" 1 (sample_spec "z" RunEventType.execution_started (some "z") [])
      late_spec opened first_write.0 first_write.1 first_write.2 first_writes refl

abbrev batch_write : List RunEvent × RunRecord × Store
batch_write =
    from_ok ([], no_record, empty_store) (append_events "r" verified_specs (some 1) opened)

batch_writes :
    append_events "r" verified_specs (some 1) opened
    ≡ ok (batch_write.0, batch_write.1, batch_write.2)
unfolding opened
batch_writes = refl

append_events-eq-singles_example :
    append_singles "r" verified_specs opened ≡ ok (batch_write.0, batch_write.2)
append_events-eq-singles_example =
    append_events-eq-singles "r" verified_specs (some 1) opened batch_write.0 batch_write.1
      batch_write.2 batch_writes

abbrev reviewed_run : RunRecord
reviewed_run = from_ok no_record (get_run "r" reviewed_runtime.store)

reviewed_found : get_run "r" reviewed_runtime.store ≡ ok reviewed_run
unfolding reviewed_runtime
reviewed_found = refl

reviewed-IsNumbered :
    IsNumbered 0 (rows_of "r" reviewed_runtime.store.events) reviewed_run.last_event_seq
unfolding reviewed_runtime
reviewed-IsNumbered = ground arith

reviewed_long : 5 ≤ reviewed_run.last_event_seq
unfolding reviewed_runtime
reviewed_long = ground arith

load-exact_example :
    (es : List RunEvent) × (load_full_event_history 5 "r" 2 (some 5) reviewed_runtime.store ≡ ok es)
    × IsPrefixOf 5 es (rows_of "r" reviewed_runtime.store.events)
load-exact_example =
    load-exact 5 "r" 2 5 reviewed_runtime.store reviewed_run reviewed_found reviewed-IsNumbered
      reviewed_long (ground arith) (ground arith)

abbrev completed_event : RunEvent
completed_event = make_event "r" 9 (sample_spec "q" RunEventType.run_interrupted none [])

abbrev projected_run : RunRecord
projected_run = from_ok no_record (project_run completed_run completed_event)

projects : project_run completed_run completed_event ≡ ok projected_run
unfolding reviewed_runtime
projects = refl

project_run_times_example :
    (completed_run.started_at ≢ none → projected_run.started_at ≡ completed_run.started_at)
    × (completed_run.finished_at ≢ none → projected_run.finished_at ≡ completed_run.finished_at)
project_run_times_example = project_run_times completed_run completed_event projected_run projects

-- A report of usage that leaves the total to be summed.
abbrev usage_event : RunEvent
usage_event = record (make_event "r" 9 (sample_spec "u" RunEventType.usage_recorded none [])) {
  payload =
      entry "prompt_tokens" (Value.int (pos 5)) (entry "completion_tokens" (Value.int (pos 2)) end);
}

abbrev used_run : RunRecord
used_run = from_ok no_record (project_run completed_run usage_event)

uses : project_run completed_run usage_event ≡ ok used_run
unfolding reviewed_runtime make_event get_or non_negative_int get cost_of
uses = refl

project_run-Tokens_example : Used completed_run usage_event used_run
unfolding make_event
project_run-Tokens_example = project_run-Tokens completed_run usage_event used_run uses

project_run_status_example : projected_run.status ≡ RunStatus.interrupted
unfolding make_event
project_run_status_example = project_run_status completed_run completed_event projected_run projects
