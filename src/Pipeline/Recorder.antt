-- ===== src/Pipeline/Recorder.antt =====
-- `CanonicalPipelineRecorder` of run_runtime/pipeline.py: the events of a run that the pipeline owns.
use imece_ide.Base.{
  ℕ, String, Option, none, some, Result, ok, ◌>>=◌, ◌>>◌, guard, invalid_run_state, if◌then◌else◌,
  Bool, true, false, [], ◌∷◌, str_eq,
}
use imece_ide.Json.{Dict, end}
use imece_ide.Run.Models.{FloatOps, RunStatus}
use imece_ide.Run.Events.{RunEventType}
use imece_ide.Run.Runtime.{Environment, RunRuntime, texts, current_run, record_event, record_two}
use imece_ide.Run.Completion.Gate.{is_running}

abbrev source : String
source = "pipeline"

abbrev pub is_waiting_user : RunStatus → Bool
is_waiting_user RunStatus.waiting_user = true
is_waiting_user _ = false

module _ ⦃fp : FloatOps⦄ ⦃env : Environment⦄ where
  -- An event of the run, unless it is not RUNNING.
  unfoldable pub record_if_running : String → RunEventType → Dict → RunRuntime → Result RunRuntime
  record_if_running run_id type payload rt = do
    run ← current_run run_id rt
    if is_running run.status
        then record_event run_id type payload none (some run_id) source (some run.last_event_seq) rt
        else ok rt

  propose : String → Dict → String → ℕ → RunRuntime → Result RunRuntime
  propose run_id payload origin seq rt =
      record_two run_id RunEventType.proposal_ready payload RunEventType.run_waiting_user end
        (some run_id) origin (some seq) rt

  -- needs_user
  unfoldable pub needs_user : String → Dict → Option ℕ → String → RunRuntime → Result RunRuntime
  unfolding propose
  needs_user run_id payload (some seq) origin rt = propose run_id payload origin seq rt
  needs_user run_id payload none origin rt = do
    run ← current_run run_id rt
    if is_running run.status then propose run_id payload origin run.last_event_seq rt else ok rt

  -- resumed
  unfoldable pub resumed : String → String → RunRuntime → Result RunRuntime
  resumed run_id reason rt = do
    run ← current_run run_id rt
    guard (is_waiting_user run.status) invalid_run_state
    record_event run_id RunEventType.run_resumed (texts (("reason", reason) ∷ [])) none
        (some run_id) source (some run.last_event_seq) rt

  -- completed_no_changes
  unfoldable pub completed_no_changes : String → RunRuntime → Result RunRuntime
  completed_no_changes run_id rt =
      record_if_running run_id RunEventType.run_completed (texts (("reason", "no_changes") ∷ [])) rt

  -- cancelled
  unfoldable pub cancelled : String → RunRuntime → Result RunRuntime
  cancelled run_id rt = record_if_running run_id RunEventType.run_cancelled end rt

  -- error_message or error_code
  message_or : String → Option String → String
  message_or code none = code
  message_or code (some message) = if str_eq message "" then code else message

  -- failed
  unfoldable pub failed : String → String → Option String → RunRuntime → Result RunRuntime
  unfolding message_or
  failed run_id error_code error_message rt =
      record_if_running run_id RunEventType.run_failed
        (texts (
          ("error_code", error_code) ∷ ("error_message", message_or error_code error_message) ∷ []))
        rt
