-- ===== src/Fix/Recorder.antt =====
-- CanonicalFixLoopRecorder of run_runtime/fix_loop.py, which appends the events of one fix loop. The
-- object is the record `Recorder`; the arguments of an event are its payload, whose order no one reads.
use imece_ide.Base.{
  ℕ, suc, ◌+◌, String, Bool, true, false, ◌&&◌, ◌==◌, any, str_eq, Option, none, some, List, [],
  ◌∷◌, Result, ok, ◌>>=◌, ◌>>◌, guard, refuse, is_stable_id, value_error, fix_loop_recording,
}
use imece_ide.Json.{Dict, Value, pos, end, entry, holds_text}
use imece_ide.Run.Models.{FloatOps}
use imece_ide.Run.Events.{RunEventType}
use imece_ide.Run.History.{load_full_event_history}
use imece_ide.Run.Runtime.{Environment, RunRuntime, current_run, record_event, texts}
use imece_ide.Run.Completion.Kinds.{is_fix_loop_started}
use imece_ide.Run.Completion.Gate.{is_running}

pub record Recorder : Type 0 where
  pub run_id : String
  pub fix_loop_id : String
  pub started_persisted : Bool
  pub terminal_recorded : Bool
  pub active_attempt_index : Option ℕ
  pub active_attempt_id : Option String
  pub active_worker_execution_id : Option String
  pub last_completed_attempt_index : ℕ

-- CanonicalFixLoopRecorder.__init__
unfoldable pub new_recorder : String → String → RunRuntime → Result Recorder
new_recorder run_id fix_loop_id rt = do
  guard (is_stable_id fix_loop_id) value_error
  run ← current_run run_id rt
  guard (is_running run.status) value_error
  ok (record {
    run_id = run_id;
    fix_loop_id = fix_loop_id;
    started_persisted = false;
    terminal_recorded = false;
    active_attempt_index = none;
    active_attempt_id = none;
    active_worker_execution_id = none;
    last_completed_attempt_index = 0;
  })

-- A JSON object of the given entries.
abbrev pub fields : List (String × Value) → Dict
fields [] = end
fields (e ∷ es) = entry e.0 e.1 (fields es)

abbrev pub number : ℕ → Value
number n = Value.int (pos n)

abbrev pub text_value : Option String → Value
text_value none = Value.null
text_value (some s) = Value.str s

abbrev pub number_value : Option ℕ → Value
number_value none = Value.null
number_value (some n) = number n

abbrev pub is_active : Option ℕ → Bool
is_active none = false
is_active (some _) = true

abbrev is_index : Option ℕ → ℕ → Bool
is_index none n = false
is_index (some m) n = m == n

abbrev is_id : Option String → String → Bool
is_id none s = false
is_id (some x) s = str_eq x s

-- What `attempt_started` and `attempt_completed` are told of an attempt.
pub record Attempt : Type 0 where
  pub fix_attempt_id : String
  pub attempt_index : ℕ
  pub worker_execution_id : String
  pub before_diff_sha256 : String

-- The payloads of the events of an attempt.
abbrev pub started_payload : Recorder → Attempt → String → Dict
started_payload r a trigger_kind = fields (
    ("fix_loop_id", Value.str r.fix_loop_id)
    ∷ ("fix_attempt_id", Value.str a.fix_attempt_id)
    ∷ ("attempt_index", number a.attempt_index)
    ∷ ("trigger_kind", Value.str trigger_kind)
    ∷ ("worker_execution_id", Value.str a.worker_execution_id)
    ∷ ("before_diff_sha256", Value.str a.before_diff_sha256)
    ∷ [])

abbrev pub completed_payload : Recorder → Attempt → String → Bool → Dict
completed_payload r a after_diff_sha256 changed = fields (
    ("fix_loop_id", Value.str r.fix_loop_id)
    ∷ ("fix_attempt_id", Value.str a.fix_attempt_id)
    ∷ ("attempt_index", number a.attempt_index)
    ∷ ("worker_execution_id", Value.str a.worker_execution_id)
    ∷ ("before_diff_sha256", Value.str a.before_diff_sha256)
    ∷ ("after_diff_sha256", Value.str after_diff_sha256)
    ∷ ("changed", Value.bool changed)
    ∷ [])

abbrev pub interrupted_payload : Recorder → String → List (String × Value) → Dict
interrupted_payload r reason extra = fields (
    ("fix_loop_id", Value.str r.fix_loop_id)
    ∷ ("fix_attempt_id", text_value r.active_attempt_id)
    ∷ ("attempt_index", number_value r.active_attempt_index)
    ∷ ("worker_execution_id", text_value r.active_worker_execution_id)
    ∷ ("reason", Value.str reason)
    ∷ ("outcome_unknown", Value.bool true)
    ∷ extra)

module _ ⦃fp : FloatOps⦄ ⦃env : Environment⦄ where
  -- _commit, with _current_expected_seq
  unfoldable pub commit : Recorder → RunEventType → Dict → RunRuntime → Result RunRuntime
  commit r type payload rt = do
    run ← current_run r.run_id rt
    guard (is_running run.status) value_error
    record_event r.run_id type payload none (some r.fix_loop_id) "fix_loop"
        (some run.last_event_seq) rt

  -- _reject_reused_loop_id, whose loop over pages reads the run's whole log
  unfoldable pub reject_reused_loop_id : Recorder → RunRuntime → Result (Unit {0})
  reject_reused_loop_id r rt = do
    run ← current_run r.run_id rt
    events ← load_full_event_history (suc run.last_event_seq) r.run_id 200 none rt.store
    refuse
        (any (λ e. is_fix_loop_started e.type && holds_text "fix_loop_id" e.payload r.fix_loop_id)
          events)
        value_error

  unfoldable pub start : Recorder → RunRuntime → Result (Recorder × RunRuntime)
  start r rt = do
    refuse r.started_persisted fix_loop_recording
    reject_reused_loop_id r rt
    rt ← commit r RunEventType.fix_loop_started (texts (("fix_loop_id", r.fix_loop_id) ∷ [])) rt
    ok (record r { started_persisted = true }, rt)

  unfoldable pub attempt_started :
      Attempt → String → Recorder → RunRuntime → Result (Recorder × RunRuntime)
  attempt_started a trigger_kind r rt = do
    guard r.started_persisted fix_loop_recording
    refuse r.terminal_recorded fix_loop_recording
    refuse (is_active r.active_attempt_index) fix_loop_recording
    guard (a.attempt_index == r.last_completed_attempt_index + 1) fix_loop_recording
    rt ← commit r RunEventType.fix_attempt_started (started_payload r a trigger_kind) rt
    ok (
      record r {
        active_attempt_index = some a.attempt_index;
        active_attempt_id = some a.fix_attempt_id;
        active_worker_execution_id = some a.worker_execution_id;
      },
      rt,
    )

  unfoldable pub attempt_completed :
      Attempt → String → Bool → Recorder → RunRuntime → Result (Recorder × RunRuntime)
  attempt_completed a after_diff_sha256 changed r rt = do
    guard r.started_persisted fix_loop_recording
    refuse r.terminal_recorded fix_loop_recording
    guard (is_index r.active_attempt_index a.attempt_index) fix_loop_recording
    guard (is_id r.active_attempt_id a.fix_attempt_id) fix_loop_recording
    rt ←
        commit r RunEventType.fix_attempt_completed
          (completed_payload r a after_diff_sha256 changed) rt
    ok (
      record r {
        active_attempt_index = none;
        active_attempt_id = none;
        active_worker_execution_id = none;
        last_completed_attempt_index = a.attempt_index;
      },
      rt,
    )

  -- The extra keyword arguments come last, with keys of their own.
  unfoldable pub attempt_interrupted :
      String → List (String × Value) → Recorder → RunRuntime → Result (Recorder × RunRuntime)
  attempt_interrupted reason extra r rt = do
    guard r.started_persisted fix_loop_recording
    refuse r.terminal_recorded fix_loop_recording
    guard (is_active r.active_attempt_index) fix_loop_recording
    rt ← commit r RunEventType.fix_attempt_interrupted (interrupted_payload r reason extra) rt
    ok (
      record r {
        active_attempt_index = none;
        active_attempt_id = none;
        active_worker_execution_id = none;
      },
      rt,
    )

  unfoldable pub append_terminal :
      RunEventType → List (String × Value) → Recorder → RunRuntime → Result (Recorder × RunRuntime)
  append_terminal type payload r rt = do
    guard r.started_persisted fix_loop_recording
    refuse r.terminal_recorded fix_loop_recording
    refuse (is_active r.active_attempt_index) fix_loop_recording
    rt ← commit r type (fields (("fix_loop_id", Value.str r.fix_loop_id) ∷ payload)) rt
    ok (record r { terminal_recorded = true }, rt)

  unfoldable pub completed :
      ℕ
      → Option String
      → String
      → String
      → String
      → Recorder
      → RunRuntime
      → Result (Recorder × RunRuntime)
  completed attempts_used final_execution_id verification_id review_id diff_sha256 =
      append_terminal RunEventType.fix_loop_completed (
        ("attempts_used", number attempts_used)
        ∷ ("final_execution_id", text_value final_execution_id)
        ∷ ("verification_id", Value.str verification_id)
        ∷ ("review_id", Value.str review_id)
        ∷ ("diff_sha256", Value.str diff_sha256)
        ∷ [])

  unfoldable pub exhausted :
      String
      → ℕ
      → ℕ
      → List (String × Value)
      → Recorder
      → RunRuntime
      → Result (Recorder × RunRuntime)
  exhausted reason attempts_used max_fix_attempts extra =
      append_terminal RunEventType.fix_loop_exhausted (
        ("reason", Value.str reason)
        ∷ ("attempts_used", number attempts_used)
        ∷ ("max_fix_attempts", number max_fix_attempts)
        ∷ extra)

  unfoldable pub failed :
      String → List (String × Value) → Recorder → RunRuntime → Result (Recorder × RunRuntime)
  failed reason extra =
      append_terminal RunEventType.fix_loop_failed (("reason", Value.str reason) ∷ extra)

  unfoldable pub interrupted :
      String → List (String × Value) → Recorder → RunRuntime → Result (Recorder × RunRuntime)
  interrupted reason extra =
      append_terminal RunEventType.fix_loop_interrupted (("reason", Value.str reason) ∷ extra)
