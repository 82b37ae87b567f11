-- ===== src/Run/Completion/Gate.antt =====
-- `RunCompletionGate` of run_runtime/completion.py.
use imece_ide.Base.{
  is_sha256, ℕ, suc, String, Bool, true, false, ◌&&◌, str_eq, none, some, List, [], ◌∷◌, Result, ok,
  invalid_run_state, run_completion, ◌>>=◌, ◌>>◌, guard, refuse, if◌then◌else◌,
}
use imece_ide.Json.{Value, Dict, end, entry, get}
use imece_ide.Run.Models.{RunStatus, FloatOps}
use imece_ide.Run.Events.{RunEventType, RunEvent}
use imece_ide.Run.History.{load_full_event_history, max_event_page_limit}
use imece_ide.Run.Runtime.{Environment, RunRuntime, texts, current_run, record_event, record_two}
use imece_ide.Run.Completion.Kinds.{
  is_execution_failed, is_verification_completed, is_fix_loop_exhausted,
}
use imece_ide.Run.Completion.Checks.{
  last_where, required, require_latest_verification, verified_execution, approved_review,
  has_newer_execution_activity, latest_execution_lifecycle_before, bounded_message, same_id,
  failure_message, error_status, is_unsettled, failed_fix_loop, text_or_null,
}

pub data Settlement : Type 0 where
  complete await_user : Settlement

pub record RunEvidence : Type 0 where
  pub run_id : String
  pub decision_seq : ℕ
  pub events : List RunEvent

abbrev pub is_running : RunStatus → Bool
is_running RunStatus.running = true
is_running _ = false

-- _evidence
unfoldable pub evidence : String → RunRuntime → Result RunEvidence
evidence run_id rt = do
  run ← current_run run_id rt
  guard (is_running run.status) invalid_run_state
  events ←
      load_full_event_history (suc run.last_event_seq) run_id max_event_page_limit
        (some run.last_event_seq) rt.store
  ok (record { run_id = run_id; decision_seq = run.last_event_seq; events = events })

-- The provenance that a settlement carries.
abbrev pub verified_payload : String → String → Dict
verified_payload verification_id execution_id = texts (
    ("reason", "verified")
    ∷ ("verification_id", verification_id)
    ∷ ("verification_status", "pass")
    ∷ ("verified_execution_id", execution_id)
    ∷ [])

abbrev pub reviewed_payload : String → String → String → String → Dict
reviewed_payload verification_id review_id diff execution_id = texts (
    ("reason", "reviewed")
    ∷ ("verification_id", verification_id)
    ∷ ("verification_status", "pass")
    ∷ ("review_id", review_id)
    ∷ ("review_verdict", "APPROVED")
    ∷ ("diff_sha256", diff)
    ∷ ("verified_execution_id", execution_id)
    ∷ [])

-- The payload of run.failed after a fix loop.
abbrev pub fix_loop_payload : String → RunEvent → Dict
fix_loop_payload fix_loop_id terminal =
    let reason = get "reason" terminal.payload in
    entry "error_code"
      (Value.str
        (if is_fix_loop_exhausted terminal.type then "fix_loop_exhausted" else "fix_loop_failed"))
      (entry "error_message" (Value.str (bounded_message reason "Fix loop did not complete."))
        (entry "fix_loop_id" (Value.str fix_loop_id) (entry "reason" (text_or_null reason) end)))

module _ ⦃fp : FloatOps⦄ ⦃env : Environment⦄ where
  -- _settle, with `CanonicalPipelineRecorder.needs_user` of run_runtime/pipeline.py
  unfoldable pub settle : Settlement → String → ℕ → Dict → RunRuntime → Result RunRuntime
  settle complete run_id seq payload rt =
      record_event run_id RunEventType.run_completed payload none none "run_gate" (some seq) rt
  settle await_user run_id seq payload rt =
      record_two run_id RunEventType.proposal_ready payload RunEventType.run_waiting_user end
        (some run_id) "run_gate" (some seq) rt

  unfoldable pub complete_verified : Settlement → String → String → RunRuntime → Result RunRuntime
  complete_verified mode run_id verification_id rt = do
    ev ← evidence run_id rt
    (terminal, execution_id) ← verified_execution ev.events verification_id
    settle mode run_id ev.decision_seq (verified_payload verification_id execution_id) rt

  unfoldable pub complete_reviewed :
      Settlement → String → String → String → String → RunRuntime → Result RunRuntime
  complete_reviewed mode run_id verification_id review_id diff rt = do
    ev ← evidence run_id rt
    guard (is_sha256 diff) run_completion
    (terminal, execution_id) ← verified_execution ev.events verification_id
    guard (is_verification_completed terminal.type) run_completion
    approved_review ev.events verification_id review_id diff terminal
    settle mode run_id ev.decision_seq
        (reviewed_payload verification_id review_id diff execution_id) rt

  unfoldable pub record_failed : String → ℕ → Dict → RunRuntime → Result RunRuntime
  record_failed run_id seq payload rt =
      record_event run_id RunEventType.run_failed payload none none "run_gate" (some seq) rt

  unfoldable pub fail_execution : String → String → RunRuntime → Result RunRuntime
  fail_execution run_id execution_id rt = do
    ev ← evidence run_id rt
    refuse (str_eq execution_id "") run_completion
    failure ← required (
        last_where (λ e. is_execution_failed e.type && same_id e.execution_id execution_id)
          ev.events)
    refuse (has_newer_execution_activity ev.events failure.seq) run_completion
    record_failed run_id ev.decision_seq
        (texts (
          ("error_code", "execution_failed")
          ∷ ("error_message", bounded_message (failure_message failure.payload) "Execution failed.")
          ∷ ("execution_id", execution_id)
          ∷ []))
        rt

  unfoldable pub fail_verification : String → String → RunRuntime → Result RunRuntime
  fail_verification run_id verification_id rt = do
    ev ← evidence run_id rt
    (start, terminal) ← require_latest_verification ev.events verification_id
    status ← error_status terminal.payload
    refuse (has_newer_execution_activity ev.events start.seq) run_completion
    refuse (is_unsettled (latest_execution_lifecycle_before ev.events start.seq)) run_completion
    record_failed run_id ev.decision_seq
        (texts (
          ("error_code", status.0)
          ∷ ("error_message", status.1)
          ∷ ("verification_id", verification_id)
          ∷ ("verification_status", status.2)
          ∷ []))
        rt

  unfoldable pub fail_fix_loop : String → String → RunRuntime → Result RunRuntime
  fail_fix_loop run_id fix_loop_id rt = do
    ev ← evidence run_id rt
    terminal ← failed_fix_loop ev.events fix_loop_id
    record_failed run_id ev.decision_seq (fix_loop_payload fix_loop_id terminal) rt
