-- ===== src/Run/Projector.antt =====
-- run_runtime/projector.py: the pure projection of one event onto the run record.
pub mod Laws
use imece_ide.Base.{
  ℕ, ◌+◌, ◌*◌, ◌/◌, ◌%◌, ◌^◌, String, Bool, true, false, not, ◌&&◌, ◌==◌, str_eq, Option, none,
  some, Result, ok, err, Error, run_projection, overflow_error, ◌>>=◌, ◌>>◌, refuse, guard,
  if◌then◌else◌, arith,
}
use imece_ide.Json.{ℤ, pos, negsuc, Value, Dict, get, is_finite}
use imece_ide.Run.Models.{RunStatus, RunPhase, FloatOps, RunRecord}
use imece_ide.Run.Events.{RunEventType, RunEvent}

-- `a or b` on optional times
or_else : Option ℕ → ℕ → Option ℕ
or_else (some t) _ = some t
or_else none t = some t

-- payload.get(key, default)
unfoldable pub get_or : String → Dict → Value → Value
get_or key d default = elim (get key d) [ some v ↦ v | none ↦ default ]

-- RunPhase(raw)
phase_of : String → Result RunPhase
phase_of raw =
    if str_eq raw "created"
    then ok RunPhase.created
    else if str_eq raw "starting"
    then ok RunPhase.starting
    else if str_eq raw "planning"
    then ok RunPhase.planning
    else if str_eq raw "executing"
    then ok RunPhase.executing
    else if str_eq raw "verifying"
    then ok RunPhase.verifying
    else if str_eq raw "reviewing"
    then ok RunPhase.reviewing
    else if str_eq raw "ready"
    then ok RunPhase.ready
    else if str_eq raw "applying"
    then ok RunPhase.applying
    else if str_eq raw "applied"
    then ok RunPhase.applied
    else if str_eq raw "rejected"
    then ok RunPhase.rejected
    else if str_eq raw "restored"
    then ok RunPhase.restored
    else if str_eq raw "done"
    then ok RunPhase.done
    else if str_eq raw "error"
    then ok RunPhase.error
    else err run_projection

pub phase_from_payload : Dict → Result RunPhase
unfolding phase_of
phase_from_payload d = elim (get "phase" d) [
  | some (Value.str raw) ↦ phase_of raw
  | _ ↦ err run_projection
]

pub optional_str : Dict → String → Result (Option String)
optional_str d key = elim (get key d) [
  | none ↦ ok none
  | some Value.null ↦ ok none
  | some (Value.str s) ↦ ok (some s)
  | _ ↦ err run_projection
]

unfoldable pub non_negative_int : Value → Result ℕ
non_negative_int (Value.int (pos n)) = ok n
non_negative_int _ = err run_projection

-- `x < 0` for a finite float: the sign bit, and not minus zero
unfoldable pub is_negative : ℕ → Bool
is_negative bits = (bits / 2 ^ 63) % 2 == 1 && not (bits % 2 ^ 63 == 0)

unfoldable pub checked_float : ℕ → Result ℕ
unfolding is_finite is_negative
checked_float bits = do
  guard (is_finite bits) run_projection
  refuse (is_negative bits) run_projection
  ok bits

module _ ⦃fp : FloatOps⦄ where
  unfoldable pub non_negative_number : Value → Result ℕ
  unfolding checked_float
  non_negative_number (Value.int n) = elim (fp.of_int n) [
    | none ↦ err overflow_error
    | some x ↦ checked_float x
  ]
  non_negative_number (Value.float x) = checked_float x
  non_negative_number _ = err run_projection

  unfoldable pub cost_of : Value → Result ℕ
  unfolding non_negative_number
  cost_of Value.null = ok 0
  cost_of v = non_negative_number v

on_run_created : RunRecord → RunEvent → Result RunRecord
on_run_created current event =
    ok (record current { status = RunStatus.created; phase = RunPhase.created })

on_run_started : RunRecord → RunEvent → Result RunRecord
unfolding or_else
on_run_started current event = ok (record current {
  status = RunStatus.running;
  phase = RunPhase.starting;
  started_at = or_else current.started_at event.created_at;
})

on_phase_changed : RunRecord → RunEvent → Result RunRecord
on_phase_changed current event = do
  phase ← phase_from_payload event.payload
  ok (record current { phase = phase })

on_waiting_user : RunRecord → RunEvent → Result RunRecord
on_waiting_user current event =
    ok (record current { status = RunStatus.waiting_user; phase = RunPhase.ready })

is_waiting : RunStatus → Bool
is_waiting RunStatus.waiting_user = true
is_waiting _ = false

on_resumed : RunRecord → RunEvent → Result RunRecord
unfolding is_waiting
on_resumed current event = do
  guard (is_waiting current.status) run_projection
  ok (record current { status = RunStatus.running; phase = RunPhase.executing })

-- run.completed, run.cancelled, run.interrupted, proposal.applied and proposal.rejected replace the
-- same three fields.
settle : RunStatus → RunPhase → RunRecord → RunEvent → RunRecord
unfolding or_else
settle status phase current event = record current {
  status = status;
  phase = phase;
  finished_at = or_else current.finished_at event.created_at;
}

on_completed : RunRecord → RunEvent → Result RunRecord
unfolding settle
on_completed current event = ok (settle RunStatus.succeeded RunPhase.done current event)

on_failed : RunRecord → RunEvent → Result RunRecord
unfolding settle
on_failed current event = do
  code ← optional_str event.payload "error_code"
  message ← optional_str event.payload "error_message"
  ok (record (settle RunStatus.failed RunPhase.error current event) {
    error_code = code;
    error_message = message;
  })

on_cancelled : RunRecord → RunEvent → Result RunRecord
unfolding settle
on_cancelled current event = ok (settle RunStatus.cancelled RunPhase.done current event)

on_interrupted : RunRecord → RunEvent → Result RunRecord
unfolding settle
on_interrupted current event = ok (settle RunStatus.interrupted RunPhase.error current event)

on_proposal_applied : RunRecord → RunEvent → Result RunRecord
unfolding settle
on_proposal_applied current event = ok (settle RunStatus.succeeded RunPhase.applied current event)

on_proposal_rejected : RunRecord → RunEvent → Result RunRecord
unfolding settle
on_proposal_rejected current event = ok (settle RunStatus.succeeded RunPhase.rejected current event)

on_checkpoint_restored : RunRecord → RunEvent → Result RunRecord
on_checkpoint_restored current event =
    ok (record current { status = RunStatus.succeeded; phase = RunPhase.restored })

module _ ⦃fp : FloatOps⦄ where
  on_usage_recorded : RunRecord → RunEvent → Result RunRecord
  on_usage_recorded current event = do
    prompt ← non_negative_int (get_or "prompt_tokens" event.payload (Value.int (pos 0)))
    completion ← non_negative_int (get_or "completion_tokens" event.payload (Value.int (pos 0)))
    total ←
        non_negative_int
          (get_or "total_tokens" event.payload (Value.int (pos (prompt + completion))))
    cost ← cost_of (get_or "cost_usd" event.payload (Value.int (pos 0)))
    latency ← non_negative_number (get_or "latency_s" event.payload (Value.int (pos 0)))
    ok (record current {
      prompt_tokens = current.prompt_tokens + prompt;
      completion_tokens = current.completion_tokens + completion;
      total_tokens = current.total_tokens + total;
      cost_usd = fp.add current.cost_usd cost;
      latency_s = fp.add current.latency_s latency;
    })

  -- _HANDLERS, by the type of the event
  dispatch : RunEventType → RunRecord → RunEvent → Result RunRecord
  unfolding on_run_created on_run_started on_phase_changed on_waiting_user on_resumed on_completed
      on_failed on_cancelled on_interrupted on_proposal_applied on_proposal_rejected
      on_checkpoint_restored on_usage_recorded
  dispatch RunEventType.run_created = on_run_created
  dispatch RunEventType.run_started = on_run_started
  dispatch RunEventType.run_phase_changed = on_phase_changed
  dispatch RunEventType.run_waiting_user = on_waiting_user
  dispatch RunEventType.run_resumed = on_resumed
  dispatch RunEventType.run_completed = on_completed
  dispatch RunEventType.run_failed = on_failed
  dispatch RunEventType.run_cancelled = on_cancelled
  dispatch RunEventType.run_interrupted = on_interrupted
  dispatch RunEventType.proposal_applied = on_proposal_applied
  dispatch RunEventType.proposal_rejected = on_proposal_rejected
  dispatch RunEventType.checkpoint_restored = on_checkpoint_restored
  dispatch RunEventType.usage_recorded = on_usage_recorded
  dispatch _ = λ current event. ok current

  unfoldable pub project_run : RunRecord → RunEvent → Result RunRecord
  unfolding dispatch
  project_run current event = dispatch event.type current event
