-- ===== src/Fix/Loop.antt =====
-- FixLoopRunner.run of fix_runtime/runner.py: the checks before the loop, the loop, and the settling of
-- what a cancellation or a failure interrupts.
use imece_ide.Base.{
  String, Bool, true, false, str_eq, if◌then◌else◌, is_stable_id, Option, none, some, List, [], ◌∷◌,
  Error, Result, ok, err, guard, take_text, drop_nul, fix_loop_input, fix_loop_cancelled,
  event_sequence,
}
use imece_ide.Json.{Value}
use imece_ide.Run.Models.{FloatOps}
use imece_ide.Run.Runtime.{Environment}
use imece_ide.Run.Completion.Gate.{Settlement, fail_fix_loop}
use imece_ide.Fix.Models.{FixTriggerKind, FixTrigger, FixLoopRequest, FixLoopReport, is_text}
use imece_ide.Fix.Recorder.{
  new_recorder, start, attempt_interrupted, failed, interrupted, is_active,
}
use imece_ide.Fix.Task.{World, Task, pure, lift, ◌>>=◌, ◌>>◌, on_recorder, on_runtime, new_id}
use imece_ide.Fix.Ports.{FixPorts, is_cancellation, is_execution_error}
use imece_ide.Fix.Calls.{capture}
use imece_ide.Fix.Runner.{run_attempts}

-- The class of an exception and its message, for the events that tell of it.
pub record Exceptions : Type 0 where
  pub class_name : Error → String
  pub message : Error → String

abbrev is_event_sequence : Error → Bool
is_event_sequence event_sequence = true
is_event_sequence _ = false

module _ {W : Type 0} where
  swallowed : Result (Unit {0}) × World W → Result Bool × World W
  swallowed (ok _, w) = (ok true, w)
  swallowed (err e, w) = if is_event_sequence e then (err e, w) else (ok false, w)

  -- except EventSequenceError: raise; except Exception: return. Tells whether to go on.
  unfoldable pub best_effort : Task W (Unit {0}) → Task W Bool
  unfolding swallowed
  best_effort m w = swallowed (m w)

  unfoldable pub and_then : Task W Bool → Task W Bool → Task W Bool
  and_then m next = m >>= λ go_on. if go_on then next else pure false

  -- The current value of `recorder.has_active_attempt`
  unfoldable pub if_active : Task W (Unit {0}) → Task W (Unit {0})
  if_active m w = if is_active w.recorder.active_attempt_index then m w else (ok tt, w)

  unfoldable pub open_recorder : String → String → Task W (Unit {0})
  open_recorder run_id fix_loop_id w = elim (new_recorder run_id fix_loop_id w.runtime) [
    | ok r ↦ (ok tt, record w { recorder = r })
    | err e ↦ (err e, w)
  ]

-- The trigger's diff is the current one, where the trigger has one.
unfoldable pub is_current : FixTriggerKind → FixTrigger → String → Bool
is_current FixTriggerKind.review_needs_fix t diff = elim t.review_report [
  | none ↦ false
  | some review ↦ str_eq diff review.diff_sha256
]
is_current FixTriggerKind.user_feedback t diff = is_text t.diff_sha256 diff
is_current FixTriggerKind.verification_fail t diff = true

module _ {W : Type 0} ⦃fp : FloatOps⦄ ⦃env : Environment⦄ (ports : FixPorts W) (mode : Settlement)
    (names : Exceptions) where
  -- validate_fix_loop_id(fix_loop_id) if it is given, else new_fix_loop_id()
  unfoldable pub loop_id : Option String → Task W String
  loop_id none = new_id
  loop_id (some id) = lift (guard (is_stable_id id) fix_loop_input) >> pure id

  -- _best_effort_interrupt
  unfoldable pub best_effort_interrupt : Error → Task W Bool
  best_effort_interrupt e =
      and_then
        (best_effort (
          if_active (
            on_recorder (
              attempt_interrupted "cancelled"
                (("error_type", Value.str (names.class_name e)) ∷ [])))))
        (best_effort (on_recorder (interrupted "cancelled" [])))

  error_fields : Error → List (String × Value)
  error_fields e =
      ("error_type", Value.str (names.class_name e))
      ∷ ("error_message", Value.str (take_text 2000 (drop_nul (names.message e))))
      ∷ []

  -- _best_effort_fail
  unfoldable pub best_effort_fail : String → String → Error → Task W Bool
  unfolding error_fields
  best_effort_fail run_id fix_loop_id e =
      and_then
        (best_effort
          (if_active (on_recorder (attempt_interrupted "infrastructure_error" (error_fields e)))))
        (and_then (best_effort (on_recorder (failed "infrastructure_error" (error_fields e))))
          (best_effort (on_runtime (fail_fix_loop run_id fix_loop_id))))

  -- except OperationCancelledError: …; except FixLoopExecutionError: …
  unfoldable pub handle :
      String → String → Result FixLoopReport × World W → Result FixLoopReport × World W
  handle run_id fix_loop_id (ok r, w) = (ok r, w)
  handle run_id fix_loop_id (err e, w) =
      if is_cancellation e
      then (best_effort_interrupt e >>= λ _. lift (err fix_loop_cancelled)) w
      else if is_execution_error e
      then (best_effort_fail run_id fix_loop_id e >>= λ _. lift (err e)) w
      else (err e, w)

  unfoldable pub guarded : String → String → Task W FixLoopReport → Task W FixLoopReport
  guarded run_id fix_loop_id m w = handle run_id fix_loop_id (m w)

  -- FixLoopRunner.run
  unfoldable pub run : String → Option String → FixLoopRequest → Task W FixLoopReport
  run run_id wanted request = do
    fix_loop_id ← loop_id wanted
    current ← capture ports
    lift
        (guard (is_current request.trigger.kind request.trigger current.diff_sha256) fix_loop_input)
    open_recorder run_id fix_loop_id
    on_recorder start
    guarded run_id fix_loop_id (
        run_attempts ports mode request.max_fix_attempts run_id fix_loop_id request 1
          request.trigger none)
