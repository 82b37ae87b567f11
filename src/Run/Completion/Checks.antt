-- ===== src/Run/Completion/Checks.antt =====
-- The checks of run_runtime/completion.py over the events of a run.
use imece_ide.Base.{
  ℕ, String, Bool, false, ◌&&◌, ltb, leb, str_eq, Option, none, some, List, [], ◌∷◌, any, take_text,
  drop_nul, Result, ok, err, run_completion, ◌>>=◌, ◌>>◌, guard, refuse, if◌then◌else◌,
}
use imece_ide.Json.{Value, Dict, get, holds_text}
use imece_ide.Run.Events.{RunEvent}
use imece_ide.Run.Completion.Kinds.{
  is_execution_lifecycle, is_verification_started, is_verification_terminal,
  is_verification_interrupted, is_execution_completed, is_execution_started, is_review_started,
  is_review_terminal, is_review_completed, is_fix_loop_started, is_fix_loop_terminal,
  is_fix_loop_failure,
}

-- [event for event in events if …][-1], where there is one
unfoldable pub last_where : (RunEvent → Bool) → List RunEvent → Option RunEvent
last_where p [] = none
last_where p (e ∷ es) = elim (last_where p es) [
  | some x ↦ some x
  | none ↦ if p e then some e else none
]

abbrev pub required : Option RunEvent → Result RunEvent
required none = err run_completion
required (some e) = ok e

unfoldable pub latest_verification_start : List RunEvent → Result RunEvent
unfolding last_where
latest_verification_start es = required (last_where (λ e. is_verification_started e.type) es)

unfoldable pub verification_terminal : List RunEvent → RunEvent → String → Result RunEvent
unfolding last_where
verification_terminal es start id = required (
    last_where
      (λ e.
        leb start.seq e.seq
        && (holds_text "verification_id" e.payload id && is_verification_terminal e.type))
      es)

unfoldable pub latest_execution_lifecycle_before : List RunEvent → ℕ → Option RunEvent
unfolding last_where
latest_execution_lifecycle_before es seq =
    last_where (λ e. ltb e.seq seq && is_execution_lifecycle e.type) es

unfoldable pub has_newer_execution_activity : List RunEvent → ℕ → Bool
has_newer_execution_activity es seq = any (λ e. ltb seq e.seq && is_execution_lifecycle e.type) es

unfoldable pub require_latest_verification : List RunEvent → String → Result (RunEvent × RunEvent)
unfolding latest_verification_start verification_terminal
require_latest_verification es id = do
  refuse (str_eq id "") run_completion
  start ← latest_verification_start es
  guard (holds_text "verification_id" start.payload id) run_completion
  terminal ← verification_terminal es start id
  refuse (is_verification_interrupted terminal.type) run_completion
  ok (start, terminal)

-- `if not execution.execution_id: raise`
unfoldable pub execution_id_of : RunEvent → Result String
execution_id_of e = elim e.execution_id [
  | none ↦ err run_completion
  | some x ↦ if str_eq x "" then err run_completion else ok x
]

-- The checks that `complete_verified` and `complete_reviewed` make of the latest verification: it
-- passed, on a settled execution, and no execution has moved since.
unfoldable pub settled_execution : List RunEvent → RunEvent → RunEvent → Result String
unfolding latest_execution_lifecycle_before
settled_execution es start terminal = do
  guard (holds_text "status" terminal.payload "pass") run_completion
  refuse (has_newer_execution_activity es start.seq) run_completion
  execution ← required (latest_execution_lifecycle_before es start.seq)
  guard (is_execution_completed execution.type) run_completion
  execution_id_of execution

unfoldable pub verified_execution : List RunEvent → String → Result (RunEvent × String)
verified_execution es id = do
  (start, terminal) ← require_latest_verification es id
  execution_id ← settled_execution es start terminal
  ok (terminal, execution_id)

unfoldable pub review_terminal : List RunEvent → RunEvent → String → Result RunEvent
unfolding last_where
review_terminal es start id = required (
    last_where
      (λ e.
        leb start.seq e.seq && (holds_text "review_id" e.payload id && is_review_terminal e.type))
      es)

unfoldable pub require_latest_review : List RunEvent → String → Result (RunEvent × RunEvent)
unfolding last_where review_terminal
require_latest_review es id = do
  refuse (str_eq id "") run_completion
  start ← required (last_where (λ e. is_review_started e.type) es)
  guard (holds_text "review_id" start.payload id) run_completion
  terminal ← review_terminal es start id
  ok (start, terminal)

-- The rest of the checks of `complete_reviewed`.
unfoldable pub approved_review :
    List RunEvent → String → String → String → RunEvent → Result (Unit {0})
unfolding require_latest_review
approved_review es verification_id review_id diff terminal = do
  (start, review) ← require_latest_review es review_id
  refuse (leb start.seq terminal.seq) run_completion
  guard (is_review_completed review.type) run_completion
  guard (holds_text "verdict" review.payload "APPROVED") run_completion
  guard (holds_text "verification_id" review.payload verification_id) run_completion
  guard (holds_text "verification_status" review.payload "pass") run_completion
  guard (holds_text "diff_sha256" review.payload diff) run_completion

-- _bounded_message
unfoldable pub bounded_message : Option Value → String → String
unfolding drop_nul take_text
bounded_message v fallback = elim v [
  | some (Value.str s) ↦ if str_eq s "" then fallback else take_text 2000 (drop_nul s)
  | _ ↦ fallback
]

-- event.execution_id == execution_id
abbrev pub same_id : Option String → String → Bool
same_id none id = false
same_id (some x) id = str_eq x id

-- payload.get("message", payload.get("error_message"))
unfoldable pub failure_message : Dict → Option Value
failure_message d = elim (get "message" d) [ some v ↦ some v | none ↦ get "error_message" d ]

-- The error code, the message and the status of a verification that may fail a run.
unfoldable pub error_status : Dict → Result (String × String × String)
error_status d =
    if holds_text "status" d "fail"
    then ok ("verification_fail", "Verification failed.", "fail")
    else if holds_text "status" d "timeout"
    then ok ("verification_timeout", "Verification timed out.", "timeout")
    else if holds_text "status" d "error"
    then ok ("verification_error", "Verification produced an error.", "error")
    else err run_completion

abbrev pub is_unsettled : Option RunEvent → Bool
is_unsettled none = false
is_unsettled (some e) = is_execution_started e.type

-- The checks of `fail_fix_loop`: the latest loop ended exhausted or failed, and nothing ran since.
unfoldable pub failed_fix_loop : List RunEvent → String → Result RunEvent
unfolding last_where has_newer_execution_activity
failed_fix_loop es id = do
  refuse (str_eq id "") run_completion
  start ← required (last_where (λ e. is_fix_loop_started e.type) es)
  guard (holds_text "fix_loop_id" start.payload id) run_completion
  terminal ← required (
      last_where
        (λ e.
          leb start.seq e.seq
          && (holds_text "fix_loop_id" e.payload id && is_fix_loop_terminal e.type))
        es)
  guard (is_fix_loop_failure terminal.type) run_completion
  refuse (has_newer_execution_activity es terminal.seq) run_completion
  ok terminal

-- reason if isinstance(reason, str) else None
abbrev pub text_or_null : Option Value → Value
text_or_null (some (Value.str s)) = Value.str s
text_or_null _ = Value.null
