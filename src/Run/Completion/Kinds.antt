-- ===== src/Run/Completion/Kinds.antt =====
-- The sets of event types that run_runtime/completion.py tests for.
use imece_ide.Base.{Bool, true, false}
use imece_ide.Run.Events.{RunEventType}

unfoldable pub is_execution_lifecycle : RunEventType → Bool
is_execution_lifecycle RunEventType.execution_started = true
is_execution_lifecycle RunEventType.execution_completed = true
is_execution_lifecycle RunEventType.execution_failed = true
is_execution_lifecycle _ = false

unfoldable pub is_verification_started : RunEventType → Bool
is_verification_started RunEventType.verification_started = true
is_verification_started _ = false

unfoldable pub is_verification_terminal : RunEventType → Bool
is_verification_terminal RunEventType.verification_completed = true
is_verification_terminal RunEventType.verification_interrupted = true
is_verification_terminal _ = false

unfoldable pub is_verification_completed : RunEventType → Bool
is_verification_completed RunEventType.verification_completed = true
is_verification_completed _ = false

unfoldable pub is_verification_interrupted : RunEventType → Bool
is_verification_interrupted RunEventType.verification_interrupted = true
is_verification_interrupted _ = false

unfoldable pub is_execution_completed : RunEventType → Bool
is_execution_completed RunEventType.execution_completed = true
is_execution_completed _ = false

unfoldable pub is_execution_started : RunEventType → Bool
is_execution_started RunEventType.execution_started = true
is_execution_started _ = false

unfoldable pub is_execution_failed : RunEventType → Bool
is_execution_failed RunEventType.execution_failed = true
is_execution_failed _ = false

unfoldable pub is_review_started : RunEventType → Bool
is_review_started RunEventType.review_started = true
is_review_started _ = false

unfoldable pub is_review_terminal : RunEventType → Bool
is_review_terminal RunEventType.review_completed = true
is_review_terminal RunEventType.review_failed = true
is_review_terminal RunEventType.review_interrupted = true
is_review_terminal _ = false

unfoldable pub is_review_completed : RunEventType → Bool
is_review_completed RunEventType.review_completed = true
is_review_completed _ = false

unfoldable pub is_fix_loop_started : RunEventType → Bool
is_fix_loop_started RunEventType.fix_loop_started = true
is_fix_loop_started _ = false

-- _FIX_LOOP_TERMINAL_TYPES
unfoldable pub is_fix_loop_terminal : RunEventType → Bool
is_fix_loop_terminal RunEventType.fix_loop_completed = true
is_fix_loop_terminal RunEventType.fix_loop_exhausted = true
is_fix_loop_terminal RunEventType.fix_loop_failed = true
is_fix_loop_terminal RunEventType.fix_loop_interrupted = true
is_fix_loop_terminal _ = false

unfoldable pub is_fix_loop_exhausted : RunEventType → Bool
is_fix_loop_exhausted RunEventType.fix_loop_exhausted = true
is_fix_loop_exhausted _ = false

-- _FIX_LOOP_FAILURE_TYPES
unfoldable pub is_fix_loop_failure : RunEventType → Bool
is_fix_loop_failure RunEventType.fix_loop_exhausted = true
is_fix_loop_failure RunEventType.fix_loop_failed = true
is_fix_loop_failure _ = false
