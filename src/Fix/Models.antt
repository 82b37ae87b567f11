-- ===== src/Fix/Models.antt =====
-- fix_runtime/models.py: triggers, requests and reports of the fix loop.
use imece_ide.Base.{
  ℕ, String, Bool, true, false, leb, str_eq, Option, none, some, List, Result, ok, err, ◌>>=◌, ◌>>◌,
  guard, is_bounded_text, is_sha256, fix_loop_input,
}
use imece_ide.Verification.Models.{
  VerificationStatus, VerificationPlan, VerificationReport, report_status, same_status,
}
use imece_ide.Review.{ReviewVerdict, ReviewReport}

pub data FixTriggerKind : Type 0 where
  verification_fail review_needs_fix user_feedback : FixTriggerKind

unfoldable pub kind_text : FixTriggerKind → String
kind_text FixTriggerKind.verification_fail = "verification_fail"
kind_text FixTriggerKind.review_needs_fix = "review_needs_fix"
kind_text FixTriggerKind.user_feedback = "user_feedback"

pub data FixLoopStatus : Type 0 where
  completed exhausted failed needs_user : FixLoopStatus

pub record FixTrigger : Type 0 where
  pub kind : FixTriggerKind
  pub verification_report : Option VerificationReport
  pub review_report : Option ReviewReport
  pub feedback : Option String
  pub diff_sha256 : Option String

abbrev pub is_none {ℓ} : {A : Type ℓ} → Option A → Bool
is_none none = true
is_none (some _) = false

abbrev pub is_needs_fix : ReviewVerdict → Bool
is_needs_fix ReviewVerdict.needs_fix = true
is_needs_fix ReviewVerdict.approved = false

-- value == text, where the value may be None
abbrev pub is_text : Option String → String → Bool
is_text none s = false
is_text (some x) s = str_eq x s

-- A report, or FixLoopInputError.
abbrev pub given {ℓ} : {A : Type ℓ} → Option A → Result A
given none = err fix_loop_input
given (some a) = ok a

check_verification_fail : FixTrigger → Result FixTrigger
check_verification_fail t = do
  report ← given t.verification_report
  guard (same_status VerificationStatus.fail (report_status report)) fix_loop_input
  guard (is_none t.review_report) fix_loop_input
  guard (is_none t.feedback) fix_loop_input
  guard (is_none t.diff_sha256) fix_loop_input
  ok t

check_review_needs_fix : FixTrigger → Result FixTrigger
check_review_needs_fix t = do
  report ← given t.verification_report
  guard (same_status VerificationStatus.pass (report_status report)) fix_loop_input
  review ← given t.review_report
  guard (is_needs_fix review.verdict) fix_loop_input
  guard (is_text review.verification_id report.verification_id) fix_loop_input
  guard (is_text review.verification_status "pass") fix_loop_input
  guard (is_none t.feedback) fix_loop_input
  guard (is_none t.diff_sha256) fix_loop_input
  ok t

check_user_feedback : FixTrigger → Result FixTrigger
check_user_feedback t = do
  feedback ← given t.feedback
  guard (is_bounded_text 8000 false feedback) fix_loop_input
  diff ← given t.diff_sha256
  guard (is_sha256 diff) fix_loop_input
  ok t

-- FixTrigger.__post_init__, by the kind
check_trigger : FixTriggerKind → FixTrigger → Result FixTrigger
check_trigger FixTriggerKind.verification_fail t = check_verification_fail t
check_trigger FixTriggerKind.review_needs_fix t = check_review_needs_fix t
check_trigger FixTriggerKind.user_feedback t = check_user_feedback t

unfoldable pub make_trigger : FixTrigger → Result FixTrigger
unfolding check_trigger check_verification_fail check_review_needs_fix check_user_feedback
make_trigger t = check_trigger t.kind t

-- FixWorkerRequest; the context of a later rendering is not modelled.
pub record FixWorkerRequest : Type 0 where
  pub task : String
  pub trigger : FixTrigger
  pub attempt_index : ℕ
  pub rendered_input : String
  pub plan : Option String

abbrev optional_plan : Option String → Bool
optional_plan none = true
optional_plan (some s) = is_bounded_text 64000 true s

-- MAX_FIX_INPUT_CHARS of fix_runtime/prompt.py
abbrev pub max_fix_input_chars : ℕ
max_fix_input_chars = 48000

-- FixWorkerRequest.__post_init__
unfoldable pub make_worker_request : FixWorkerRequest → Result FixWorkerRequest
make_worker_request r = do
  guard (is_bounded_text 32000 false r.task) fix_loop_input
  guard (leb 1 r.attempt_index) fix_loop_input
  guard (is_bounded_text max_fix_input_chars false r.rendered_input) fix_loop_input
  guard (optional_plan r.plan) fix_loop_input
  ok r

-- InitialWorkerRequest; the context of a later rendering is not modelled.
pub record InitialWorkerRequest : Type 0 where
  pub task : String
  pub rendered_input : String
  pub plan : Option String

-- InitialWorkerRequest.__post_init__
unfoldable pub make_initial_request : InitialWorkerRequest → Result InitialWorkerRequest
make_initial_request r = do
  guard (is_bounded_text 32000 false r.task) fix_loop_input
  guard (is_bounded_text max_fix_input_chars false r.rendered_input) fix_loop_input
  guard (optional_plan r.plan) fix_loop_input
  ok r

pub record FixLoopRequest : Type 0 where
  pub task : String
  pub trigger : FixTrigger
  pub verification_plan : VerificationPlan
  pub plan : Option String
  pub max_fix_attempts : ℕ
  pub review_task : Option String
  pub pinned_paths : List String

abbrev optional_task : Option String → Bool
optional_task none = true
optional_task (some s) = is_bounded_text 32000 false s

-- FixLoopRequest.__post_init__
unfoldable pub make_request : FixLoopRequest → Result FixLoopRequest
make_request r = do
  guard (is_bounded_text 32000 false r.task) fix_loop_input
  guard (optional_plan r.plan) fix_loop_input
  guard (optional_task r.review_task) fix_loop_input
  guard (leb 1 r.max_fix_attempts) fix_loop_input
  guard (leb r.max_fix_attempts 5) fix_loop_input
  ok r

pub record FixLoopReport : Type 0 where
  pub fix_loop_id : String
  pub status : FixLoopStatus
  pub attempts_used : ℕ
  pub reason : String
  pub final_execution_id : Option String
  pub verification_report : Option VerificationReport
  pub review_report : Option ReviewReport
  pub diff_sha256 : Option String
  pub needs_user_message : Option String
