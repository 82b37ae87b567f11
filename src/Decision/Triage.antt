-- ===== src/Decision/Triage.antt =====
-- decision_runtime/policy.py, the action table of triage.py and the guard of gate.py. A confidence is
-- a float from 0.0 to 1.0, kept as the number of its bits: non-negative floats are ordered as these.
use imece_ide.Base.{
  ℕ, ◌≤◌, String, Bool, true, false, ltb, leb, if◌then◌else◌, str_eq, ◌≡◌, refl, Option, none, some,
  Result, ◌>>◌, guard, refuse, decision_input, arith,
}
use imece_ide.Verification.Models.{VerificationStatus, VerificationCheck, ProcessResult}
use imece_ide.Verification.Runner.{classify}

pub data FailureKind : Type 0 where
  code_bug test_needs_update missing_dependency environment_or_tooling : FailureKind
  flaky_or_timeout unrelated_preexisting : FailureKind

pub data TriageAction : Type 0 where
  continue_fix_loop needs_user rerun_verification_once mark_pre_existing : TriageAction

pub data ConfidenceBand : Type 0 where
  act confirm escalate : ConfidenceBand

pub record DecisionPolicy : Type 0 where
  pub act_threshold : ℕ
  pub escalate_threshold : ℕ

-- The bits of 1.0.
abbrev pub float_one : ℕ
float_one = 0x3ff0000000000000

-- DecisionPolicy.__post_init__
unfoldable pub validate_policy : DecisionPolicy → Result (Unit {0})
validate_policy p = do
  guard (leb p.act_threshold float_one) decision_input
  guard (leb p.escalate_threshold float_one) decision_input
  refuse (ltb p.act_threshold p.escalate_threshold) decision_input

-- DecisionPolicy.band
unfoldable pub band : DecisionPolicy → ℕ → ConfidenceBand
band p confidence =
    if leb p.act_threshold confidence
    then ConfidenceBand.act
    else if ltb confidence p.escalate_threshold
    then ConfidenceBand.escalate
    else ConfidenceBand.confirm

-- FailureKind(failure_kind)
unfoldable pub failure_kind_of : String → Option FailureKind
failure_kind_of s =
    if str_eq s "code_bug"
    then some FailureKind.code_bug
    else if str_eq s "test_needs_update"
    then some FailureKind.test_needs_update
    else if str_eq s "missing_dependency"
    then some FailureKind.missing_dependency
    else if str_eq s "environment_or_tooling"
    then some FailureKind.environment_or_tooling
    else if str_eq s "flaky_or_timeout"
    then some FailureKind.flaky_or_timeout
    else if str_eq s "unrelated_preexisting"
    then some FailureKind.unrelated_preexisting
    else none

-- The answer to the question `failure_kind` of a DecisionResult.
pub record TriageAnswer : Type 0 where
  pub choice : String
  pub confidence : ℕ

pub record TriageOutcome : Type 0 where
  pub action : TriageAction
  pub failure_kind : String
  pub confidence : ℕ
  pub needs_user_message : Option String

abbrev outcome : TriageAnswer → TriageAction → Option String → TriageOutcome
outcome a action message = record {
  action = action;
  failure_kind = a.choice;
  confidence = a.confidence;
  needs_user_message = message;
}

-- _NEEDS_USER_MESSAGES
unfoldable pub needs_user_message_of : FailureKind → Option String
needs_user_message_of FailureKind.missing_dependency =
    some
      "Doğrulama adımı gerekli bir bağımlılık eksik olduğu için başarısız oldu. Lütfen projenin bağımlılıklarını kurup tekrar deneyin."
needs_user_message_of FailureKind.environment_or_tooling =
    some
      "Doğrulama adımı ortam/araç sorunu nedeniyle çalıştırılamadı (ör. eksik komut, yanlış PATH veya çalışmayan bir servis). Lütfen ortamınızı kontrol edin."
needs_user_message_of _ = none

-- The action of a kind that the policy is sure of.
unfoldable pub action_of : FailureKind → TriageAction
action_of FailureKind.missing_dependency = TriageAction.needs_user
action_of FailureKind.environment_or_tooling = TriageAction.needs_user
action_of FailureKind.flaky_or_timeout = TriageAction.rerun_verification_once
action_of FailureKind.unrelated_preexisting = TriageAction.mark_pre_existing
action_of _ = TriageAction.continue_fix_loop

abbrev is_act : ConfidenceBand → Bool
is_act ConfidenceBand.act = true
is_act _ = false

unfoldable pub decide_triage_action : TriageAnswer → DecisionPolicy → TriageOutcome
decide_triage_action a policy =
    if is_act (band policy a.confidence)
    then elim (failure_kind_of a.choice) [
      | none ↦ outcome a TriageAction.continue_fix_loop none
      | some kind ↦ outcome a (action_of kind) (needs_user_message_of kind)
    ]
    else outcome a TriageAction.continue_fix_loop none

-- VerificationStatus.value
unfoldable pub status_text : VerificationStatus → String
status_text VerificationStatus.pass = "pass"
status_text VerificationStatus.fail = "fail"
status_text VerificationStatus.timeout = "timeout"
status_text VerificationStatus.error = "error"

-- _baseline_status, its first component
unfoldable pub baseline_status : VerificationCheck → Option ProcessResult → Option String
baseline_status c none = none
baseline_status c (some p) =
    if p.timed_out then some "timeout" else some (status_text (classify c p))

abbrev is_mark : TriageAction → Bool
is_mark TriageAction.mark_pre_existing = true
is_mark _ = false

abbrev is_fail : Option String → Bool
is_fail none = false
is_fail (some s) = str_eq s "fail"

-- _guard_pre_existing
unfoldable pub guard_pre_existing : TriageOutcome → Option String → TriageOutcome
guard_pre_existing o baseline =
    if is_mark o.action
    then (if is_fail baseline then o else record o { action = TriageAction.continue_fix_loop })
    else o

-- The end of VerificationFailureGate.evaluate: the action of an answer, under the guard.
unfoldable pub triage :
    DecisionPolicy → VerificationCheck → Option ProcessResult → TriageAnswer → TriageOutcome
triage policy c baseline a =
    guard_pre_existing (decide_triage_action a policy) (baseline_status c baseline)

text_fail :
    (st : VerificationStatus) → str_eq (status_text st) "fail" ≡ true → st ≡ VerificationStatus.fail
unfolding status_text
text_fail VerificationStatus.fail h = refl
text_fail VerificationStatus.pass h = cc
text_fail VerificationStatus.timeout h = cc
text_fail VerificationStatus.error h = cc

baseline_fail :
    (c : VerificationCheck) (baseline : Option ProcessResult)
    → is_fail (baseline_status c baseline) ≡ true
    → (p : ProcessResult) × (baseline ≡ some p) × (classify c p ≡ VerificationStatus.fail)
unfolding baseline_status
baseline_fail c none h = absurd (ground arith)
baseline_fail c (some p) h = (p, refl, text_fail (classify c p) (ground arith))

-- A failure is marked as pre-existing only when the same check failed on the baseline, whatever the
-- model answered, and only with a confidence that the policy acts on.
pub triage-baseline :
    (policy : DecisionPolicy) (c : VerificationCheck) (baseline : Option ProcessResult)
    (a : TriageAnswer)
    → (triage policy c baseline a).action ≡ TriageAction.mark_pre_existing
    → (policy.act_threshold ≤ a.confidence)
      × ((p : ProcessResult) × (baseline ≡ some p) × (classify c p ≡ VerificationStatus.fail))
unfolding triage guard_pre_existing decide_triage_action band
triage-baseline policy c baseline a h = (ground arith, baseline_fail c baseline (ground arith))
