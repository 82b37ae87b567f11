-- ===== src/Decision/Examples.antt =====
-- The theorems of the triage at concrete answers.
use imece_ide.Base.{◌≤◌, false, ◌≡◌, refl, some, [], ◌∷◌}
use imece_ide.Json.{pos}
use imece_ide.Verification.Models.{VerificationStatus, ProcessResult, VerificationCheck, has_code}
use imece_ide.Verification.Runner.{classify}
use imece_ide.Decision.Triage.{
  DecisionPolicy, TriageAction, TriageAnswer, triage, band, decide_triage_action,
  guard_pre_existing, failure_kind_of, action_of, baseline_status, status_text, triage-baseline,
}

-- 0.9 and 0.5
abbrev sample_policy : DecisionPolicy
sample_policy = record {
  act_threshold = 0x3feccccccccccccd;
  escalate_threshold = 0x3fe0000000000000;
}

abbrev sample_check : VerificationCheck
sample_check = record {
  check_id = "a";
  name = "check";
  request = record { argv = []; timeout_ms = 1000 };
  pass_exit_codes = pos 0 ∷ [];
  error_exit_codes = [];
}

abbrev failed_before : ProcessResult
failed_before = record { exit_code = some (pos 1); timed_out = false; stdout = ""; stderr = "" }

abbrev sure : TriageAnswer
sure = record { choice = "unrelated_preexisting"; confidence = 0x3fefae147ae147ae }

marked :
    (triage sample_policy sample_check (some failed_before) sure).action
    ≡ TriageAction.mark_pre_existing
unfolding triage guard_pre_existing decide_triage_action band failure_kind_of action_of
    baseline_status status_text classify has_code
marked = refl

triage-baseline_example :
    (sample_policy.act_threshold ≤ sure.confidence)
    × ((p : ProcessResult) × (some failed_before ≡ some p)
        × (classify sample_check p ≡ VerificationStatus.fail))
triage-baseline_example =
    triage-baseline sample_policy sample_check (some failed_before) sure marked
