-- ===== src/Verification/Examples.antt =====
-- The theorems of verification_runtime at concrete inputs.
use imece_ide.Base.{
  ℕ, ◌==◌, if◌then◌else◌, String, true, false, ◌≡◌, ◌↔◌, refl, some, [], ◌∷◌, ok, is_stable_id,
  is_blank, is_space, has_nul,
}
use imece_ide.Json.{ℤ, pos}
use imece_ide.Run.Samples.{from_ok}
use imece_ide.Verification.Models.{
  VerificationStatus, ProcessResult, VerificationCheck, VerificationPlan, VerificationReport,
  report_status, has_code, make_result, make_report, check_evidence, is_name, is_error_type,
  is_error_message,
}
use imece_ide.Verification.Runner.{
  classify, VerificationPorts, started, completed, finished, process_error, run_plan, run_checks,
  run_check, check_outcome,
}
use imece_ide.Verification.Status.{severity, worst, report_status-worst, classify_iff}
use imece_ide.Verification.Results.{AreResultsOf, run_plan-AreResultsOf}

abbrev check_named : String → VerificationCheck
check_named id = record {
  check_id = id;
  name = "check";
  request = record { argv = id ∷ []; timeout_ms = 1000 };
  pass_exit_codes = pos 0 ∷ [];
  error_exit_codes = pos 2 ∷ [];
}

abbrev exited : ℕ → ProcessResult
exited n = record { exit_code = some (pos n); timed_out = false; stdout = ""; stderr = "" }

abbrev sample_plan : VerificationPlan
sample_plan = record { plan_id = "p"; checks = check_named "a" ∷ check_named "b" ∷ [] }

-- The first process exits with 1, the second cannot be run.
abbrev sample_ports : VerificationPorts ℕ
sample_ports = record {
  run_process = λ request n.
      if n == 0 then (finished (exited 1), 1) else (process_error "ProcessStartError" "no", 2);
  emit = λ e n. ok n;
  monotonic_ms = λ n. n;
}

abbrev sample_report : VerificationReport
sample_report =
    (from_ok (record { verification_id = ""; plan_id = ""; results = []; duration_ms = 0 }, 0)
      (run_plan sample_ports "v" sample_plan 0)).0

ran : run_plan sample_ports "v" sample_plan 0 ≡ ok (sample_report, 2)
unfolding run_plan is_stable_id run_checks run_check check_outcome make_result is_name is_blank
    is_space check_evidence classify has_code is_error_type has_nul is_error_message make_report
ran = refl

run_plan-AreResultsOf_example :
    (sample_report.verification_id ≡ "v")
    × (sample_report.plan_id ≡ "p")
    × (first : ℕ) × (last : ℕ) × (sample_ports.emit (started "v" "p" 2) 0 ≡ ok first)
    × AreResultsOf sample_ports "v" sample_plan.checks sample_report.results first last
    × (sample_ports.emit (completed "v" sample_report) last ≡ ok 2)
run_plan-AreResultsOf_example =
    run_plan-AreResultsOf sample_ports "v" sample_plan 0 2 sample_report ran

report_status-worst_example : severity (report_status sample_report) ≡ worst sample_report.results
report_status-worst_example = report_status-worst sample_report

classify_iff_example : (classify (check_named "a") (exited 0) ≡ VerificationStatus.pass) ↔ (
    ((exited 0).timed_out ≡ false)
    × ((code : ℤ) × ((exited 0).exit_code ≡ some code)
        × (has_code code (check_named "a").pass_exit_codes ≡ true)))
classify_iff_example = classify_iff (check_named "a") (exited 0)
