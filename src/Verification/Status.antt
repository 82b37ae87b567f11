-- ===== src/Verification/Status.antt =====
-- What a verification report means: verification_runtime/models.py and runner.py.
use Prim.Native.Nat.{max}
use imece_ide.Base.{
  ℕ, ◌≤◌, true, false, ◌≡◌, ◌↔◌, inl, inr, some, List, [], ◌∷◌, Option-cases, arith,
}
use imece_ide.Json.{ℤ}
use imece_ide.Verification.Models.{
  VerificationStatus, ProcessResult, VerificationCheck, VerificationCheckResult, VerificationReport,
  has_code, has_status, report_status,
}
use imece_ide.Verification.Runner.{classify}

-- How bad a status is.
abbrev pub severity : VerificationStatus → ℕ
severity VerificationStatus.pass = 0
severity VerificationStatus.fail = 1
severity VerificationStatus.timeout = 2
severity VerificationStatus.error = 3

abbrev pub worst : List VerificationCheckResult → ℕ
worst [] = 0
worst (r ∷ rs) = max (severity r.status) (worst rs)

-- What the tests of a status say of the worst one.
worst_lem :
    (rs : List VerificationCheckResult)
    → (has_status VerificationStatus.error rs ≡ true ↔ worst rs ≡ 3)
      × (has_status VerificationStatus.timeout rs ≡ true → 2 ≤ worst rs)
      × (has_status VerificationStatus.fail rs ≡ true → 1 ≤ worst rs)
      × (worst rs ≤ 3)
      × (worst rs ≡ 2 → has_status VerificationStatus.timeout rs ≡ true)
      × (worst rs ≡ 1 → has_status VerificationStatus.fail rs ≡ true)
worst_lem [] = ground arith
worst_lem (r ∷ rs) =
    let rest = worst_lem rs in
    elim r.status [
      | VerificationStatus.pass ↦ ground arith
      | VerificationStatus.fail ↦ ground arith
      | VerificationStatus.timeout ↦ ground arith
      | VerificationStatus.error ↦ ground arith
    ]

-- The status of a report is the worst status of its checks: ERROR before TIMEOUT before FAIL before
-- PASS.
pub report_status-worst : (r : VerificationReport) → severity (report_status r) ≡ worst r.results
unfolding report_status
report_status-worst r = let all_tests = worst_lem r.results in ground arith

-- A check passes exactly when its process ended in time with one of the accepted exit codes.
pub classify_iff :
    (c : VerificationCheck) (p : ProcessResult)
    → (classify c p ≡ VerificationStatus.pass) ↔ (
        (p.timed_out ≡ false)
        × ((code : ℤ) × (p.exit_code ≡ some code) × (has_code code c.pass_exit_codes ≡ true)))
unfolding classify
classify_iff c p = elim (Option-cases p.exit_code) [
  | inl missing ↦ ground arith
  | inr (code, given) ↦ (
    λ h. (ground arith, (code, given, ground arith)),
    λ h. let (in_time, rest) = h in let (code2, same, accepted) = rest in ground arith,
  )
]
