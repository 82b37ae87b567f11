-- ===== src/Review.antt =====
-- review_runtime/models.py: the report that a reviewer's decision becomes, and the request of a review.
use imece_ide.Base.{
  ℕ, String, Bool, true, false, ltb, Option, none, some, List, [], ◌∷◌, length, Result, ok, ◌>>◌,
  guard, refuse, is_stable_id, is_bounded_text, is_sha256, review_input,
}
use imece_ide.Verification.Models.{VerificationReport}

pub data ReviewVerdict : Type 0 where
  approved needs_fix : ReviewVerdict

pub data ReviewSeverity : Type 0 where
  blocker major minor : ReviewSeverity

pub record ReviewFinding : Type 0 where
  pub severity : ReviewSeverity
  pub message : String
  pub path : Option String
  pub start_line : Option ℕ
  pub end_line : Option ℕ

pub record ReviewReport : Type 0 where
  pub review_id : String
  pub verdict : ReviewVerdict
  pub summary : String
  pub findings : List ReviewFinding
  pub repository_fingerprint : String
  pub diff_sha256 : String
  pub verification_id : Option String
  pub verification_status : Option String

-- An APPROVED report has no findings, and a NEEDS_FIX report has some.
unfoldable pub verdict_fits : ReviewVerdict → List ReviewFinding → Bool
verdict_fits ReviewVerdict.approved [] = true
verdict_fits ReviewVerdict.needs_fix (_ ∷ _) = true
verdict_fits _ _ = false

abbrev optional_id : Option String → Bool
optional_id none = true
optional_id (some id) = is_stable_id id

-- ReviewReport.__post_init__
unfoldable pub make_review_report : ReviewReport → Result ReviewReport
make_review_report r = do
  guard (is_stable_id r.review_id) review_input
  guard (is_bounded_text 4000 false r.summary) review_input
  refuse (ltb 32 (length r.findings)) review_input
  guard (verdict_fits r.verdict r.findings) review_input
  guard (is_sha256 r.repository_fingerprint) review_input
  guard (is_sha256 r.diff_sha256) review_input
  guard (optional_id r.verification_id) review_input
  ok r

pub record ReviewRequest : Type 0 where
  pub task : String
  pub diff : String
  pub plan : Option String
  pub verification_report : Option VerificationReport

abbrev optional_text : ℕ → Option String → Bool
optional_text n none = true
optional_text n (some s) = is_bounded_text n true s

-- ReviewRequest.__post_init__
unfoldable pub make_review_request : ReviewRequest → Result ReviewRequest
make_review_request r = do
  guard (is_bounded_text 32000 false r.task) review_input
  guard (is_bounded_text 200000 true r.diff) review_input
  guard (optional_text 64000 r.plan) review_input
  ok r
